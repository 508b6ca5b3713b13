-- ===== src/Logger.antt =====
-- src/logger.c and src/logger.h: the circular log buffer, the interrupt guard, the formatter and
-- the logging calls. The static state of the file is one record.
pub mod Buffer
pub mod Format
pub mod Rendering
pub mod Truncation
pub mod Calls
pub mod Service
use shogun_os.Base.{
  ℕ, ◌%◌, Bool, true, false, Option, none, some, List, [], leb, ◌==◌, if◌then◌else◌, get_or, set,
  add32, sub32,
}
use shogun_os.Number.{Text}

-- A value of the enumeration `LogLevel`, whose constants are 0 to 3.
abbrev pub LogLevel : Type 0
LogLevel = ℕ

abbrev pub log_level_debug : LogLevel
log_level_debug = 0

abbrev pub log_level_info : LogLevel
log_level_info = 1

abbrev pub log_level_warning : LogLevel
log_level_warning = 2

abbrev pub log_level_error : LogLevel
log_level_error = 3

-- The two character arrays hold texts, up to their NUL.
pub record LogEntry : Type 0 where
  pub level : LogLevel
  pub message : Text
  pub origin : Text

abbrev pub log_buffer_size : ℕ
log_buffer_size = 64

pub record LogBuffer : Type 0 where
  pub buffer : List LogEntry
  pub head : ℕ
  pub tail : ℕ
  pub count : ℕ

abbrev pub blank_entry : LogEntry
blank_entry = record { level = 0; message = []; origin = [] }

pub logger_buffer_is_full : LogBuffer → Bool
logger_buffer_is_full b = leb log_buffer_size b.count

pub logger_buffer_is_empty : LogBuffer → Bool
logger_buffer_is_empty b = b.count == 0

-- `head = (head + 1) % LOG_BUFFER_SIZE; count--;`, of both `logger_buffer_push` and
-- `logger_buffer_pop`.
drop_oldest : LogBuffer → LogBuffer
drop_oldest b = record b { head = add32 b.head 1 % log_buffer_size; count = sub32 b.count 1 }

append_entry : LogBuffer → LogEntry → LogBuffer
append_entry b entry = record b {
  buffer = set b.buffer b.tail entry;
  tail = add32 b.tail 1 % log_buffer_size;
  count = add32 b.count 1;
}

pub logger_buffer_push : LogBuffer → LogEntry → LogBuffer
logger_buffer_push b entry =
    append_entry (if logger_buffer_is_full b then drop_oldest b else b) entry

-- The entry that is copied out, if the call returns 1.
pub logger_buffer_pop : LogBuffer → Option LogEntry × LogBuffer
logger_buffer_pop b =
    if logger_buffer_is_empty b
    then (none, b)
    else (some (get_or b.buffer b.head blank_entry), drop_oldest b)

-- The processor's interrupt flag, and the counter of the guard.
pub record Guard : Type 0 where
  pub interrupts_enabled : Bool
  pub interrupt_guard_counter : ℕ

pub interrupt_guard_acquire : Guard → Guard
interrupt_guard_acquire g = record {
  interrupts_enabled = false;
  interrupt_guard_counter = add32 g.interrupt_guard_counter 1;
}

pub interrupt_guard_release : Guard → Guard
interrupt_guard_release g =
    let new_count = sub32 g.interrupt_guard_counter 1 in
    if new_count == 0
    then record { interrupts_enabled = true; interrupt_guard_counter = new_count }
    else record g { interrupt_guard_counter = new_count }
