-- ===== src/Logger/Calls.antt =====
-- src/logger.c: the logging calls, the level filter and the service loop.
use shogun_os.Base.{
  ℕ, zero, suc, ◌+◌, ◌-◌, Option, none, some, List, [], ◌∷◌, ◌++◌, ltb, leb, ◌==◌, if◌then◌else◌,
  codes,
}
use shogun_os.Number.{Text}
use shogun_os.Logger.{
  LogLevel, log_level_debug, log_level_info, log_level_warning, log_level_error, LogEntry,
  LogBuffer, Guard, logger_buffer_push, logger_buffer_pop, interrupt_guard_acquire,
  interrupt_guard_release,
}
use shogun_os.Logger.Format.{Arg, simple_format_string}

-- The static state of logger.c with the processor's interrupt flag.
pub record Log : Type 0 where
  pub log_buffer : LogBuffer
  pub default_level : LogLevel
  pub guard : Guard

abbrev pub max_log_message_length : ℕ
max_log_message_length = 256

abbrev pub module_size : ℕ
module_size = 64

-- The text that `logger_init` prints is not part of its result.
unfoldable pub logger_init : Log → Log
logger_init l = record l {
  log_buffer = record (l.log_buffer) { head = 0; tail = 0; count = 0 };
  default_level = log_level_info;
}

-- Neither call looks at the module.
unfoldable pub logger_get_module_level : Log → (origin : Text) → LogLevel
logger_get_module_level l origin = l.default_level

unfoldable pub logger_set_module_level : Log → (origin : Text) → LogLevel → Log
logger_set_module_level l origin level = record l { default_level = level }

-- `for (i = 0; i < sizeof(entry.module) - 1 && module[i] != '\\0'; i++)`
unfoldable pub copy_module : (i : ℕ) → Text → Text
copy_module i [] = []
copy_module i (c ∷ cs) =
    let rest = copy_module (i + 1) cs in if ltb i (module_size - 1) then c ∷ rest else []

-- From `interrupt_guard_acquire` to `interrupt_guard_release`; `none` is an undefined run.
unfoldable pub record_entry : Log → LogLevel → (origin format : Text) → List Arg → Option Log
record_entry l level origin format args =
    elim (simple_format_string max_log_message_length format args) [
      | none ↦ none
      | some message ↦ some (record {
        log_buffer =
            logger_buffer_push l.log_buffer
              (record { level = level; message = message; origin = copy_module 0 origin });
        default_level = l.default_level;
        guard = interrupt_guard_release (interrupt_guard_acquire l.guard);
      })
    ]

unfoldable pub logger_log : Log → LogLevel → (origin format : Text) → List Arg → Option Log
logger_log l level origin format args =
    if ltb level (logger_get_module_level l origin)
    then some l
    else record_entry l level origin format args

unfoldable pub logger_debug : Log → (origin format : Text) → List Arg → Option Log
logger_debug l origin format args =
    if leb (logger_get_module_level l origin) log_level_debug
    then record_entry l log_level_debug origin format args
    else some l

unfoldable pub logger_info : Log → (origin format : Text) → List Arg → Option Log
logger_info l origin format args =
    if leb (logger_get_module_level l origin) log_level_info
    then record_entry l log_level_info origin format args
    else some l

unfoldable pub logger_warning : Log → (origin format : Text) → List Arg → Option Log
logger_warning l origin format args =
    if leb (logger_get_module_level l origin) log_level_warning
    then record_entry l log_level_warning origin format args
    else some l

unfoldable pub logger_error : Log → (origin format : Text) → List Arg → Option Log
logger_error l origin format args =
    if leb (logger_get_module_level l origin) log_level_error
    then record_entry l log_level_error origin format args
    else some l

unfoldable pub log_level_to_string : LogLevel → Text
log_level_to_string level =
    if level == log_level_debug
    then codes "DEBUG"
    else if level == log_level_info
    then codes "INFO"
    else if level == log_level_warning
    then codes "WARNING"
    else if level == log_level_error
    then codes "ERROR"
    else codes "UNKNOWN"

-- What one round of `logger_service` prints.
unfoldable pub line_of : LogEntry → Text
line_of e =
    codes "["
    ++ (log_level_to_string e.level
        ++ (codes "] " ++ (e.origin ++ (codes ": " ++ (e.message ++ (b'\n' ∷ []))))))

-- `while (logger_buffer_pop(&entry)) …`: the lines that it prints and the buffer that it leaves.
-- `none` means that the fuel ran out.
unfoldable pub logger_service : ℕ → LogBuffer → (out : Text) → Option (Text × LogBuffer)
logger_service zero b out = none
logger_service (suc fuel) b out =
    let (popped, b') = logger_buffer_pop b in
    elim popped [ none ↦ some (out, b') | some e ↦ logger_service fuel b' (out ++ line_of e) ]
