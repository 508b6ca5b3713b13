-- ===== src/Tests/Logs.antt =====
-- The ring of log entries and the logging calls, from the zeroed storage on.
use shogun_os.Base.{
  ◌+◌, ◌-◌, ◌≤◌, ◌<◌, ◌≡◌, ◌⊎◌, refl, some, List, [], ◌∷◌, true, arith, take, replicate,
  length-replicate,
}
use shogun_os.Number.{Text}
use shogun_os.Logger.{
  LogEntry, LogBuffer, blank_entry, log_buffer_size, Guard, logger_buffer_push, logger_buffer_pop,
  log_level_info, log_level_warning,
}
use shogun_os.Logger.Format.{Arg, str, simple_format_string}
use shogun_os.Logger.Buffer.{IsValid, entries, queue_push, push_refines}
use shogun_os.Logger.Rendering.{render}
use shogun_os.Logger.Truncation.{simple_format_string_lem}
use shogun_os.Logger.Calls.{Log, logger_log, logger_service}
use shogun_os.Logger.Service.{Recorded, lines_of, logger_log_lem, logger_service_lem}

abbrev empty_buffer : LogBuffer
empty_buffer = record {
  buffer = replicate log_buffer_size blank_entry;
  head = 0;
  tail = 0;
  count = 0;
}

empty_buffer-IsValid : IsValid empty_buffer
empty_buffer-IsValid = record {
  size = length-replicate {A = LogEntry} log_buffer_size blank_entry;
  head_in = omega arith;
  count_in = omega arith;
  tail_at = refl;
}

abbrev started : LogEntry
started = record { level = log_level_info; message = b'u' ∷ b'p' ∷ []; origin = b'k' ∷ [] }

push_refines_example :
    IsValid (logger_buffer_push empty_buffer started)
    × (entries (logger_buffer_push empty_buffer started)
        ≡ queue_push (entries empty_buffer) started)
push_refines_example = push_refines {b = empty_buffer} started empty_buffer-IsValid

abbrev one_entry : LogBuffer
one_entry = logger_buffer_push empty_buffer started

one_entry-IsValid : IsValid one_entry
one_entry-IsValid = (push_refines {b = empty_buffer} started empty_buffer-IsValid).0

logger_service_lem_example :
    (b' : LogBuffer) × (logger_service (one_entry.count + 1) one_entry []
      ≡ some (lines_of (entries one_entry), b'))
    × IsValid b'
    × (entries b' ≡ [])
logger_service_lem_example = logger_service_lem one_entry one_entry-IsValid

-- `<%s>` and its argument.
abbrev format : Text
format = b'<' ∷ b'%' ∷ b's' ∷ b'>' ∷ []

abbrev args : List Arg
args = str (some (b'u' ∷ b'p' ∷ [])) ∷ []

abbrev message : Text
message = b'<' ∷ b'u' ∷ b'p' ∷ b'>' ∷ []

rendered : render format args ≡ some message
unfolding render shogun_os.Logger.Rendering.expand shogun_os.Logger.Rendering.expand_s
    shogun_os.Logger.Format.next_str
rendered = refl

simple_format_string_lem_example : simple_format_string 4 format args ≡ some (take (4 - 1) message)
simple_format_string_lem_example =
    simple_format_string_lem 4 format args message (omega arith) rendered

abbrev quiet_log : Log
quiet_log = record {
  log_buffer = empty_buffer;
  default_level = log_level_info;
  guard = record { interrupts_enabled = true; interrupt_guard_counter = 0 };
}

logger_log_lem_example :
    ((log_level_warning < quiet_log.default_level)
      × (logger_log quiet_log log_level_warning (b'k' ∷ []) format args ≡ some quiet_log))
    ⊎ ((quiet_log.default_level ≤ log_level_warning)
        × (l' : Log) × (logger_log quiet_log log_level_warning (b'k' ∷ []) format args ≡ some l')
        × Recorded quiet_log log_level_warning (b'k' ∷ []) message l')
logger_log_lem_example =
    logger_log_lem quiet_log log_level_warning (b'k' ∷ []) format args message empty_buffer-IsValid
      (omega arith) rendered
