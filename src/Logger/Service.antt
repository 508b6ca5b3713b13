-- ===== src/Logger/Service.antt =====
-- What the logging calls record, and what the service loop prints.
use shogun_os.Base.{
  ℕ, zero, suc, ◌+◌, ◌-◌, ◌^◌, ◌≤◌, ◌<◌, ◌≡◌, refl, ap, ◌∙◌, some, List, [], ◌∷◌, ◌++◌, append-nil,
  append_assoc, inl, inr, Bool-cases, ltb, ◌==◌, arith, length, take, lt→ltb, le→ltb, ltb→lt, ◌⊎◌,
}
use shogun_os.Number.{Text}
use shogun_os.Logger.{
  LogLevel, log_level_debug, log_level_info, log_level_warning, log_level_error, LogEntry,
  LogBuffer, Guard, interrupt_guard_acquire, interrupt_guard_release, logger_buffer_pop,
}
use shogun_os.Logger.Format.{Arg}
use shogun_os.Logger.Rendering.{render}
use shogun_os.Logger.Truncation.{simple_format_string_lem}
use shogun_os.Logger.Buffer.{
  IsValid, entries, queue_push, queue_pop, push_refines, pop_refines, length-entries_from,
}
use shogun_os.Logger.Calls.{
  Log, max_log_message_length, module_size, logger_get_module_level, copy_module, record_entry,
  logger_log, logger_debug, logger_info, logger_warning, logger_error, line_of, logger_service,
}

-- The four calls for one level are `logger_log` at that level.
pub logger_levels_agree :
    (l : Log) (origin format : Text) (args : List Arg)
    → (logger_debug l origin format args ≡ logger_log l log_level_debug origin format args)
      × (logger_info l origin format args ≡ logger_log l log_level_info origin format args)
      × (logger_warning l origin format args ≡ logger_log l log_level_warning origin format args)
      × (logger_error l origin format args ≡ logger_log l log_level_error origin format args)
unfolding logger_debug logger_info logger_warning logger_error logger_log logger_get_module_level
logger_levels_agree l origin format args = (ground arith, ground arith, ground arith, ground arith)

copy_module-take :
    (origin : Text) (i k : ℕ) → i + k ≡ module_size - 1 → copy_module i origin ≡ take k origin
unfolding copy_module
copy_module-take [] i zero e = refl
copy_module-take [] i (suc k) e = refl
copy_module-take (c ∷ cs) i zero e = rw (le→ltb i 63 (omega arith))
copy_module-take (c ∷ cs) i (suc k) e =
    rw (lt→ltb i 63 (omega arith)) (ap (λ s. c ∷ s) (copy_module-take cs (i + 1) k (omega arith)))

-- The guard counts: after a call the counter is as before, and interrupts are enabled exactly if
-- it is 0, whatever they were.
guard_balanced :
    (g : Guard)
    → g.interrupt_guard_counter + 1 < 2 ^ 32
    → ((interrupt_guard_release (interrupt_guard_acquire g)).interrupt_guard_counter
        ≡ g.interrupt_guard_counter)
      × ((interrupt_guard_release (interrupt_guard_acquire g)).interrupts_enabled
          ≡ (g.interrupt_guard_counter == 0))
unfolding interrupt_guard_acquire interrupt_guard_release
guard_balanced g h = (ground arith, ground arith)

-- The entry that a call records.
abbrev pub entry_for : LogLevel → (origin message : Text) → LogEntry
entry_for level origin message = record {
  level = level;
  message = take (max_log_message_length - 1) message;
  origin = take (module_size - 1) origin;
}

-- A call that the level admits.
pub record Recorded (l : Log) (level : LogLevel) (origin message : Text) (l' : Log) : Type 0 where
  pub valid : IsValid l'.log_buffer
  pub queued :
      entries l'.log_buffer ≡ queue_push (entries l.log_buffer) (entry_for level origin message)
  pub threshold : l'.default_level ≡ l.default_level
  pub balanced : l'.guard.interrupt_guard_counter ≡ l.guard.interrupt_guard_counter
  pub enabled : l'.guard.interrupts_enabled ≡ (l.guard.interrupt_guard_counter == 0)

record_entry_lem :
    (l : Log) (level : LogLevel) (origin format : Text) (args : List Arg) (message : Text)
    → IsValid l.log_buffer
    → l.guard.interrupt_guard_counter + 1 < 2 ^ 32
    → render format args ≡ some message
    → (l' : Log) × (record_entry l level origin format args ≡ some l')
      × Recorded l level origin message l'
unfolding record_entry
record_entry_lem l level origin format args message v room e =
    let (valid, queued) = push_refines (entry_for level origin message) v in
    let (balanced, enabled) = guard_balanced l.guard room in
    (
      _,
      rw (
        simple_format_string_lem max_log_message_length format args message (omega arith) e,
        record_entry,
        copy_module-take origin 0 (module_size - 1) refl,
      ),
      record {
        valid = valid;
        queued = queued;
        threshold = refl;
        balanced = balanced;
        enabled = enabled;
      },
    )

-- With a valid buffer, a guard counter that does not overflow, and a format whose rendering C
-- defines: a call below the level changes nothing; one at the level or above it appends one entry
-- with the rendered message and the module, each cut to its array, and drops the oldest entry of a
-- full buffer; the guard's counter is as before, and interrupts are enabled afterwards exactly if
-- that counter is 0, whatever the interrupt flag was.
pub logger_log_lem :
    (l : Log) (level : LogLevel) (origin format : Text) (args : List Arg) (message : Text)
    → IsValid l.log_buffer
    → l.guard.interrupt_guard_counter + 1 < 2 ^ 32
    → render format args ≡ some message
    → ((level < l.default_level) × (logger_log l level origin format args ≡ some l))
      ⊎ ((l.default_level ≤ level)
          × (l' : Log) × (logger_log l level origin format args ≡ some l')
          × Recorded l level origin message l')
unfolding logger_log logger_get_module_level
logger_log_lem l level origin format args message v room e =
    elim (Bool-cases (ltb level l.default_level)) [
      | inl below ↦ inl (ltb→lt level l.default_level below, rw below refl)
      | inr above ↦
          let (l', runs, recorded) = record_entry_lem l level origin format args message v room e in
          inr (ground arith, l', rw above runs, recorded)
    ]

-- The lines of a queue of entries.
pub lines_of : List LogEntry → Text
lines_of [] = []
lines_of (e ∷ es) = line_of e ++ lines_of es

service_step :
    (fuel : ℕ) (b : LogBuffer) (out : Text) (q : List LogEntry)
    → IsValid b
    → entries b ≡ q
    → length q < fuel
    → (b' : LogBuffer) × (logger_service fuel b out ≡ some (out ++ lines_of q, b'))
      × IsValid b'
      × (entries b' ≡ [])
unfolding logger_service lines_of
service_step zero b out q v e h = absurd (omega arith)
service_step (suc fuel) b out [] v e h =
    let (v', r) = pop_refines v in
    let r' = r ∙ ap queue_pop e in
    (
      (logger_buffer_pop b).1,
      rw (ap (λ p. p.0) r', logger_service, append-nil),
      v',
      ap (λ p. p.1) r',
    )
service_step (suc fuel) b out (x ∷ q) v e h =
    let (v', r) = pop_refines v in
    let r' = r ∙ ap queue_pop e in
    let (b', run, valid, empty) =
      service_step fuel (logger_buffer_pop b).1 (out ++ line_of x) q v' (ap (λ p. p.1) r')
        (omega arith) in
    (
      b',
      rw (ap (λ p. p.0) r', logger_service)
          (run ∙ ap (λ t. some (t, b')) (append_assoc out (line_of x) (lines_of q))),
      valid,
      empty,
    )

-- From a valid buffer, and with one round more than there are entries, `logger_service` ends,
-- prints the entries oldest first, and leaves the buffer valid and empty.
pub logger_service_lem :
    (b : LogBuffer)
    → IsValid b
    → (b' : LogBuffer) × (logger_service (b.count + 1) b [] ≡ some (lines_of (entries b), b'))
      × IsValid b'
      × (entries b' ≡ [])
logger_service_lem b v =
    service_step (b.count + 1) b [] (entries b) v refl
      (omega (arith, length-entries_from b.buffer b.head b.count))
