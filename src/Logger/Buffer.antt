-- ===== src/Logger/Buffer.antt =====
-- The circular buffer of src/logger.c, against a queue of at most 64 entries.
use shogun_os.Base.{
  ℕ, zero, suc, ◌+◌, ◌-◌, ◌%◌, ◌≤◌, ◌<◌, ◌≡◌, refl, ap, ap₂, sym, ◌∙◌, Option, none, some, List, [],
  ◌∷◌, ◌++◌, inl, inr, Bool-cases, arith, leb, ◌==◌, if◌then◌else◌, get_or, set, length, length-set,
  get_or-set_self, get_or-set_ne,
}
use shogun_os.Logger.{
  LogEntry, LogBuffer, log_buffer_size, blank_entry, logger_buffer_is_full, logger_buffer_is_empty,
  logger_buffer_push, logger_buffer_pop, drop_oldest, append_entry,
}

pub record IsValid (b : LogBuffer) : Type 0 where
  pub size : length b.buffer ≡ log_buffer_size
  pub head_in : b.head < log_buffer_size
  pub count_in : b.count ≤ log_buffer_size
  pub tail_at : b.tail ≡ (b.head + b.count) % log_buffer_size

-- The `n` entries from index `h` on, going round at the end of the array.
abbrev pub entries_from : List LogEntry → ℕ → ℕ → List LogEntry
entries_from buffer h zero = []
entries_from buffer h (suc n) =
    get_or buffer h blank_entry ∷ entries_from buffer ((h + 1) % log_buffer_size) n

-- The queue that a buffer stands for, oldest entry first.
abbrev pub entries : LogBuffer → List LogEntry
entries b = entries_from b.buffer b.head b.count

-- A queue of at most 64 entries.
abbrev pub without_oldest : List LogEntry → List LogEntry
without_oldest [] = []
without_oldest (e ∷ q) = q

abbrev pub queue_push : List LogEntry → LogEntry → List LogEntry
queue_push q e = (if leb log_buffer_size (length q) then without_oldest q else q) ++ (e ∷ [])

abbrev pub queue_pop : List LogEntry → Option LogEntry × List LogEntry
queue_pop [] = (none, [])
queue_pop (e ∷ q) = (some e, q)

pub length-entries_from : (buffer : List LogEntry) (h n : ℕ) → length (entries_from buffer h n) ≡ n
length-entries_from buffer h zero = refl
length-entries_from buffer h (suc n) =
    ap suc (length-entries_from buffer ((h + 1) % log_buffer_size) n)

-- Writing the slot behind fewer than 64 entries appends to them.
entries_from-set :
    (buffer : List LogEntry) (e : LogEntry) (n h i : ℕ)
    → length buffer ≡ log_buffer_size
    → h < log_buffer_size
    → n < log_buffer_size
    → i ≡ (h + n) % log_buffer_size
    → entries_from (set buffer i e) h (suc n) ≡ entries_from buffer h n ++ (e ∷ [])
entries_from-set buffer e zero h i size hh hn at =
    let e' : i ≡ h = omega arith in
    ap (λ x. x ∷ []) (rw e' (get_or-set_self buffer h e blank_entry (omega arith)))
entries_from-set buffer e (suc n) h i size hh hn at =
    ap₂ ◌∷◌ (get_or-set_ne buffer i h e blank_entry (omega arith)) (
      entries_from-set buffer e n ((h + 1) % log_buffer_size) i size (omega arith) (omega arith)
        (omega arith))

append_entry-IsValid :
    {b : LogBuffer} (e : LogEntry)
    → IsValid b
    → b.count < log_buffer_size
    → IsValid (append_entry b e)
unfolding append_entry
append_entry-IsValid {b} e v room = record {
  size = length-set b.buffer b.tail e ∙ v.size;
  head_in = v.head_in;
  count_in = omega (arith, v);
  tail_at = omega (arith, v);
}

entries-append_entry :
    {b : LogBuffer} (e : LogEntry)
    → IsValid b
    → b.count < log_buffer_size
    → entries (append_entry b e) ≡ entries b ++ (e ∷ [])
unfolding append_entry
entries-append_entry {b} e v room =
    ap (entries_from (set b.buffer b.tail e) b.head) {y = suc b.count} (omega arith)
    ∙ entries_from-set b.buffer e b.count b.head b.tail v.size v.head_in room v.tail_at

drop_oldest-IsValid : {b : LogBuffer} → IsValid b → 0 < b.count → IsValid (drop_oldest b)
unfolding drop_oldest
drop_oldest-IsValid {b} v pos = record {
  size = v.size;
  head_in = omega (arith, v);
  count_in = omega (arith, v);
  tail_at = omega (arith, v);
}

entries_from_pos :
    (buffer : List LogEntry) (h n : ℕ)
    → 0 < n
    → entries_from buffer h n
      ≡ get_or buffer h blank_entry ∷ entries_from buffer ((h + 1) % log_buffer_size) (n - 1)
entries_from_pos buffer h zero pos = elim pos [ ]
entries_from_pos buffer h (suc n) pos =
    ap (λ k. get_or buffer h blank_entry ∷ entries_from buffer ((h + 1) % log_buffer_size) k)
      (omega arith)

entries-drop_oldest :
    {b : LogBuffer}
    → IsValid b
    → 0 < b.count
    → entries b ≡ get_or b.buffer b.head blank_entry ∷ entries (drop_oldest b)
unfolding drop_oldest
entries-drop_oldest {b} v pos =
    entries_from_pos b.buffer b.head b.count pos
    ∙ ap (λ l. get_or b.buffer b.head blank_entry ∷ l)
        (ap₂ (entries_from b.buffer) (omega (arith, v)) (omega (arith, v)))

drop_oldest_room :
    {b : LogBuffer} → IsValid b → 0 < b.count → (drop_oldest b).count < log_buffer_size
unfolding drop_oldest
drop_oldest_room v pos = omega (arith, v)

-- A push keeps a valid buffer valid, and is a push on its queue: a full buffer first loses its
-- oldest entry, and the new one comes last.
pub push_refines :
    {b : LogBuffer} (e : LogEntry)
    → IsValid b
    → IsValid (logger_buffer_push b e)
      × (entries (logger_buffer_push b e) ≡ queue_push (entries b) e)
unfolding logger_buffer_push logger_buffer_is_full
push_refines {b} e v = elim (Bool-cases (leb log_buffer_size b.count)) [
  | inr room ↦
      let lt : b.count < log_buffer_size = ground arith in
      rw (room, length-entries_from b.buffer b.head b.count, room)
        (append_entry-IsValid e v lt, entries-append_entry e v lt)
  | inl full ↦
      let pos : 0 < b.count = ground arith in
      let v' = drop_oldest-IsValid v pos in
      let lt : (drop_oldest b).count < log_buffer_size = drop_oldest_room v pos in
      rw (full, length-entries_from b.buffer b.head b.count, full)
        (
          append_entry-IsValid e v' lt,
          entries-append_entry e v' lt
              ∙ ap (λ q. q ++ (e ∷ [])) (sym (ap without_oldest (entries-drop_oldest v pos))),
        )
]

-- A pop keeps a valid buffer valid, and is a pop of its queue: the oldest entry, if there is one.
pub pop_refines :
    {b : LogBuffer}
    → IsValid b
    → IsValid (logger_buffer_pop b).1
      × (((logger_buffer_pop b).0, entries (logger_buffer_pop b).1) ≡ queue_pop (entries b))
unfolding logger_buffer_pop logger_buffer_is_empty
pop_refines {b} v = elim (Bool-cases (b.count == 0)) [
  | inl empty ↦
      let e : b.count ≡ 0 = ground arith in
      rw empty (
        v,
        ap (λ n. (none, entries_from b.buffer b.head n)) e
            ∙ sym (ap (λ n. queue_pop (entries_from b.buffer b.head n)) e),
      )
  | inr more ↦
      let pos : 0 < b.count = ground arith in
      rw more (drop_oldest-IsValid v pos, sym (ap queue_pop (entries-drop_oldest v pos)))
]
