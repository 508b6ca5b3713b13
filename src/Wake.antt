-- ===== src/Wake.antt =====
-- src/rtc.c: the global tick counter and the wake-up list. A callback with its data is what it does
-- to the rest of the state, `S`. Whether `malloc` returned memory is an argument.
use shogun_os.Base.{
  ℕ, suc, ◌+◌, ◌≤◌, ◌<◌, ◌≡◌, refl, ap, ◌∙◌, Bool, true, false, Option, none, some, List, [], ◌∷◌,
  leb, length, if◌then◌else◌, Bool-cases, inl, inr, arith, add32, sub32, u32_mod,
}

pub record WakeUpEntry {ℓ} (S : Type ℓ) : Type ℓ where
  pub wake_up_tick : ℕ
  pub callback : Option (S → S)

pub record WakeUpList {ℓ} (S : Type ℓ) : Type ℓ where
  pub entries : List (WakeUpEntry S)
  pub entry_count : ℕ

-- The two global pointers, with what they point to.
pub record Clock {ℓ} (S : Type ℓ) : Type ℓ where
  pub monotonic_time : Option ℕ
  pub wake_up_list : Option (WakeUpList S)

module _ {ℓ} {S : Type ℓ} where
  unfoldable pub monotonic_time_init_global : (memory : Bool) → Clock S → Clock S
  monotonic_time_init_global memory c = elim (c.monotonic_time) [
    | none ↦ if memory then record c { monotonic_time = some 0 } else c
    | some t ↦ c
  ]

  unfoldable pub monotonic_time_get_ticks_global : Clock S → ℕ
  monotonic_time_get_ticks_global c = elim (c.monotonic_time) [ none ↦ 0 | some t ↦ t ]

  unfoldable pub monotonic_time_increment_global : Clock S → Clock S
  monotonic_time_increment_global c = elim (c.monotonic_time) [
    | none ↦ c
    | some t ↦ record c { monotonic_time = some (add32 t 1) }
  ]

  unfoldable pub wake_up_list_init : (memory : Bool) → Clock S → Clock S
  wake_up_list_init memory c = elim (c.wake_up_list) [
    | none ↦
        if memory
        then record c { wake_up_list = some (record { entries = []; entry_count = 0 }) }
        else c
    | some l ↦ c
  ]

  unfoldable pub wake_up_list_add :
      (memory : Bool) (wake_up_tick : ℕ) (callback : Option (S → S)) → Clock S → Clock S
  wake_up_list_add memory wake_up_tick callback c = elim (c.wake_up_list) [
    | none ↦ c
    | some l ↦
        if memory
        then record c {
          wake_up_list = some (record {
            entries = record { wake_up_tick = wake_up_tick; callback = callback } ∷ l.entries;
            entry_count = add32 l.entry_count 1;
          });
        }
        else c
  ]

  unfoldable pub run_callback : Option (S → S) → S → S
  run_callback none s = s
  run_callback (some callback) s = callback s

  -- The loop of `wake_up_list_check_and_execute`: the entries that stay, the count, and the effects.
  unfoldable pub check_loop :
      (current_tick : ℕ) → List (WakeUpEntry S) → (count : ℕ) → S → List (WakeUpEntry S) × ℕ × S
  unfolding run_callback
  check_loop current_tick [] count s = ([], count, s)
  check_loop current_tick (e ∷ es) count s = elim (leb e.wake_up_tick current_tick) [
    | true ↦ check_loop current_tick es (sub32 count 1) (run_callback e.callback s)
    | false ↦ let (rest, count', s') = check_loop current_tick es count s in (e ∷ rest, count', s')
  ]

  unfoldable pub wake_up_list_check_and_execute : Clock S → S → Clock S × S
  unfolding monotonic_time_get_ticks_global check_loop
  wake_up_list_check_and_execute c s = elim (c.wake_up_list) [
    | none ↦ (c, s)
    | some l ↦
        let (rest, count, s') =
          check_loop (monotonic_time_get_ticks_global c) l.entries l.entry_count s in
        (record c { wake_up_list = some (record { entries = rest; entry_count = count }) }, s')
  ]

  -- The entries that are due at a tick, and those that are not, in their order.
  unfoldable pub due : ℕ → List (WakeUpEntry S) → List (WakeUpEntry S)
  due now [] = []
  due now (e ∷ es) = if leb e.wake_up_tick now then e ∷ due now es else due now es

  unfoldable pub waiting : ℕ → List (WakeUpEntry S) → List (WakeUpEntry S)
  waiting now [] = []
  waiting now (e ∷ es) = if leb e.wake_up_tick now then waiting now es else e ∷ waiting now es

  -- The effects of a list of entries, the first first.
  unfoldable pub run_all : List (WakeUpEntry S) → S → S
  unfolding run_callback
  run_all [] s = s
  run_all (e ∷ es) s = run_all es (run_callback e.callback s)

  -- A list whose count is the number of its entries, which a 32-bit counter can hold.
  pub record IsCounted (l : WakeUpList S) : Type 0 where
    pub count : l.entry_count ≡ length l.entries
    pub room : length l.entries < u32_mod

  length-waiting : (now : ℕ) (es : List (WakeUpEntry S)) → length (waiting now es) ≤ length es
  unfolding waiting
  length-waiting now [] = omega arith
  length-waiting now (e ∷ es) = elim (Bool-cases (leb e.wake_up_tick now)) [
    | inl fires ↦ rw fires (omega (arith, length-waiting now es))
    | inr stays ↦ rw stays (omega (arith, length-waiting now es))
  ]

  check_loop_lem :
      (now : ℕ) (es : List (WakeUpEntry S)) (more : ℕ) (s : S)
      → length es + more < u32_mod
      → check_loop now es (length es + more) s
        ≡ (waiting now es, length (waiting now es) + more, run_all (due now es) s)
  unfolding check_loop waiting due run_all
  check_loop_lem now [] more s h = refl
  check_loop_lem now (e ∷ es) more s h = elim (Bool-cases (leb e.wake_up_tick now)) [
    | inl fires ↦
        let one_less : sub32 (suc (length es) + more) 1 ≡ length es + more = ground arith in
        rw (check_loop, fires, one_less)
          (check_loop_lem now es more (run_callback e.callback s) (omega arith))
    | inr stays ↦
        let kept = check_loop_lem now es (suc more) s (omega arith) in
        let shift : suc (length es) + more ≡ length es + suc more = omega arith in
        let shift' : suc (length (waiting now es)) + more ≡ length (waiting now es) + suc more =
          omega arith in
        rw (check_loop, stays, shift, shift', kept) refl
  ]

  -- When the counter of the list is the number of its entries, a check runs the callbacks of the
  -- entries that are due, each once and in the list's order, removes exactly these, and keeps the
  -- counter at the number of entries.
  pub wake_up_list_check_and_execute_lem :
      (c : Clock S) (l : WakeUpList S) (s : S)
      → c.wake_up_list ≡ some l
      → IsCounted l
      → (l' : WakeUpList S) × (wake_up_list_check_and_execute c s ≡ (
        record c { wake_up_list = some l' },
        run_all (due (monotonic_time_get_ticks_global c) l.entries) s,
      ))
        × (l'.entries ≡ waiting (monotonic_time_get_ticks_global c) l.entries)
        × IsCounted l'
  unfolding wake_up_list_check_and_execute
  wake_up_list_check_and_execute_lem c l s there ok =
      let now = monotonic_time_get_ticks_global c in
      let enough : length l.entries + 0 < u32_mod = omega (arith, ok.room) in
      let runs : check_loop now l.entries l.entry_count s ≡ (
        waiting now l.entries,
        length (waiting now l.entries) + 0,
        run_all (due now l.entries) s,
      ) =
        ap (λ n. check_loop now l.entries n s) {x = l.entry_count} {y = length l.entries + 0}
          (omega (arith, ok.count))
        ∙ check_loop_lem now l.entries 0 s enough in
      (
        record {
          entries = waiting now l.entries;
          entry_count = length (waiting now l.entries) + 0;
        },
        rw (wake_up_list_check_and_execute, there, runs) refl,
        refl,
        record { count = omega arith; room = omega (arith, length-waiting now l.entries, ok.room) },
      )
