-- ===== src/Executor/Pass.antt =====
-- One round of the executor, against a relation that says which tasks finish.
use shogun_os.Base.{
  ℕ, suc, ◌+◌, ◌<◌, ◌≡◌, refl, ap, ◌∙◌, Bool, true, false, not, ◌&&◌, List, [], ◌∷◌, length,
  Bool-cases, inl, inr, arith, sub32, u32_mod,
}
use shogun_os.Executor.{World, Task, Executor, poll_task, remove, poll_all, executor_round}

module _ {ℓ} {S : Type ℓ} where
  -- From a queue and a world, the tasks that stay, those that finish, and the world at the end.
  pub data Polled : List (Task S) → World S → List (Task S) → List (Task S) → World S → Type ℓ where
    none_left : {w : World S} → Polled [] w [] [] w
    finishes :
        {t t' : Task S} {w w1 w2 : World S} {ts kept done : List (Task S)}
        → poll_task t w ≡ (true, t', w1)
        → Polled ts (remove t' w1) kept done w2
        → Polled (t ∷ ts) w kept (t' ∷ done) w2
    stays :
        {t t' : Task S} {w w1 w2 : World S} {ts kept done : List (Task S)}
        → poll_task t w ≡ (false, t', w1)
        → Polled ts w1 kept done w2
        → Polled (t ∷ ts) w (t' ∷ kept) done w2

  pub some_left : List (Task S) → Bool
  some_left [] = false
  some_left (t ∷ ts) = true

  poll_all_lem :
      (ts : List (Task S)) (more : ℕ) (w : World S)
      → length ts + more < u32_mod
      → (kept : List (Task S)) × (done : List (Task S)) × (w' : World S) × Polled ts w kept done w'
        × (poll_all ts (length ts + more) w ≡ (kept, length kept + more, some_left kept, w'))
  unfolding poll_all some_left
  poll_all_lem [] more w h = ([], [], w, none_left, refl)
  poll_all_lem (t ∷ ts) more w h =
      let small : length ts + more < u32_mod = omega (arith, h) in
      let small' : length ts + suc more < u32_mod = omega (arith, h) in
      let t' = (poll_task t w).1 in
      let w1 = (poll_task t w).2 in
      elim (Bool-cases (poll_task t w).0) [
        | inl now ↦
            let (kept, done, w2, polled, runs) = poll_all_lem ts more (remove t' w1) small in
            let one_less : sub32 (suc (length ts) + more) 1 ≡ length ts + more = ground arith in
            (
              kept,
              t' ∷ done,
              w2,
              finishes (ap (λ b. (b, t', w1)) now) polled,
              rw (poll_all, now, one_less) runs,
            )
        | inr later ↦
            let (kept, done, w2, polled, runs) = poll_all_lem ts (suc more) w1 small' in
            let shift : suc (length ts) + more ≡ length ts + suc more = omega arith in
            let shift' : suc (length kept) + more ≡ length kept + suc more = omega arith in
            (
              t' ∷ kept,
              done,
              w2,
              stays (ap (λ b. (b, t', w1)) later) polled,
              rw (poll_all, later, shift, shift', runs) refl,
            )
      ]

  round_of :
      (e : Executor S) (w : World S) (kept : List (Task S)) (w' : World S)
      → poll_all e.task_queue e.task_count w ≡ (kept, length kept, some_left kept, w')
      → executor_round e w ≡ (
        not (some_left kept) && not w'.should_poll,
        record e { task_queue = kept; task_count = length kept },
        record w' { should_poll = false },
      )
  unfolding executor_round some_left
  round_of e w (t ∷ kept) w' runs = rw (executor_round, runs) refl
  round_of e w [] w' runs = elim (Bool-cases w'.should_poll) [
    | inl asked ↦ rw (executor_round, runs, asked) refl
    | inr quiet ↦ rw (executor_round, runs, quiet) refl
  ]

  -- When the task count is the length of the queue and fits 32 bits, a round polls every task once,
  -- in the queue's order, and keeps exactly those that are pending; the count stays the length of
  -- the queue; the round halts the processor when no task is left and nothing asked for a poll, and
  -- the flag is clear afterwards.
  pub executor_round_lem :
      (e : Executor S) (w : World S)
      → e.task_count ≡ length e.task_queue
      → length e.task_queue < u32_mod
      → (kept : List (Task S)) × (done : List (Task S)) × (w' : World S) × Polled e.task_queue w
          kept done w'
        × (executor_round e w ≡ (
          not (some_left kept) && not w'.should_poll,
          record e { task_queue = kept; task_count = length kept },
          record w' { should_poll = false },
        ))
  executor_round_lem e w counted room =
      let small : length e.task_queue + 0 < u32_mod = omega (arith, room) in
      let (kept, done, w', polled, runs) = poll_all_lem e.task_queue 0 w small in
      let start =
        ap (λ n. poll_all e.task_queue n w) {x = e.task_count} {y = length e.task_queue + 0}
          (omega (arith, counted)) in
      let finish =
        ap (λ n. (kept, n, some_left kept, w')) {x = length kept + 0} {y = length kept}
          (omega arith) in
      (kept, done, w', polled, round_of e w kept w' (start ∙ runs ∙ finish))
