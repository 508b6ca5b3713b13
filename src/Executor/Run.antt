-- ===== src/Executor/Run.antt =====
-- The executor of src/async_executor.c over many rounds, with interrupts between them.
use shogun_os.Base.{
  ℕ, suc, ◌≤◌, ◌<◌, ◌≡◌, refl, ap, sym, false, Option, none, some, List, [], ◌∷◌, length, u32_mod,
  arith, Bool-cases, inl, inr,
}
use mathlib.Core.Path.{subst}
use shogun_os.Executor.{
  World, Future, Task, Executor, is_ready, executor_init, executor_spawn, poll_task, executor_round,
}
use shogun_os.Executor.Pass.{Polled, none_left, finishes, stays, executor_round_lem}

module _ {ℓ} {S : Type ℓ} where
  -- The executors and worlds after some rounds, interrupts that change the world in any way, and this
  -- many calls of `executor_spawn` with futures that are not completed.
  pub data Reached : ℕ → Executor S → World S → Type ℓ where
    begins : {w : World S} → Reached 0 executor_init w
    round :
        {n : ℕ} {e : Executor S} {w : World S}
        → Reached n e w
        → Reached n (executor_round e w).1 (executor_round e w).2
    interrupt :
        {n : ℕ} {e : Executor S} {w : World S}
        → Reached n e w
        → (handler : World S → World S) → Reached n e (handler w)
    spawn :
        {n : ℕ} {e : Executor S} {w : World S}
        → Reached n e w
        → (task_memory waker_memory : Option ℕ) (future : Future S) → future.is_completed ≡ false
        → Reached
            (suc n)
            (executor_spawn task_memory waker_memory e future w).0
            (executor_spawn task_memory waker_memory e future w).1

  pub data AllPending : List (Task S) → Type ℓ where
    nobody : AllPending []
    also :
        {t : Task S} {ts : List (Task S)}
        → t.future.is_completed ≡ false
        → AllPending ts
        → AllPending (t ∷ ts)

  -- The count is true and at most the number of spawned tasks, and every task in the queue is pending.
  pub record IsSane (n : ℕ) (e : Executor S) : Type ℓ where
    pub count : e.task_count ≡ length e.task_queue
    pub bound : length e.task_queue ≤ n
    pub pending : AllPending e.task_queue

  poll_task_pending :
      (t t' : Task S) (w w' : World S)
      → poll_task t w ≡ (false, t', w')
      → t'.future.is_completed ≡ false
  unfolding poll_task
  poll_task_pending t t' w w' polled = elim (Bool-cases t.future.is_completed) [
    | inl done ↦ let says = ap (λ r. r.0) (rw done at polled) in absurd (ground (arith, says))
    | inr unfinished ↦ elim (Bool-cases (is_ready (t.future.poll w).0)) [
      | inl now ↦
          let says = ap (λ r. r.0) (rw (unfinished, now) at polled) in absurd (ground (arith, says))
      | inr later ↦
          let same = ap (λ r. r.1) (rw (unfinished, later) at polled) in
          ap (λ x. x.future.is_completed) (sym same)
    ]
  ]

  kept-AllPending :
      {ts kept done : List (Task S)} {w w' : World S} → Polled ts w kept done w' → AllPending kept
  kept-AllPending none_left = nobody
  kept-AllPending (finishes polled rest) = kept-AllPending rest
  kept-AllPending (stays {t} {t'} {w} {w1} polled rest) =
      also (poll_task_pending t t' w w1 polled) (kept-AllPending rest)

  length-kept :
      {ts kept done : List (Task S)} {w w' : World S}
      → Polled ts w kept done w'
      → length kept ≤ length ts
  length-kept none_left = omega arith
  length-kept (finishes polled rest) = omega (arith, length-kept rest)
  length-kept (stays polled rest) = omega (arith, length-kept rest)

  round-IsSane :
      (n : ℕ) (e : Executor S) (w : World S)
      → n < u32_mod
      → IsSane n e
      → IsSane n (executor_round e w).1
  round-IsSane n e w room ok =
      let (kept, done, w', polled, runs) =
        executor_round_lem e w ok.count (omega (arith, ok.bound)) in
      subst (λ x. IsSane n x) (ap (λ r. r.1) (sym runs))
        record {
          count = refl;
          bound = omega (arith, length-kept polled, ok.bound);
          pending = kept-AllPending polled;
        }

  spawn-IsSane :
      (n : ℕ) (e : Executor S) (w : World S) (task_memory waker_memory : Option ℕ)
      (future : Future S)
      → suc n < u32_mod
      → future.is_completed ≡ false
      → IsSane n e
      → IsSane (suc n) (executor_spawn task_memory waker_memory e future w).0
  unfolding executor_spawn
  spawn-IsSane n e w none waker_memory future room fresh ok = record {
    count = ok.count;
    bound = omega (arith, ok.bound);
    pending = ok.pending;
  }
  spawn-IsSane n e w (some address) waker_memory future room fresh ok = record {
    count = omega (arith, ok.count, ok.bound);
    bound = omega (arith, ok.bound);
    pending = also fresh (ok.pending);
  }

  -- After any rounds, interrupts and fewer than 2^32 spawned futures, none of which was completed
  -- before, the task count is the length of the queue, the queue is no longer than the number of spawned
  -- futures, and no completed task is left in it.
  pub Reached-IsSane :
      {n : ℕ} {e : Executor S} {w : World S} → Reached n e w → n < u32_mod → IsSane n e
  unfolding executor_init
  Reached-IsSane begins room = record { count = refl; bound = omega arith; pending = nobody }
  Reached-IsSane (round {n} {e} {w} r) room = round-IsSane n e w room (Reached-IsSane r room)
  Reached-IsSane (interrupt r handler) room = Reached-IsSane r room
  Reached-IsSane (spawn {n} {e} {w} r task_memory waker_memory future fresh) room =
      spawn-IsSane n e w task_memory waker_memory future room fresh (Reached-IsSane r (omega arith))
