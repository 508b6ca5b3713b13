-- ===== src/Executor/Release.antt =====
-- The memory that a round of the executor gives back.
use shogun_os.Base.{
  ℕ, ◌≡◌, refl, ap, sym, ◌∙◌, Option, none, some, List, [], ◌∷◌, ◌++◌, ◌==◌, if◌then◌else◌,
  append_assoc, Bool-cases, inl, inr,
}
use mathlib.Core.Path.{subst}
use shogun_os.Executor.{
  World, Waker, Task, poll_task, is_ready, remove, free, run_cleanup, drop_waker,
}
use shogun_os.Executor.Pass.{Polled, none_left, finishes, stays}

pub waker_memory : Option Waker → List ℕ
waker_memory none = []
waker_memory (some waker) = if waker.ref_count == 1 then waker.address ∷ [] else []

module _ {ℓ} {S : Type ℓ} where
  -- A task whose functions give no memory back.
  pub record IsQuiet (t : Task S) : Type ℓ where
    pub poll : (w : World S) → (t.future.poll w).1.freed ≡ w.freed
    pub cleanup : (w : World S) → (run_cleanup t.future.cleanup w).freed ≡ w.freed

  pub data AllQuiet : List (Task S) → Type ℓ where
    nobody : AllQuiet []
    also : {t : Task S} {ts : List (Task S)} → IsQuiet t → AllQuiet ts → AllQuiet (t ∷ ts)

  -- What belongs to a task, and to several, in the order of the log.
  pub memory_of : Task S → List ℕ
  memory_of t = t.address ∷ t.future.address ∷ waker_memory t.future.waker

  pub memory_of_all : List (Task S) → List ℕ
  memory_of_all [] = []
  memory_of_all (t ∷ ts) = memory_of_all ts ++ memory_of t

  drop_waker_lem :
      (k : Option Waker) (w : World S) → (drop_waker k w).freed ≡ waker_memory k ++ w.freed
  unfolding drop_waker waker_memory
  drop_waker_lem none w = refl
  drop_waker_lem (some waker) w = elim (Bool-cases (waker.ref_count == 1)) [
    | inl one ↦ rw one refl
    | inr more ↦ rw more refl
  ]

  remove_lem :
      (t : Task S) (w : World S)
      → (remove t w).freed ≡ memory_of t ++ (run_cleanup t.future.cleanup w).freed
  unfolding remove memory_of free
  remove_lem t w =
      ap (λ l. t.address ∷ t.future.address ∷ l)
        (drop_waker_lem t.future.waker (run_cleanup t.future.cleanup w))

  poll_task-IsQuiet :
      (t : Task S) (w : World S)
      → IsQuiet t
      → ((poll_task t w).2.freed ≡ w.freed) × IsQuiet (poll_task t w).1
  unfolding poll_task
  poll_task-IsQuiet t w quiet = elim (Bool-cases t.future.is_completed) [
    | inl done ↦ (rw done refl, rw done record { poll = quiet.poll; cleanup = quiet.cleanup })
    | inr unfinished ↦ elim (Bool-cases (is_ready (t.future.poll w).0)) [
      | inl now ↦ (
        rw (unfinished, now) (quiet.poll w),
        rw (unfinished, now) record { poll = quiet.poll; cleanup = quiet.cleanup },
      )
      | inr later ↦ (
        rw (unfinished, later) (quiet.poll w),
        rw (unfinished, later) record { poll = quiet.poll; cleanup = quiet.cleanup },
      )
    ]
  ]

  -- When polling and cleaning up the tasks of the queue give no memory back, a round frees the
  -- task, the future and the waker (if this is its last reference) of each task that finishes,
  -- once, and nothing else.
  pub released :
      {ts kept done : List (Task S)} {w w' : World S}
      → Polled ts w kept done w'
      → AllQuiet ts
      → w'.freed ≡ memory_of_all done ++ w.freed
  unfolding memory_of_all
  released none_left nobody = refl
  released {done = t' ∷ done} {w} (finishes {t} {w1} e polled) (also quiet others) =
      let calm = poll_task-IsQuiet t w quiet in
      let same : w1.freed ≡ w.freed = sym (ap (λ r. r.2.freed) e) ∙ calm.0 in
      let quiet' : IsQuiet t' = subst (λ x. IsQuiet x) (ap (λ r. r.1) e) calm.1 in
      released polled others
      ∙ ap (λ l. memory_of_all done ++ l)
          (remove_lem t' w1 ∙ ap (λ l. memory_of t' ++ l) (quiet'.cleanup w1 ∙ same))
      ∙ sym (append_assoc (memory_of_all done) (memory_of t') w.freed)
  released {done} {w} (stays {t} {w1} e polled) (also quiet others) =
      released polled others
      ∙ ap (λ l. memory_of_all done ++ l)
          (sym (ap (λ r. r.2.freed) e) ∙ (poll_task-IsQuiet t w quiet).0)

  -- `async_rtc_future_cleanup` gives the future's own memory back.
  unfoldable pub async_rtc_future_cleanup : (future : ℕ) → World S → World S
  unfolding free
  async_rtc_future_cleanup future w = free future w

  -- When a finished task's future has `async_rtc_future_cleanup` as its cleanup and a waker with
  -- one reference, the future is freed twice, once before its waker and once after it.
  pub rtc_future_freed_twice :
      (t : Task S) (waker : Waker) (w : World S)
      → t.future.cleanup ≡ some (async_rtc_future_cleanup t.future.address)
      → t.future.waker ≡ some waker
      → waker.ref_count ≡ 1
      → (remove t w).freed
        ≡ t.address ∷ t.future.address ∷ waker.address ∷ t.future.address ∷ w.freed
  unfolding async_rtc_future_cleanup memory_of waker_memory run_cleanup
  rtc_future_freed_twice t waker w cleans wakes one = remove_lem t w ∙ rw (cleans, wakes, one) refl
