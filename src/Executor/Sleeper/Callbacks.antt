-- ===== src/Executor/Sleeper/Callbacks.antt =====
-- The callbacks of the wake-up list that sleep beside a task, over a check of the list in src/rtc.c.
use shogun_os.Base.{ℕ, ◌≡◌, true, List, [], ◌∷◌, leb, Bool-cases, inl, inr}
use shogun_os.Wake.{WakeUpEntry, due, waiting, run_all, run_callback}
use shogun_os.Executor.Sleeper.{Flags}

-- Each of these callbacks leaves the poll flag set.
abbrev pub KeepAwake : List (WakeUpEntry Flags) → Type 0
KeepAwake [] = Unit
KeepAwake (e ∷ es) =
    ((u : Flags) → u.should_poll ≡ true → (run_callback e.callback u).should_poll ≡ true)
    × KeepAwake es

pub KeepAwake-waiting :
    (now : ℕ) (es : List (WakeUpEntry Flags)) → KeepAwake es → KeepAwake (waiting now es)
unfolding waiting
KeepAwake-waiting now [] awake = tt
KeepAwake-waiting now (e ∷ es) (here, there) = elim (Bool-cases (leb e.wake_up_tick now)) [
  | inl fires ↦ rw fires (KeepAwake-waiting now es there)
  | inr stays ↦ rw stays (here, KeepAwake-waiting now es there)
]

pub run_all-KeepAwake :
    (now : ℕ) (es : List (WakeUpEntry Flags)) (u : Flags)
    → KeepAwake es
    → u.should_poll ≡ true
    → (run_all (due now es) u).should_poll ≡ true
unfolding due run_all
run_all-KeepAwake now [] u awake set = set
run_all-KeepAwake now (e ∷ es) u (here, there) set = elim (Bool-cases (leb e.wake_up_tick now)) [
  | inl fires ↦
      rw (fires, run_all) (run_all-KeepAwake now es (run_callback e.callback u) there (here u set))
  | inr stays ↦ rw stays (run_all-KeepAwake now es u there set)
]
