-- ===== src/Executor/Sleeper/Timeline.antt =====
-- A task of sleep_seconds_async over any sequence of clock interrupts and rounds of the executor.
use shogun_os.Base.{
  ℕ, suc, ◌+◌, ◌≤◌, ◌<◌, ◌≡◌, refl, ap, ap₂, ◌∙◌, true, false, not, ◌&&◌, Option, some, List, [],
  ◌∷◌, add32, u32_mod, arith, leb, Bool-cases, inl, inr,
}
use mathlib.Core.Path.{subst}
use shogun_os.Wake.{
  WakeUpEntry, WakeUpList, IsCounted, due, waiting, run_all, run_callback,
  monotonic_time_get_ticks_global, monotonic_time_increment_global, wake_up_list_check_and_execute,
  wake_up_list_check_and_execute_lem,
}
use shogun_os.Executor.{World, Waker, Task, Executor, executor_round, poll_all, poll_task}
use shogun_os.Executor.Sleep.{sleep_future_poll, sleep_future_callback}
use shogun_os.Executor.Sleeper.{
  Flags, Time, System, Event, clock_ticks, executor_polls, sleep_future, tick, happens, happen,
  flags_of,
}
use shogun_os.Executor.Sleeper.Callbacks.{KeepAwake, KeepAwake-waiting, run_all-KeepAwake}

-- The entry that sleep_future_create adds.
abbrev pub sleeper_entry : (target : ℕ) → WakeUpEntry Flags
sleeper_entry target = record { wake_up_tick = target; callback = some sleep_future_callback }

-- The interrupts of the clock among the events.
abbrev pub ticks_in : List Event → ℕ
ticks_in [] = 0
ticks_in (clock_ticks ∷ es) = suc (ticks_in es)
ticks_in (executor_polls ∷ es) = ticks_in es

pub reads :
    (c : Time) (now : ℕ) → c.monotonic_time ≡ some now → monotonic_time_get_ticks_global c ≡ now
unfolding monotonic_time_get_ticks_global
reads c now time = rw time refl

module _ (task_address future_address target : ℕ) (waker : Option Waker) where
  abbrev pub sleeper : Task Time
  sleeper = record {
    address = task_address;
    future = record (sleep_future future_address target) { waker = waker };
  }

  -- The task waits in the queue at tick `now`, and its entry is in the wake-up list.
  pub record Sleeping (now : ℕ) (s : System) : Type 0 where
    pub queue : s.executor.task_queue ≡ sleeper ∷ []
    pub time : s.world.env.monotonic_time ≡ some now
    pub list : WakeUpList Flags
    pub there : s.world.env.wake_up_list ≡ some list
    pub others : List (WakeUpEntry Flags)
    pub entries : list.entries ≡ sleeper_entry target ∷ others
    pub counted : IsCounted list
    pub awake : KeepAwake others

  increments :
      (c : Time) (now : ℕ)
      → c.monotonic_time ≡ some now
      → monotonic_time_increment_global c ≡ record c { monotonic_time = some (add32 now 1) }
  unfolding monotonic_time_increment_global
  increments c now start = rw (monotonic_time_increment_global, start) refl

  abbrev with_flags : Time × Flags → World Time
  with_flags (clock, flags) = record {
    env = clock;
    should_poll = flags.should_poll;
    freed = flags.freed;
  }

  -- One check of the wake-up list at the next tick.
  tick_lem :
      (now : ℕ) (s : System)
      → suc now < u32_mod
      → (h : Sleeping now s)
      → (l' : WakeUpList Flags) × IsCounted l'
        × (l'.entries ≡ waiting (suc now) h.list.entries)
        × (let u = run_all (due (suc now) h.list.entries) (flags_of s.world) in
            tick s.world ≡ record {
              env = record { monotonic_time = some (suc now); wake_up_list = some l' };
              should_poll = u.should_poll;
              freed = u.freed;
            })
  unfolding tick monotonic_time_get_ticks_global
  tick_lem now s room h =
      let clock : Time = record { monotonic_time = some (suc now); wake_up_list = some h.list } in
      let (l', checks, entries, counted) =
        wake_up_list_check_and_execute_lem clock h.list (flags_of s.world) refl h.counted in
      let next : monotonic_time_increment_global s.world.env ≡ clock =
        increments s.world.env now h.time
        ∙ ap₂ (λ n l. record { monotonic_time = some n; wake_up_list = l }) {x = add32 now 1}
            {y = suc now} (omega arith) h.there in
      (
        l',
        counted,
        entries,
        ap (λ c. with_flags (wake_up_list_check_and_execute c (flags_of s.world))) next
            ∙ ap with_flags checks,
      )

  -- A tick before the target: the task keeps waiting.
  ticks-Sleeping :
      (now : ℕ) (s : System)
      → suc now < u32_mod
      → suc now < target
      → Sleeping now s
      → Sleeping (suc now) (happens clock_ticks s)
  unfolding happens waiting
  ticks-Sleeping now s room early h =
      let (l', counted, entries, ticked) = tick_lem now s room h in
      let stays : leb target (suc now) ≡ false = ground arith in
      record {
        queue = h.queue;
        time = ap (λ w. w.env.monotonic_time) ticked;
        list = l';
        there = ap (λ w. w.env.wake_up_list) ticked;
        others = waiting (suc now) h.others;
        entries = entries ∙ ap (λ es. waiting (suc now) es) h.entries ∙ rw stays refl;
        counted = counted;
        awake = KeepAwake-waiting (suc now) h.others h.awake;
      }

  -- The tick of the target: the poll flag is set, and the task still waits in the queue.
  pub ticks-target :
      (now : ℕ) (s : System)
      → suc now < u32_mod
      → suc now ≡ target
      → Sleeping now s
      → (let s' = happens clock_ticks s in
          (s'.executor.task_queue ≡ sleeper ∷ [])
          × (s'.world.env.monotonic_time ≡ some target)
          × (s'.world.should_poll ≡ true))
  unfolding happens due run_all run_callback sleep_future_callback
  ticks-target now s room now_due h =
      let (l', counted, entries, ticked) = tick_lem now s room h in
      let fires : leb target (suc now) ≡ true = ground arith in
      (
        h.queue,
        ap (λ w. w.env.monotonic_time) ticked ∙ ap some now_due,
        ap (λ w. w.should_poll) ticked
            ∙ ap (λ es. (run_all (due (suc now) es) (flags_of s.world)).should_poll) h.entries
            ∙ rw (fires, run_all)
                (run_all-KeepAwake (suc now) h.others
                  (record { env = tt; should_poll = true; freed = s.world.freed }) h.awake refl),
      )

  poll_pending :
      (now : ℕ) (w : World Time)
      → w.env.monotonic_time ≡ some now
      → now < target
      → poll_task sleeper w ≡ (false, sleeper, w)
  unfolding poll_task sleep_future sleep_future_poll
  poll_pending now w time early =
      let tested = ap (λ n. leb target n) (reads w.env now time) ∙ after_now in rw tested refl
    where
      after_now : leb target now ≡ false
      after_now = ground (arith, early)

  poll_ready :
      (now count : ℕ) (w : World Time)
      → w.env.monotonic_time ≡ some now
      → target ≤ now
      → (poll_all (sleeper ∷ []) count w).0 ≡ []
  unfolding poll_all poll_task sleep_future sleep_future_poll
  poll_ready now count w time late =
      let tested = ap (λ n. leb target n) (reads w.env now time) ∙ reached in
      rw (poll_all, tested) refl
    where
      reached : leb target now ≡ true
      reached = ground (arith, late)

  -- A round before the target: the task stays.
  round_pending :
      (now : ℕ) (e : Executor Time) (w : World Time)
      → e.task_queue ≡ sleeper ∷ []
      → w.env.monotonic_time ≡ some now
      → now < target
      → ((executor_round e w).1.task_queue ≡ sleeper ∷ []) × ((executor_round e w).2.env ≡ w.env)
  unfolding executor_round poll_all
  round_pending now e w queue time early =
      let polled = poll_pending now w time early in
      (
        rw (executor_round, queue, poll_all, polled, polled) refl,
        rw (executor_round, queue, poll_all, polled, polled) refl,
      )

  -- A round keeps what the loop over the queue keeps, whether it halts or not.
  round_queue :
      (e : Executor Time) (w : World Time)
      → (executor_round e w).1.task_queue ≡ (poll_all e.task_queue e.task_count w).0
  unfolding executor_round
  round_queue e w =
      let after = (poll_all e.task_queue e.task_count w) in
      elim (Bool-cases (not after.2 && not after.3.should_poll)) [
        | inl halts ↦ rw halts refl
        | inr goes_on ↦ rw goes_on refl
      ]

  -- A round from the target on: the task is gone.
  pub round_ready :
      (now : ℕ) (e : Executor Time) (w : World Time)
      → e.task_queue ≡ sleeper ∷ []
      → w.env.monotonic_time ≡ some now
      → target ≤ now
      → (executor_round e w).1.task_queue ≡ []
  unfolding executor_round
  round_ready now e w queue time late =
      let polled = poll_ready now e.task_count w time late in
      round_queue e w ∙ ap (λ ts. (poll_all ts e.task_count w).0) queue ∙ polled

  -- A round before the target: the task keeps waiting.
  polls-Sleeping :
      (now : ℕ) (s : System)
      → now < target
      → Sleeping now s
      → Sleeping now (happens executor_polls s)
  unfolding happens
  polls-Sleeping now s early h =
      let (queue, env) = round_pending now s.executor s.world h.queue h.time early in
      record {
        queue = queue;
        time = ap (λ c. c.monotonic_time) env ∙ h.time;
        list = h.list;
        there = ap (λ c. c.wake_up_list) env ∙ h.there;
        others = h.others;
        entries = h.entries;
        counted = h.counted;
        awake = h.awake;
      }

  -- Any events that end before the target.
  pub happen-Sleeping :
      (es : List Event) (now : ℕ) (s : System)
      → target < u32_mod
      → now + ticks_in es < target
      → Sleeping now s
      → Sleeping (now + ticks_in es) (happen es s)
  unfolding happen
  happen-Sleeping [] now s room early h = subst (λ n. Sleeping n s) (omega arith) h
  happen-Sleeping (clock_ticks ∷ es) now s room early h =
      subst (λ n. Sleeping n (happen es (happens clock_ticks s))) {x = suc now + ticks_in es}
        {y = now + suc (ticks_in es)} (omega arith)
        (happen-Sleeping es (suc now) (happens clock_ticks s) room (omega arith)
          (ticks-Sleeping now s (omega arith) (omega arith) h))
  happen-Sleeping (executor_polls ∷ es) now s room early h =
      happen-Sleeping es now (happens executor_polls s) room early
        (polls-Sleeping now s (omega arith) h)
