-- ===== src/Executor/Sleeper/Wakes.antt =====
-- `sleep_seconds_async` of src/rtc.c, from the call to the end of the sleep.
use shogun_os.Base.{
  ℕ, ◌+◌, ◌*◌, ◌<◌, ◌≡◌, refl, ap, ap₂, ◌∙◌, true, Option, some, List, [], ◌∷◌, add32, mul32,
  u32_mod, arith, length,
}
use shogun_os.Wake.{WakeUpList, IsCounted, monotonic_time_get_ticks_global, wake_up_list_add}
use shogun_os.Executor.{executor_spawn, waker_create}
use shogun_os.Executor.Sleep.{sleep_future_create, sleep_future_callback}
use shogun_os.Executor.Sleeper.{
  Flags, Time, System, Memory, Event, clock_ticks, executor_polls, sleep_seconds_async, spawn_sleep,
  happens, happen,
}
use shogun_os.Executor.Sleeper.Callbacks.{KeepAwake}
use shogun_os.Executor.Sleeper.Timeline.{
  Sleeping, sleeper, sleeper_entry, ticks_in, happen-Sleeping, ticks-target, round_ready, reads,
}

-- An idle system at tick `now`: no task, and a wake-up list whose count is true, with room for another
-- entry, and whose callbacks leave the poll flag set.
pub record IsIdle (now : ℕ) (s : System) : Type 0 where
  pub queue : s.executor.task_queue ≡ []
  pub time : s.world.env.monotonic_time ≡ some now
  pub list : WakeUpList Flags
  pub there : s.world.env.wake_up_list ≡ some list
  pub counted : IsCounted list
  pub room : length list.entries + 1 < u32_mod
  pub awake : KeepAwake list.entries

-- The memory that malloc gives for the future, its entry and its task; there may be none for the waker.
abbrev pub given : (future entry task : ℕ) (waker : Option ℕ) → Memory
given future entry task waker = record {
  future = some future;
  entry = some entry;
  task = some task;
  waker = waker;
}

adds :
    (target : ℕ) (c : Time) (l : WakeUpList Flags)
    → c.wake_up_list ≡ some l
    → wake_up_list_add true target (some sleep_future_callback) c ≡ record c {
      wake_up_list = some (record {
        entries = sleeper_entry target ∷ l.entries;
        entry_count = add32 l.entry_count 1;
      });
    }
unfolding wake_up_list_add
adds target c l there = rw (wake_up_list_add, there) refl

module _ (future entry task : ℕ) (waker : Option ℕ) where
  falls_asleep :
      (now seconds : ℕ) (s : System)
      → now + seconds * 256 < u32_mod
      → IsIdle now s
      → Sleeping task future
          (now + seconds * 256)
          (waker_create waker)
          now
          (sleep_seconds_async (given future entry task waker) seconds s)
  unfolding sleep_seconds_async sleep_future_create spawn_sleep executor_spawn
  falls_asleep now seconds s room idle =
      let target : add32 (monotonic_time_get_ticks_global s.world.env) (mul32 seconds 256)
          ≡ now + seconds * 256 =
        ap (λ n. add32 n (mul32 seconds 256)) (reads s.world.env now idle.time) ∙ omega arith in
      let added =
        adds (add32 (monotonic_time_get_ticks_global s.world.env) (mul32 seconds 256)) s.world.env
          idle.list idle.there in
      record {
        queue = ap₂ (λ n ts. sleeper task future n (waker_create waker) ∷ ts) target idle.queue;
        time = ap (λ c. c.monotonic_time) added ∙ idle.time;
        list = record {
          entries = sleeper_entry (now + seconds * 256) ∷ idle.list.entries;
          entry_count = add32 idle.list.entry_count 1;
        };
        there =
            ap (λ c. c.wake_up_list) added
            ∙ ap
                (λ n. some (record {
                  entries = sleeper_entry n ∷ idle.list.entries;
                  entry_count = add32 idle.list.entry_count 1;
                }))
                target;
        others = idle.list.entries;
        entries = refl;
        counted = record {
          count = omega (arith, idle.counted.count, idle.room);
          room = omega (arith, idle.room);
        };
        awake = idle.awake;
      }

  -- In an idle system and with memory for it, when the target tick is a 32-bit word: after a call of
  -- sleep_seconds_async and any interrupts of the clock and rounds of the executor, the queue holds
  -- exactly the new task as long as there were fewer than 256 interrupts for each second; the interrupt
  -- that completes them sets the poll flag, and the next round takes the task out of the queue.
  pub sleep_seconds_async_lem :
      (now seconds : ℕ) (s : System) (early last : List Event)
      → now + seconds * 256 < u32_mod
      → IsIdle now s
      → ticks_in early < seconds * 256
      → ticks_in last + 1 ≡ seconds * 256
      → (let asleep = sleep_seconds_async (given future entry task waker) seconds s in
          let over = happens clock_ticks (happen last asleep) in
          ((happen early asleep).executor.task_queue
            ≡ sleeper task future (now + seconds * 256) (waker_create waker) ∷ [])
          × (over.world.should_poll ≡ true)
          × ((happens executor_polls over).executor.task_queue ≡ []))
  unfolding happens
  sleep_seconds_async_lem now seconds s early last room idle before completes =
      let target = now + seconds * 256 in
      let asleep = sleep_seconds_async (given future entry task waker) seconds s in
      let start = falls_asleep now seconds s room idle in
      let still =
        happen-Sleeping task future target (waker_create waker) early now asleep room
          (omega (arith, before)) start in
      let h =
        happen-Sleeping task future target (waker_create waker) last now asleep room
          (omega (arith, completes)) start in
      let slept = happen last asleep in
      let (queue, time, woken) =
        ticks-target task future target (waker_create waker) (now + ticks_in last) slept
          (omega (arith, completes, room)) (omega (arith, completes)) h in
      (
        still.queue,
        woken,
        round_ready task future target (waker_create waker) target
            (happens clock_ticks slept).executor (happens clock_ticks slept).world queue time
            (omega arith),
      )
