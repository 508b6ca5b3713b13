-- ===== src/Executor/Sleeper.antt =====
-- `sleep_seconds_async` of src/rtc.c, with the future of src/async_executor.c that it spawns. The state
-- that the futures see is the clock with its wake-up list; the source's callbacks only set the poll
-- flag, so a callback works on the flag and the log of freed memory.
pub mod Callbacks
pub mod Timeline
pub mod Wakes
use shogun_os.Base.{
  ℕ, ◌<◌, ◌≡◌, refl, Bool, true, false, Option, none, some, List, [], ◌∷◌, is_some, add32, mul32,
  u32_mod, arith,
}
use shogun_os.Wake.{
  Clock, WakeUpList, monotonic_time_get_ticks_global, monotonic_time_increment_global,
  wake_up_list_check_and_execute, wake_up_list_add,
}
use shogun_os.Executor.{World, FutureState, Future, Task, Executor, executor_spawn, executor_round}
use shogun_os.Executor.Sleep.{sleep_future_create, sleep_future_poll, sleep_future_callback}

abbrev pub Flags : Type 0
Flags = World (Unit {0})

abbrev pub Time : Type 0
Time = Clock Flags

-- It frees nothing.
unfoldable pub sleep_future_cleanup : World Time → World Time
sleep_future_cleanup w = w

-- A `SleepFuture` at its address, behind `sleep_future_create`.
unfoldable pub sleep_future : (address target_tick : ℕ) → Future Time
unfolding sleep_future_poll sleep_future_cleanup
sleep_future address target_tick = record {
  address = address;
  poll = λ w. (sleep_future_poll target_tick w.env, w);
  cleanup = some sleep_future_cleanup;
  is_completed = false;
  waker = none;
}

-- `get_global_executor`, with the world that its futures work on.
pub record System : Type 0 where
  pub executor : Executor Time
  pub world : World Time

-- What the calls of malloc return: for the future, the entry, the task and the waker.
pub record Memory : Type 0 where
  pub future : Option ℕ
  pub entry : Option ℕ
  pub task : Option ℕ
  pub waker : Option ℕ

-- `if (sleep_future != NULL) executor_spawn(...)`
unfoldable pub spawn_sleep : Memory → Option ℕ → Option ℕ → System → System
unfolding sleep_future executor_spawn
spawn_sleep memory (some address) (some target) s =
    let (executor, world) =
      executor_spawn memory.task memory.waker s.executor (sleep_future address target) s.world in
    record { executor = executor; world = world }
spawn_sleep memory (some address) none s = s
spawn_sleep memory none target s = s

unfoldable pub sleep_seconds_async : Memory → (seconds : ℕ) → System → System
unfolding sleep_future_create spawn_sleep
sleep_seconds_async memory seconds s =
    let ticks = mul32 seconds 256 in
    let (target, clock) =
      sleep_future_create (is_some memory.future) (is_some memory.entry) ticks s.world.env in
    spawn_sleep memory memory.future target (record s { world = record s.world { env = clock } })

abbrev pub flags_of : World Time → Flags
flags_of w = record { env = tt; should_poll = w.should_poll; freed = w.freed }

-- The part of the clock interrupt that the executor sees.
unfoldable pub tick : World Time → World Time
unfolding monotonic_time_increment_global wake_up_list_check_and_execute
tick w =
    let (clock, flags) =
      wake_up_list_check_and_execute (monotonic_time_increment_global w.env) (flags_of w) in
    record { env = clock; should_poll = flags.should_poll; freed = flags.freed }

-- What happens to the system: an interrupt of the clock, or a round of the executor.
pub data Event : Type 0 where
  clock_ticks executor_polls : Event

unfoldable pub happens : Event → System → System
unfolding tick executor_round
happens clock_ticks s = record s { world = tick s.world }
happens executor_polls s =
    let (_, executor, world) = executor_round s.executor s.world in
    record { executor = executor; world = world }

unfoldable pub happen : List Event → System → System
unfolding happens
happen [] s = s
happen (e ∷ es) s = happen es (happens e s)
