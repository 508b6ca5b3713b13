-- ===== src/Tests/Tasks.antt =====
-- Tasks of the executor, the wake-up list and sleeping.
use shogun_os.Io.{Bus}
use shogun_os.Io.Serial.{sent, ReadyWithin}
use shogun_os.Executor.Run.{begins, round, spawn, IsSane, Reached-IsSane}
use shogun_os.Executor.SerialWrite.{
  AsyncSerialWrite, async_serial_write_create, poll_until_ready, pushed,
}
use shogun_os.Executor.SerialWrite.Sending.{async_serial_write_lem}
use shogun_os.Base.{
  ◌*◌, ℕ, ◌+◌, ◌≡◌, refl, true, false, not, ◌&&◌, none, some, List, [], ◌∷◌, ◌++◌, arith, length,
}
use shogun_os.Wake.{
  WakeUpList, Clock, monotonic_time_get_ticks_global, wake_up_list_check_and_execute, due, waiting,
  run_all, IsCounted, wake_up_list_check_and_execute_lem,
}
use shogun_os.Executor.{
  FutureState, future_ready, future_pending, World, Waker, Future, Task, Executor, executor_init,
  executor_spawn, executor_round, remove, executor_wake_up,
}
use shogun_os.Executor.Pass.{Polled, none_left, finishes, some_left, executor_round_lem}
use shogun_os.Executor.Release.{
  AllQuiet, nobody, also, memory_of_all, async_rtc_future_cleanup, released, rtc_future_freed_twice,
}
use shogun_os.Executor.Sleep.{sleep_future_create, sleep_future_poll, sleep_future_wraps}

-- Two entries, one of them due at tick 5; the callbacks count.
abbrev two_entries : WakeUpList ℕ
two_entries = record {
  entries =
      record { wake_up_tick = 9; callback = some (λ n. n + 1) }
      ∷ record { wake_up_tick = 5; callback = some (λ n. n + 10) }
      ∷ [];
  entry_count = 2;
}

abbrev at_five : Clock ℕ
at_five = record { monotonic_time = some 5; wake_up_list = some two_entries }

wake_up_list_check_and_execute_lem_example :
    (l' : WakeUpList ℕ) × (wake_up_list_check_and_execute at_five 0 ≡ (
      record at_five { wake_up_list = some l' },
      run_all (due (monotonic_time_get_ticks_global at_five) two_entries.entries) 0,
    ))
    × (l'.entries ≡ waiting (monotonic_time_get_ticks_global at_five) two_entries.entries)
    × IsCounted l'
wake_up_list_check_and_execute_lem_example =
    wake_up_list_check_and_execute_lem at_five two_entries 0 refl
      record { count = refl; room = omega arith }

-- A task whose future is ready at once.
abbrev brief : Task ℕ
brief = record {
  address = 0x100;
  future = record {
    address = 0x200;
    poll = λ w. (future_ready, w);
    cleanup = none;
    is_completed = false;
    waker = some (record { address = 0x300; ref_count = 1 });
  };
}

abbrev one_task : Executor ℕ
one_task = record { task_queue = brief ∷ []; should_poll = true; task_count = 1 }

abbrev world : World ℕ
world = record { env = 0; should_poll = true; freed = [] }

executor_round_lem_example :
    (kept : List (Task ℕ)) × (done : List (Task ℕ)) × (w' : World ℕ) × Polled one_task.task_queue
      world kept done w'
    × (executor_round one_task world ≡ (
      not (some_left kept) && not w'.should_poll,
      record one_task { task_queue = kept; task_count = length kept },
      record w' { should_poll = false },
    ))
executor_round_lem_example = executor_round_lem one_task world refl (omega arith)

abbrev finished : Task ℕ
finished = record brief { future = record brief.future { is_completed = true } }

brief-Polled : Polled (brief ∷ []) world [] (finished ∷ []) (remove finished world)
unfolding shogun_os.Executor.poll_task
brief-Polled = finishes refl none_left

brief-AllQuiet : AllQuiet (brief ∷ [])
unfolding shogun_os.Executor.run_cleanup
brief-AllQuiet = also record { poll = λ w. refl; cleanup = λ w. refl } nobody

released_example : (remove finished world).freed ≡ memory_of_all (finished ∷ []) ++ world.freed
released_example = released brief-Polled brief-AllQuiet

-- The same task with the cleanup of an RTC future.
abbrev clock_task : Task ℕ
clock_task = record finished {
  future = record finished.future { cleanup = some (async_rtc_future_cleanup 0x200) };
}

rtc_future_freed_twice_example :
    (remove clock_task world).freed ≡ 0x100 ∷ 0x200 ∷ 0x300 ∷ 0x200 ∷ []
rtc_future_freed_twice_example =
    rtc_future_freed_twice clock_task (record { address = 0x300; ref_count = 1 }) world refl refl
      refl

abbrev at_tick : ℕ → Clock (World ℕ)
at_tick t = record { monotonic_time = some t; wake_up_list = none }

sleep_future_wraps_example :
    (target : ℕ) × ((sleep_future_create true true 256 (at_tick 0xFFFFFFFF)).0 ≡ some target)
    × (sleep_future_poll target (at_tick 0xFFFFFFFF) ≡ future_ready)
sleep_future_wraps_example =
    sleep_future_wraps (at_tick 0xFFFFFFFF) 0xFFFFFFFF 256 refl (omega arith) (omega arith)
      (omega arith)

-- A line that is always ready.
abbrev ready_bus : Bus
ready_bus = record { reply = λ k. 0x60; reads = 0; trace = [] }

ready_bus-ReadyWithin : ReadyWithin 1 ready_bus
ready_bus-ReadyWithin k = (0, omega arith, omega arith)

abbrev ok_text : List ℕ
ok_text = b'o' ∷ b'k' ∷ []

async_serial_write_lem_example :
    (f : AsyncSerialWrite) × (f' : AsyncSerialWrite) × (b' : Bus) × (async_serial_write_create true
        ok_text
        (length ok_text)
      ≡ some f)
    × (poll_until_ready (1 * length ok_text + 1) 1 f ready_bus ≡ some (f', b'))
    × (f'.written ≡ length ok_text)
    × (sent b'.trace ≡ pushed ok_text (sent ready_bus.trace))
async_serial_write_lem_example = async_serial_write_lem 1 ok_text ready_bus ready_bus-ReadyWithin

-- A future that is never ready was spawned, and polled once.
abbrev endless : Future ℕ
endless = record {
  address = 0x300;
  poll = λ w. (future_pending, w);
  cleanup = none;
  is_completed = false;
  waker = none;
}

abbrev start_world : World ℕ
start_world = record { env = 0; should_poll = false; freed = [] }

abbrev spawned : Executor ℕ × World ℕ
spawned = executor_spawn (some 0x400) none executor_init endless start_world

Reached-IsSane_example : IsSane 1 (executor_round spawned.0 spawned.1).1
Reached-IsSane_example =
    Reached-IsSane (round (spawn begins (some 0x400) none endless refl)) (omega arith)
