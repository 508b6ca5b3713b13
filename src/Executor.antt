-- ===== src/Executor.antt =====
-- src/async_executor.c: the task queue and the executor's loop. A future's virtual table is what its
-- functions do to the world, `S` with the poll flag and the log of freed memory. A pointer is an
-- address; the result of `malloc` is an argument, `none` for NULL.
pub mod Pass
pub mod Release
pub mod Sleep
pub mod SerialWrite
pub mod Run
pub mod Sleeper
use shogun_os.Base.{
  ℕ, ◌+◌, Bool, true, false, not, ◌&&◌, Option, none, some, List, [], ◌∷◌, ◌==◌, if◌then◌else◌,
  add32, sub32, is_some,
}

pub data FutureState : Type 0 where
  future_ready future_pending : FutureState

pub record World {ℓ} (S : Type ℓ) : Type ℓ where
  pub env : S
  -- `g_should_poll`
  pub should_poll : Bool
  -- The addresses given to `free`, the newest first.
  pub freed : List ℕ

pub record Waker : Type 0 where
  pub address : ℕ
  pub ref_count : ℕ

pub record Future {ℓ} (S : Type ℓ) : Type ℓ where
  pub address : ℕ
  pub poll : World S → FutureState × World S
  pub cleanup : Option (World S → World S)
  pub is_completed : Bool
  pub waker : Option Waker

pub record Task {ℓ} (S : Type ℓ) : Type ℓ where
  pub address : ℕ
  pub future : Future S

pub record Executor {ℓ} (S : Type ℓ) : Type ℓ where
  pub task_queue : List (Task S)
  pub should_poll : Bool
  pub task_count : ℕ

-- Its `wake` function sets the poll flag, and nothing calls it.
unfoldable pub waker_create : (memory : Option ℕ) → Option Waker
waker_create none = none
waker_create (some address) = some (record { address = address; ref_count = 1 })

abbrev pub is_ready : FutureState → Bool
is_ready future_ready = true
is_ready future_pending = false

module _ {ℓ} {S : Type ℓ} where
  unfoldable pub executor_init : Executor S
  executor_init = record { task_queue = []; should_poll = true; task_count = 0 }

  unfoldable pub executor_wake_up : World S → World S
  executor_wake_up w = record w { should_poll = true }

  -- The function that a waker holds.
  unfoldable pub executor_waker_wake : World S → World S
  executor_waker_wake w = record w { should_poll = true }

  unfoldable pub executor_spawn :
      (task_memory waker_memory : Option ℕ) → Executor S → Future S → World S → Executor S × World S
  unfolding waker_create executor_wake_up
  executor_spawn none waker_memory executor future w = (executor, w)
  executor_spawn (some address) waker_memory executor future w =
      let task : Task S = record {
        address = address;
        future = record future { waker = waker_create waker_memory };
      } in
      (
        record executor {
          task_queue = task ∷ executor.task_queue;
          task_count = add32 executor.task_count 1;
        },
        executor_wake_up w,
      )

  -- The result, the task afterwards, and the world.
  unfoldable pub poll_task : Task S → World S → Bool × Task S × World S
  poll_task task w =
      if task.future.is_completed
      then (true, task, w)
      else (let (state, w') = task.future.poll w in
          if is_ready state
          then (true, record task { future = record task.future { is_completed = true } }, w')
          else (false, task, w'))

  unfoldable pub free : (address : ℕ) → World S → World S
  free address w = record w { freed = address ∷ w.freed }

  unfoldable pub run_cleanup : Option (World S → World S) → World S → World S
  run_cleanup none w = w
  run_cleanup (some cleanup) w = cleanup w

  -- The reference count was 1 before the decrement.
  unfoldable pub drop_waker : Option Waker → World S → World S
  unfolding free
  drop_waker none w = w
  drop_waker (some waker) w = if waker.ref_count == 1 then free waker.address w else w

  -- What `executor_run` does to a task that it has taken out of the queue.
  unfoldable pub remove : Task S → World S → World S
  unfolding run_cleanup drop_waker free
  remove task w =
      free task.address (
        free task.future.address (drop_waker task.future.waker (run_cleanup task.future.cleanup w)))

  -- The inner loop: the queue, the count and `has_ready_tasks` afterwards.
  unfoldable pub poll_all :
      List (Task S) → (task_count : ℕ) → World S → List (Task S) × ℕ × Bool × World S
  unfolding poll_task remove
  poll_all [] task_count w = ([], task_count, false, w)
  poll_all (t ∷ ts) task_count w =
      let (should_remove, t', w') = poll_task t w in
      elim should_remove [
        | true ↦ poll_all ts (sub32 task_count 1) (remove t' w')
        | false ↦
            let (kept, count, more, w'') = poll_all ts task_count w' in
            (t' ∷ kept, count, true, w'')
      ]

  -- One round of the loop of `executor_run`. The first result tells whether the round halts the
  -- processor until the next interrupt.
  unfoldable pub executor_round : Executor S → World S → Bool × Executor S × World S
  unfolding poll_all
  executor_round executor w =
      let (kept, count, has_ready_tasks, w') = poll_all executor.task_queue executor.task_count w in
      let executor' = record executor { task_queue = kept; task_count = count } in
      if not has_ready_tasks && not w'.should_poll
      then (true, executor', w')
      else (false, executor', record w' { should_poll = false })

-- The executor's own tick counter, `g_monotonic_ticks`, and the global executor.
pub record Async {ℓ} (S : Type ℓ) : Type ℓ where
  pub executor : Executor S
  pub monotonic_ticks : ℕ

module _ {ℓ} {S : Type ℓ} where
  -- The messages are left out.
  unfoldable pub monotonic_time_init : Async S → Async S
  monotonic_time_init a = record a { monotonic_ticks = 0 }

  unfoldable pub monotonic_time_get_ticks : Async S → ℕ
  monotonic_time_get_ticks a = a.monotonic_ticks

  unfoldable pub monotonic_time_increment : Async S → Async S
  monotonic_time_increment a = record a { monotonic_ticks = add32 a.monotonic_ticks 1 }

  unfoldable pub async_init : Async S → Async S
  unfolding monotonic_time_init
  async_init a = monotonic_time_init (record a { executor = executor_init })

  unfoldable pub async_serial_interrupt_handler : World S → World S
  unfolding executor_wake_up
  async_serial_interrupt_handler w = executor_wake_up w
