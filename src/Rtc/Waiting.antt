-- ===== src/Rtc/Waiting.antt =====
-- The waits of src/rtc.c, and the future that reads the time.
use shogun_os.Base.{
  ℕ, zero, suc, ◌+◌, ◌%◌, ◌≤◌, ◌<◌, ◌≡◌, refl, ap, Bool, true, false, Option, none, some, ltb, ◌==◌,
  if◌then◌else◌, add32, mul32, u32_mod, arith, Bool-cases, inl, inr, ◌⊎◌, ◌&&◌, is_some,
}
use shogun_os.Io.{Bus}
use shogun_os.PortManager.{Ports}
use shogun_os.Executor.{World, FutureState, future_ready, future_pending, executor_wake_up}
use shogun_os.Wake.{Clock, monotonic_time_get_ticks_global, wake_up_list_add}
use shogun_os.Idt.Pic.{port_of}
use shogun_os.Rtc.Polling.{IsPeriodic}
use shogun_os.Rtc.Update.{read_rtc_time_lem}
use shogun_os.Rtc.{RtcDriver, TimeData, CallResult, failed, returned, read_rtc_time}

abbrev pub max_loop_count : ℕ
max_loop_count = 1000000

-- The loop of `sleep_ticks`, with `left` of its rounds to go; `tick k` is the counter behind the k-th
-- halt. The results are the rounds that are left and the last tick that was read.
unfoldable pub sleep_loop : (left : ℕ) → (tick : ℕ → ℕ) → (k target_tick current_tick : ℕ) → ℕ × ℕ
sleep_loop zero tick k target_tick current_tick = (0, current_tick)
sleep_loop (suc left) tick k target_tick current_tick = elim (ltb current_tick target_tick) [
  | true ↦ sleep_loop left tick (k + 1) target_tick (tick k)
  | false ↦ (suc left, current_tick)
]

-- `true` if the warning is printed; the second result is the last tick that was read.
pub sleep_ticks : (tick : ℕ → ℕ) → (system_tick_count ticks : ℕ) → Bool × ℕ
unfolding sleep_loop
sleep_ticks tick system_tick_count ticks =
    if ticks == 0
    then (false, system_tick_count)
    else (let (left, current) =
          sleep_loop max_loop_count tick 0 (add32 system_tick_count ticks) system_tick_count in
        (left == 0, current))

module _ {ℓ} {S : Type ℓ} where
  -- `sleep_callback`
  abbrev pub sleep_callback : World S → World S
  sleep_callback w = executor_wake_up w

  -- The part of `sleep_seconds` up to its busy wait, with the target tick.
  unfoldable pub begin_sleep :
      (memory : Bool) → (seconds : ℕ) → Clock (World S) → ℕ × Clock (World S)
  unfolding monotonic_time_get_ticks_global wake_up_list_add
  begin_sleep memory seconds c =
      let target_tick = add32 (monotonic_time_get_ticks_global c) (mul32 seconds 256) in
      (target_tick, wake_up_list_add memory target_tick (some sleep_callback) c)

  -- The busy wait, against the clocks that it sees; `none` means that the fuel ran out.
  unfoldable pub busy_wait :
      (fuel : ℕ) → (seen : ℕ → Clock (World S)) → (k target_tick : ℕ) → Option ℕ
  unfolding monotonic_time_get_ticks_global
  busy_wait zero seen k target_tick = none
  busy_wait (suc fuel) seen k target_tick =
      elim (ltb (monotonic_time_get_ticks_global (seen k)) target_tick) [
        | true ↦ busy_wait fuel seen (k + 1) target_tick
        | false ↦ some k
      ]

-- `AsyncRTCFuture`: the driver, and whether the three pointers are there.
pub record AsyncRtc : Type 0 where
  pub rtc : Option RtcDriver
  pub targets : Bool

unfoldable pub async_rtc_read_time_create :
    (memory : Bool) → Option RtcDriver → (targets : Bool) → Option AsyncRtc
async_rtc_read_time_create false rtc targets = none
async_rtc_read_time_create true rtc targets = some (record { rtc = rtc; targets = targets })

abbrev state_of : CallResult → FutureState
state_of failed = future_pending
state_of (returned result) = future_ready

-- The time is what is written through the pointers, if it is.
unfoldable pub async_rtc_future_poll :
    (rounds polls : ℕ)
    → Ports
    → AsyncRtc
    → (stack : TimeData) → Bus
    → Option (FutureState × Option TimeData × Bus)
async_rtc_future_poll rounds polls s future stack b =
    if is_some future.rtc && future.targets
    then elim (read_rtc_time rounds polls s future.rtc true stack b) [
      | none ↦ none
      | some (result, time, b') ↦ some (state_of result, time, b')
    ]
    else some (future_pending, none, b)

sleep_loop_lem :
    (left : ℕ) (tick : ℕ → ℕ) (k target current : ℕ)
    → ((sleep_loop left tick k target current).0 ≡ 0)
      ⊎ (target ≤ (sleep_loop left tick k target current).1)
unfolding sleep_loop
sleep_loop_lem zero tick k target current = inl refl
sleep_loop_lem (suc left) tick k target current = elim (Bool-cases (ltb current target)) [
  | inl early ↦ rw (sleep_loop, early) (sleep_loop_lem left tick (k + 1) target (tick k))
  | inr reached ↦ rw (sleep_loop, reached) (inr (ground arith))
]

-- A sleep ends within a million halts, however the counter runs; when the warning is not printed and the
-- target tick does not wrap, the last tick that was read is at least as many ticks behind the first.
pub sleep_ticks_lem :
    (tick : ℕ → ℕ) (start ticks : ℕ)
    → start + ticks < u32_mod
    → ((sleep_ticks tick start ticks).0 ≡ true) ⊎ (start + ticks ≤ (sleep_ticks tick start ticks).1)
unfolding sleep_ticks
sleep_ticks_lem tick start ticks room = elim (Bool-cases (ticks == 0)) [
  | inl none_asked ↦ rw none_asked (inr (ground arith))
  | inr some_asked ↦
      let target : add32 start ticks ≡ start + ticks = omega (arith, room) in
      rw (some_asked, target)
        (elim (sleep_loop_lem max_loop_count tick 0 (start + ticks) start) [
          | inl out ↦ inl (ap (λ n. n == 0) out)
          | inr reached ↦ inr reached
        ])
]

-- With a periodic clock and a driver that holds its ports, the future is ready at its first poll.
pub async_rtc_future_lem :
    (s : Ports) (d : RtcDriver) (control data_port polls : ℕ) (stack : TimeData) (b : Bus)
    → port_of s d.control_port ≡ some control
    → port_of s d.data_port ≡ some data_port
    → IsPeriodic polls 3 b.reply
    → (time : TimeData) × (b' : Bus) × (async_rtc_future_poll 2 polls s
          (record { rtc = some d; targets = true })
          stack
          b
        ≡ some (future_ready, some time, b'))
unfolding async_rtc_future_poll
async_rtc_future_lem s d control data_port polls stack b has_control has_data clock =
    let (at, b', runs, _, _, _, _) =
      read_rtc_time_lem s d control data_port has_control has_data polls stack b clock in
    let time : TimeData = record {
      seconds = b.reply (at + 1) % 256;
      minutes = b.reply (at + 2) % 256;
      hours = b.reply (at + 3) % 256;
    } in
    (time, b', rw (async_rtc_future_poll, runs) refl)
