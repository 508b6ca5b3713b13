-- ===== src/Executor/Sleep.antt =====
-- src/async_executor.c and src/rtc.c: the futures that sleep, and the time source that they read.
use shogun_os.Base.{
  ℕ, ◌+◌, ◌-◌, ◌≤◌, ◌<◌, ◌≡◌, refl, Bool, true, false, leb, Option, none, some, arith, add32,
  u32_mod, if◌then◌else◌, ap,
}
use shogun_os.Executor.{World, FutureState, future_ready, future_pending, executor_wake_up}
use shogun_os.Wake.{Clock, monotonic_time_get_ticks_global, wake_up_list_add}

module _ {ℓ} {S : Type ℓ} where
  -- `sleep_future_callback`, and `sleep_callback` of rtc.c.
  unfoldable pub sleep_future_callback : World S → World S
  unfolding executor_wake_up
  sleep_future_callback w = executor_wake_up w

  -- The target tick of the new future, or `none` if there is no memory for it.
  unfoldable pub sleep_future_create :
      (future_memory entry_memory : Bool) (ticks : ℕ) → Clock (World S) → Option ℕ × Clock (World S)
  unfolding wake_up_list_add monotonic_time_get_ticks_global sleep_future_callback
  sleep_future_create false entry_memory ticks c = (none, c)
  sleep_future_create true entry_memory ticks c =
      let target_tick = add32 (monotonic_time_get_ticks_global c) ticks in
      (some target_tick, wake_up_list_add entry_memory target_tick (some sleep_future_callback) c)

  unfoldable pub sleep_future_poll : (target_tick : ℕ) → Clock (World S) → FutureState
  unfolding monotonic_time_get_ticks_global
  sleep_future_poll target_tick c =
      if leb target_tick (monotonic_time_get_ticks_global c) then future_ready else future_pending

  -- When there is memory for it, a sleep whose target tick does not wrap is ready, at any later
  -- tick, exactly when its ticks have passed.
  pub sleep_future_lem :
      (c c' : Clock (World S)) (now later ticks : ℕ)
      → c.monotonic_time ≡ some now
      → c'.monotonic_time ≡ some later
      → now ≤ later
      → now + ticks < u32_mod
      → (target : ℕ) × ((sleep_future_create true true ticks c).0 ≡ some target)
        × (sleep_future_poll target c'
            ≡ (if leb ticks (later - now) then future_ready else future_pending))
  unfolding sleep_future_create sleep_future_poll
  sleep_future_lem c c' now later ticks start end order room =
      let tested : leb (now + ticks) later ≡ leb ticks (later - now) = ground arith in
      (
        now + ticks,
        rw (sleep_future_create, monotonic_time_get_ticks_global, start)
            (ap some {x = add32 now ticks} {y = now + ticks} (omega arith)),
        rw (sleep_future_poll, monotonic_time_get_ticks_global, end, tested) refl,
      )

  -- When there is memory for it, a sleep across the wrap of the tick counter is ready at once.
  pub sleep_future_wraps :
      (c : Clock (World S)) (now ticks : ℕ)
      → c.monotonic_time ≡ some now
      → now < u32_mod
      → ticks < u32_mod
      → u32_mod ≤ now + ticks
      → (target : ℕ) × ((sleep_future_create true true ticks c).0 ≡ some target)
        × (sleep_future_poll target c ≡ future_ready)
  unfolding sleep_future_create sleep_future_poll
  sleep_future_wraps c now ticks start word word' past =
      let due : leb (add32 now ticks) now ≡ true = ground arith in
      (
        add32 now ticks,
        rw (sleep_future_create, monotonic_time_get_ticks_global, start) refl,
        rw (sleep_future_poll, monotonic_time_get_ticks_global, start, due) refl,
      )
