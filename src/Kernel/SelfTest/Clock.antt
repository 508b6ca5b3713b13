-- ===== src/Kernel/SelfTest/Clock.antt =====
-- The built-in tests of the clock in src/kernel.c: they pass, and put back what they took.
use shogun_os.Base.{
  ℕ, ◌+◌, ◌≤◌, ◌≡◌, ◌≢◌, refl, sym, ◌∙◌, ◌⊎◌, inl, inr, true, false, not, some, [], ◌∷◌, ◌==◌,
  arith, Bool-cases,
}
use mathlib.Core.Path.{subst}
use shogun_os.Io.{Bus}
use shogun_os.PortManager.{Ports, is_port_in_use, release_port}
use shogun_os.PortManager.Inv.{IsValid}
use shogun_os.PortManager.Scan.{used}
use shogun_os.Memory.{Heap, malloc, free}
use shogun_os.Memory.Chain.{Chain}
use shogun_os.Idt.Registry as Handlers
use shogun_os.Idt.Registry.{Registry, handler_of}
use shogun_os.Idt.Chip.{standard_pic}
use shogun_os.Rtc.{RtcDriver, TimeData, acquire_rtc, set_data_format, returned}
use shogun_os.Rtc.Messages.{init_rtc_messages}
use shogun_os.Rtc.Polling.{IsPeriodic}
use shogun_os.Rtc.Pair.{control, datum, with_both, BothHeld, Blocked, both_requested, Holds-port_of}
use shogun_os.Rtc.Acquire.{Owns}
use shogun_os.Rtc.Update.{read_rtc_time_keeps}
use shogun_os.Rtc.Writing.{write_rtc_time_lem}
use shogun_os.Harness.{Harness, test_assert}
use shogun_os.Kernel.SelfTest.{
  Bench, new_hour, in_range, behind_read, open_rtc, close_rtc, exercise_rtc, write_and_verify,
}

shorter : (polls : ℕ) (r : ℕ → ℕ) → IsPeriodic polls 3 r → IsPeriodic polls 0 r
shorter polls r c = record {
  ends = c.ends;
  calm = λ k j busy clear small. c.calm k j busy clear (omega arith);
}

-- The driver that the test gets, and the bus behind its first access.
abbrev pub driver_of : Ports → RtcDriver
driver_of s = record { control_port = control s; data_port = datum s; nmi_enabled = true }

abbrev pub formatted : Ports → Bus → Bus
formatted s b = set_data_format (with_both s) (some (driver_of s)) b

init_rtc_returns :
    (s : Ports) (b : Bus)
    → BothHeld s
    → (acquire_rtc true s b ≡ (some (driver_of s), with_both s, formatted s b))
      × (init_rtc_messages true s ≡ [])
unfolding acquire_rtc init_rtc_messages
init_rtc_returns s b h =
    let there = h.there in
    let there' = h.there' in
    (rw (acquire_rtc, there, there') refl, rw (init_rtc_messages, there, there') refl)

module _ {S : Type 0} where
  -- What the tests need: one free segment with room, two free ports for the clock and two free handles,
  -- a valid registry of handlers, the standard controllers and a periodic clock.
  pub record IsPrepared (a n polls : ℕ) (m : Bench S) : Type 0 where
    pub chain : Chain m.heap.word m.heap.first_free ((a, n) ∷ [])
    pub ports : IsValid m.ports
    pub control_free : is_port_in_use m.ports 0x70 ≡ false
    pub data_free : is_port_in_use m.ports 0x71 ≡ false
    pub handles : used m.ports.registry + 2 ≤ 64
    pub registry : Handlers.IsValid m.registry
    pub pic : m.pic ≡ standard_pic
    pub clock : IsPeriodic polls 3 m.bus.reply

  -- The two counters.
  abbrev pub Tally : (passed failed : ℕ) → Harness (Bench S) → Type 0
  Tally passed failed h = (h.tests_passed ≡ passed) × (h.tests_failed ≡ failed)

  -- Both ports are held behind the two requests.
  pub holds_both : (a n polls : ℕ) (m : Bench S) → IsPrepared a n polls m → BothHeld m.ports
  holds_both a n polls m p = elim (both_requested m.ports p.ports) [
    | inl refused ↦ absurd (unblocked (refused.reason))
    | inr (inl refused) ↦ absurd (unblocked (refused.reason))
    | inr (inr held) ↦ held
  ]
    where
      unblocked : Blocked m.ports → ⊥
      unblocked (inl busy) = let free = p.control_free in cc
      unblocked (inr (inl busy)) = let free = p.data_free in cc
      unblocked (inr (inr full)) = omega (arith, full, p.handles)

  -- The test opens the driver.
  abbrev pub opened : Heap → Harness (Bench S) → Harness (Bench S)
  opened heap h = record h {
    machine = record h.machine {
      heap = heap;
      ports = with_both h.machine.ports;
      bus = formatted h.machine.ports h.machine.bus;
    };
  }

  pub open_rtc_lem :
      (fuel ptr : ℕ) (heap : Heap) (h : Harness (Bench S))
      → malloc fuel h.machine.heap 12 ≡ some (ptr, heap)
      → ptr ≢ 0
      → BothHeld h.machine.ports
      → open_rtc fuel h
        ≡ some (some (record { driver = driver_of h.machine.ports; address = ptr }), opened heap h)
  unfolding open_rtc
  open_rtc_lem fuel ptr heap h allocates there both =
      let (returns, silent) = init_rtc_returns h.machine.ports h.machine.bus both in
      let not_null : not (ptr == 0) ≡ true = ground (arith, there) in
      rw (open_rtc, allocates, not_null, returns, not_null, returns, silent) refl

  abbrev pub closed : Heap → RtcDriver → Harness (Bench S) → Harness (Bench S)
  closed heap d h = record h {
    machine = record h.machine {
      heap = heap;
      ports = release_port (release_port h.machine.ports d.control_port) d.data_port;
    };
  }

  pub close_rtc_lem :
      (fuel ptr : ℕ) (heap : Heap) (d : RtcDriver) (h : Harness (Bench S))
      → free fuel h.machine.heap ptr ≡ some heap
      → close_rtc fuel (record { driver = d; address = ptr }) h ≡ some (closed heap d h)
  unfolding close_rtc
  close_rtc_lem fuel ptr heap d h frees = rw (close_rtc, frees) refl

  -- A step of a test that makes `k` assertions, all of which hold, and changes only the bus.
  pub record Advances (k : ℕ) (h h' : Harness (Bench S)) : Type 0 where
    pub passed : h'.tests_passed ≡ h.tests_passed + k
    pub failed : h'.tests_failed ≡ h.tests_failed
    pub bus : Bus
    pub machine : h'.machine ≡ record h.machine { bus = bus }
    pub reply : bus.reply ≡ h.machine.bus.reply

  write_and_verify_lem :
      (polls : ℕ) (d : RtcDriver) (stack time : TimeData) (h : Harness (Bench S))
      → Owns h.machine.ports d
      → IsPeriodic polls 3 h.machine.bus.reply
      → (h' : Harness (Bench S)) × (write_and_verify 2 polls d stack time h ≡ some h')
        × Advances 2 h h'
  unfolding write_and_verify test_assert
  write_and_verify_lem polls d stack time h owns clock =
      let s = h.machine.ports in
      let control = Holds-port_of s d.control_port 0x70 owns.control in
      let datum = Holds-port_of s d.data_port 0x71 owns.data_port in
      let (b1, writes, reply1, _) =
        write_rtc_time_lem s d control datum polls time.seconds time.minutes (new_hour time)
          h.machine.bus (shorter polls h.machine.bus.reply clock) in
      let (verify, b2, reads, reply2) =
        read_rtc_time_keeps s d 0x70 0x71 control datum polls stack b1
          (subst (λ r. IsPeriodic polls 3 r) (sym reply1) clock) in
      rw (write_and_verify, writes, reads)
        (
          _,
          refl,
          record {
            passed = omega arith;
            failed = refl;
            bus = b2;
            machine = refl;
            reply = reply2 ∙ reply1;
          },
        )

  pub exercise_rtc_lem :
      (polls : ℕ) (d : RtcDriver) (stack verify_stack : TimeData) (h : Harness (Bench S))
      → Owns h.machine.ports d
      → IsPeriodic polls 3 h.machine.bus.reply
      → (k : ℕ) × (h' : Harness (Bench S)) × (exercise_rtc 2 polls d stack verify_stack h ≡ some h')
        × Advances k h h'
        × ((k ≡ 1) ⊎ (k ≡ 3))
  unfolding exercise_rtc test_assert
  exercise_rtc_lem polls d stack verify_stack h owns clock =
      let s = h.machine.ports in
      let control = Holds-port_of s d.control_port 0x70 owns.control in
      let datum = Holds-port_of s d.data_port 0x71 owns.data_port in
      let (time, b1, reads, reply1) =
        read_rtc_time_keeps s d 0x70 0x71 control datum polls stack h.machine.bus clock in
      elim (Bool-cases (in_range time)) [
        | inr invalid ↦
            rw (exercise_rtc, reads, invalid)
              (
                1,
                _,
                refl,
                record {
                  passed = omega arith;
                  failed = refl;
                  bus = b1;
                  machine = refl;
                  reply = reply1;
                },
                inl refl,
              )
        | inl valid ↦
            let (h', runs, adv) =
              write_and_verify_lem polls d verify_stack time (behind_read (returned 0) time b1 h)
                owns (subst (λ r. IsPeriodic polls 3 r) (sym reply1) clock) in
            rw (exercise_rtc, reads, valid)
              (
                3,
                h',
                runs,
                record {
                  passed = adv.passed ∙ omega arith;
                  failed = adv.failed;
                  bus = adv.bus;
                  machine = adv.machine;
                  reply = adv.reply ∙ reply1;
                },
                inr refl,
              )
      ]
