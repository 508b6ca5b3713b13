-- ===== src/Kernel/SelfTest/Passing.antt =====
-- The built-in tests of the clock in src/kernel.c pass, and put back what they took.
use shogun_os.Base.{
  ℕ, ◌+◌, ◌^◌, ◌≤◌, ◌<◌, ◌≡◌, refl, ap, sym, ◌∙◌, ◌⊎◌, inl, inr, true, none, some, List, [], ◌∷◌,
  ◌==◌, if◌then◌else◌, arith, codes, same_test,
}
use mathlib.Core.Path.{subst}
use shogun_os.Io.{Bus}
use shogun_os.PortManager.{Ports, release_port}
use shogun_os.PortManager.Scan.{used}
use shogun_os.Memory.{Heap, free}
use shogun_os.Memory.Chain.{Chain}
use shogun_os.Memory.Malloc.{malloc-free_grows}
use shogun_os.Idt.Registry as Handlers
use shogun_os.Idt.Registry.{Registry, handler_of}
use shogun_os.Idt.Pic.{Handler}
use shogun_os.Idt.Chip.{standard_pic}
use shogun_os.Rtc.{RtcDriver, TimeData}
use shogun_os.Rtc.Polling.{IsPeriodic}
use shogun_os.Rtc.Acquire.{Owns}
use shogun_os.Rtc.Pair.{
  control, datum, SamePorts, BothHeld, control_first, control_first_used, with_both, Holds-port_of,
}
use shogun_os.Rtc.Interrupts.{enable_rtc_interrupts}
use shogun_os.Rtc.Messages.{enable_rtc_messages}
use shogun_os.Rtc.Periodic.{
  enable_rtc_interrupts_lem, disable_rtc_interrupts_lem, reply-enable_rtc_interrupts,
  reply-disable_rtc_interrupts,
}
use shogun_os.Rtc.Cmos.{Cmos, set_data_format_lem}
use shogun_os.Printing.{string_out}
use shogun_os.Harness.{Harness, test_assert}
use shogun_os.Kernel.SelfTest.{
  Bench, assert, print_all, rtc_basic_init, register_and_unregister, rtc_interrupt_registration,
}
use shogun_os.Kernel.SelfTest.Clock.{
  IsPrepared, driver_of, opened, formatted, holds_both, open_rtc_lem, close_rtc_lem,
  exercise_rtc_lem,
}

-- The formatted clock answers as before.
reply-formatted : (s : Ports) (b : Bus) → BothHeld s → (formatted s b).reply ≡ b.reply
reply-formatted s b h =
    (set_data_format_lem (with_both s) (driver_of s)
      (Holds-port_of (with_both s) (control s) 0x70 h.holds)
      (Holds-port_of (with_both s) (datum s) 0x71 h.holds') b
      (record { index = 0; register = λ q. 0 }) 0).1

module _ {S : Type 0} where
  -- A test leaves the bench as it was, but for the segment, which has grown by four bytes.
  pub record Restored (a n : ℕ) (m m' : Bench S) : Type 0 where
    pub chain : Chain m'.heap.word m'.heap.first_free ((a, n + 4) ∷ [])
    pub ports : SamePorts m.ports m'.ports
    pub count : used m'.ports.registry ≡ used m.ports.registry
    pub pic : m'.pic ≡ m.pic
    pub reply : m'.bus.reply ≡ m.bus.reply

  -- The assertions that a test made.
  pub record Counted (k : ℕ) (h h' : Harness (Bench S)) : Type 0 where
    pub passed : h'.tests_passed ≡ h.tests_passed + k
    pub failed : h'.tests_failed ≡ h.tests_failed

  -- The bench behind `close_rtc`, when the rest of the test kept the ports and the controllers.
  restored :
      (a n : ℕ) (m m' : Bench S) (heap : Heap)
      → BothHeld m.ports
      → Chain heap.word heap.first_free ((a, n + 4) ∷ [])
      → m'.ports ≡ with_both m.ports
      → m'.pic ≡ m.pic
      → m'.bus.reply ≡ m.bus.reply
      → Restored a n m (record m' {
        heap = heap;
        ports = release_port (release_port m'.ports (control m.ports)) (datum m.ports);
      })
  restored a n m m' heap both chain ports pic reply = record {
    chain = chain;
    ports =
        subst
          (λ t. SamePorts m.ports (release_port (release_port t (control m.ports)) (datum m.ports)))
          (sym ports) (control_first both);
    count =
        ap (λ t. used (release_port (release_port t (control m.ports)) (datum m.ports)).registry)
          ports
        ∙ control_first_used both;
    pic = pic;
    reply = reply;
  }

  -- The harness behind the opening of the driver, whose success is asserted.
  abbrev begun :
      (text message : List ℕ) (line : ℕ) (heap : Heap) → Harness (Bench S) → Harness (Bench S)
  begun text message line heap h =
      assert true message line (opened heap (print_all (string_out text ∷ []) h))

  pub rtc_basic_init_lem :
      (a n polls : ℕ) (stack verify_stack : TimeData) (h : Harness (Bench S))
      → IsPrepared a n polls h.machine
      → 32 ≤ n
      → a + 12 + n < 2 ^ 32
      → (k : ℕ) × (h' : Harness (Bench S)) × (rtc_basic_init 2 2 polls stack verify_stack h
          ≡ some h')
        × Counted k h h'
        × ((k ≡ 2) ⊎ (k ≡ 4))
        × Restored a n h.machine h'.machine
        × (h'.machine.registry ≡ h.machine.registry)
  unfolding rtc_basic_init test_assert
  rtc_basic_init_lem a n polls stack verify_stack h p room fits =
      let s = h.machine.ports in
      let both = holds_both a n polls h.machine p in
      let (ptr, heap1, heap2, allocates, there, frees, chain) =
        malloc-free_grows h.machine.heap a n 12 (omega arith) (omega arith) fits p.chain in
      let h0 = print_all (string_out (codes "Attempting to initialize RTC...\n") ∷ []) h in
      let opens = open_rtc_lem 2 ptr heap1 h0 allocates there both in
      let h2 =
        begun (codes "Attempting to initialize RTC...\n")
          (codes "RTC initialization should succeed") 305 heap1 h in
      let reply = reply-formatted s h.machine.bus both in
      let (k, h3, exercises, adv, which) =
        exercise_rtc_lem polls (driver_of s) stack verify_stack h2
          (record { control = both.holds; data_port = both.holds' })
          (subst (λ r. IsPeriodic polls 3 r) (sym reply) p.clock) in
      let closes =
        close_rtc_lem 2 ptr heap2 (driver_of s) h3
          (ap (λ m. free 2 m.heap ptr) adv.machine ∙ frees) in
      rw (rtc_basic_init, opens, exercises, closes)
        (
          k + 1,
          _,
          refl,
          record { passed = adv.passed ∙ omega arith; failed = adv.failed },
          elim which [ inl e ↦ inl (omega (arith, e)) | inr e ↦ inr (omega (arith, e)) ],
          restored a n h.machine h3.machine heap2 both chain (ap (λ m. m.ports) adv.machine)
              (ap (λ m. m.pic) adv.machine) (ap (λ m. m.bus.reply) adv.machine ∙ adv.reply ∙ reply),
          ap (λ m. m.registry) adv.machine,
        )

  -- A registration that was taken back: no handler at vector 72, the others as before.
  pub record Unregistered (r r' : Registry (Handler S)) : Type 0 where
    pub valid : Handlers.IsValid r'
    pub handlers : (v : ℕ) → handler_of r' v ≡ (if 72 == v then none else handler_of r v)

  register_and_unregister_lem :
      (d : RtcDriver) (handler : Handler S) (h : Harness (Bench S))
      → Owns h.machine.ports d
      → Handlers.IsValid h.machine.registry
      → h.machine.pic ≡ standard_pic
      → (h' : Harness (Bench S)) × (register_and_unregister d handler h ≡ h')
        × Counted 0 h h'
        × (r : Registry (Handler S)) × (b : Bus) × (h'.machine
            ≡ record h.machine { registry = r; bus = b })
        × Unregistered h.machine.registry r
        × (b.reply ≡ h.machine.bus.reply)
  unfolding register_and_unregister enable_rtc_messages
  register_and_unregister_lem d handler h owns ok pic =
      let m = h.machine in
      let control = Holds-port_of m.ports d.control_port 0x70 owns.control in
      let datum = Holds-port_of m.ports d.data_port 0x71 owns.data_port in
      let cmos : Cmos = record { index = 0; register = λ q. 0 } in
      let (r1, b1, enables, valid, with_it, _, _) =
        enable_rtc_interrupts_lem m.ports d control datum m.registry (some handler) m.bus cmos ok in
      let (r2, b2, disables, valid', without, _) =
        disable_rtc_interrupts_lem m.ports d control datum r1 b1 cmos valid in
      let kept =
        ap (λ x. x.2.reply) (sym enables)
        ∙ reply-enable_rtc_interrupts m.ports d control datum m.registry (some handler) m.bus ok in
      let kept' =
        ap (λ x. x.2.reply) (sym disables)
        ∙ reply-disable_rtc_interrupts m.ports d control datum r1 b1 in
      let enables' =
        ap (λ c. enable_rtc_interrupts m.registry c m.ports (some d) (some handler) m.bus) pic
        ∙ enables in
      rw (register_and_unregister, enables', enables', disables)
        (
          _,
          refl,
          record { passed = omega arith; failed = refl },
          r2,
          b2,
          refl,
          record {
            valid = valid';
            handlers = λ v.
                without v
                ∙ ap (λ o. if 72 == v then none else o) (with_it v)
                ∙ same_test (72 == v) none (some handler) (handler_of m.registry v);
          },
          kept' ∙ kept,
        )

  pub rtc_interrupt_registration_lem :
      (a n polls : ℕ) (handler : Handler S) (h : Harness (Bench S))
      → IsPrepared a n polls h.machine
      → 32 ≤ n
      → a + 12 + n < 2 ^ 32
      → (h' : Harness (Bench S)) × (rtc_interrupt_registration 2 handler h ≡ some h')
        × Counted 1 h h'
        × Restored a n h.machine h'.machine
        × Unregistered h.machine.registry h'.machine.registry
  unfolding rtc_interrupt_registration test_assert
  rtc_interrupt_registration_lem a n polls handler h p room fits =
      let s = h.machine.ports in
      let both = holds_both a n polls h.machine p in
      let (ptr, heap1, heap2, allocates, there, frees, chain) =
        malloc-free_grows h.machine.heap a n 12 (omega arith) (omega arith) fits p.chain in
      let h0 = print_all (string_out (codes "Testing RTC interrupt registration...\n") ∷ []) h in
      let opens = open_rtc_lem 2 ptr heap1 h0 allocates there both in
      let h2 =
        begun (codes "Testing RTC interrupt registration...\n")
          (codes "RTC initialization should succeed for interrupt test") 356 heap1 h in
      let reply = reply-formatted s h.machine.bus both in
      let (h3, runs, counted, r, b, machine, unregistered, reply') =
        register_and_unregister_lem (driver_of s) handler h2
          (record { control = both.holds; data_port = both.holds' }) p.registry p.pic in
      let closes =
        close_rtc_lem 2 ptr heap2 (driver_of s) h3 (ap (λ m. free 2 m.heap ptr) machine ∙ frees) in
      rw (rtc_interrupt_registration, opens, runs, closes)
        (
          _,
          refl,
          record { passed = counted.passed ∙ omega arith; failed = counted.failed },
          restored a n h.machine h3.machine heap2 both chain (ap (λ m. m.ports) machine)
              (ap (λ m. m.pic) machine) (ap (λ m. m.bus.reply) machine ∙ reply' ∙ reply),
          subst (λ x. Unregistered h.machine.registry x) (ap (λ m. m.registry) (sym machine))
              unregistered,
        )
