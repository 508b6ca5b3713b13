-- ===== src/Kernel/SelfTest/Suite.antt =====
-- The two tests of the clock in src/kernel.c, one behind the other, in the harness of src/test.c.
use shogun_os.Base.{
  ℕ, ◌+◌, ◌^◌, ◌≤◌, ◌<◌, ◌≡◌, refl, sym, ◌∙◌, ◌⊎◌, inl, inr, some, [], ◌∷◌, arith, codes, int_bound,
}
use mathlib.Core.Path.{subst}
use shogun_os.Memory.Chain.{Chain}
use shogun_os.Idt.Registry as Handlers
use shogun_os.Idt.Pic.{Handler}
use shogun_os.Rtc.{TimeData}
use shogun_os.Rtc.Polling.{IsPeriodic}
use shogun_os.Rtc.Pair.{SamePorts}
use shogun_os.Printing.{string_out, number_out}
use shogun_os.Harness.{Harness, run_tests, run_each, report}
use shogun_os.Harness.Report.{Counts, verdict, report_lem, in_int_lem, machine-report}
use shogun_os.Kernel.SelfTest.{Bench, run_rtc_tests}
use shogun_os.Kernel.SelfTest.Clock.{IsPrepared}
use shogun_os.Kernel.SelfTest.Passing.{
  Restored, Unregistered, rtc_basic_init_lem, rtc_interrupt_registration_lem,
}

module _ {S : Type 0} where
  -- What a test leaves serves the next one.
  LeftBy-IsPrepared :
      (a n polls : ℕ) (m m' : Bench S)
      → IsPrepared a n polls m
      → Restored a n m m'
      → m'.registry ≡ m.registry
      → IsPrepared a (n + 4) polls m'
  LeftBy-IsPrepared a n polls m m' p r same = record {
    chain = r.chain;
    ports = r.ports.valid;
    control_free = r.ports.kept 0x70 ∙ p.control_free;
    data_free = r.ports.kept 0x71 ∙ p.data_free;
    handles = omega (arith, r.count, p.handles);
    registry = subst (λ x. Handlers.IsValid x) (sym same) p.registry;
    pic = r.pic ∙ p.pic;
    clock = subst (λ x. IsPeriodic polls 3 x) (sym r.reply) p.clock;
  }

  -- What the suite leaves: the segment has grown by eight bytes, exactly the ports are in use that were
  -- before, and no handler is left at vector 72.
  pub record LeftBy (a n : ℕ) (m m' : Bench S) : Type 0 where
    pub chain : Chain m'.heap.word m'.heap.first_free ((a, n + 8) ∷ [])
    pub ports : SamePorts m.ports m'.ports
    pub registry : Unregistered m.registry m'.registry

  -- From one free segment with room, with the two ports of the clock and two handles free, a valid
  -- registry of handlers, the standard controllers and a periodic clock: the tests of the clock return,
  -- three or five assertions are counted as passed and none as failed, the last line says that all tests
  -- passed, exactly the ports are in use that were before, no handler is left at vector 72 and the others
  -- are as before. The free segment is eight bytes longer than its memory.
  pub run_rtc_tests_lem :
      (a n polls : ℕ) (stack verify_stack : TimeData) (handler : Handler S) (h : Harness (Bench S))
      → IsPrepared a n polls h.machine
      → 32 ≤ n
      → a + 16 + n < 2 ^ 32
      → (k : ℕ) × (h' : Harness (Bench S)) × (run_rtc_tests 2 2 polls stack verify_stack handler h
          ≡ some h')
        × ((k ≡ 3) ⊎ (k ≡ 5))
        × Counts h' k 0
        × (verdict h' ≡ string_out (codes "All tests passed!\n") ∷ [])
        × LeftBy a n h.machine h'.machine
  unfolding run_rtc_tests run_tests run_each
  run_rtc_tests_lem a n polls stack verify_stack handler h p room fits =
      let h0 : Harness (Bench S) = record {
        tests_passed = 0;
        tests_failed = 0;
        prints =
            string_out (codes "\n")
            ∷ string_out (codes "rtc_basic_init")
            ∷ string_out (codes "Running test: ")
            ∷ string_out (codes " tests...\n\n")
            ∷ number_out 2
            ∷ string_out (codes "Running ")
            ∷ h.prints;
        machine = h.machine;
      } in
      let (k, h1, first, counted, which, kept, same) =
        rtc_basic_init_lem a n polls stack verify_stack h0 p room (omega (arith, fits)) in
      let h2 = record h1 {
        prints =
            string_out (codes "\n")
            ∷ string_out (codes "rtc_interrupt_registration")
            ∷ string_out (codes "Running test: ")
            ∷ h1.prints;
      } in
      let (h3, second, counted', kept', unregistered) =
        rtc_interrupt_registration_lem a (n + 4) polls handler h2
          (LeftBy-IsPrepared a n polls h.machine h1.machine p kept same) (omega arith)
          (omega (arith, fits)) in
      let (counts, says) =
        report_lem h3 (k + 1) 0 (counted'.passed ∙ omega (arith, counted.passed))
          (counted'.failed ∙ counted.failed) in
      let total : (h3.tests_passed ≡ k + 1) × (h3.tests_failed ≡ 0) =
        (counted'.passed ∙ omega (arith, counted.passed), counted'.failed ∙ counted.failed) in
      let few : h3.tests_passed < int_bound = elim which [
        | inl e ↦ omega (arith, total.0, e)
        | inr e ↦ omega (arith, total.0, e)
      ] in
      let defined = in_int_lem h3 few (omega (arith, total.1)) in
      let longer : n + 4 + 4 ≡ n + 8 = omega arith in
      let left : LeftBy a n h.machine h3.machine = record {
        chain =
            subst (λ l. Chain h3.machine.heap.word h3.machine.heap.first_free ((a, l) ∷ [])) longer
              kept'.chain;
        ports = record {
          valid = kept'.ports.valid;
          kept = λ q. kept'.ports.kept q ∙ kept.ports.kept q;
        };
        registry = subst (λ r. Unregistered r h3.machine.registry) same unregistered;
      } in
      rw (run_rtc_tests, run_tests, run_each, first, second, defined)
        (
          k + 1,
          report h3,
          refl,
          elim which [ inl e ↦ inl (omega (arith, e)) | inr e ↦ inr (omega (arith, e)) ],
          counts,
          says,
          subst (λ m. LeftBy a n h.machine m) (sym (machine-report h3)) left,
        )
