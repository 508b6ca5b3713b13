-- ===== src/Harness/Report.antt =====
-- What the report of the test harness in src/test.c says.
use shogun_os.Base.{
  ℕ, ◌+◌, ◌<◌, ◌≡◌, refl, ◌∙◌, Bool, true, false, some, List, [], ◌∷◌, ◌++◌, ◌==◌, if◌then◌else◌,
  int_bound, length, codes, arith, Bool-cases, inl, inr,
}
use shogun_os.Printing.{Print, string_out, number_out}
use shogun_os.Harness.{
  Harness, TestEntry, test_assert, test_assert_equal, print_place, print_numbers, run_each, report,
  run_tests, in_int,
}

-- One of the two kinds of assertion.
pub data Assertion : Type 0 where
  holds : (condition : ℕ) (message file : List ℕ) (line : ℕ) → Assertion
  equal : (expected actual : ℕ) (message file : List ℕ) (line : ℕ) → Assertion

unfoldable pub is_true : Assertion → Bool
is_true (holds condition message file line) = if condition == 0 then false else true
is_true (equal expected actual message file line) = expected == actual

-- The assertions that hold, and those that fail.
unfoldable pub holding : List Assertion → ℕ
holding [] = 0
holding (a ∷ list) = (if is_true a then 1 else 0) + holding list

unfoldable pub failing : List Assertion → ℕ
failing [] = 0
failing (a ∷ list) = (if is_true a then 0 else 1) + failing list

holding-append : (xs ys : List Assertion) → holding (xs ++ ys) ≡ holding xs + holding ys
unfolding holding
holding-append [] ys = omega arith
holding-append (x ∷ xs) ys = omega (arith, holding-append xs ys)

failing-append : (xs ys : List Assertion) → failing (xs ++ ys) ≡ failing xs + failing ys
unfolding failing
failing-append [] ys = omega arith
failing-append (x ∷ xs) ys = omega (arith, failing-append xs ys)

-- What a test does, one step behind the other: it makes an assertion, prints, or works on the machine.
pub data Action (M : Type 0) : Type 0 where
  asserted : Assertion → Action M
  printed : Print → Action M
  worked : (machine : M) → Action M

module _ {M : Type 0} where
  unfoldable pub check : Assertion → Harness M → Harness M
  check (holds condition message file line) h = test_assert condition message file line h
  check (equal expected actual message file line) h =
      test_assert_equal expected actual message file line h

  -- These actions, one behind the other.
  unfoldable pub act_all : List (Action M) → Harness M → Harness M
  act_all [] h = h
  act_all (asserted a ∷ list) h = act_all list (check a h)
  act_all (printed p ∷ list) h = act_all list (record h { prints = p ∷ h.prints })
  act_all (worked m ∷ list) h = act_all list (record h { machine = m })

  -- The assertions among them.
  unfoldable pub assertions : List (Action M) → List Assertion
  assertions [] = []
  assertions (asserted a ∷ list) = a ∷ assertions list
  assertions (printed p ∷ list) = assertions list
  assertions (worked m ∷ list) = assertions list

  -- Those of a run of several tests, in order.
  unfoldable pub all_assertions : List (List (Action M)) → List Assertion
  all_assertions [] = []
  all_assertions (list ∷ lists) = assertions list ++ all_assertions lists

  -- The name of a test is printed.
  abbrev pub announced : (name : List ℕ) → Harness M → Harness M
  announced name h = record h {
    prints =
        string_out (codes "\n") ∷ string_out name ∷ string_out (codes "Running test: ") ∷ h.prints;
  }

  -- From this state on the tests return, one behind the other, and these are the actions of each.
  unfoldable pub Runs : List (TestEntry M) → Harness M → List (List (Action M)) → Type 0
  Runs [] h [] = Unit
  Runs [] h (list ∷ lists) = ⊥
  Runs (t ∷ tests) h [] = ⊥
  Runs (t ∷ tests) h (list ∷ lists) =
      (t.func (announced t.name h) ≡ some (act_all list (announced t.name h)))
      × Runs tests (act_all list (announced t.name h)) lists

  -- The counters are reset, and the number of tests is printed.
  abbrev pub begun : (tests : ℕ) → Harness M → Harness M
  begun tests h = record {
    tests_passed = 0;
    tests_failed = 0;
    machine = h.machine;
    prints =
        string_out (codes " tests...\n\n")
        ∷ number_out tests
        ∷ string_out (codes "Running ")
        ∷ h.prints;
  }

  -- The counters of a harness.
  pub record Counts (h : Harness M) (good bad : ℕ) : Type 0 where
    pub passed : h.tests_passed ≡ good
    pub failed : h.tests_failed ≡ bad

  check_lem :
      (a : Assertion) (h : Harness M)
      → Counts
          (check a h)
          (h.tests_passed + (if is_true a then 1 else 0))
          (h.tests_failed + (if is_true a then 0 else 1))
  unfolding check is_true test_assert test_assert_equal print_place print_numbers
  check_lem (holds condition message file line) h = elim (Bool-cases (condition == 0)) [
    | inl fails ↦ rw fails record { passed = omega arith; failed = omega arith }
    | inr passes ↦ rw passes record { passed = omega arith; failed = omega arith }
  ]
  check_lem (equal expected actual message file line) h = elim (Bool-cases (expected == actual)) [
    | inl passes ↦ rw passes record { passed = omega arith; failed = omega arith }
    | inr fails ↦ rw fails record { passed = omega arith; failed = omega arith }
  ]

  act_all_lem :
      (list : List (Action M)) (h : Harness M)
      → Counts
          (act_all list h)
          (h.tests_passed + holding (assertions list))
          (h.tests_failed + failing (assertions list))
  unfolding act_all assertions holding failing
  act_all_lem [] h = record { passed = omega arith; failed = omega arith }
  act_all_lem (asserted a ∷ list) h =
      let one = check_lem a h in
      let rest = act_all_lem list (check a h) in
      record {
        passed = ground (arith, rest.passed, one.passed);
        failed = ground (arith, rest.failed, one.failed);
      }
  act_all_lem (printed p ∷ list) h = act_all_lem list (record h { prints = p ∷ h.prints })
  act_all_lem (worked m ∷ list) h = act_all_lem list (record h { machine = m })

  run_each_lem :
      (tests : List (TestEntry M)) (lists : List (List (Action M))) (h : Harness M)
      → Runs tests h lists
      → (h' : Harness M) × (run_each tests h ≡ some h')
        × Counts h'
            (h.tests_passed + holding (all_assertions lists))
            (h.tests_failed + failing (all_assertions lists))
  unfolding run_each Runs all_assertions holding failing
  run_each_lem [] [] h runs = (h, refl, record { passed = omega arith; failed = omega arith })
  run_each_lem [] (list ∷ lists) h runs = elim runs [ ]
  run_each_lem (t ∷ tests) [] h runs = elim runs [ ]
  run_each_lem (t ∷ tests) (list ∷ lists) h (here, there) =
      let more = all_assertions lists in
      let c = act_all_lem list (announced t.name h) in
      let (h', runs, rest) = run_each_lem tests lists (act_all list (announced t.name h)) there in
      (
        h',
        rw (run_each, here) runs,
        record {
          passed = rest.passed ∙ omega (arith, c.passed, holding-append (assertions list) more);
          failed = rest.failed ∙ omega (arith, c.failed, failing-append (assertions list) more);
        },
      )

  -- The last line that is printed.
  pub verdict : Harness M → List Print
  verdict h = elim (h.prints) [ [] ↦ [] | line ∷ before ↦ line ∷ [] ]

  pub report_lem :
      (h : Harness M) (passed failed : ℕ)
      → h.tests_passed ≡ passed
      → h.tests_failed ≡ failed
      → Counts (report h) passed failed
        × (verdict (report h)
            ≡ string_out
                (if failed == 0 then codes "All tests passed!\n" else codes "Some tests failed!\n")
              ∷ [])
  unfolding report verdict
  report_lem h passed failed p f = elim (Bool-cases (h.tests_failed == 0)) [
    | inl none_failed ↦
        let same = rw f at none_failed in
        (rw none_failed record { passed = p; failed = f }, rw (none_failed, same) refl)
    | inr some_failed ↦
        let same = rw f at some_failed in
        (rw some_failed record { passed = p; failed = f }, rw (some_failed, same) refl)
  ]

  pub in_int_lem :
      (h : Harness M) → h.tests_passed < int_bound → h.tests_failed < int_bound → in_int h ≡ true
  in_int_lem h passed failed = ground (arith, passed, failed)

  pub machine-report : (h : Harness M) → (report h).machine ≡ h.machine
  unfolding report
  machine-report h = elim (Bool-cases (h.tests_failed == 0)) [
    | inl none_failed ↦ rw none_failed refl
    | inr some_failed ↦ rw some_failed refl
  ]

  -- For any tests that return from the state in which each is called, each having made assertions,
  -- printed and worked on the machine, which may depend on that state, and whatever the counters were
  -- before: when fewer than 2^31 assertions hold and fewer than 2^31 fail, `run_tests` returns, counts
  -- exactly those that hold and those that fail, and its last line says that all tests passed exactly
  -- when no assertion failed.
  pub run_tests_lem :
      (tests : List (TestEntry M)) (lists : List (List (Action M))) (h : Harness M)
      → Runs tests (begun (length tests) h) lists
      → holding (all_assertions lists) < int_bound
      → failing (all_assertions lists) < int_bound
      → (h' : Harness M) × (run_tests tests h ≡ some h')
        × Counts h' (holding (all_assertions lists)) (failing (all_assertions lists))
        × (verdict h'
            ≡ string_out (
                if failing (all_assertions lists) == 0
                then codes "All tests passed!\n"
                else codes "Some tests failed!\n")
              ∷ [])
  unfolding run_tests
  run_tests_lem tests lists h runs few few' =
      let (h1, returns, c) = run_each_lem tests lists (begun (length tests) h) runs in
      let passed : h1.tests_passed ≡ holding (all_assertions lists) = omega (arith, c.passed) in
      let failed : h1.tests_failed ≡ failing (all_assertions lists) = omega (arith, c.failed) in
      let (counts, says) =
        report_lem h1 (holding (all_assertions lists)) (failing (all_assertions lists)) passed
          failed in
      let defined = in_int_lem h1 (omega (arith, passed, few)) (omega (arith, failed, few')) in
      (report h1, rw (run_tests, returns, defined) refl, counts, says)
