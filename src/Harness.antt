-- ===== src/Harness.antt =====
-- src/test.c and src/test.h: the kernel's own test harness. What is printed is kept as the calls of
-- output_string and put_i32, the newest first.
pub mod Report
use shogun_os.Printing.{Print, string_out, number_out}
use shogun_os.Base.{
  ℕ, ◌+◌, Bool, true, false, Option, none, some, List, [], ◌∷◌, ◌==◌, if◌then◌else◌, ◌&&◌, ltb,
  int_bound, length, codes,
}

-- The counters are `static int`. They count on here, and nothing lowers them in a run: one that ends at
-- 2^31 or above is one whose increment has left the range of `int`, where C defines nothing. `machine` is
-- the rest of the state that the tests work on.
pub record Harness (M : Type 0) : Type 0 where
  pub tests_passed : ℕ
  pub tests_failed : ℕ
  pub prints : List Print
  pub machine : M

-- A test; `none` if it does not return, or does what C does not define.
pub record TestEntry (M : Type 0) : Type 0 where
  pub name : List ℕ
  pub func : Harness M → Option (Harness M)

module _ {M : Type 0} where
  abbrev pub say : List ℕ → Harness M → Harness M
  say text h = record h { prints = string_out text ∷ h.prints }

  abbrev pub say_number : ℕ → Harness M → Harness M
  say_number num h = record h { prints = number_out num ∷ h.prints }

  -- The message with its place, behind the word for the outcome.
  unfoldable pub print_place : (word message file : List ℕ) → (line : ℕ) → Harness M → Harness M
  print_place word message file line h =
      say_number line (say (codes ":") (say file (say (codes " (") (say message (say word h)))))

  abbrev pub pass : Harness M → Harness M
  pass h = record h { tests_passed = h.tests_passed + 1 }

  abbrev pub fail : Harness M → Harness M
  fail h = record h { tests_failed = h.tests_failed + 1 }

  unfoldable pub test_assert :
      (condition : ℕ) → (message file : List ℕ) → (line : ℕ) → Harness M → Harness M
  unfolding print_place
  test_assert condition message file line h =
      if condition == 0
      then fail (say (codes ")\n") (print_place (codes "FAIL: ") message file line h))
      else pass (say (codes ")\n") (print_place (codes "PASS: ") message file line h))

  -- The two numbers behind the place.
  unfoldable pub print_numbers : (expected actual : ℕ) → Harness M → Harness M
  print_numbers expected actual h = say (codes "\n") (
      say_number actual
        (say (codes ", Actual: ") (say_number expected (say (codes ") Expected: ") h))))

  unfoldable pub test_assert_equal :
      (expected actual : ℕ) → (message file : List ℕ) → (line : ℕ) → Harness M → Harness M
  unfolding print_place print_numbers
  test_assert_equal expected actual message file line h =
      if expected == actual
      then pass (print_numbers expected actual (print_place (codes "PASS: ") message file line h))
      else fail (print_numbers expected actual (print_place (codes "FAIL: ") message file line h))

  -- The loop of `run_tests`.
  unfoldable pub run_each : List (TestEntry M) → Harness M → Option (Harness M)
  run_each [] h = some h
  run_each (t ∷ tests) h =
      elim (t.func (say (codes "\n") (say t.name (say (codes "Running test: ") h)))) [
        | none ↦ none
        | some h' ↦ run_each tests h'
      ]

  -- The report behind the loop.
  unfoldable pub report : Harness M → Harness M
  report h =
      let h1 = say_number h.tests_passed (say (codes "\nTest Results: ") h) in
      let h2 = say (codes " failed\n") (say_number h1.tests_failed (say (codes " passed, ") h1)) in
      if h2.tests_failed == 0
      then say (codes "All tests passed!\n") h2
      else say (codes "Some tests failed!\n") h2

  -- No increment of a counter has overflowed.
  abbrev pub in_int : Harness M → Bool
  in_int h = ltb h.tests_passed int_bound && ltb h.tests_failed int_bound

  -- `none` as well when a counter has overflowed.
  unfoldable pub run_tests : List (TestEntry M) → Harness M → Option (Harness M)
  unfolding run_each report
  run_tests tests h =
      let h0 = record h { tests_passed = 0; tests_failed = 0 } in
      elim (run_each tests
        (say (codes " tests...\n\n") (say_number (length tests) (say (codes "Running ") h0)))) [
          | none ↦ none
          | some h1 ↦ if in_int h1 then some (report h1) else none
        ]
