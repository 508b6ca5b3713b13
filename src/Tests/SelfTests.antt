-- ===== src/Tests/SelfTests.antt =====
-- The kernel's tests of the heap, run on a heap of one free segment of 1024 bytes at 0x200000.
use shogun_os.Base.{
  ℕ, zero, suc, ◌≡◌, refl, true, Option, none, some, List, [], ◌∷◌, if◌then◌else◌, ◌==◌, add32,
  codes, arith,
}
use shogun_os.PortManager.{static_ports}
use shogun_os.Memory.{Heap, malloc, free}
use shogun_os.Idt.Registry.{no_handlers}
use shogun_os.Idt.Chip.{standard_pic}
use shogun_os.Printing.{string_out}
use shogun_os.Harness.{Harness, TestEntry, run_tests}
use shogun_os.Harness.Report.{
  Action, asserted, worked, holds, is_true, holding, failing, check, act_all, assertions,
  all_assertions, begun, Runs, Counts, verdict, run_tests_lem,
}
use shogun_os.Kernel.SelfTest.{Bench, kernel_file}
use shogun_os.Kernel.SelfTest.Storage.{
  run_memory_tests, memory_alloc_basic, memory_alloc_zero, memory_alloc_and_free,
  memory_multiple_alloc_free, malloc_in, free_in, fill_numbers, check_numbers, use_three,
  write_three, free_three,
}

abbrev heap : Heap
heap = record { word = λ a. if a == 0x200000 then 1024 else 0; first_free = 0x200000 }

abbrev harness : Harness (Bench ℕ)
harness = record {
  tests_passed = 0;
  tests_failed = 0;
  prints = [];
  machine = record {
    heap = heap;
    ports = static_ports;
    bus = record { reply = λ k. 0; reads = 0; trace = [] };
    registry = record { interrupt_handlers = no_handlers; handlers_initialized = true };
    pic = standard_pic;
  };
}

-- The counters, and the free list as addresses and sizes, up to four segments.
abbrev segments_of : ℕ → Heap → (p : ℕ) → List (ℕ × ℕ)
segments_of zero h p = []
segments_of (suc n) h p =
    if p == 0 then [] else (p, h.word p) ∷ segments_of n h (h.word (add32 p 4))

abbrev outcome : Option (Harness (Bench ℕ)) → ℕ × ℕ × List (ℕ × ℕ)
outcome none = (0, 0, [])
outcome (some h) =
    (h.tests_passed, h.tests_failed, segments_of 4 h.machine.heap h.machine.heap.first_free)

-- Thirteen assertions pass and none fails. Three segments are left free, of which the second reaches four bytes into
-- the third.
memory_tests_run :
    outcome (run_memory_tests 6 harness)
    ≡ (13, 0, (2097152, 960) ∷ (2098116, 44) ∷ (2098164, 24) ∷ [])
unfolding run_memory_tests memory_alloc_basic memory_alloc_zero memory_alloc_and_free
    memory_multiple_alloc_free malloc_in free_in fill_numbers check_numbers use_three write_three
    free_three run_tests shogun_os.Harness.run_each shogun_os.Harness.report
    shogun_os.Harness.test_assert shogun_os.Harness.test_assert_equal malloc
    shogun_os.Memory.allocate shogun_os.Memory.allocate_loop shogun_os.Memory.place
    shogun_os.Memory.take_from free shogun_os.Memory.deallocate shogun_os.Memory.retype
    shogun_os.Memory.find_place shogun_os.Memory.put_back shogun_os.Memory.merge_after
    shogun_os.Memory.merge_before shogun_os.Memory.segments_adjacent
memory_tests_run = refl

-- The machine behind a call of malloc, and behind one of free.
abbrev behind_malloc : Option (ℕ × Harness (Bench ℕ)) → Bench ℕ
behind_malloc none = harness.machine
behind_malloc (some (ptr, h)) = h.machine

abbrev behind_test : Option (Harness (Bench ℕ)) → Bench ℕ
behind_test none = harness.machine
behind_test (some h) = h.machine

abbrev two_tests : List (TestEntry (Bench ℕ))
two_tests =
    record { name = codes "memory_alloc_basic"; func = memory_alloc_basic 6 }
    ∷ record { name = codes "memory_alloc_zero"; func = memory_alloc_zero 6 }
    ∷ []

-- The first allocates, asserts that it got memory, and frees; the second allocates and frees.
abbrev their_actions : List (List (Action (Bench ℕ)))
their_actions =
    (worked (behind_malloc (malloc_in 6 10 harness))
      ∷ asserted (holds 1 (codes "Basic allocation should succeed") kernel_file 247)
      ∷ worked (behind_test (memory_alloc_basic 6 harness))
      ∷ [])
    ∷ (worked (
          behind_test (
            memory_alloc_zero 6
              (record harness { machine = behind_test (memory_alloc_basic 6 harness) })))
        ∷ [])
    ∷ []

two_tests-Runs : Runs two_tests (begun 2 harness) their_actions
unfolding Runs act_all check memory_alloc_basic memory_alloc_zero malloc_in free_in
    shogun_os.Harness.test_assert malloc shogun_os.Memory.allocate shogun_os.Memory.allocate_loop
    shogun_os.Memory.place shogun_os.Memory.take_from free shogun_os.Memory.deallocate
    shogun_os.Memory.retype shogun_os.Memory.find_place shogun_os.Memory.put_back
    shogun_os.Memory.merge_after shogun_os.Memory.merge_before shogun_os.Memory.segments_adjacent
two_tests-Runs = (refl, (refl, tt))

run_tests_lem_example :
    (h' : Harness (Bench ℕ)) × (run_tests two_tests harness ≡ some h')
    × Counts h' (holding (all_assertions their_actions)) (failing (all_assertions their_actions))
    × (verdict h'
        ≡ string_out (
            if failing (all_assertions their_actions) == 0
            then codes "All tests passed!\n"
            else codes "Some tests failed!\n")
          ∷ [])
unfolding all_assertions assertions holding failing is_true
run_tests_lem_example =
    run_tests_lem two_tests their_actions harness two_tests-Runs (omega arith) (omega arith)
