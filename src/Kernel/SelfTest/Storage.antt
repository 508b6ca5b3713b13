-- ===== src/Kernel/SelfTest/Storage.antt =====
-- The built-in tests of the heap in src/kernel.c. A `char` is the low byte of the word at its address,
-- an `int` is the word.
use shogun_os.Base.{
  ℕ, zero, suc, ◌+◌, ◌-◌, ◌*◌, ◌%◌, ◌&&◌, Bool, true, false, not, Option, none, some, [], ◌∷◌, ◌==◌,
  add32, codes,
}
use shogun_os.Memory.{Heap, malloc, free, set_size}
use shogun_os.Harness.{Harness, test_assert_equal, run_tests}
use shogun_os.Kernel.SelfTest.{Bench, assert, kernel_file}

abbrev pub int_at : Heap → (address : ℕ) → ℕ
int_at h address = h.word address

abbrev pub set_int : (address value : ℕ) → Heap → Heap
set_int address value h = set_size h address value

abbrev pub char_at : Heap → (address : ℕ) → ℕ
char_at h address = h.word address % 256

abbrev pub set_char : (address value : ℕ) → Heap → Heap
set_char address value h = set_size h address (h.word address - h.word address % 256 + value)

-- `p != NULL`
abbrev pub there : (ptr : ℕ) → Bool
there ptr = not (ptr == 0)

-- `for (int i = 0; i < 5; i++) numbers[i] = i * 10;` from `i` on, `n` rounds.
unfoldable pub fill_numbers : (numbers i n : ℕ) → Heap → Heap
fill_numbers numbers i zero h = h
fill_numbers numbers i (suc n) h =
    fill_numbers numbers (i + 1) n (set_int (add32 numbers (i * 4)) (i * 10) h)

module _ {S : Type 0} where
  abbrev pub with_heap : Heap → Harness (Bench S) → Harness (Bench S)
  with_heap heap h = record h { machine = record h.machine { heap = heap } }

  -- `free(ptr)` in a test.
  unfoldable pub free_in : (fuel ptr : ℕ) → Harness (Bench S) → Option (Harness (Bench S))
  free_in fuel ptr h = elim (free fuel h.machine.heap ptr) [
    | none ↦ none
    | some heap ↦ some (with_heap heap h)
  ]

  -- `ptr = malloc(size)` in a test.
  unfoldable pub malloc_in : (fuel size : ℕ) → Harness (Bench S) → Option (ℕ × Harness (Bench S))
  malloc_in fuel size h = elim (malloc fuel h.machine.heap size) [
    | none ↦ none
    | some (ptr, heap) ↦ some (ptr, with_heap heap h)
  ]

  unfoldable pub memory_alloc_basic : (fuel : ℕ) → Harness (Bench S) → Option (Harness (Bench S))
  memory_alloc_basic fuel h = elim (malloc_in fuel 10 h) [
    | none ↦ none
    | some (ptr, h1) ↦
        let h2 = assert (there ptr) (codes "Basic allocation should succeed") 247 h1 in
        elim (there ptr) [ true ↦ free_in fuel ptr h2 | false ↦ some h2 ]
  ]

  unfoldable pub memory_alloc_zero : (fuel : ℕ) → Harness (Bench S) → Option (Harness (Bench S))
  memory_alloc_zero fuel h = elim (malloc_in fuel 0 h) [
    | none ↦ none
    | some (ptr, h1) ↦ elim (there ptr) [ true ↦ free_in fuel ptr h1 | false ↦ some h1 ]
  ]

  -- The second loop over the numbers.
  unfoldable pub check_numbers : (numbers i n : ℕ) → Harness (Bench S) → Harness (Bench S)
  check_numbers numbers i zero h = h
  check_numbers numbers i (suc n) h = check_numbers numbers (i + 1) n (
      test_assert_equal (i * 10) (int_at h.machine.heap (add32 numbers (i * 4)))
        (codes "Array values should be correct") kernel_file 271 h)

  unfoldable pub memory_alloc_and_free : (fuel : ℕ) → Harness (Bench S) → Option (Harness (Bench S))
  memory_alloc_and_free fuel h = elim (malloc_in fuel (5 * 4) h) [
    | none ↦ none
    | some (numbers, h1) ↦
        let h2 = assert (there numbers) (codes "Array allocation should succeed") 262 h1 in
        elim (there numbers) [
          | true ↦
              free_in fuel numbers (
                check_numbers numbers 0 5 (with_heap (fill_numbers numbers 0 5 h2.machine.heap) h2))
          | false ↦ some h2
        ]
  ]

  -- The three writes and what they are compared with.
  unfoldable pub write_three : (str1 arr1 str2 : ℕ) → Harness (Bench S) → Harness (Bench S)
  write_three str1 arr1 str2 h =
      let heap = set_char str2 b'B' (set_int arr1 100 (set_char str1 b'A' h.machine.heap)) in
      test_assert_equal b'B' (char_at heap str2) (codes "Second string should hold value")
        kernel_file 294
        (test_assert_equal 100 (int_at heap arr1) (codes "Array should hold value") kernel_file 293
          (test_assert_equal b'A' (char_at heap str1) (codes "First string should hold value")
            kernel_file 292 (with_heap heap h)))

  -- `free(arr1); free(str1); free(str2);`
  unfoldable pub free_three :
      (fuel str1 arr1 str2 : ℕ) → Harness (Bench S) → Option (Harness (Bench S))
  free_three fuel str1 arr1 str2 h = elim (free_in fuel arr1 h) [
    | none ↦ none
    | some h1 ↦ elim (free_in fuel str1 h1) [ none ↦ none | some h2 ↦ free_in fuel str2 h2 ]
  ]

  -- The test behind its three allocations.
  unfoldable pub use_three :
      (fuel str1 arr1 str2 : ℕ) → Harness (Bench S) → Option (Harness (Bench S))
  use_three fuel str1 arr1 str2 h =
      let h1 = assert (there str1) (codes "First string allocation should succeed") 283 h in
      let h2 = assert (there arr1) (codes "Array allocation should succeed") 284 h1 in
      let h3 = assert (there str2) (codes "Second string allocation should succeed") 285 h2 in
      elim ((there str1 && there arr1) && there str2) [
        | true ↦ free_three fuel str1 arr1 str2 (write_three str1 arr1 str2 h3)
        | false ↦ some h3
      ]

  unfoldable pub memory_multiple_alloc_free :
      (fuel : ℕ) → Harness (Bench S) → Option (Harness (Bench S))
  memory_multiple_alloc_free fuel h = elim (malloc_in fuel 20 h) [
    | none ↦ none
    | some (str1, h1) ↦ elim (malloc_in fuel (10 * 4) h1) [
      | none ↦ none
      | some (arr1, h2) ↦ elim (malloc_in fuel 30 h2) [
        | none ↦ none
        | some (str2, h3) ↦ use_three fuel str1 arr1 str2 h3
      ]
    ]
  ]

  unfoldable pub run_memory_tests : (fuel : ℕ) → Harness (Bench S) → Option (Harness (Bench S))
  run_memory_tests fuel h =
      run_tests
        (record { name = codes "memory_alloc_basic"; func = memory_alloc_basic fuel }
          ∷ record { name = codes "memory_alloc_zero"; func = memory_alloc_zero fuel }
          ∷ record { name = codes "memory_alloc_and_free"; func = memory_alloc_and_free fuel }
          ∷ record {
            name = codes "memory_multiple_alloc_free";
            func = memory_multiple_alloc_free fuel;
          }
          ∷ [])
        h
