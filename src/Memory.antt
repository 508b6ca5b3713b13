-- ===== src/Memory.antt =====
-- src/memory.c and src/memory.h: the free-list allocator. A `FreeSegment` at address `a` is the
-- word `size` at `a` and the word `next_segment` at `a + 4`; a `UsedSegment` is the word `size`.
-- Memory is one 32-bit word for each address at which the code reads or writes one.
pub mod Place
pub mod Chain
pub mod Allocate
pub mod FirstFit
pub mod Malloc
pub mod Boot
pub mod Join
pub mod GiveBack
pub mod Insert
pub mod Deallocate
pub mod Report
use shogun_os.Base.{
  ℕ, zero, suc, ◌+◌, ◌-◌, Bool, true, false, not, ◌&&◌, Option, none, some, bit_and, ltb, leb, ◌==◌,
  if◌then◌else◌, add32, sub32, not32,
}

pub record Heap : Type 0 where
  pub word : ℕ → ℕ
  pub first_free : ℕ

abbrev pub sizeof_free_segment : ℕ
sizeof_free_segment = 8

abbrev pub sizeof_used_segment : ℕ
sizeof_used_segment = 4

-- The words of a segment, by the address of its header.
abbrev pub size_at : Heap → ℕ → ℕ
size_at h a = h.word a

abbrev pub next_at : Heap → ℕ → ℕ
next_at h a = h.word (add32 a 4)

abbrev pub update : (ℕ → ℕ) → ℕ → ℕ → ℕ → ℕ
update w a v x = if x == a then v else w x

abbrev pub set_size : Heap → ℕ → ℕ → Heap
set_size h a v = record h { word = update h.word a v }

abbrev pub set_next : Heap → ℕ → ℕ → Heap
set_next h a v = record h { word = update h.word (add32 a 4) v }

-- `prev == NULL ? first_free = v : prev->next_segment = v`
abbrev pub set_link : Heap → ℕ → ℕ → Heap
set_link h prev v = if prev == 0 then record h { first_free = v } else set_next h prev v

-- `size_t` values of one round of the loop of `allocate`.
pub record Placed : Type 0 where
  pub aligned_data_ptr : ℕ
  pub header_ptr : ℕ
  pub full_alloc_size : ℕ

-- The computation of one round, and its two tests: `none` is a segment that does not serve.
unfoldable pub place : (current current_size size alignment : ℕ) → Option Placed
place current current_size size alignment =
    let segment_end = add32 (add32 current sizeof_free_segment) current_size in
    let aligned = bit_and (sub32 segment_end size) (not32 (sub32 alignment 1)) in
    let header = sub32 aligned sizeof_used_segment in
    let full = sub32 segment_end header in
    if leb (add32 current sizeof_free_segment) header && leb full current_size
    then some (record { aligned_data_ptr = aligned; header_ptr = header; full_alloc_size = full })
    else none

-- The writes of the round that serves the request.
unfoldable pub take_from : Heap → (prev current : ℕ) → Placed → Heap
take_from h prev current p =
    let h1 = set_size h p.header_ptr p.full_alloc_size in
    let remaining_size = sub32 (size_at h1 current) p.full_alloc_size in
    if remaining_size == 0
    then set_link h1 prev (next_at h1 current)
    else if ltb remaining_size sizeof_free_segment
    then set_size h1 current (sub32 (size_at h1 current) p.full_alloc_size)
    else set_size h1 current (sub32 (size_at h1 current) p.full_alloc_size)

-- The loop of `allocate`; the outer `none` means that the fuel ran out.
unfoldable pub allocate_loop : ℕ → Heap → (size alignment prev current : ℕ) → Option (ℕ × Heap)
unfolding take_from
allocate_loop zero h size alignment prev current = none
allocate_loop (suc fuel) h size alignment prev current = elim (current == 0) [
  | true ↦ some (0, h)
  | false ↦ elim (place current (size_at h current) size alignment) [
    | some p ↦ some (p.aligned_data_ptr, take_from h prev current p)
    | none ↦ allocate_loop fuel h size alignment current (next_at h current)
  ]
]

unfoldable pub allocate : ℕ → Heap → (size alignment : ℕ) → Option (ℕ × Heap)
unfolding allocate_loop
allocate fuel h size alignment =
    if size == 0 then some (0, h) else allocate_loop fuel h size alignment 0 h.first_free

unfoldable pub malloc : ℕ → Heap → ℕ → Option (ℕ × Heap)
unfolding allocate
malloc fuel h size = allocate fuel h size 8

unfoldable pub segments_adjacent : Heap → (first second : ℕ) → Bool
segments_adjacent h first second =
    second == add32 (add32 first sizeof_free_segment) (size_at h first)

-- `merge_adjacent`, which no other function calls.
unfoldable pub merge_adjacent : Heap → (first second : ℕ) → ℕ × Heap
unfolding segments_adjacent
merge_adjacent h first second =
    if segments_adjacent h first second
    then (let h1 = set_size h first (
          sub32 (add32 (add32 second sizeof_free_segment) (size_at h second))
            (add32 first sizeof_free_segment)) in
        (first, set_next h1 first (next_at h1 second)))
    else (first, h)

-- The search of `deallocate` for the neighbours of the freed block: `(prev, current)`.
unfoldable pub find_place : ℕ → Heap → (freed prev current : ℕ) → Option (ℕ × ℕ)
find_place zero h freed prev current = none
find_place (suc fuel) h freed prev current = elim (current == 0) [
  | true ↦ some (prev, current)
  | false ↦ elim (ltb current freed) [
    | true ↦ find_place fuel h freed current (next_at h current)
    | false ↦ some (prev, current)
  ]
]

unfoldable pub merge_after : Heap → (freed current : ℕ) → Heap
unfolding segments_adjacent
merge_after h freed current =
    if not (current == 0) && segments_adjacent h freed current
    then (let h1 =
          set_size h freed
            (add32 (add32 (size_at h freed) sizeof_free_segment) (size_at h current)) in
        set_next h1 freed (next_at h1 current))
    else h

unfoldable pub merge_before : Heap → (prev freed : ℕ) → Heap
unfolding segments_adjacent
merge_before h prev freed =
    if not (prev == 0) && segments_adjacent h prev freed
    then (let h1 =
          set_size h prev (add32 (add32 (size_at h prev) sizeof_free_segment) (size_at h freed)) in
        set_next h1 prev (next_at h1 freed))
    else h

-- The writes of `deallocate` behind the search.
unfoldable pub put_back : Heap → (freed prev current : ℕ) → Heap
put_back h freed prev current =
    merge_before (merge_after (set_link (set_next h freed current) prev freed) freed current) prev
      freed

-- `freed_block = (FreeSegment*)used_header`, with the size and the pointer that it is given.
unfoldable pub retype : Heap → (freed : ℕ) → Heap
retype h freed =
    let total_size = size_at h freed in
    set_next (set_size h freed (sub32 total_size sizeof_used_segment)) freed 0

unfoldable pub deallocate : ℕ → Heap → (ptr : ℕ) → Option Heap
deallocate fuel h ptr =
    if ptr == 0
    then some h
    else (let freed = sub32 ptr sizeof_used_segment in
        let h1 = retype h freed in
        elim (find_place fuel h1 freed 0 h1.first_free) [
          | none ↦ none
          | some (prev, current) ↦ some (put_back h1 freed prev current)
        ])

unfoldable pub free : ℕ → Heap → ℕ → Option Heap
unfolding deallocate
free fuel h ptr = deallocate fuel h ptr
