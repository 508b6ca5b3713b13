-- ===== src/Memory/Boot.antt =====
-- `init_allocator` of src/memory.c: the search of the memory map that the boot loader left, and the
-- first free segment. The end of the kernel image and the stack pointer are arguments.
pub mod Regions
pub mod First
use shogun_os.Base.{
  ℕ, zero, suc, ◌+◌, ◌*◌, ◌^◌, Bool, true, false, ◌&&◌, Option, none, some, bit_and, ltb, leb, ◌==◌,
  if◌then◌else◌, add32, sub32, not32,
}
use shogun_os.Memory.{Heap, sizeof_free_segment, set_size, set_next}

abbrev pub heap_size : ℕ
heap_size = 2 * 1024 * 1024

-- The fields of `struct multiboot_info` that the code reads, by the address of the structure.
abbrev pub flags_at : Heap → ℕ → ℕ
flags_at h info = h.word info

abbrev pub mmap_length_at : Heap → ℕ → ℕ
mmap_length_at h info = h.word (add32 info 44)

abbrev pub mmap_addr_at : Heap → ℕ → ℕ
mmap_addr_at h info = h.word (add32 info 48)

-- The fields of a `struct memory_map_entry`, by its address.
abbrev pub entry_size : (ℕ → ℕ) → ℕ → ℕ
entry_size w e = w e

abbrev pub base_addr_low : (ℕ → ℕ) → ℕ → ℕ
base_addr_low w e = w (add32 e 4)

abbrev pub length_low : (ℕ → ℕ) → ℕ → ℕ
length_low w e = w (add32 e 12)

abbrev pub entry_type : (ℕ → ℕ) → ℕ → ℕ
entry_type w e = w (add32 e 20)

-- `largest_region_addr` and `largest_region_size`
pub record Region : Type 0 where
  pub addr : ℕ
  pub size : ℕ

-- The test of one entry.
unfoldable pub consider : (ℕ → ℕ) → (current : ℕ) → Region → Region
consider w current best =
    if (entry_type w current == 1) && ltb best.size (length_low w current)
    then if leb heap_size (length_low w current)
      then record { addr = base_addr_low w current; size = length_low w current }
      else best
    else best

-- The loop over the map; `none` means that the fuel ran out.
unfoldable pub scan_regions : ℕ → (ℕ → ℕ) → (end current : ℕ) → Region → Option Region
unfolding consider
scan_regions zero w end current best = none
scan_regions (suc fuel) w end current best = elim (ltb current end) [
  | true ↦
      scan_regions fuel w end (add32 current (add32 (entry_size w current) 4))
        (consider w current best)
  | false ↦ some best
]

abbrev pub reserved_end : (kernel_end esp : ℕ) → ℕ
reserved_end kernel_end esp = if ltb esp kernel_end then kernel_end else esp

-- The part behind the loop.
unfoldable pub place_heap : (reserved : ℕ) → Region → Heap → Heap
place_heap reserved best h =
    if best.size == 0
    then h
    else if leb best.addr reserved && ltb reserved (add32 best.addr best.size)
    then (let heap_start = bit_and (add32 reserved 7) (not32 7) in
        let size = sub32 (sub32 best.size (sub32 heap_start best.addr)) sizeof_free_segment in
        record (set_next (set_size h heap_start size) heap_start 0) { first_free = heap_start })
    else h

unfoldable pub init_allocator : ℕ → (kernel_end esp multiboot_info_ptr : ℕ) → Heap → Option Heap
unfolding scan_regions place_heap
init_allocator fuel kernel_end esp multiboot_info_ptr h =
    if bit_and (flags_at h multiboot_info_ptr) (2 ^ 6) == 0
    then some h
    else (let current = mmap_addr_at h multiboot_info_ptr in
        let end = add32 current (mmap_length_at h multiboot_info_ptr) in
        elim (scan_regions fuel h.word end current (record { addr = 0; size = 0 })) [
          | none ↦ none
          | some best ↦ some (place_heap (reserved_end kernel_end esp) best h)
        ])
