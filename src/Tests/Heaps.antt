-- ===== src/Tests/Heaps.antt =====
-- A heap of one free segment of 256 bytes at 0x1000.
use shogun_os.Memory.GiveBack.{give_back, span}
use shogun_os.Memory.Deallocate.{free_lem}
use shogun_os.Memory.Boot.{Region, reserved_end, init_allocator}
use shogun_os.Memory.Boot.Regions.{Largest}
use shogun_os.Memory.Boot.First.{Heaped, Elsewhere, init_allocator_lem}
use shogun_os.Base.{
  inr, ℕ, ◌+◌, ◌-◌, ◌^◌, ◌≡◌, ◌≢◌, ◌⊎◌, refl, some, List, [], ◌∷◌, arith, ◌==◌, if◌then◌else◌,
}
use shogun_os.Memory.{Heap, malloc, free}
use shogun_os.Memory.Chain.{Seg, Chain, Laid}
use shogun_os.Memory.Allocate.{Reachable}
use shogun_os.Memory.FirstFit.{NoneFits}
use shogun_os.Memory.Malloc.{Allocated, malloc_lem, malloc-free_grows, malloc_wraps}

abbrev one_segment : Heap
one_segment = record { word = λ a. if a == 0x1000 then 256 else 0; first_free = 0x1000 }

abbrev segments : List Seg
segments = (0x1000, 256) ∷ []

segments-Laid : Laid 0 segments
segments-Laid = (omega arith, omega arith, omega arith, tt)

segments-Reachable : Reachable 32 segments
segments-Reachable = (omega arith, tt)

segments-Chain : Chain one_segment.word one_segment.first_free segments
segments-Chain = (refl, omega arith, refl, refl)

malloc_lem_example :
    ((malloc 2 one_segment 32 ≡ some (0, one_segment)) × NoneFits 32 segments)
    ⊎ ((ptr : ℕ) × (h' : Heap) × (malloc 2 one_segment 32 ≡ some (ptr, h'))
        × Allocated one_segment segments 32 ptr h')
malloc_lem_example =
    malloc_lem 2 32 one_segment segments (omega arith) segments-Laid segments-Reachable
      segments-Chain (omega arith)

malloc-free_grows_example :
    (ptr : ℕ) × (h' : Heap) × (h'' : Heap) × (malloc 2 one_segment 32 ≡ some (ptr, h'))
    × (ptr ≢ 0)
    × (free 2 h' ptr ≡ some h'')
    × Chain h''.word h''.first_free ((0x1000, 256 + 4) ∷ [])
malloc-free_grows_example =
    malloc-free_grows one_segment 0x1000 256 32 (omega arith) (omega arith) (omega arith)
      segments-Chain

malloc_wraps_example :
    (h' : Heap) × (malloc 2 one_segment (2 ^ 32 - 3) ≡ some (0x1000 + 8 + 256, h'))
malloc_wraps_example =
    malloc_wraps 1 one_segment 0x1000 256 3 [] segments-Chain refl (omega arith) (omega arith)
      (omega arith) (omega arith)

-- A block of 36 bytes with its header at 0x1200, behind the free segment.
abbrev with_block : Heap
with_block = record {
  word = λ a. if a == 0x1000 then 256 else if a == 0x1200 then 36 else 0;
  first_free = 0x1000;
}

free_lem_example :
    (h' : Heap) × (free 2 with_block 0x1204 ≡ some h')
    × Chain h'.word h'.first_free (give_back (0x1204 - 4, 36 - 4) segments)
    × Laid 0 (give_back (0x1204 - 4, 36 - 4) segments)
    × (span (give_back (0x1204 - 4, 36 - 4) segments) ≡ span segments + 36 + 4)
free_lem_example =
    free_lem 2 36 0x1204 with_block segments segments-Laid (refl, omega arith, refl, refl)
      (omega arith) (omega arith) refl (omega arith) (inr (omega arith), tt) (omega arith)

-- A boot loader's map with one entry: 4 MB from 1 MB on.
abbrev boot_heap : Heap
boot_heap = record {
  word = λ a.
      if a == 0x500
      then 0x40
      else if a == 0x52C
      then 24
      else if a == 0x530
      then 0x600
      else if a == 0x600
      then 20
      else if a == 0x604
      then 0x100000
      else if a == 0x60C
      then 0x400000
      else if a == 0x614
      then 1
      else 0;
  first_free = 0;
}

init_allocator_lem_example :
    (best : Region) × (h' : Heap) × (init_allocator 2 0x110000 0x108000 0x500 boot_heap ≡ some h')
    × Largest boot_heap.word (0x600 ∷ []) (record { addr = 0; size = 0 }) best
    × (Heaped boot_heap h' (reserved_end 0x110000 0x108000) best
        ⊎ ((h' ≡ boot_heap) × Elsewhere (reserved_end 0x110000 0x108000) best))
init_allocator_lem_example =
    init_allocator_lem 2 0x110000 0x108000 0x500 boot_heap (0x600 ∷ []) (omega arith)
      (refl, omega arith, omega arith) (λ usable. (omega arith, inr (omega arith)), tt)
      (omega arith) (omega arith)
