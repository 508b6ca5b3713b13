-- ===== src/Memory/Boot/First.antt =====
-- The first free segment of src/memory.c, and the first block that it serves.
use shogun_os.Base.{
  ℕ, ◌+◌, ◌-◌, ◌%◌, ◌^◌, ◌≤◌, ◌<◌, ◌≡◌, ◌≢◌, ◌⊎◌, inl, inr, refl, ap, ◌∙◌, true, false, ◌&&◌, some,
  List, [], ◌∷◌, ltb, leb, ◌==◌, add32, sub32, not32, bit_and, length, arith, Bool-cases,
}
use shogun_os.Memory.{Heap, malloc}
use shogun_os.Memory.Place.{mask_eight, place-ne-none}
use shogun_os.Memory.Chain.{Chain, Laid}
use shogun_os.Memory.Malloc.{malloc_lem}
use shogun_os.Memory.Boot.{
  Region, base_addr_low, length_low, flags_at, mmap_length_at, mmap_addr_at, reserved_end,
  place_heap, init_allocator,
}
use shogun_os.Memory.Boot.Regions.{MapFrom, IsUsable, Found, Largest, scan_regions_lem}

-- Each usable region ends below 2^32, and none ends less than 15 bytes above the reserved memory.
abbrev pub Roomy : (reserved : ℕ) → (ℕ → ℕ) → List ℕ → Type 0
Roomy reserved w [] = Unit
Roomy reserved w (e ∷ es) =
    (IsUsable w e
      → (base_addr_low w e + length_low w e < 2 ^ 32)
        × ((base_addr_low w e + length_low w e ≤ reserved)
            ⊎ (reserved + 15 ≤ base_addr_low w e + length_low w e)))
    × Roomy reserved w es

-- What this means for the region that the search finds.
abbrev RoomyRegion : (reserved : ℕ) → Region → Type 0
RoomyRegion reserved r =
    (r.addr + r.size < 2 ^ 32) × ((r.addr + r.size ≤ reserved) ⊎ (reserved + 15 ≤ r.addr + r.size))

Found-Roomy :
    (reserved : ℕ) (w : ℕ → ℕ) (es : List ℕ) (best : Region)
    → Roomy reserved w es
    → Found w es best
    → RoomyRegion reserved best
Found-Roomy reserved w [] best roomy found = elim found [ ]
Found-Roomy reserved w (e ∷ es) best (here, later) (inl (usable, same)) = rw same (here usable)
Found-Roomy reserved w (e ∷ es) best (here, later) (inr found) =
    Found-Roomy reserved w es best later found

-- The heap is one free segment, from the first multiple of 8 behind the reserved memory to the end of
-- the region, and no other word has changed.
pub record Heaped (h h' : Heap) (reserved : ℕ) (best : Region) : Type 0 where
  pub start : ℕ
  pub size : ℕ
  pub inside : best.addr ≤ reserved
  pub above : reserved ≤ start
  pub aligned : start % 8 ≡ 0
  pub ends : start + 8 + size ≡ best.addr + best.size
  pub chain : Chain h'.word h'.first_free ((start, size) ∷ [])
  pub laid : Laid 0 ((start, size) ∷ [])
  pub untouched : (x : ℕ) → x ≢ start → x ≢ start + 4 → h'.word x ≡ h.word x

-- The region does not hold the end of the reserved memory, or there is none.
abbrev pub Elsewhere : (reserved : ℕ) → Region → Type 0
Elsewhere reserved best =
    (best.size ≡ 0) ⊎ (reserved < best.addr) ⊎ (best.addr + best.size ≤ reserved)

heaped :
    (reserved : ℕ) (best : Region) (h : Heap)
    → 0 < reserved
    → best.addr ≤ reserved
    → best.addr + best.size < 2 ^ 32
    → reserved + 15 ≤ best.addr + best.size
    → Heaped h (place_heap reserved best h) reserved best
unfolding place_heap
heaped reserved best h pos inside fits room =
    let there : (best.size == 0) ≡ false = ground arith in
    let holds : (leb best.addr reserved && ltb reserved (add32 best.addr best.size)) ≡ true =
      ground arith in
    let start = bit_and (add32 reserved 7) (not32 7) in
    let up : start ≡ reserved + 7 - (reserved + 7) % 8 =
      mask_eight (add32 reserved 7) (omega arith) ∙ omega arith in
    let size = sub32 (sub32 best.size (sub32 start best.addr)) 8 in
    let full : start + 8 + size ≡ best.addr + best.size = omega (arith, up) in
    let e4 : add32 start 4 ≡ start + 4 = omega (arith, up) in
    rw (there, holds)
      record {
        start = start;
        size = size;
        inside = inside;
        above = omega (arith, up);
        aligned = omega (arith, up);
        ends = full;
        chain = (refl, omega (arith, up), ground (arith, e4), ground arith);
        laid = (omega arith, omega (arith, up), omega (arith, full), tt);
        untouched = λ x ne ne'. ground (arith, e4);
      }

placed :
    (reserved : ℕ) (best : Region) (h : Heap)
    → 0 < reserved
    → RoomyRegion reserved best ⊎ (best.size ≡ 0)
    → Heaped h (place_heap reserved best h) reserved best
      ⊎ ((place_heap reserved best h ≡ h) × Elsewhere reserved best)
unfolding place_heap
placed reserved best h pos (inr nothing) =
    let absent : (best.size == 0) ≡ true = ground arith in inr (rw absent refl, inl nothing)
placed reserved best h pos (inl (fits, inl under)) = elim (Bool-cases (best.size == 0)) [
  | inl absent ↦ inr (rw absent refl, inr (inr under))
  | inr there ↦
      let out : (leb best.addr reserved && ltb reserved (add32 best.addr best.size)) ≡ false =
        ground arith in
      inr (rw (there, out) refl, inr (inr under))
]
placed reserved best h pos (inl (fits, inr room)) = elim (Bool-cases (leb best.addr reserved)) [
  | inl inside ↦ inl (heaped reserved best h pos (ground arith) fits room)
  | inr past ↦ elim (Bool-cases (best.size == 0)) [
    | inl absent ↦ inr (rw absent refl, inl (ground arith))
    | inr there ↦
        let out : (leb best.addr reserved && ltb reserved (add32 best.addr best.size)) ≡ false =
          ground arith in
        inr (rw (there, out) refl, inr (inl (ground arith)))
  ]
]

-- With a memory map, in which each usable region ends below 2^32 and none ends less than 15 bytes above
-- the reserved memory, and with more fuel than it has entries, `init_allocator` returns. It finds the
-- largest usable region of at least 2 MB. If that holds the end of the kernel image or the stack
-- pointer, whichever is higher, the heap becomes one free segment from there to the region's end;
-- otherwise it stays as it was.
pub init_allocator_lem :
    (fuel kernel_end esp info : ℕ) (h : Heap) (es : List ℕ)
    → bit_and (flags_at h info) (2 ^ 6) ≢ 0
    → MapFrom h.word (add32 (mmap_addr_at h info) (mmap_length_at h info)) (mmap_addr_at h info) es
    → Roomy (reserved_end kernel_end esp) h.word es
    → 0 < reserved_end kernel_end esp
    → length es < fuel
    → (best : Region) × (h' : Heap) × (init_allocator fuel kernel_end esp info h ≡ some h')
      × Largest h.word es (record { addr = 0; size = 0 }) best
      × (Heaped h h' (reserved_end kernel_end esp) best
          ⊎ ((h' ≡ h) × Elsewhere (reserved_end kernel_end esp) best))
unfolding init_allocator
init_allocator_lem fuel kernel_end esp info h es flag m roomy pos enough =
    let present : (bit_and (flags_at h info) (2 ^ 6) == 0) ≡ false = ground arith in
    let start = mmap_addr_at h info in
    let end = add32 start (mmap_length_at h info) in
    let (best, runs, l) =
      scan_regions_lem fuel h.word end start es (record { addr = 0; size = 0 }) m enough in
    let where_found : RoomyRegion (reserved_end kernel_end esp) best ⊎ (best.size ≡ 0) =
      elim (l.origin) [
        | inl nothing ↦ inr (ap (λ r. r.size) nothing)
        | inr found ↦ inl (Found-Roomy (reserved_end kernel_end esp) h.word es best roomy found)
      ] in
    (
      best,
      place_heap (reserved_end kernel_end esp) best h,
      rw (init_allocator, present, runs) refl,
      l,
      placed (reserved_end kernel_end esp) best h pos where_found,
    )

-- On a heap of one free segment, a request of at least 4 bytes that leaves 20 bytes of the segment is
-- served, from the segment's memory.
pub served_first :
    (h : Heap) (start n size : ℕ)
    → Chain h.word h.first_free ((start, n) ∷ [])
    → Laid 0 ((start, n) ∷ [])
    → start + 12 + n < 2 ^ 32
    → 4 ≤ size
    → size + 20 ≤ n
    → (ptr : ℕ) × (h' : Heap) × (malloc 2 h size ≡ some (ptr, h'))
      × (start + 8 ≤ ptr)
      × (ptr + size ≤ start + 8 + n)
served_first h start n size c l top lo hi =
    elim (malloc_lem 2 size h ((start, n) ∷ []) (omega arith) l (omega arith, tt) c (omega arith)) [
      | inl (null_result, (unfit, _)) ↦ absurd (place-ne-none start n size lo hi top unfit)
      | inr (ptr, h', runs, a) ↦
          let b = a.sound in
          elim (b.within) [
            | inr nowhere ↦ elim nowhere [ ]
            | inl (low, high) ↦ (
              ptr,
              h',
              runs,
              omega (arith, b.header, a.pointer),
              omega (arith, b.enough, a.pointer),
            )
          ]
    ]
