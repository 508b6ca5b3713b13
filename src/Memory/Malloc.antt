-- ===== src/Memory/Malloc.antt =====
-- `malloc` as its callers see it, and `free` of the block that `malloc` has just returned.
use shogun_os.Base.{
  ℕ, suc, ◌+◌, ◌-◌, ◌%◌, ◌^◌, ◌≤◌, ◌<◌, ◌≡◌, ◌≢◌, ◌⊎◌, inl, inr, refl, sym, ap, ◌∙◌, Option-cases,
  Bool-cases, ltb, Option, none, some, List, [], ◌∷◌, length, arith, ◌==◌, add32, sub32, true,
  false,
}
use shogun_os.Memory.{
  Heap, Placed, place, malloc, free, update, set_next, set_size, find_place, put_back, merge_before,
  merge_after, deallocate, retype, take_from,
}
use shogun_os.Memory.Chain.{Seg, Chain, Laid, Outside}
use shogun_os.Memory.Allocate.{first_fit, Reachable, Outcome, malloc_refines, malloc_hit}
use shogun_os.Memory.Place.{Fits, place-Fits, place_size, place-ne-none, place_wraps}
use shogun_os.Memory.FirstFit.{NoneFits, Block, Sound, first_fit-Sound}

-- A call that found a block: the pointer, and the heap that it leaves.
pub record Allocated (h : Heap) (segs : List Seg) (size ptr : ℕ) (h' : Heap) : Type 0 where
  pub block : Placed
  pub left : List Seg
  pub pointer : ptr ≡ block.aligned_data_ptr
  pub sound : Block 0 size segs block left
  pub chain : Chain h'.word h'.first_free left
  pub header : h'.word block.header_ptr ≡ block.full_alloc_size
  pub untouched : (x : ℕ) → Outside x segs → h'.word x ≡ h.word x

malloc-Outcome :
    (size : ℕ) (h : Heap) (segs : List Seg) (found : Option (Placed × List Seg))
    (r : Option (ℕ × Heap))
    → Sound 0 size segs found
    → Outcome h segs 0 found r
    → ((r ≡ some (0, h)) × NoneFits size segs)
      ⊎ ((ptr : ℕ) × (h' : Heap) × (r ≡ some (ptr, h')) × Allocated h segs size ptr h')
malloc-Outcome size h segs none r s o = inl (o, s)
malloc-Outcome size h segs (some (p, left)) r s (h', eq, served) = inr (
  p.aligned_data_ptr,
  h',
  eq,
  record {
    block = p;
    left = left;
    pointer = refl;
    sound = s;
    chain = served.chain;
    header = served.header;
    untouched = λ x o. served.outside x o (inl refl);
  },
)

-- On a well-formed free list, with more fuel than there are segments and a request small enough
-- that `segment_end - size` does not wrap, `malloc` returns. Either no segment fits, the result is
-- NULL and the heap is as it was; or the pointer is a multiple of 8 behind a header in one of the
-- segments, the block has room for the request and overlaps nothing that is still free. The block is
-- then the upper end of its segment, which is shorter by it or gone, the other segments are left as they
-- were, the free list is again well formed, and no word outside the free segments has changed.
pub malloc_lem :
    (fuel size : ℕ) (h : Heap) (segs : List Seg)
    → 0 < size
    → Laid 0 segs
    → Reachable size segs
    → Chain h.word h.first_free segs
    → length segs < fuel
    → ((malloc fuel h size ≡ some (0, h)) × NoneFits size segs)
      ⊎ ((ptr : ℕ) × (h' : Heap) × (malloc fuel h size ≡ some (ptr, h'))
          × Allocated h segs size ptr h')
malloc_lem fuel size h segs pos l reach c en =
    malloc-Outcome size h segs (first_fit size segs) (malloc fuel h size)
      (first_fit-Sound 0 size segs l reach) (malloc_refines fuel size h segs pos l reach c en)

deallocate_found :
    (fuel : ℕ) (h : Heap) (ptr prev cur : ℕ)
    → ptr ≢ 0
    → find_place fuel (retype h (sub32 ptr 4)) (sub32 ptr 4) 0 (retype h (sub32 ptr 4)).first_free
      ≡ some (prev, cur)
    → deallocate fuel h ptr ≡ some (put_back (retype h (sub32 ptr 4)) (sub32 ptr 4) prev cur)
unfolding deallocate
deallocate_found fuel h ptr prev cur nz e = let t : (ptr == 0) ≡ false = ground arith in rw (t, e)

-- The heap of one free segment from which a block with its header at `hdr` was cut.
abbrev pub after_cut : Heap → (a n hdr full : ℕ) → Heap
after_cut h a n hdr full = record h { word = update (update h.word hdr full) a (n - full) }

module _ (h : Heap) (a n hdr full : ℕ) (c : Chain h.word h.first_free ((a, n) ∷ []))
    (fits : a + 12 + n < 2 ^ 32) (e : a + 8 + n ≡ hdr + full) (big : 8 ≤ full)
    (more : full < n) where
  -- What `deallocate` has written when its search begins.
  abbrev opened : Heap
  opened = set_next (set_size (after_cut h a n hdr full) hdr (sub32 full 4)) hdr 0

  linked : Heap
  linked = set_next (set_next opened hdr 0) a hdr

  linked_size : linked.word a ≡ n - full
  unfolding linked
  linked_size = ground arith

  linked_freed : (linked.word hdr ≡ full - 4) × (linked.word (add32 hdr 4) ≡ 0)
  unfolding linked
  linked_freed = (ground arith, ground arith)

  found : find_place 2 opened hdr 0 h.first_free ≡ some (a, 0)
  unfolding find_place
  found = ground arith

  -- The merged segment, from the code's own sum of the two sizes.
  joined : Heap
  joined = set_next (set_size linked a (n + 4)) a 0

  merged : merge_before linked a hdr ≡ joined
  unfolding merge_before joined
  merged =
      let nz : (a == 0) ≡ false = ground arith in
      let touch : (hdr == add32 (add32 a 8) (n - full)) ≡ true = ground arith in
      let ne : (add32 hdr 4 == a) ≡ false = ground arith in
      let sum : add32 (add32 (n - full) 8) (full - 4) ≡ n + 4 = ground arith in
      rw (nz, linked_size, touch, linked_freed.0, sum, ne, linked_freed.1)

  put_back-joined : put_back opened hdr a 0 ≡ joined
  unfolding put_back merge_after linked
  put_back-joined = let nz : (a == 0) ≡ false = ground arith in rw nz merged

  joined-Chain : Chain joined.word joined.first_free ((a, n + 4) ∷ [])
  unfolding joined linked
  joined-Chain = (c.0, c.1, ground arith, ground arith)

  retype-opened : retype (after_cut h a n hdr full) hdr ≡ opened
  unfolding retype
  retype-opened =
      let full_at : (after_cut h a n hdr full).word hdr ≡ full = ground arith in rw full_at

  free-joined : free 2 (after_cut h a n hdr full) (hdr + 4) ≡ some joined
  unfolding free
  free-joined =
      let back : sub32 (hdr + 4) 4 ≡ hdr = ground arith in
      deallocate_found 2 (after_cut h a n hdr full) (hdr + 4) a 0 (omega arith)
        (rw (back, retype-opened) found)
      ∙ rw (back, retype-opened, put_back-joined)

-- The block that `malloc` cuts from a segment with room to spare.
place_roomy :
    (a n size : ℕ)
    → 4 ≤ size
    → size + 20 ≤ n
    → a + 12 + n < 2 ^ 32
    → (p : Placed) × (place a n size 8 ≡ some p) × (8 ≤ p.full_alloc_size) × (p.full_alloc_size < n)
place_roomy a n size lo hi fits = elim (Option-cases (place a n size 8)) [
  | inl e ↦ absurd (place-ne-none a n size lo hi fits e)
  | inr (p, e) ↦ let (big, more) = place_size a n size lo hi fits e in (p, e, big, more)
]

take_from-cut :
    (h : Heap) (a n : ℕ) (p : Placed)
    → h.word a ≡ n
    → p.header_ptr ≢ a
    → p.full_alloc_size < n
    → n < 2 ^ 32
    → take_from h 0 a p ≡ after_cut h a n p.header_ptr p.full_alloc_size
unfolding take_from
take_from-cut h a n p e ne more small =
    let kept : update h.word p.header_ptr p.full_alloc_size a ≡ n = ground arith in
    let diff : sub32 n p.full_alloc_size ≡ n - p.full_alloc_size = omega arith in
    let some_left : (n - p.full_alloc_size == 0) ≡ false = ground arith in
    rw (kept, diff, some_left)
      (elim (Bool-cases (ltb (n - p.full_alloc_size) 8)) [ inl t ↦ rw t | inr t ↦ rw t ])

-- From a heap of one free segment, below address 2^32 - 12 and at least 20 bytes longer than the
-- request of at least 4 bytes, `malloc` succeeds, and the `free` of its block does not give the
-- segment back as it was: its size has grown by four bytes, which lie behind its end. (`allocate`
-- counts the block from its header of 4 bytes on, and `deallocate` takes only these 4 off for the
-- `FreeSegment` header of 8.)
pub malloc-free_grows :
    (h : Heap) (a n size : ℕ)
    → 4 ≤ size
    → size + 20 ≤ n
    → a + 12 + n < 2 ^ 32
    → Chain h.word h.first_free ((a, n) ∷ [])
    → (ptr : ℕ) × (h' : Heap) × (h'' : Heap) × (malloc 2 h size ≡ some (ptr, h'))
      × (ptr ≢ 0)
      × (free 2 h' ptr ≡ some h'')
      × Chain h''.word h''.first_free ((a, n + 4) ∷ [])
malloc-free_grows h a n size lo hi fits c =
    let (p, e, big, more) = place_roomy a n size lo hi fits in
    let f : Fits a n size p = place-Fits a n size (omega arith) (omega arith) e in
    let total : a + 8 + n ≡ p.header_ptr + p.full_alloc_size = omega arith in
    let cut = take_from-cut h a n p c.2 (omega arith) more (omega arith) in
    (
      p.aligned_data_ptr,
      after_cut h a n p.header_ptr p.full_alloc_size,
      joined h a n p.header_ptr p.full_alloc_size c fits total big more,
      malloc_hit 1 size a h p (omega arith) c.0 c.1 (rw c.2 e) ∙ rw cut,
      omega arith,
      ap (free 2 (after_cut h a n p.header_ptr p.full_alloc_size)) (sym f.header)
          ∙ free-joined h a n p.header_ptr p.full_alloc_size c fits total big more,
      joined-Chain h a n p.header_ptr p.full_alloc_size c fits total big more,
    )

-- A request of 2^32 - 1 to 2^32 - 7 bytes, from a heap whose first segment has at least 4 bytes and
-- ends on a multiple of 8 below 2^32 - 8, is not refused: `segment_end - size` wraps, and the call
-- returns the address behind the end of that segment.
pub malloc_wraps :
    (fuel : ℕ) (h : Heap) (a n k : ℕ) (segs : List Seg)
    → Chain h.word h.first_free ((a, n) ∷ segs)
    → (a + 8 + n) % 8 ≡ 0
    → a + 8 + n < 2 ^ 32 - 8
    → 4 ≤ n
    → 0 < k
    → k < 8
    → (h' : Heap) × (malloc (suc fuel) h (2 ^ 32 - k) ≡ some (a + 8 + n, h'))
malloc_wraps fuel h a n k segs c al fits room pos small =
    let p : Placed = record {
      aligned_data_ptr = a + 8 + n;
      header_ptr = a + 4 + n;
      full_alloc_size = 4;
    } in
    (
      take_from h 0 a p,
      malloc_hit fuel (2 ^ 32 - k) a h p (omega arith) c.0 c.1
          (rw c.2 (place_wraps a n k al fits room pos small)),
    )
