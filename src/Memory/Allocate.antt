-- ===== src/Memory/Allocate.antt =====
-- `allocate` of src/memory.c on the free list in memory, against first fit on the list of segments.
use shogun_os.Base.{
  ℕ, zero, suc, ◌+◌, ◌≤◌, ◌<◌, ◌≡◌, ◌≢◌, refl, ap, ◌∙◌, Option, none, some, List, [], ◌∷◌, ◌⊎◌, inl,
  inr, true, false, Bool-cases, Option-cases, ==-refl, ltb, arith, if◌then◌else◌, ◌==◌, add32,
  sub32, length,
}
use mathlib.Core.Option
use shogun_os.Memory.{
  Heap, Placed, place, take_from, allocate_loop, allocate, malloc, set_link, next_at, update,
}
use shogun_os.Memory.Chain.{Seg, Chain, Laid, link, Chain-frame, Outside, Outside-below}
use shogun_os.Memory.Place.{Fits, place-Fits}

-- What stays of the segment `(a, n)` when a block is cut from its upper end.
abbrev pub rest_of : Seg → Placed → List Seg → List Seg
rest_of (a, n) p segs =
    if sub32 n p.full_alloc_size == 0 then segs else (a, sub32 n p.full_alloc_size) ∷ segs

-- First fit: the block that is served, and the segments that are left.
unfoldable pub first_fit : (size : ℕ) → List Seg → Option (Placed × List Seg)
first_fit size [] = none
first_fit size ((a, n) ∷ segs) = elim (place a n size 8) [
  | some p ↦ some (p, rest_of (a, n) p segs)
  | none ↦ elim (first_fit size segs) [ none ↦ none | some (p, left) ↦ some (p, (a, n) ∷ left) ]
]

-- All segments have room below them for the request, so that `segment_end - size` cannot wrap.
abbrev pub Reachable : ℕ → List Seg → Type 0
Reachable size [] = Unit
Reachable size ((a, n) ∷ segs) = (size ≤ a + n) × Reachable size segs

-- A run of the loop from the segment behind `prev` on.
pub record Served (h : Heap) (segs : List Seg) (prev : ℕ) (p : Placed) (left : List Seg) (h' : Heap)
    : Type 0 where
  pub chain : Chain h'.word (link h' prev) left
  pub header : h'.word p.header_ptr ≡ p.full_alloc_size
  pub outside : (x : ℕ) → Outside x segs → (prev ≡ 0) ⊎ (x ≢ prev + 4) → h'.word x ≡ h.word x
  pub first : prev ≢ 0 → h'.first_free ≡ h.first_free

-- What the lemmas on one round share: the segment `(a, n)` is reached through the link of `prev`.
module _ (h : Heap) (lo prev a n size : ℕ) (segs : List Seg) (p : Placed)
    (below : (prev ≡ 0) ⊎ (prev + 8 ≤ lo)) (l : Laid lo ((a, n) ∷ segs))
    (c : Chain h.word a ((a, n) ∷ segs)) (e : link h prev ≡ a) (f : Fits a n size p) where
  abbrev cut : ℕ → ℕ
  cut = update h.word p.header_ptr p.full_alloc_size

  rest-Chain :
      (w : ℕ → ℕ) → ((x : ℕ) → a + 8 + n ≤ x → w x ≡ h.word x) → Chain w (h.word (add32 a 4)) segs
  rest-Chain w same = Chain-frame h.word w (a + 8 + n) (h.word (add32 a 4)) segs same l.3 c.3

  take_from-shrink :
      (sub32 n p.full_alloc_size == 0) ≡ false
      → Served h
          ((a, n) ∷ segs)
          prev
          p
          ((a, sub32 n p.full_alloc_size) ∷ segs)
          (record h { word = update cut a (sub32 n p.full_alloc_size) })
  take_from-shrink more = record {
    chain = (ground arith, ground arith, ground arith, tail);
    header = ground arith;
    outside = λ x o ne. ground arith;
    first = λ _. refl;
  }
    where
      next : update cut a (sub32 n p.full_alloc_size) (add32 a 4) ≡ h.word (add32 a 4)
      next = ground arith

      tail :
          Chain
            (update cut a (sub32 n p.full_alloc_size))
            (update cut a (sub32 n p.full_alloc_size) (add32 a 4))
            segs
      tail = rw next (rest-Chain (update cut a (sub32 n p.full_alloc_size)) (λ x b. ground arith))

  take_from-unlink :
      (sub32 n p.full_alloc_size == 0) ≡ true
      → Served h
          ((a, n) ∷ segs)
          prev
          p
          segs
          (set_link (record h { word = cut }) prev (cut (add32 a 4)))
  take_from-unlink none_left = elim (Bool-cases (prev == 0)) [
    | inl root ↦ rw root (record {
      chain = rw (root, next) (rest-Chain cut (λ x b. ground arith));
      header = ground arith;
      outside = λ x o ne. ground arith;
      first = λ nz. absurd (nz (ground arith));
    })
    | inr inner ↦
        rw (inner, next)
          (record {
            chain =
                rw (inner, ==-refl (add32 prev 4))
                  (rest-Chain (update cut (add32 prev 4) (h.word (add32 a 4)))
                    (λ x b. ground arith));
            header = ground arith;
            outside = λ x o ne. ground arith;
            first = λ _. refl;
          })
  ]
    where
      next : cut (add32 a 4) ≡ h.word (add32 a 4)
      next = ground arith

  take_from-Served : Served h ((a, n) ∷ segs) prev p (rest_of (a, n) p segs) (take_from h prev a p)
  unfolding take_from
  take_from-Served = rw same_size (elim (Bool-cases (sub32 n p.full_alloc_size == 0)) [
    | inl none_left ↦ rw none_left (take_from-unlink none_left)
    | inr more ↦ elim (Bool-cases (ltb (sub32 n p.full_alloc_size) 8)) [
      | inl small ↦ rw (more, small) (take_from-shrink more)
      | inr large ↦ rw (more, large) (take_from-shrink more)
    ]
  ])
    where
      same_size : cut a ≡ n
      same_size = ground arith

-- A run that passes over the segment `(a, n)` and is served behind it.
skip-Served :
    (h h' : Heap) (lo prev a n : ℕ) (segs left : List Seg) (p : Placed)
    → (prev ≡ 0) ⊎ (prev + 8 ≤ lo)
    → Laid lo ((a, n) ∷ segs)
    → Chain h.word a ((a, n) ∷ segs)
    → link h prev ≡ a
    → Served h segs a p left h'
    → Served h ((a, n) ∷ segs) prev p ((a, n) ∷ left) h'
skip-Served h h' lo prev a n segs left p below l c e r = record {
  chain = (
    elim below [
      | inl root ↦ ground (arith, r.first c.1)
      | inr above ↦ ground (
        arith,
        r.first c.1,
        r.outside (add32 prev 4) (Outside-below (add32 prev 4) (a + 8 + n) segs (omega arith) l.3)
            (inr (omega arith)),
      )
    ],
    c.1,
    r.outside a (Outside-below a (a + 8 + n) segs (omega arith) l.3) (inr (omega arith)) ∙ c.2,
    let nz : (a == 0) ≡ false = ground arith in rw nz at r.chain,
  );
  header = r.header;
  outside = λ x o ne. r.outside x o.1 (inr (omega arith));
  first = λ nz. r.first c.1;
}

-- The outcome of the loop: what first fit finds on the list, done to the memory.
abbrev pub Outcome : Heap → List Seg → ℕ → Option (Placed × List Seg) → Option (ℕ × Heap) → Type 0
Outcome h segs prev none r = r ≡ some (0, h)
Outcome h segs prev (some (p, left)) r =
    (h' : Heap) × (r ≡ some (p.aligned_data_ptr, h')) × Served h segs prev p left h'

-- One round of the loop at a segment that serves, and at one that does not.
allocate_loop_hit :
    (fuel size prev cur : ℕ) (h : Heap) (p : Placed)
    → cur ≢ 0
    → place cur (h.word cur) size 8 ≡ some p
    → allocate_loop (suc fuel) h size 8 prev cur ≡ some (p.aligned_data_ptr, take_from h prev cur p)
unfolding allocate_loop
allocate_loop_hit fuel size prev cur h p nz e = ground arith

allocate_loop_miss :
    (fuel size prev cur : ℕ) (h : Heap)
    → cur ≢ 0
    → place cur (h.word cur) size 8 ≡ none
    → allocate_loop (suc fuel) h size 8 prev cur ≡ allocate_loop fuel h size 8 cur (next_at h cur)
unfolding allocate_loop
allocate_loop_miss fuel size prev cur h nz e = ground arith

pub first_fit_hit :
    (size a n : ℕ) (segs : List Seg) (p : Placed)
    → place a n size 8 ≡ some p
    → first_fit size ((a, n) ∷ segs) ≡ some (p, rest_of (a, n) p segs)
unfolding first_fit
first_fit_hit size a n segs p e = rw (e, first_fit)

pub first_fit_miss :
    (size a n : ℕ) (segs : List Seg)
    → place a n size 8 ≡ none
    → first_fit size ((a, n) ∷ segs)
      ≡ Option.map (λ (p, left). (p, (a, n) ∷ left)) (first_fit size segs)
unfolding first_fit
first_fit_miss size a n segs e = elim (Option-cases (first_fit size segs)) [
  | inl f ↦ rw (e, first_fit, f, first_fit)
  | inr (r, f) ↦ rw (e, first_fit, f, first_fit)
]

skip-Outcome :
    (h : Heap) (lo prev a n : ℕ) (segs : List Seg) (found : Option (Placed × List Seg))
    (r : Option (ℕ × Heap))
    → (prev ≡ 0) ⊎ (prev + 8 ≤ lo)
    → Laid lo ((a, n) ∷ segs)
    → Chain h.word a ((a, n) ∷ segs)
    → link h prev ≡ a
    → Outcome h segs a found r
    → Outcome h ((a, n) ∷ segs) prev (Option.map (λ (p, left). (p, (a, n) ∷ left)) found) r
skip-Outcome h lo prev a n segs none r below l c e o = o
skip-Outcome h lo prev a n segs (some (p, left)) r below l c e (h', eq, served) =
    (h', eq, skip-Served h h' lo prev a n segs left p below l c e served)

allocate_loop_refines :
    (fuel size : ℕ) (h : Heap) (lo prev cur : ℕ) (segs : List Seg)
    → (prev ≡ 0) ⊎ (prev + 8 ≤ lo)
    → Laid lo segs
    → Reachable size segs
    → Chain h.word cur segs
    → link h prev ≡ cur
    → length segs < fuel
    → Outcome h segs prev (first_fit size segs) (allocate_loop fuel h size 8 prev cur)
unfolding allocate_loop first_fit
allocate_loop_refines zero size h lo prev cur segs below l reach c e en = absurd (omega arith)
allocate_loop_refines (suc fuel) size h lo prev cur [] below l reach c e en = rw c
allocate_loop_refines (suc fuel) size h lo prev cur ((a, n) ∷ segs) below l reach c e en =
    elim (Option-cases (place a n size 8)) [
      | inr (p, fits) ↦
          rw (c.0, first_fit_hit size a n segs p fits, hit p fits)
            (
              take_from h prev a p,
              refl,
              take_from-Served h lo prev a n size segs p below l (refl, c.1, c.2, c.3) (e ∙ c.0)
                  (place-Fits a n size l.2 reach.0 fits),
            )
      | inl none_here ↦
          rw (c.0, first_fit_miss size a n segs none_here, miss none_here)
            (skip-Outcome h lo prev a n segs (first_fit size segs) _ below l (refl, c.1, c.2, c.3)
              (e ∙ c.0)
              (allocate_loop_refines fuel size h (a + 8 + n) a (next_at h a) segs
                (inr (omega arith)) l.3 reach.1 c.3
                (let nz : (a == 0) ≡ false = ground arith in rw nz) (omega arith)))
    ]
  where
    hit :
        (p : Placed)
        → place a n size 8 ≡ some p
        → allocate_loop (suc fuel) h size 8 prev a ≡ some (p.aligned_data_ptr, take_from h prev a p)
    hit p fits = allocate_loop_hit fuel size prev a h p c.1 (rw c.2 fits)

    miss :
        place a n size 8 ≡ none
        → allocate_loop (suc fuel) h size 8 prev a ≡ allocate_loop fuel h size 8 a (next_at h a)
    miss fits = allocate_loop_miss fuel size prev a h c.1 (rw c.2 fits)

-- For a request of at least one byte that does not wrap below any segment, and with more fuel than
-- segments, `malloc` on a well-formed free list does to the memory what first fit does to the list
-- of segments.
pub malloc_refines :
    (fuel size : ℕ) (h : Heap) (segs : List Seg)
    → 0 < size
    → Laid 0 segs
    → Reachable size segs
    → Chain h.word h.first_free segs
    → length segs < fuel
    → Outcome h segs 0 (first_fit size segs) (malloc fuel h size)
unfolding malloc
malloc_refines fuel size h segs pos l reach c en =
    let nz : (size == 0) ≡ false = ground arith in
    rw (nz, allocate)
      (allocate_loop_refines fuel size h 0 0 h.first_free segs (inl refl) l reach c refl en)

-- A call whose first segment serves.
pub malloc_hit :
    (fuel size a : ℕ) (h : Heap) (p : Placed)
    → size ≢ 0
    → h.first_free ≡ a
    → a ≢ 0
    → place a (h.word a) size 8 ≡ some p
    → malloc (suc fuel) h size ≡ some (p.aligned_data_ptr, take_from h 0 a p)
unfolding malloc
malloc_hit fuel size a h p pos first nz e =
    let t : (size == 0) ≡ false = ground arith in
    rw (t, allocate)
      (ap (allocate_loop (suc fuel) h size 8 0) first ∙ allocate_loop_hit fuel size 0 a h p nz e)
