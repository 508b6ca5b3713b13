-- ===== src/Memory/FirstFit.antt =====
-- First fit on the list of segments: the block that it serves.
use mathlib.Core.Option
use shogun_os.Base.{
  ℕ, ◌+◌, ◌%◌, ◌≤◌, ◌≡◌, ◌⊎◌, inl, inr, Option, none, some, List, [], ◌∷◌, Option-cases, Bool-cases,
  arith, sub32, ◌==◌, ◌-◌, ◌<◌, ◌^◌, refl, true, false, if◌then◌else◌,
}
use shogun_os.Memory.{Placed, place}
use shogun_os.Memory.Chain.{Seg, Laid, Laid-weaken, Apart, Apart-below}
use shogun_os.Memory.Place.{Fits, place-Fits}
use shogun_os.Memory.Allocate.{first_fit, first_fit_hit, first_fit_miss, rest_of, Reachable}

-- The block, header included, lies in one of the segments, behind that segment's own header.
abbrev pub Within : Placed → List Seg → Type 0
Within p [] = ⊥
Within p ((a, n) ∷ segs) =
    ((a + 8 ≤ p.header_ptr) × (p.header_ptr + p.full_alloc_size ≤ a + 8 + n)) ⊎ Within p segs

-- The block is the upper end of one of the segments, which is shorter by it, or gone; all the others
-- are left as they were.
abbrev pub CutFrom : Placed → (segs left : List Seg) → Type 0
CutFrom p [] left = ⊥
CutFrom p ((a, n) ∷ segs) left =
    ((p.header_ptr + p.full_alloc_size ≡ a + 8 + n)
      × (left ≡ (if p.full_alloc_size == n then segs else (a, n - p.full_alloc_size) ∷ segs)))
    ⊎ ((left' : List Seg) × (left ≡ (a, n) ∷ left') × CutFrom p segs left')

-- No segment of the list serves the request.
abbrev pub NoneFits : ℕ → List Seg → Type 0
NoneFits size [] = Unit
NoneFits size ((a, n) ∷ segs) = (place a n size 8 ≡ none) × NoneFits size segs

-- A block that was served: aligned, behind its header, large enough, and disjoint from all that
-- is still free; the other segments are left, and what is still free is laid out as before.
pub record Block (lo size : ℕ) (segs : List Seg) (p : Placed) (left : List Seg) : Type 0 where
  pub aligned : p.aligned_data_ptr % 8 ≡ 0
  pub header : p.header_ptr + 4 ≡ p.aligned_data_ptr
  pub enough : p.aligned_data_ptr + size ≤ p.header_ptr + p.full_alloc_size
  pub within : Within p segs
  pub above : lo ≤ p.header_ptr
  pub apart : Apart p.header_ptr (p.header_ptr + p.full_alloc_size) left
  pub laid : Laid lo left
  pub cut : CutFrom p segs left

-- What is left of the segment, when it is gone and when it is shorter.
rest_of_gone :
    (a n : ℕ) (p : Placed) (segs : List Seg)
    → p.full_alloc_size ≤ n
    → n < 2 ^ 32
    → (sub32 n p.full_alloc_size == 0) ≡ true
    → segs ≡ (if p.full_alloc_size == n then segs else (a, n - p.full_alloc_size) ∷ segs)
rest_of_gone a n p segs within word gone =
    let all : (p.full_alloc_size == n) ≡ true = ground (arith, gone) in rw all refl

rest_of_short :
    (a n : ℕ) (p : Placed) (segs : List Seg)
    → p.full_alloc_size ≤ n
    → n < 2 ^ 32
    → (sub32 n p.full_alloc_size == 0) ≡ false
    → (a, sub32 n p.full_alloc_size) ∷ segs
      ≡ (if p.full_alloc_size == n then segs else (a, n - p.full_alloc_size) ∷ segs)
rest_of_short a n p segs within word more =
    let some_left : (p.full_alloc_size == n) ≡ false = ground (arith, more) in
    let same : sub32 n p.full_alloc_size ≡ n - p.full_alloc_size = omega arith in
    rw (some_left, same) refl

hit-Block :
    (lo size a n : ℕ) (segs : List Seg) (p : Placed)
    → Laid lo ((a, n) ∷ segs)
    → Fits a n size p
    → Block lo size ((a, n) ∷ segs) p (rest_of (a, n) p segs)
hit-Block lo size a n segs p l f = elim (Bool-cases (sub32 n p.full_alloc_size == 0)) [
  | inl none_left ↦ rw none_left (record {
    aligned = f.aligned;
    header = f.header;
    enough = omega (arith, f);
    within = inl (omega (arith, f));
    above = omega (arith, f);
    apart =
        Apart-below p.header_ptr (p.header_ptr + p.full_alloc_size) (a + 8 + n) segs (omega arith)
          l.3;
    laid = Laid-weaken (a + 8 + n) lo segs (omega arith) l.3;
    cut =
        inl
          (omega (arith, f.full), rest_of_gone a n p segs f.within (omega (arith, l.2)) none_left);
  })
  | inr more ↦ rw more (record {
    aligned = f.aligned;
    header = f.header;
    enough = omega arith;
    within = inl (omega arith, omega arith);
    above = omega arith;
    apart = (
      ground arith,
      Apart-below p.header_ptr (p.header_ptr + p.full_alloc_size) (a + 8 + n) segs (omega arith)
          l.3,
    );
    laid = (
      l.0,
      l.1,
      ground arith,
      Laid-weaken (a + 8 + n) (a + 8 + sub32 n p.full_alloc_size) segs (ground arith) l.3,
    );
    cut = inl (omega (arith, f.full), rest_of_short a n p segs f.within (omega (arith, l.2)) more);
  })
]

skip-Block :
    (lo size a n : ℕ) (segs left : List Seg) (p : Placed)
    → Laid lo ((a, n) ∷ segs)
    → Block (a + 8 + n) size segs p left
    → Block lo size ((a, n) ∷ segs) p ((a, n) ∷ left)
skip-Block lo size a n segs left p l b = record {
  aligned = b.aligned;
  header = b.header;
  enough = b.enough;
  within = inr b.within;
  above = omega arith;
  apart = (inr b.above, b.apart);
  laid = (l.0, l.1, l.2, b.laid);
  cut = inr (left, refl, b.cut);
}

-- What first fit serves is a block of the list; when it serves none, no segment fits.
abbrev pub Sound : (lo size : ℕ) → List Seg → Option (Placed × List Seg) → Type 0
Sound lo size segs none = NoneFits size segs
Sound lo size segs (some (p, left)) = Block lo size segs p left

skip-Sound :
    (lo size a n : ℕ) (segs : List Seg) (found : Option (Placed × List Seg))
    → Laid lo ((a, n) ∷ segs)
    → place a n size 8 ≡ none
    → Sound (a + 8 + n) size segs found
    → Sound lo size ((a, n) ∷ segs) (Option.map (λ (p, left). (p, (a, n) ∷ left)) found)
skip-Sound lo size a n segs none l e s = (e, s)
skip-Sound lo size a n segs (some (p, left)) l e s = skip-Block lo size a n segs left p l s

pub first_fit-Sound :
    (lo size : ℕ) (segs : List Seg)
    → Laid lo segs
    → Reachable size segs
    → Sound lo size segs (first_fit size segs)
unfolding first_fit
first_fit-Sound lo size [] l r = tt
first_fit-Sound lo size ((a, n) ∷ segs) l r = elim (Option-cases (place a n size 8)) [
  | inl e ↦ rw (first_fit_miss size a n segs e) (
      skip-Sound lo size a n segs (first_fit size segs) l e
        (first_fit-Sound (a + 8 + n) size segs l.3 r.1))
  | inr (p, e) ↦
      rw (first_fit_hit size a n segs p e)
        (hit-Block lo size a n segs p l (place-Fits a n size l.2 r.0 e))
]
