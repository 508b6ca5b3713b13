-- ===== src/Memory/Chain.antt =====
-- The free list in memory stands for a list of segments, in order of their addresses.
use shogun_os.Base.{
  ℕ, ◌+◌, ◌^◌, ◌≤◌, ◌<◌, ◌≡◌, ◌≢◌, ◌⊎◌, inl, List, [], ◌∷◌, arith, if◌then◌else◌, ◌==◌, add32, ◌∙◌,
}
use shogun_os.Memory.{Heap, next_at}

-- Address and size of a free segment.
abbrev pub Seg : Type 0
Seg = ℕ × ℕ

-- From `p` the `next_segment` pointers lead through the segments to NULL.
abbrev pub Chain : (ℕ → ℕ) → ℕ → List Seg → Type 0
Chain w p [] = p ≡ 0
Chain w p ((a, n) ∷ segs) = (p ≡ a) × (a ≢ 0) × (w a ≡ n) × Chain w (w (add32 a 4)) segs

-- From `lo` on the segments follow one another without overlap, below the end of the address space.
abbrev pub Laid : ℕ → List Seg → Type 0
Laid lo [] = Unit
Laid lo ((a, n) ∷ segs) = (lo ≤ a) × (0 < a) × (a + 8 + n < 2 ^ 32) × Laid (a + 8 + n) segs

-- The pointer that leads to the rest of the list: `first_free`, or the field of a segment.
abbrev pub link : Heap → ℕ → ℕ
link h prev = if prev == 0 then h.first_free else next_at h prev

-- A write below a chain, or none, leaves it as it is.
pub Chain-frame :
    (w w' : ℕ → ℕ) (lo p : ℕ) (segs : List Seg)
    → ((x : ℕ) → lo ≤ x → w' x ≡ w x)
    → Laid lo segs
    → Chain w p segs
    → Chain w' p segs
Chain-frame w w' lo p [] same l c = c
Chain-frame w w' lo p ((a, n) ∷ segs) same (la, pos, fit, l) (e, nz, size, c) = (
  e,
  nz,
  same a la ∙ size,
  let e4 : add32 a 4 ≡ a + 4 = omega arith in
      rw (e4, same (a + 4) (omega arith))
        (Chain-frame w w' (a + 8 + n) (w (a + 4)) segs (λ x h. same x (omega arith)) l
          (rw e4 at c)),
)

pub Laid-weaken : (lo lo' : ℕ) (segs : List Seg) → lo' ≤ lo → Laid lo segs → Laid lo' segs
Laid-weaken lo lo' [] h l = tt
Laid-weaken lo lo' ((a, n) ∷ segs) h l = (omega arith, l.1, l.2, l.3)

-- The address lies in none of the segments.
abbrev pub Outside : ℕ → List Seg → Type 0
Outside x [] = Unit
Outside x ((a, n) ∷ segs) = ((x < a) ⊎ (a + 8 + n ≤ x)) × Outside x segs

pub Outside-below : (x lo : ℕ) (segs : List Seg) → x < lo → Laid lo segs → Outside x segs
Outside-below x lo [] h l = tt
Outside-below x lo ((a, n) ∷ segs) h l =
    (inl (omega arith), Outside-below x (a + 8 + n) segs (omega arith) l.3)

-- The block from `lo` to `hi` meets none of the segments.
abbrev pub Apart : (lo hi : ℕ) → List Seg → Type 0
Apart lo hi [] = Unit
Apart lo hi ((a, n) ∷ segs) = ((hi ≤ a) ⊎ (a + 8 + n ≤ lo)) × Apart lo hi segs

pub Apart-below : (lo hi b : ℕ) (segs : List Seg) → hi ≤ b → Laid b segs → Apart lo hi segs
Apart-below lo hi b [] h l = tt
Apart-below lo hi b ((a, n) ∷ segs) h l =
    (inl (omega arith), Apart-below lo hi (a + 8 + n) segs (omega arith) l.3)
