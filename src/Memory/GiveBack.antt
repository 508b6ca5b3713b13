-- ===== src/Memory/GiveBack.antt =====
-- The insertion of a freed segment into a list of segments, which `deallocate` of src/memory.c implements.
use shogun_os.Base.{
  ℕ, ◌+◌, ◌^◌, ◌≤◌, ◌<◌, ◌≡◌, inl, inr, refl, ◌∙◌, List, [], ◌∷◌, ltb, if◌then◌else◌, arith,
  Bool-cases,
}
use shogun_os.Memory.Chain.{Seg, Laid, Apart}
use shogun_os.Memory.Join.{join, Laid-join}

-- The segment put in its place among the segments behind `s`, and merged with its two neighbours.
unfoldable pub give_back_after : (freed s : Seg) → List Seg → List Seg
give_back_after freed s [] = join s (join freed [])
give_back_after freed s (t ∷ segs) =
    if ltb t.0 freed.0 then s ∷ give_back_after freed t segs else join s (join freed (t ∷ segs))

unfoldable pub give_back : (freed : Seg) → List Seg → List Seg
give_back freed [] = join freed []
give_back freed (s ∷ segs) =
    if ltb s.0 freed.0 then give_back_after freed s segs else join freed (s ∷ segs)

-- Room that the segments take, with their headers.
pub span : List Seg → ℕ
span [] = 0
span ((a, n) ∷ segs) = 8 + n + span segs

span-join : (a n : ℕ) (segs : List Seg) → span (join (a, n) segs) ≡ 8 + n + span segs
unfolding span
span-join a n [] = refl
span-join a n ((b, k) ∷ segs) = ground arith

span-give_back_after :
    (f n a m : ℕ) (segs : List Seg)
    → span (give_back_after (f, n) (a, m) segs) ≡ 8 + n + (8 + m + span segs)
unfolding give_back_after span
span-give_back_after f n a m [] = span-join a m ((f, n) ∷ []) ∙ omega arith
span-give_back_after f n a m ((b, k) ∷ segs) = elim (Bool-cases (ltb b f)) [
  | inl before ↦ rw before (omega (arith, span-give_back_after f n b k segs))
  | inr reached ↦
      rw reached
        (span-join a m (join (f, n) ((b, k) ∷ segs)) ∙ omega (arith, span-join f n ((b, k) ∷ segs)))
]

pub span-give_back : (f n : ℕ) (segs : List Seg) → span (give_back (f, n) segs) ≡ 8 + n + span segs
unfolding give_back span
span-give_back f n [] = refl
span-give_back f n ((a, m) ∷ segs) = elim (Bool-cases (ltb a f)) [
  | inl before ↦ rw before (span-give_back_after f n a m segs)
  | inr reached ↦ rw reached (span-join f n ((a, m) ∷ segs))
]

Laid-give_back_after :
    (lo f n a m : ℕ) (segs : List Seg)
    → Laid lo ((a, m) ∷ segs)
    → a + 8 + m ≤ f
    → f + 8 + n < 2 ^ 32
    → Apart f (f + 8 + n) segs
    → Laid lo (give_back_after (f, n) (a, m) segs)
unfolding give_back_after
Laid-give_back_after lo f n a m [] l past fit far =
    Laid-join lo a m ((f, n) ∷ []) (l.0, l.1, l.2, (past, omega arith, fit, tt))
Laid-give_back_after lo f n a m ((b, k) ∷ segs) l past fit far = elim (Bool-cases (ltb b f)) [
  | inl before ↦ rw before (
    l.0,
    l.1,
    l.2,
    Laid-give_back_after (a + 8 + m) f n b k segs l.3 (ground (arith, far.0)) fit far.1,
  )
  | inr reached ↦
      let behind' : Laid (a + 8 + m) ((f, n) ∷ (b, k) ∷ segs) =
        (past, omega arith, fit, (ground (arith, far.0), l.3.1, l.3.2, l.3.3)) in
      rw reached (
        Laid-join lo a m (join (f, n) ((b, k) ∷ segs))
          (l.0, l.1, l.2, Laid-join (a + 8 + m) f n ((b, k) ∷ segs) behind'))
]

pub Laid-give_back :
    (f n : ℕ) (segs : List Seg)
    → Laid 0 segs
    → 0 < f
    → f + 8 + n < 2 ^ 32
    → Apart f (f + 8 + n) segs
    → Laid 0 (give_back (f, n) segs)
unfolding give_back
Laid-give_back f n [] l pos fit far = (omega arith, pos, fit, tt)
Laid-give_back f n ((a, m) ∷ segs) l pos fit far = elim (Bool-cases (ltb a f)) [
  | inl before ↦ rw before (Laid-give_back_after 0 f n a m segs l (ground (arith, far.0)) fit far.1)
  | inr reached ↦ rw reached (
      Laid-join 0 f n ((a, m) ∷ segs)
        (omega arith, pos, fit, (ground (arith, far.0), l.1, l.2, l.3)))
]
