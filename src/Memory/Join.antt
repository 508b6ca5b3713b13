-- ===== src/Memory/Join.antt =====
-- The merging of neighbouring free segments in src/memory.c.
use shogun_os.Base.{
  ℕ, ◌+◌, ◌≡◌, ◌≢◌, inl, inr, refl, true, not, List, [], ◌∷◌, ◌==◌, ==_iff, if◌then◌else◌, add32,
  arith, Bool-cases,
}
use shogun_os.Memory.{Heap, update, segments_adjacent, merge_after, merge_before}
use shogun_os.Memory.Chain.{Seg, Chain, Laid, Laid-weaken, Chain-frame}

-- A segment in front of a list: with the first segment of the list it becomes one if that begins
-- where it ends.
abbrev pub join : Seg → List Seg → List Seg
join (a, n) [] = (a, n) ∷ []
join (a, n) ((b, k) ∷ segs) =
    if b == a + 8 + n then (a, n + 8 + k) ∷ segs else (a, n) ∷ (b, k) ∷ segs

pub Laid-join :
    (lo a n : ℕ) (segs : List Seg) → Laid lo ((a, n) ∷ segs) → Laid lo (join (a, n) segs)
Laid-join lo a n [] l = l
Laid-join lo a n ((b, k) ∷ segs) l = elim (Bool-cases (b == a + 8 + n)) [
  | inl next ↦
      let at : b ≡ a + 8 + n = (==_iff b (a + 8 + n)).0 next in
      rw next (
        l.0,
        l.1,
        omega (arith, at, l.3.2),
        Laid-weaken (b + 8 + k) (a + 8 + (n + 8 + k)) segs (omega (arith, at)) l.3.3,
      )
  | inr apart ↦ rw apart l
]

-- What merging at `a` may write.
pub record Merged (h h' : Heap) (a : ℕ) (segs : List Seg) : Type 0 where
  pub chain : Chain h'.word a segs
  pub others : (x : ℕ) → x ≢ a → x ≢ a + 4 → h'.word x ≡ h.word x
  pub first : h'.first_free ≡ h.first_free

-- The address of the first segment, or NULL.
abbrev pub head_of : List Seg → ℕ
head_of [] = 0
head_of ((a, n) ∷ segs) = a

pub Chain-head : (w : ℕ → ℕ) (p : ℕ) (segs : List Seg) → Chain w p segs → p ≡ head_of segs
Chain-head w p [] c = c
Chain-head w p ((a, n) ∷ segs) c = c.0

pub merge_after_lem :
    (h : Heap) (lo a n : ℕ) (segs : List Seg)
    → Laid lo ((a, n) ∷ segs)
    → Chain h.word a ((a, n) ∷ segs)
    → Merged h (merge_after h a (head_of segs)) a (join (a, n) segs)
unfolding merge_after segments_adjacent
merge_after_lem h lo a n [] l c = record { chain = c; others = λ x ne ne'. refl; first = refl }
merge_after_lem h lo a n ((b, k) ∷ segs) (la, pos, fit, (lb, pos', fit', l))
      (_, nz, size, (eb, nz', size', c)) =
    let there : (not (b == 0)) ≡ true = ground arith in
    let end : add32 (add32 a 8) (h.word a) ≡ a + 8 + n = omega arith in
    elim (Bool-cases (b == a + 8 + n)) [
      | inr apart ↦
          rw (there, end, apart)
            record {
              chain = (refl, nz, size, (eb, nz', size', c));
              others = λ x ne ne'. refl;
              first = refl;
            }
      | inl next ↦
          rw (there, end, next)
            record { chain = joined next; others = λ x ne ne'. ground arith; first = refl }
    ]
  where
    whole : ℕ
    whole = add32 (add32 (h.word a) 8) (h.word b)

    resized : ℕ → ℕ
    resized = update h.word a whole

    linked : ℕ → ℕ
    linked = update resized (add32 a 4) (resized (add32 b 4))

    joined : (b == a + 8 + n) ≡ true → Chain linked a ((a, n + 8 + k) ∷ segs)
    joined next =
        let at : b ≡ a + 8 + n = (==_iff b (a + 8 + n)).0 next in
        let link : linked (add32 a 4) ≡ h.word (add32 b 4) = ground arith in
        (
          refl,
          nz,
          ground arith,
          rw link (
              Chain-frame h.word linked (b + 8 + k) (h.word (add32 b 4)) segs
                (λ x far. ground arith) l c),
        )

-- The other merge of `deallocate` is the same, if its segment is there.
pub merge_before_lem :
    (h : Heap) (lo a n : ℕ) (segs : List Seg) (freed : ℕ)
    → Laid lo ((a, n) ∷ segs)
    → Chain h.word a ((a, n) ∷ segs)
    → freed ≡ head_of segs
    → freed ≢ 0
    → Merged h (merge_before h a freed) a (join (a, n) segs)
unfolding merge_before merge_after
merge_before_lem h lo a n segs freed l c at nz =
    let there : (not (freed == 0)) ≡ true = ground arith in
    let there' : (not (a == 0)) ≡ true = ground arith in
    let merged : Merged h (merge_after h a freed) a (join (a, n) segs) =
      rw at (merge_after_lem h lo a n segs l c) in
    rw there' (rw there at merged)
