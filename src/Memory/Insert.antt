-- ===== src/Memory/Insert.antt =====
-- The search of `deallocate` in src/memory.c for the place of a freed block, and the writes behind it.
use shogun_os.Base.{
  ℕ, zero, suc, ◌+◌, ◌^◌, ◌≤◌, ◌<◌, ◌≡◌, ◌≢◌, inl, inr, refl, ap, ◌∙◌, true, false, some, List, [],
  ◌∷◌, ltb, ◌==◌, add32, length, arith, Bool-cases,
}
use shogun_os.Memory.{Heap, next_at, set_next, set_link, update, find_place, put_back, merge_after}
use shogun_os.Memory.Chain.{Seg, Chain, Laid, Chain-frame, Apart}
use shogun_os.Memory.Join.{join, Laid-join, head_of, Chain-head, merge_after_lem, merge_before_lem}
use shogun_os.Memory.GiveBack.{give_back_after}

-- A write to the header of a block that lies apart from a chain leaves the chain as it is.
pub Chain-Apart :
    (w w' : ℕ → ℕ) (lo p f hi : ℕ) (segs : List Seg)
    → ((x : ℕ) → x ≢ f → x ≢ f + 4 → w' x ≡ w x)
    → f + 8 ≤ hi
    → Laid lo segs
    → Apart f hi segs
    → Chain w p segs
    → Chain w' p segs
Chain-Apart w w' lo p f hi [] same room l far c = c
Chain-Apart w w' lo p f hi ((a, n) ∷ segs) same room (la, pos, fit, l) (far, further)
      (e, nz, size, c) =
    let e4 : add32 a 4 ≡ a + 4 = omega arith in
    let kept : w' a ≡ w a = same a (ground arith) (ground arith) in
    let kept' : w' (a + 4) ≡ w (a + 4) = same (a + 4) (ground arith) (ground arith) in
    (
      e,
      nz,
      kept ∙ size,
      rw (e4, kept')
          (Chain-Apart w w' (a + 8 + n) (w (a + 4)) f hi segs same room l further (rw e4 at c)),
    )

-- Behind the segment `(a, m)`.
pub record Inserted (h h' : Heap) (a : ℕ) (segs : List Seg) : Type 0 where
  pub chain : Chain h'.word a segs
  pub below : (x : ℕ) → x < a → h'.word x ≡ h.word x
  pub first : h'.first_free ≡ h.first_free

module _ (h : Heap) (lo a m f n : ℕ) (segs : List Seg) (l : Laid lo ((a, m) ∷ (f, n) ∷ segs))
    (c : Chain h.word a ((a, m) ∷ segs)) (size : h.word f ≡ n) where
  abbrev between : Heap
  between = set_link (set_next h f (head_of segs)) a f

  abbrev with_link : ℕ → ℕ
  with_link = update (update h.word (add32 f 4) (head_of segs)) (add32 a 4) f

  between_lem : between ≡ record h { word = with_link }
  between_lem = let inner : (a == 0) ≡ false = ground arith in rw inner refl

  behind : Chain with_link f ((f, n) ∷ segs)
  behind =
      let next : with_link (add32 f 4) ≡ h.word (add32 a 4) =
        ground (arith, Chain-head h.word (h.word (add32 a 4)) segs c.3) in
      (
        refl,
        ground arith,
        ground arith,
        rw next (
            Chain-frame h.word with_link (f + 8 + n) (h.word (add32 a 4)) segs
              (λ x far. ground arith) l.3.3 c.3),
      )

  inserted : Inserted h (put_back h f a (head_of segs)) a (join (a, m) (join (f, n) segs))
  unfolding put_back
  inserted =
      let h1 : Heap = record h { word = with_link } in
      let merged = merge_after_lem h1 (a + 8 + m) f n segs l.3 behind in
      let h2 = merge_after h1 f (head_of segs) in
      let e4 : add32 a 4 ≡ a + 4 = omega arith in
      let link : h2.word (add32 a 4) ≡ f =
        merged.others (add32 a 4) (omega arith) (omega arith) ∙ ground arith in
      let here : h2.word a ≡ m = merged.others a (omega arith) (omega arith) ∙ ground arith in
      let ahead : Chain h2.word a ((a, m) ∷ join (f, n) segs) =
        (refl, c.1, here, rw link merged.chain) in
      let l' : Laid lo ((a, m) ∷ join (f, n) segs) =
        (l.0, l.1, l.2, Laid-join (a + 8 + m) f n segs l.3) in
      let at = Chain-head h2.word f (join (f, n) segs) merged.chain in
      let last = merge_before_lem h2 lo a m (join (f, n) segs) f l' ahead at (ground arith) in
      rw between_lem record {
        chain = last.chain;
        below = λ x under.
            last.others x (omega arith) (omega arith)
            ∙ merged.others x (omega arith) (omega arith)
            ∙ ground arith;
        first = last.first ∙ merged.first;
      }

pub find_place_on :
    (fuel : ℕ) (h : Heap) (f prev current : ℕ)
    → (current == 0) ≡ false
    → ltb current f ≡ true
    → find_place (suc fuel) h f prev current ≡ find_place fuel h f current (next_at h current)
unfolding find_place
find_place_on fuel h f prev current there before = rw (find_place, there, before) refl

pub find_place_here :
    (fuel : ℕ) (h : Heap) (f prev current : ℕ)
    → (current == 0) ≡ false
    → ltb current f ≡ false
    → find_place (suc fuel) h f prev current ≡ some (prev, current)
unfolding find_place
find_place_here fuel h f prev current there reached = rw (find_place, there, reached) refl

-- From the segment `(a, m)` on, the search finds the place, and the writes behind it insert there.
pub record PlacedBehind (fuel : ℕ) (h : Heap) (a m f n : ℕ) (segs : List Seg) : Type 0 where
  pub prev : ℕ
  pub current : ℕ
  pub finds : find_place fuel h f a (next_at h a) ≡ some (prev, current)
  pub result : Inserted h (put_back h f prev current) a (give_back_after (f, n) (a, m) segs)

pub placed_behind :
    (fuel : ℕ) (h : Heap) (lo a m f n : ℕ) (segs : List Seg)
    → Laid lo ((a, m) ∷ segs)
    → Chain h.word a ((a, m) ∷ segs)
    → h.word f ≡ n
    → a + 8 + m ≤ f
    → f + 8 + n < 2 ^ 32
    → Apart f (f + 8 + n) segs
    → length segs < fuel
    → PlacedBehind fuel h a m f n segs
unfolding find_place give_back_after
placed_behind zero h lo a m f n segs l c size past fit far en = absurd (omega arith)
placed_behind (suc fuel) h lo a m f n [] l c size past fit far en =
    let last : next_at h a ≡ 0 = c.3 in
    let l' : Laid lo ((a, m) ∷ (f, n) ∷ []) = (l.0, l.1, l.2, (past, omega arith, fit, tt)) in
    record {
      prev = a;
      current = 0;
      finds = rw last refl;
      result = inserted h lo a m f n [] l' c size;
    }
placed_behind (suc fuel) h lo a m f n ((b, k) ∷ segs) l c size past fit far en =
    let next : next_at h a ≡ b = c.3.0 in
    let there : (b == 0) ≡ false = ground (arith, c.3.1) in
    elim (Bool-cases (ltb b f)) [
      | inr reached ↦
          let l' : Laid lo ((a, m) ∷ (f, n) ∷ (b, k) ∷ segs) = (
            l.0,
            l.1,
            l.2,
            (past, omega arith, fit, (ground (arith, far.0), l.3.1, l.3.2, l.3.3)),
          ) in
          record {
            prev = a;
            current = b;
            finds =
                ap (λ x. find_place (suc fuel) h f a x) next
                ∙ find_place_here fuel h f a b there reached;
            result = rw reached (inserted h lo a m f n ((b, k) ∷ segs) l' c size);
          }
      | inl before ↦
          let passed : b + 8 + k ≤ f = ground (arith, far.0) in
          let here : Chain h.word b ((b, k) ∷ segs) = (refl, c.3.1, c.3.2, c.3.3) in
          let p =
            placed_behind fuel h (a + 8 + m) b k f n segs l.3 here size passed fit far.1
              (omega arith) in
          let r = p.result in
          let e4 : add32 a 4 ≡ a + 4 = omega (arith, l.2) in
          record {
            prev = p.prev;
            current = p.current;
            finds =
                ap (λ x. find_place (suc fuel) h f a x) next
                ∙ find_place_on fuel h f a b there before
                ∙ p.finds;
            result = rw before record {
              chain = (
                refl,
                c.1,
                r.below a (omega (arith, l.3.0)) ∙ c.2,
                rw (r.below (add32 a 4) (omega (arith, l.3.0)) ∙ next) (r.chain),
              );
              below = λ x under. r.below x (omega (arith, l.3.0));
              first = r.first;
            };
          }
    ]
