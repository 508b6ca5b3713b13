-- ===== src/Memory/Deallocate.antt =====
-- `deallocate` of src/memory.c on a free list of any length.
use shogun_os.Base.{
  ℕ, zero, suc, ◌+◌, ◌-◌, ◌^◌, ◌≤◌, ◌<◌, ◌≡◌, ◌≢◌, inl, inr, refl, ap, ◌∙◌, false, some, List, [],
  ◌∷◌, ltb, ◌==◌, add32, sub32, length, arith, Bool-cases,
}
use shogun_os.Memory.{Heap, update, find_place, put_back, merge_before, retype, deallocate, free}
use shogun_os.Memory.Chain.{Seg, Chain, Laid, Chain-frame, Apart}
use shogun_os.Memory.Join.{join, head_of, Chain-head, merge_after_lem}
use shogun_os.Memory.GiveBack.{give_back, span, span-give_back, Laid-give_back}
use shogun_os.Memory.Insert.{Chain-Apart, find_place_on, find_place_here, placed_behind}

-- The whole list.
record Returned (fuel : ℕ) (h : Heap) (f n : ℕ) (segs : List Seg) : Type 0 where
  prev : ℕ
  current : ℕ
  finds : find_place fuel h f 0 h.first_free ≡ some (prev, current)
  chain :
      Chain
        (put_back h f prev current).word
        (put_back h f prev current).first_free
        (give_back (f, n) segs)

-- In front of all segments.
in_front :
    (h : Heap) (f n : ℕ) (segs : List Seg)
    → Laid 0 ((f, n) ∷ segs)
    → Chain h.word h.first_free segs
    → h.word f ≡ n
    → Chain
        (put_back h f 0 (head_of segs)).word
        (put_back h f 0 (head_of segs)).first_free
        (join (f, n) segs)
unfolding put_back merge_before
in_front h f n segs l c size =
    let w = update h.word (add32 f 4) (head_of segs) in
    let h1 : Heap = record { word = w; first_free = f } in
    let next : w (add32 f 4) ≡ h.first_free =
      ground (arith, Chain-head h.word h.first_free segs c) in
    let ahead : Chain w f ((f, n) ∷ segs) = (
      refl,
      ground arith,
      ground arith,
      rw next (Chain-frame h.word w (f + 8 + n) h.first_free segs (λ x far. ground arith) l.3 c),
    ) in
    let merged = merge_after_lem h1 0 f n segs l ahead in rw (merged.first) (merged.chain)

returned :
    (fuel : ℕ) (h : Heap) (f n : ℕ) (segs : List Seg)
    → Laid 0 segs
    → Chain h.word h.first_free segs
    → h.word f ≡ n
    → 0 < f
    → f + 8 + n < 2 ^ 32
    → Apart f (f + 8 + n) segs
    → length segs < fuel
    → Returned fuel h f n segs
unfolding find_place give_back
returned zero h f n segs l c size pos fit far en = absurd (omega arith)
returned (suc fuel) h f n [] l c size pos fit far en = record {
  prev = 0;
  current = 0;
  finds = rw c refl;
  chain = in_front h f n [] (omega arith, pos, fit, tt) c size;
}
returned (suc fuel) h f n ((b, k) ∷ segs) l c size pos fit far en =
    let there : (b == 0) ≡ false = ground (arith, c.1) in
    elim (Bool-cases (ltb b f)) [
      | inr reached ↦
          let l' : Laid 0 ((f, n) ∷ (b, k) ∷ segs) =
            (omega arith, pos, fit, (ground (arith, far.0), l.1, l.2, l.3)) in
          record {
            prev = 0;
            current = b;
            finds =
                ap (λ x. find_place (suc fuel) h f 0 x) c.0
                ∙ find_place_here fuel h f 0 b there reached;
            chain = rw reached (in_front h f n ((b, k) ∷ segs) l' c size);
          }
      | inl before ↦
          let passed : b + 8 + k ≤ f = ground (arith, far.0) in
          let here : Chain h.word b ((b, k) ∷ segs) = (refl, c.1, c.2, c.3) in
          let p = placed_behind fuel h 0 b k f n segs l here size passed fit far.1 (omega arith) in
          let r = p.result in
          record {
            prev = p.prev;
            current = p.current;
            finds =
                ap (λ x. find_place (suc fuel) h f 0 x) c.0
                ∙ find_place_on fuel h f 0 b there before
                ∙ p.finds;
            chain = rw (before, r.first ∙ c.0) (r.chain);
          }
    ]

deallocate_at :
    (fuel : ℕ) (h : Heap) (ptr f prev current : ℕ)
    → ptr ≢ 0
    → sub32 ptr 4 ≡ f
    → find_place fuel (retype h f) f 0 (retype h f).first_free ≡ some (prev, current)
    → deallocate fuel h ptr ≡ some (put_back (retype h f) f prev current)
unfolding deallocate
deallocate_at fuel h ptr f prev current nz at finds =
    let t : (ptr == 0) ≡ false = ground arith in rw (deallocate, t, at, finds, at) refl

-- On a well-formed free list, with more fuel than there are segments, `free` of a block whose header
-- lies 4 bytes below the pointer and holds its size, and that with 4 bytes more overlaps nothing that
-- is free, returns. The free list is then that of the insertion: the segment stands in its place in
-- the order of the addresses, merged with the neighbours that touch it; the list is again well
-- formed, and has the block's bytes and 4 more.
pub free_lem :
    (fuel size ptr : ℕ) (h : Heap) (segs : List Seg)
    → Laid 0 segs
    → Chain h.word h.first_free segs
    → 4 < ptr
    → 4 ≤ size
    → h.word (ptr - 4) ≡ size
    → ptr + size < 2 ^ 32
    → Apart (ptr - 4) (ptr + size) segs
    → length segs < fuel
    → (h' : Heap) × (free fuel h ptr ≡ some h')
      × Chain h'.word h'.first_free (give_back (ptr - 4, size - 4) segs)
      × Laid 0 (give_back (ptr - 4, size - 4) segs)
      × (span (give_back (ptr - 4, size - 4) segs) ≡ span segs + size + 4)
unfolding free retype
free_lem fuel size ptr h segs l c pos least header fit far en =
    let f = ptr - 4 in
    let n = size - 4 in
    let at : sub32 ptr 4 ≡ f = omega arith in
    let top : f + 8 + n ≡ ptr + size = omega arith in
    let shrunk : sub32 size 4 ≡ n = omega arith in
    let h1 = retype h f in
    let far' : Apart f (f + 8 + n) segs = rw top far in
    let typed : h1.word f ≡ n = ground (arith, header, shrunk) in
    let same : (x : ℕ) → x ≢ f → x ≢ f + 4 → h1.word x ≡ h.word x = λ x ne ne'. ground arith in
    let c1 =
      Chain-Apart h.word h1.word 0 h.first_free f (f + 8 + n) segs same (omega arith) l far' c in
    let r = returned fuel h1 f n segs l c1 typed (omega arith) (omega arith) far' en in
    (
      put_back h1 f r.prev r.current,
      deallocate_at fuel h ptr f r.prev r.current (omega arith) at (r.finds),
      r.chain,
      Laid-give_back f n segs l (omega arith) (omega arith) far',
      span-give_back f n segs ∙ omega arith,
    )
