-- ===== src/Number/Reversal.antt =====
-- The loop of src/terminal.c that reverses the buffer in place, against the reversal of lists.
use shogun_os.Base.{
  ℕ, zero, suc, ◌+◌, ◌-◌, ◌<◌, ◌≡◌, refl, sym, ap, ◌∙◌, [], ◌∷◌, inl, inr, Bool-cases, arith,
  get_or, set, length, length-set, ltb, ◌==◌, length-append, leb, ◌&&◌, if◌then◌else◌, get_or-set,
  get_or-append, get_or_ext, ltb→lt,
}
use mathlib.Core.List.{reverse, reverse-cons}
use shogun_os.Number.{Text, swap, reverse_loop, reverse_buffer}

-- The characters of a buffer after a swap.
get_or-swap :
    (b : Text) (i j k : ℕ)
    → i < length b
    → j < length b
    → get_or (swap b i j) k 0 ≡ get_or b (if k == i then j else if k == j then i else k) 0
get_or-swap b i j k hi hj =
    get_or-set (set b i (get_or b j 0)) j k (get_or b i 0) 0
      (omega (arith, length-set b i (get_or b j 0)))
    ∙ ground (arith, get_or-set b i k (get_or b j 0) 0 hi)

length-swap : (b : Text) (i j : ℕ) → length (swap b i j) ≡ length b
length-swap b i j =
    length-set (set b i (get_or b j 0)) j (get_or b i 0) ∙ length-set b i (get_or b j 0)

pub length-reverse_loop :
    (fuel : ℕ) (b : Text) (s e : ℕ) → length (reverse_loop fuel b s e) ≡ length b
unfolding reverse_loop
length-reverse_loop zero b s e = refl
length-reverse_loop (suc fuel) b s e =
    ground (arith, length-swap b s e, length-reverse_loop fuel (swap b s e) (s + 1) (e - 1))

-- The loop mirrors the characters between `s` and `e`, and leaves the others.
mirror : (s e k : ℕ) → ℕ
mirror s e k = if leb s k && leb k e then s + e - k else k

get_or-reverse_loop :
    (fuel : ℕ) (b : Text) (s e k : ℕ)
    → e < length b
    → e < s + fuel
    → get_or (reverse_loop fuel b s e) k 0 ≡ get_or b (mirror s e k) 0
unfolding reverse_loop mirror
get_or-reverse_loop zero b s e k hb hf = ap (λ i. get_or b i 0) (ground arith)
get_or-reverse_loop (suc fuel) b s e k hb hf = elim (Bool-cases (ltb s e)) [
  | inr done ↦ rw done (ap (λ i. get_or b i 0) (ground arith))
  | inl more ↦
      let lt : s < e = ltb→lt s e more in
      rw more (
        get_or-reverse_loop fuel (swap b s e) (s + 1) (e - 1) k (omega (arith, length-swap b s e))
          (omega arith)
        ∙ get_or-swap b s e (mirror (s + 1) (e - 1) k) (omega arith) hb
        ∙ ap (λ i. get_or b i 0) (ground arith))
]

pub length-reverse : (b : Text) → length (reverse b) ≡ length b
length-reverse [] = refl
length-reverse (x ∷ b) =
    ap length (reverse-cons x b)
    ∙ length-append (reverse b) (x ∷ [])
    ∙ omega (arith, length-reverse b)

get_or-cons_pos : (x : ℕ) (b : Text) (i : ℕ) → 0 < i → get_or (x ∷ b) i 0 ≡ get_or b (i - 1) 0
get_or-cons_pos x b zero h = elim h [ ]
get_or-cons_pos x b (suc i) h = ap (λ j. get_or b j 0) (omega arith)

pub get_or-reverse :
    (b : Text) (k : ℕ) → k < length b → get_or (reverse b) k 0 ≡ get_or b (length b - 1 - k) 0
get_or-reverse [] k h = absurd (omega arith)
get_or-reverse (x ∷ b) k h =
    ap (λ t. get_or t k 0) (reverse-cons x b)
    ∙ get_or-append (reverse b) (x ∷ []) k 0
    ∙ elim (Bool-cases (ltb k (length b))) [
      | inl inner ↦
          rw (length-reverse b, inner)
            (get_or-reverse b k (ltb→lt k (length b) inner)
              ∙ ap (λ i. get_or b i 0) {y = suc (length b) - 1 - k - 1}
                  (last_index k (ltb→lt k (length b) inner))
              ∙ sym (
                  get_or-cons_pos x b (suc (length b) - 1 - k)
                    (later k (ltb→lt k (length b) inner))))
      | inr outer ↦
          let e : k ≡ length b = ground arith in
          let e' : k - length b ≡ 0 = omega arith in
          let e'' : suc (length b) - 1 - k ≡ 0 = omega arith in
          rw (length-reverse b, outer, e', e'')
    ]
  where
    last_index : (k : ℕ) → k < length b → length b - 1 - k ≡ suc (length b) - 1 - k - 1
    last_index k h = omega arith

    later : (k : ℕ) → k < length b → 0 < suc (length b) - 1 - k
    later k h = omega arith

-- `reverse_buffer` reverses the buffer.
pub reverse_buffer_lem : (b : Text) → reverse_buffer b ≡ reverse b
unfolding reverse_buffer
reverse_buffer_lem [] = refl
reverse_buffer_lem (x ∷ b) =
    let n = length (x ∷ b) in
    get_or_ext 0 (reverse_buffer (x ∷ b)) (reverse (x ∷ b))
      (length-reverse_loop n (x ∷ b) 0 (n - 1) ∙ sym (length-reverse (x ∷ b)))
      (λ k h.
        get_or-reverse_loop n (x ∷ b) 0 (n - 1) k (omega arith) (omega arith)
        ∙ ap (λ i. get_or (x ∷ b) i 0)
            (mirrored k (omega (arith, length-reverse_loop n (x ∷ b) 0 (n - 1))))
        ∙ sym (get_or-reverse (x ∷ b) k (omega (arith, length-reverse_loop n (x ∷ b) 0 (n - 1)))))
  where
    mirrored :
        (k : ℕ) → k < suc (length b) → mirror 0 (suc (length b) - 1) k ≡ suc (length b) - 1 - k
    mirrored k h = unfold mirror in ground arith
