-- ===== src/Number/Wide.antt =====
-- `put_u64` of src/terminal.c.
use shogun_os.Base.{
  ℕ, zero, suc, ◌+◌, ◌-◌, ◌*◌, ◌/◌, ◌%◌, ◌^◌, ◌≤◌, ◌<◌, ◌≡◌, ◌≢◌, ap, ap₂, ◌∙◌, some, [], ◌∷◌, ◌++◌,
  false, arith, ◌==◌, length,
}
use native.Mathlib.Nat.{pow-suc, mul_assoc}
use shogun_os.Number.{Text, put_u32, put_u64, padding}
use shogun_os.Number.Digits.{AllDigits, decimal, decimal_from, decimal_from-append}
use shogun_os.Number.Decimal.{DecimalOf, uint_to_string_lem}

-- Digits behind `acc` shift it by their number of places.
decimal_from_shift : (acc : ℕ) (s : Text) → decimal_from acc s ≡ acc * 10 ^ length s + decimal s
decimal_from_shift acc [] = omega arith
decimal_from_shift acc (c ∷ s) = omega (
  arith,
  decimal_from_shift (acc * 10 + (c - b'0')) s,
  decimal_from_shift (0 * 10 + (c - b'0')) s,
  ap (λ t. acc * t) (pow-suc 10 (length s)),
)

decimal-cons : (c : ℕ) (s : Text) → decimal (c ∷ s) ≡ (c - b'0') * 10 ^ length s + decimal s
decimal-cons c s = decimal_from_shift (0 * 10 + (c - b'0')) s ∙ omega arith

decimal-lt : (s : Text) → AllDigits s → decimal s < 10 ^ length s
decimal-lt [] d = omega arith
decimal-lt (c ∷ s) d = grind (arith, decimal-cons c s, decimal-lt s d.1, pow-suc 10 (length s))

le-decimal : (c : ℕ) (s : Text) → b'0' ≤ c → c ≢ b'0' → 10 ^ length s ≤ decimal (c ∷ s)
le-decimal c s lo ne = grind (arith, decimal-cons c s)

-- The zeros make up ten places with a number of `k` digits.
length-padding :
    (k lower : ℕ)
    → 0 < k
    → k ≤ 10
    → (1 < k → 10 ^ (k - 1) ≤ lower)
    → lower < 10 ^ k
    → length (padding lower) + k ≡ 10
unfolding padding
length-padding zero lower pos small lo hi = absurd (omega arith)
length-padding (suc zero) lower pos small lo hi = ground arith
length-padding (suc (suc zero)) lower pos small lo hi = ground arith
length-padding (suc (suc (suc zero))) lower pos small lo hi = ground arith
length-padding (suc (suc (suc (suc zero)))) lower pos small lo hi = ground arith
length-padding (suc (suc (suc (suc (suc zero))))) lower pos small lo hi = ground arith
length-padding (suc (suc (suc (suc (suc (suc zero)))))) lower pos small lo hi = ground arith
length-padding (suc (suc (suc (suc (suc (suc (suc zero))))))) lower pos small lo hi = ground arith
length-padding (suc (suc (suc (suc (suc (suc (suc (suc zero)))))))) lower pos small lo hi =
    ground arith
length-padding (suc (suc (suc (suc (suc (suc (suc (suc (suc zero))))))))) lower pos small lo hi =
    ground arith
length-padding (suc (suc (suc (suc (suc (suc (suc (suc (suc (suc zero)))))))))) lower pos small lo
      hi =
    ground arith
length-padding (suc (suc (suc (suc (suc (suc (suc (suc (suc (suc (suc k))))))))))) lower pos small
      lo hi =
    absurd (omega arith)

decimal_from-padding :
    (lower acc : ℕ) → decimal_from acc (padding lower) ≡ acc * 10 ^ length (padding lower)
unfolding padding
decimal_from-padding lower acc = ground arith

padded_places : (lower : ℕ) (s : Text) → DecimalOf lower s → length (padding lower) + length s ≡ 10
padded_places lower [] d = absurd (omega (arith, d.nonempty))
padded_places lower (c ∷ s) d =
    length-padding (length (c ∷ s)) lower d.nonempty d.short
      (λ more.
        let nz : lower ≢ 0 = λ z. absurd (omega (arith, d.single z)) in
        let e : suc (length s) - 1 ≡ length s = omega arith in
        rw e (omega (arith, le-decimal c s (d.digits).0.0 (d.lead nz), d.spell)))
      (omega (arith, decimal-lt (c ∷ s) d.digits, d.spell))

ten_pow_add : (i j : ℕ) → 10 ^ i * 10 ^ j ≡ 10 ^ (i + j)
ten_pow_add zero j = let e : zero + j ≡ j = omega arith in rw e (omega arith)
ten_pow_add (suc i) j =
    let e : suc i + j ≡ suc (i + j) = omega arith in
    rw e (omega (arith, ap (λ t. t * 10 ^ j) (pow-suc 10 i), pow-suc 10 (i + j), ten_pow_add i j))

wide_value :
    (upper lower : ℕ) (us ls : Text)
    → DecimalOf upper us
    → DecimalOf lower ls
    → decimal (us ++ (padding lower ++ ls)) ≡ upper * 10 ^ 10 + lower
wide_value upper lower us ls ud ld =
    decimal_from-append 0 us (padding lower ++ ls)
    ∙ decimal_from-append (decimal us) (padding lower) ls
    ∙ ap (λ t. decimal_from t ls) (decimal_from-padding lower (decimal us))
    ∙ decimal_from_shift (decimal us * 10 ^ length (padding lower)) ls
    ∙ ap₂ ◌+◌
        (mul_assoc (decimal us) (10 ^ length (padding lower)) (10 ^ length ls)
          ∙ ap₂ ◌*◌ ud.spell (
              ten_pow_add (length (padding lower)) (length ls)
              ∙ ap (λ k. 10 ^ k) (padded_places lower ls ld)))
        ld.spell

-- A 64-bit number of more than 32 bits is printed as its upper half, followed by ten decimal places
-- of its lower half: the text spells `upper * 10^10 + lower`, and so another number.
pub put_u64_wide :
    (num : ℕ)
    → num < 2 ^ 64
    → 2 ^ 32 ≤ num
    → (s : Text) × (put_u64 num ≡ some s)
      × (decimal s ≡ num / 2 ^ 32 * 10 ^ 10 + num % 2 ^ 32)
      × (decimal s ≢ num)
unfolding put_u64 put_u32
put_u64_wide num hi lo =
    let (us, ue, ud) = uint_to_string_lem (num / 2 ^ 32) (omega arith) in
    let (ls, le, ld) = uint_to_string_lem (num % 2 ^ 32) (omega arith) in
    let nz : (num / 2 ^ 32 == 0) ≡ false = ground arith in
    let value : decimal (us ++ (padding (num % 2 ^ 32) ++ ls))
        ≡ num / 2 ^ 32 * 10 ^ 10 + num % 2 ^ 32 =
      wide_value (num / 2 ^ 32) (num % 2 ^ 32) us ls ud ld in
    (us ++ (padding (num % 2 ^ 32) ++ ls), rw (nz, ue, le), value, λ e. absurd (omega arith))
