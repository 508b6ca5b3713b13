-- ===== src/Base/Bits/Step.antt =====
-- `&` and `|` by their lowest digit, from the digit recursion that the native operations stand for.
use Prim.Native.Nat.{
  ℕ, zero, suc, ◌+◌, ◌-◌, ◌*◌, ◌/◌, ◌%◌, ◌≤◌, min, max, bit_and, bit_or, digits, bit_and-bitwise,
  bit_or-bitwise,
}
use mathlib.Core.Path.{◌≡◌, refl, ap, ◌∙◌}
use native.Mathlib.Omega.{arith}

-- One unit of fuel more changes nothing, where there was enough.
module _ (end : ℕ → ℕ) (digit : ℕ → ℕ → ℕ) where
  digits_more :
      (fuel a b : ℕ) → a ≤ fuel → digits end digit (suc fuel) a b ≡ digits end digit fuel a b
  digits_more zero zero b h = refl
  digits_more zero (suc a) b h = absurd (omega arith)
  digits_more (suc fuel) zero b h = refl
  digits_more (suc fuel) (suc a) b h =
      ap (λ t. t * 2 + digit (suc a % 2) (b % 2))
        (digits_more fuel (suc a / 2) (b / 2) (omega arith))

  -- So the fuel `k + a` serves as well as `a`.
  digits_extra : (k a b : ℕ) → digits end digit (k + a) a b ≡ digits end digit a a b
  digits_extra zero a b = ap (λ t. digits end digit t a b) (omega arith)
  digits_extra (suc k) a b =
      ap (λ t. digits end digit t a b) {y = suc (k + a)} (omega arith)
      ∙ digits_more (k + a) a b (omega arith)
      ∙ digits_extra k a b

  -- Past the lowest digit of `suc a` the recursion may start afresh.
  digits_step :
      (a b : ℕ)
      → digits end digit (suc a) (suc a) b
        ≡ digits end digit (suc a / 2) (suc a / 2) (b / 2) * 2 + digit (suc a % 2) (b % 2)
  digits_step a b =
      ap (λ t. t * 2 + digit (suc a % 2) (b % 2))
        (ap (λ t. digits end digit t (suc a / 2) (b / 2)) {y = a - suc a / 2 + suc a / 2}
            (omega arith)
          ∙ digits_extra (a - suc a / 2) (suc a / 2) (b / 2))

pub bit_and_step : (a b : ℕ) → bit_and a b ≡ bit_and (a / 2) (b / 2) * 2 + min (a % 2) (b % 2)
bit_and_step zero b = rw (bit_and-bitwise 0 b, bit_and-bitwise 0 (b / 2)) (omega arith)
bit_and_step (suc a) b =
    rw (bit_and-bitwise (suc a) b, bit_and-bitwise (suc a / 2) (b / 2))
      (digits_step (λ _. 0) min a b)

pub bit_or_step : (a b : ℕ) → bit_or a b ≡ bit_or (a / 2) (b / 2) * 2 + max (a % 2) (b % 2)
bit_or_step zero b = rw (bit_or-bitwise 0 b, bit_or-bitwise 0 (b / 2)) (omega arith)
bit_or_step (suc a) b =
    rw (bit_or-bitwise (suc a) b, bit_or-bitwise (suc a / 2) (b / 2)) (digits_step (λ y. y) max a b)
