-- ===== src/Base/Bits.antt =====
-- Bit operations as arithmetic: masks of low bits, masks of high bits, and tables over a byte.
mod Step
pub use Step.{bit_and_step, bit_or_step}
use Prim.Native.Nat.{ℕ, zero, suc, ◌+◌, ◌-◌, ◌*◌, ◌/◌, ◌%◌, ◌^◌, ◌≤◌, ◌<◌, bit_and, bit_or}
use mathlib.Core.Path.{◌≡◌, refl, ap, ap₂, sym, ◌∙◌}
use mathlib.Core.Bool.{Bool, true, false, ◌&&◌}
use mathlib.Core.WellFounded
use native.Mathlib.Omega.{arith}
use native.Mathlib.Nat.{pow-suc, one-le-pow, div-div-eq-div-mul, div-add-mod}
use shogun_os.Base.Order.{lt_wf}

-- Over a small range, check every value by evaluation.
unfoldable pub all_below : (bound : ℕ) → (test : ℕ → Bool) → Bool
all_below zero test = true
all_below (suc bound) test = test bound && all_below bound test

pub all_below_sound :
    (bound : ℕ) (test : ℕ → Bool) (k : ℕ) → all_below bound test ≡ true → k < bound → test k ≡ true
unfolding all_below
all_below_sound zero test k checked inside = absurd (omega arith)
all_below_sound (suc bound) test k checked inside = ground (arith, all_below_sound bound test k)

-- Induction that goes from the upper digits of a number to the number.
by_halves : (C : ℕ → Type 0) → C 0 → ((n : ℕ) → C (suc n / 2) → C (suc n)) → (a : ℕ) → C a
by_halves C base longer a = WellFounded.induction lt_wf {C = C} a from_below
  where
    from_below : (x : ℕ) → ((y : ℕ) → y < x → C y) → C x
    from_below zero known = base
    from_below (suc x) known = longer x (known (suc x / 2) (omega arith))

bit_and-zero : (a : ℕ) → bit_and a 0 ≡ 0
bit_and-zero =
    by_halves (λ n. bit_and n 0 ≡ 0) refl (λ n upper. omega (arith, upper, bit_and_step (suc n) 0))

bit_or-zero : (a : ℕ) → bit_or a 0 ≡ a
bit_or-zero =
    by_halves (λ n. bit_or n 0 ≡ n) refl (λ n upper. omega (arith, upper, bit_or_step (suc n) 0))

double-pow : (q k : ℕ) → q * 2 ^ suc k ≡ 2 * (q * 2 ^ k)
double-pow q k = omega (arith, ap (λ (t : ℕ). q * t) (pow-suc 2 k))

div-pow-suc : (a k : ℕ) → a / 2 ^ suc k ≡ a / 2 / 2 ^ k
div-pow-suc a k =
    ap (λ t. a / t) {y = 2 * 2 ^ k} (omega (arith, pow-suc 2 k))
    ∙ sym (div-div-eq-div-mul a 2 (2 ^ k))

mod-pow-suc : (a k : ℕ) → a % 2 ^ suc k ≡ (a / 2 % 2 ^ k) * 2 + a % 2
mod-pow-suc a k = omega (
  arith,
  div-add-mod a (2 ^ suc k),
  div-add-mod (a / 2) (2 ^ k),
  ap₂ ◌*◌ {x = 2 ^ suc k} {y = 2 * 2 ^ k} (omega (arith, pow-suc 2 k)) (div-pow-suc a k),
)

-- `a & (2^k - 1)` is the remainder by `2^k`.
pub bit_and_low : (k a : ℕ) → bit_and a (2 ^ k - 1) ≡ a % 2 ^ k
bit_and_low zero a = omega (arith, bit_and-zero a)
bit_and_low (suc k) a = omega (
  arith,
  bit_and_step a (2 ^ suc k - 1),
  ap (bit_and (a / 2)) {x = (2 ^ suc k - 1) / 2} {y = 2 ^ k - 1} (omega (arith, pow-suc 2 k)),
  bit_and_low k (a / 2),
  mod-pow-suc a k,
  pow-suc 2 k,
  one-le-pow k 2,
)

-- `(q << k) | r` is a sum when `r` fits `k` bits.
pub bit_or_shifted : (k q r : ℕ) → r < 2 ^ k → bit_or (q * 2 ^ k) r ≡ q * 2 ^ k + r
bit_or_shifted zero q r fits = ground (arith, bit_or-zero q)
bit_or_shifted (suc k) q r fits =
    ground (
      arith,
      bit_or_step (q * 2 ^ suc k) r,
      double-pow q k,
      pow-suc 2 k,
      bit_or_shifted k q (r / 2),
    )

-- A mask whose low `k` bits are clear keeps nothing below `2^k`.
pub bit_and_shifted : (k a m : ℕ) → bit_and a (m * 2 ^ k) ≡ bit_and (a / 2 ^ k) m * 2 ^ k
bit_and_shifted zero a m = ground arith
bit_and_shifted (suc k) a m = ground (
  arith,
  bit_and_step a (m * 2 ^ suc k),
  double-pow m k,
  double-pow (bit_and (a / 2 ^ suc k) m) k,
  bit_and_shifted k (a / 2) m,
  div-pow-suc a k,
)
