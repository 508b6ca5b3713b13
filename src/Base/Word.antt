-- ===== src/Base/Word.antt =====
-- `uint32_t` arithmetic: a word is a number below 2^32, and each operation wraps; and counting in `int`.
use Prim.Native.Nat.{ℕ, suc, ◌+◌, ◌-◌, ◌*◌, ◌%◌, ◌^◌, ◌<◌}
use mathlib.Core.Path.{◌≡◌}
use mathlib.Core.Option.{Option, none, some}
use native.Mathlib.Omega.{arith}
use shogun_os.Base.Tests.{◌==◌, if◌then◌else◌}

abbrev pub u32_mod : ℕ
u32_mod = 2 ^ 32

abbrev pub add32 : ℕ → ℕ → ℕ
add32 a b = (a + b) % u32_mod

-- `-` on ℕ is truncated, so the modulus is added first.
abbrev pub sub32 : ℕ → ℕ → ℕ
sub32 a b = (a + u32_mod - b) % u32_mod

abbrev pub mul32 : ℕ → ℕ → ℕ
mul32 a b = (a * b) % u32_mod

-- `~x`
abbrev pub not32 : ℕ → ℕ
not32 x = u32_mod - 1 - x

-- An `int` that is not negative is a number below this one.
abbrev pub int_bound : ℕ
int_bound = 2 ^ 31

-- `n++` on an `int` that is not negative; `none` behind the greatest one, where C defines nothing.
unfoldable pub increment : (n : ℕ) → Option ℕ
increment n = if suc n == int_bound then none else some (suc n)

pub increment_lem : (n : ℕ) → n + 1 < int_bound → increment n ≡ some (n + 1)
unfolding increment
increment_lem n room = ground (arith, room)
