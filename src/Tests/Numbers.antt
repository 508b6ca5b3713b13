-- ===== src/Tests/Numbers.antt =====
-- Numbers of different widths.
use shogun_os.Base.{◌+◌, ◌*◌, ◌/◌, ◌%◌, ◌^◌, ◌≡◌, ◌≢◌, some, arith}
use shogun_os.Number.{Text, uint_to_string, put_u64}
use shogun_os.Number.Digits.{decimal}
use shogun_os.Number.Decimal.{DecimalOf, uint_to_string_lem}
use shogun_os.Number.Wide.{put_u64_wide}

uint_to_string_lem_example : (s : Text) × (uint_to_string 4096 ≡ some s) × DecimalOf 4096 s
uint_to_string_lem_example = uint_to_string_lem 4096 (omega arith)

put_u64_wide_example :
    (s : Text) × (put_u64 (2 ^ 32 + 7) ≡ some s)
    × (decimal s ≡ (2 ^ 32 + 7) / 2 ^ 32 * 10 ^ 10 + (2 ^ 32 + 7) % 2 ^ 32)
    × (decimal s ≢ 2 ^ 32 + 7)
put_u64_wide_example = put_u64_wide (2 ^ 32 + 7) (omega arith) (omega arith)
