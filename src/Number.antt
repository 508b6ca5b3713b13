-- ===== src/Number.antt =====
-- src/terminal.c: the conversions of numbers to text. A text is the list of the characters that
-- stand in the buffer before its NUL.
pub mod Reversal
pub mod Digits
pub mod Decimal
pub mod Hex
pub mod Wide
use shogun_os.Base.{
  ℕ, zero, suc, ◌+◌, ◌-◌, ◌/◌, ◌%◌, ◌^◌, Bool, true, false, Option, none, some, List, [], ◌∷◌, ◌++◌,
  ltb, leb, ◌==◌, if◌then◌else◌, get_or, set, length, codes, bit_and,
}

abbrev pub Text : Type 0
Text = List ℕ

-- `while (num != 0) { buffer[i++] = (num % 10) + '0'; num = num / 10; }`, where the characters up
-- to `i` are `buffer`. `none` means that the fuel ran out.
pub digits_loop : ℕ → (num : ℕ) → (buffer : Text) → Option Text
digits_loop zero num buffer = none
digits_loop (suc fuel) num buffer =
    let rest = digits_loop fuel (num / 10) (buffer ++ ((num % 10 + b'0') ∷ [])) in
    if num == 0 then some buffer else rest

-- The body of the loop that reverses the buffer in place.
abbrev pub swap : Text → (start end : ℕ) → Text
swap buffer start end =
    let temp = get_or buffer start 0 in set (set buffer start (get_or buffer end 0)) end temp

pub reverse_loop : ℕ → Text → (start end : ℕ) → Text
reverse_loop zero buffer start end = buffer
reverse_loop (suc fuel) buffer start end =
    let rest = reverse_loop fuel (swap buffer start end) (start + 1) (end - 1) in
    if ltb start end then rest else buffer

-- `start = 0, end = i - 1`; half the length is more rounds than the loop makes. The buffer is not
-- empty here.
pub reverse_buffer : Text → Text
unfolding reverse_loop
reverse_buffer buffer = reverse_loop (length buffer) buffer 0 (length buffer - 1)

-- A uint32_t has at most ten digits; the eleventh round only makes the last test.
abbrev pub digit_fuel : ℕ
digit_fuel = 11

abbrev pub zero_text : Text
zero_text = b'0' ∷ []

pub uint_to_string : (num : ℕ) → Option Text
uint_to_string num = if num == 0 then some zero_text else elim (digits_loop digit_fuel num []) [
  | none ↦ none
  | some buffer ↦ some (reverse_buffer buffer)
]

-- What `int_to_string` leaves: a text, no text for want of fuel, or nothing that C defines.
pub data Printed : Type 0 where
  text : Text → Printed
  out_of_fuel undefined : Printed

-- Whether the bit pattern of an `int32_t` is that of a negative number, and of the least one.
abbrev pub is_negative : ℕ → Bool
is_negative w = leb (2 ^ 31) w

-- `if (num < 0) num = -num;`
abbrev pub magnitude : ℕ → ℕ
magnitude num = if is_negative num then 2 ^ 32 - num else num

-- `int_to_string` from its digits on.
pub finish_int : (negative : Bool) → Option Text → Printed
finish_int negative none = out_of_fuel
finish_int negative (some buffer) =
    text (reverse_buffer (if negative then buffer ++ (b'-' ∷ []) else buffer))

-- The argument is the bit pattern of `num`. For the least `int32_t` the negation `-num` overflows.
pub int_to_string : (num : ℕ) → Printed
int_to_string num =
    if num == 0
    then text zero_text
    else if num == 2 ^ 31
    then undefined
    else finish_int (is_negative num) (digits_loop digit_fuel (magnitude num) [])

-- What `put_i32` and `put_u32` hand to `output_string`.
unfoldable pub put_u32 : ℕ → Option Text
put_u32 num = uint_to_string num

unfoldable pub put_i32 : ℕ → Printed
put_i32 num = int_to_string num

-- The zeros that `put_u64` prints before the lower half.
pub padding : ℕ → Text
padding lower =
    if ltb lower 10
    then codes "000000000"
    else if ltb lower 100
    then codes "00000000"
    else if ltb lower 1000
    then codes "0000000"
    else if ltb lower 10000
    then codes "000000"
    else if ltb lower 100000
    then codes "00000"
    else if ltb lower 1000000
    then codes "0000"
    else if ltb lower 10000000
    then codes "000"
    else if ltb lower 100000000
    then codes "00"
    else if ltb lower 1000000000
    then codes "0"
    else []

append_texts : Option Text → Text → Option Text → Option Text
append_texts (some a) b (some c) = some (a ++ (b ++ c))
append_texts (some a) b none = none
append_texts none b c = none

-- What `put_u64` prints, over its calls of `output_string`.
pub put_u64 : (num : ℕ) → Option Text
unfolding append_texts
put_u64 num =
    let upper = num / 2 ^ 32 in
    let lower = num % 2 ^ 32 in
    if upper == 0
    then put_u32 lower
    else append_texts (put_u32 upper) (padding lower) (uint_to_string lower)

-- `hex_chars[d]`
pub hex_char : ℕ → ℕ
hex_char d = get_or (codes "0123456789ABCDEF") d 0

-- `for (i = 8; i > 0; i--) { buffer[i + 1] = hex_chars[num & 0xF]; num >>= 4; }`: each round writes
-- just before the characters that are there.
pub hex_loop : ℕ → (num : ℕ) → Text → Text
unfolding hex_char
hex_loop zero num buffer = buffer
hex_loop (suc i) num buffer = hex_loop i (num / 2 ^ 4) (hex_char (bit_and num 0xF) ∷ buffer)

pub put_hex : (num : ℕ) → Text
unfolding hex_loop
put_hex num = b'0' ∷ b'x' ∷ hex_loop 8 num []
