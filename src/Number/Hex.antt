-- ===== src/Number/Hex.antt =====
-- `put_hex` of src/terminal.c, against the value of hexadecimal digits.
use shogun_os.Base.{
  ℕ, zero, suc, ◌+◌, ◌-◌, ◌*◌, ◌/◌, ◌^◌, ◌<◌, ◌≡◌, refl, ap, ◌∙◌, [], ◌∷◌, arith, ◌==◌, ltb,
  if◌then◌else◌, length, bit_and, ==_iff,
}
use native.Mathlib.Nat.{pow-suc}
use shogun_os.Base.Bits.{bit_and_low, all_below, all_below_sound}
use shogun_os.Number.{Text, hex_char, hex_loop, put_hex}

-- The value of an upper-case hexadecimal digit.
abbrev pub hex_value : ℕ → ℕ
hex_value c = if ltb c b'A' then c - b'0' else c - b'A' + 10

abbrev pub hex_from : ℕ → Text → ℕ
hex_from acc [] = acc
hex_from acc (c ∷ s) = hex_from (acc * 16 + hex_value c) s

hex_value-hex_char : (d : ℕ) → d < 16 → hex_value (hex_char d) ≡ d
unfolding hex_char
hex_value-hex_char d h =
    (==_iff (hex_value (hex_char d)) d).0
      (all_below_sound 16 (λ x. hex_value (hex_char x) == x) d (unfold all_below in refl) h)

-- What the rounds have still to write comes before what they have written.
hex_from-hex_loop :
    (i num acc : ℕ) (b : Text)
    → num < 16 ^ i
    → hex_from acc (hex_loop i num b) ≡ hex_from (acc * 16 ^ i + num) b
unfolding hex_loop
hex_from-hex_loop zero num acc b h = ap (λ t. hex_from t b) (omega arith)
hex_from-hex_loop (suc i) num acc b h =
    hex_from-hex_loop i (num / 2 ^ 4) acc (hex_char (bit_and num 0xF) ∷ b)
      (omega (arith, pow-suc 16 i))
    ∙ ap (λ t. hex_from t b)
        (omega (
          arith,
          hex_value-hex_char (bit_and num 0xF) (omega (arith, bit_and_low 4 num)),
          bit_and_low 4 num,
          ap (λ t. acc * t) (pow-suc 16 i),
        ))

length-hex_loop : (i num : ℕ) (b : Text) → length (hex_loop i num b) ≡ i + length b
unfolding hex_loop
length-hex_loop zero num b = omega arith
length-hex_loop (suc i) num b =
    omega (arith, length-hex_loop i (num / 2 ^ 4) (hex_char (bit_and num 0xF) ∷ b))

-- For every `uint32_t`, `put_hex` prints `0x` and eight digits, which spell the number.
pub put_hex_lem :
    (num : ℕ)
    → num < 2 ^ 32
    → (digits : Text) × (put_hex num ≡ b'0' ∷ b'x' ∷ digits)
      × (length digits ≡ 8)
      × (hex_from 0 digits ≡ num)
unfolding put_hex
put_hex_lem num h = (
  hex_loop 8 num [],
  refl,
  length-hex_loop 8 num [],
  hex_from-hex_loop 8 num 0 [] (omega arith) ∙ omega arith,
)
