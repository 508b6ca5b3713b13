-- ===== src/Number/Decimal.antt =====
-- `uint_to_string` and `int_to_string` of src/terminal.c, against the value of decimal digits.
use shogun_os.Base.{
  ℕ, ◌^◌, ◌≤◌, ◌<◌, ◌≡◌, ◌≢◌, refl, ap, sym, ◌∙◌, some, [], ◌∷◌, ◌++◌, Bool, inl, inr, true, false,
  Bool-cases, arith, ◌==◌, get_or, length, if◌then◌else◌,
}
use mathlib.Core.List.{reverse, reverse-append}
use shogun_os.Number.{Text, text, uint_to_string, int_to_string, is_negative, magnitude, finish_int}
use shogun_os.Number.Reversal.{reverse_buffer_lem, length-reverse, get_or-reverse}
use shogun_os.Number.Digits.{
  AllDigits, AllDigits-reverse, decimal, decimal-reverse, DigitsOf, digits_loop_lem,
}

-- The decimal text of `num`: digits that spell it, without a leading zero unless it is 0.
pub record DecimalOf (num : ℕ) (s : Text) : Type 0 where
  pub spell : decimal s ≡ num
  pub digits : AllDigits s
  pub nonempty : 0 < length s
  pub short : length s ≤ 10
  pub lead : num ≢ 0 → get_or s 0 0 ≢ b'0'
  pub single : num ≡ 0 → length s ≡ 1

DecimalOf-zero : DecimalOf 0 (b'0' ∷ [])
DecimalOf-zero = record {
  spell = refl;
  digits = omega arith;
  nonempty = omega arith;
  short = omega arith;
  lead = λ nz. absurd (nz refl);
  single = λ _. refl;
}

DecimalOf-reverse :
    (num : ℕ) (ds : Text) → num ≢ 0 → DigitsOf num 10 ds → DecimalOf num (reverse ds)
DecimalOf-reverse num ds nz d = record {
  spell = decimal-reverse ds ∙ d.spell;
  digits = AllDigits-reverse ds d.digits;
  nonempty = omega (arith, length-reverse ds, (d.lead nz).0);
  short = omega (arith, length-reverse ds);
  lead = λ _ e.
      (d.lead nz).1
        (ap (λ i. get_or ds i 0) (omega arith) ∙ sym (get_or-reverse ds 0 (d.lead nz).0) ∙ e);
  single = λ z. absurd (nz z);
}

-- For every `uint32_t` the conversion ends, and leaves its decimal text, which with the NUL fits
-- the 11 characters of the caller's buffer.
pub uint_to_string_lem :
    (num : ℕ) → num < 2 ^ 32 → (s : Text) × (uint_to_string num ≡ some s) × DecimalOf num s
unfolding uint_to_string
uint_to_string_lem num h = elim (Bool-cases (num == 0)) [
  | inl z ↦ let e : num ≡ 0 = ground arith in (b'0' ∷ [], rw z, rw e DecimalOf-zero)
  | inr nz ↦
      let (ds, e, d) = digits_loop_lem 10 num [] (omega arith) in
      (reverse ds, rw (nz, e, reverse_buffer_lem ds), DecimalOf-reverse num ds (ground arith) d)
]

-- A sign before a text.
abbrev pub with_sign : Bool → Text → Text
with_sign negative s = if negative then b'-' ∷ s else s

finish_int_lem :
    (negative : Bool) (ds : Text)
    → finish_int negative (some ds) ≡ text (with_sign negative (reverse ds))
unfolding finish_int
finish_int_lem true ds =
    ap text (reverse_buffer_lem (ds ++ (b'-' ∷ [])) ∙ reverse-append ds (b'-' ∷ []))
finish_int_lem false ds = ap text (reverse_buffer_lem ds)

-- For every `int32_t` but the least the conversion ends with the decimal text of the magnitude,
-- behind `-` if the number is negative.
pub int_to_string_lem :
    (num : ℕ)
    → num < 2 ^ 32
    → num ≢ 2 ^ 31
    → (s : Text) × (int_to_string num ≡ text (with_sign (is_negative num) s))
      × DecimalOf (magnitude num) s
unfolding int_to_string
int_to_string_lem num h least = elim (Bool-cases (num == 0)) [
  | inl z ↦ let e : num ≡ 0 = ground arith in (b'0' ∷ [], rw e, rw e DecimalOf-zero)
  | inr nz ↦
      let (ds, e, d) = digits_loop_lem 10 (magnitude num) [] (ground arith) in
      let l : (num == 2 ^ 31) ≡ false = ground arith in
      (
        reverse ds,
        rw (nz, l, e) (finish_int_lem (is_negative num) ds),
        DecimalOf-reverse (magnitude num) ds (ground arith) d,
      )
]
