-- ===== src/Number/Digits.antt =====
-- The loop that writes the decimal digits of a number, the lowest first.
use shogun_os.Base.{
  ℕ, zero, suc, ◌+◌, ◌-◌, ◌*◌, ◌/◌, ◌%◌, ◌^◌, ◌≤◌, ◌<◌, ◌≡◌, ◌≢◌, refl, ap, ◌∙◌, some, true, [],
  ◌∷◌, ◌++◌, append-nil, append_assoc, inl, inr, Bool-cases, arith, ◌==◌, get_or, length,
}
use mathlib.Core.List.{reverse, reverse-cons}
use native.Mathlib.Nat.{pow-suc}
use shogun_os.Number.{Text, digits_loop}

abbrev pub IsDigit : ℕ → Type 0
IsDigit c = (b'0' ≤ c) × (c ≤ b'9')

abbrev pub AllDigits : Text → Type 0
AllDigits [] = Unit
AllDigits (c ∷ s) = IsDigit c × AllDigits s

-- The number that a text spells in decimal, behind `acc`.
abbrev pub decimal_from : ℕ → Text → ℕ
decimal_from acc [] = acc
decimal_from acc (c ∷ s) = decimal_from (acc * 10 + (c - b'0')) s

abbrev pub decimal : Text → ℕ
decimal s = decimal_from 0 s

-- The number that digits spell whose lowest stands first.
abbrev pub low_first : Text → ℕ
low_first [] = 0
low_first (c ∷ s) = c - b'0' + 10 * low_first s

pub decimal_from-append :
    (acc : ℕ) (s t : Text) → decimal_from acc (s ++ t) ≡ decimal_from (decimal_from acc s) t
decimal_from-append acc [] t = refl
decimal_from-append acc (c ∷ s) t = decimal_from-append (acc * 10 + (c - b'0')) s t

pub decimal-reverse : (s : Text) → decimal (reverse s) ≡ low_first s
decimal-reverse [] = refl
decimal-reverse (c ∷ s) =
    ap decimal (reverse-cons c s)
    ∙ decimal_from-append 0 (reverse s) (c ∷ [])
    ∙ omega (arith, decimal-reverse s)

pub AllDigits-append : (s t : Text) → AllDigits s → AllDigits t → AllDigits (s ++ t)
AllDigits-append [] t hs ht = ht
AllDigits-append (c ∷ s) t hs ht = (hs.0, AllDigits-append s t hs.1 ht)

pub AllDigits-reverse : (s : Text) → AllDigits s → AllDigits (reverse s)
AllDigits-reverse [] h = tt
AllDigits-reverse (c ∷ s) h =
    rw (reverse-cons c s)
      (AllDigits-append (reverse s) (c ∷ []) (AllDigits-reverse s h.1) (h.0, tt))

-- The digits that a run of the loop adds: those of `num`, at most `limit`, the highest not zero.
pub record DigitsOf (num limit : ℕ) (ds : Text) : Type 0 where
  pub spell : low_first ds ≡ num
  pub digits : AllDigits ds
  pub short : length ds ≤ limit
  pub empty : num ≡ 0 → length ds ≡ 0
  pub lead : num ≢ 0 → (0 < length ds) × (get_or ds (length ds - 1) 0 ≢ b'0')

last_kept :
    (x c : ℕ) (ds : Text)
    → get_or (c ∷ ds) (length (c ∷ ds) - 1) 0 ≢ b'0'
    → get_or (x ∷ c ∷ ds) (length (x ∷ c ∷ ds) - 1) 0 ≢ b'0'
last_kept x c ds h =
    let e : suc (suc (length ds)) - 1 ≡ suc (suc (length ds) - 1) = omega arith in rw e h

next_digit :
    (num limit : ℕ) (ds : Text)
    → num ≢ 0
    → DigitsOf (num / 10) limit ds
    → DigitsOf num (suc limit) ((num % 10 + b'0') ∷ ds)
next_digit num limit [] nz d = record {
  spell = omega (arith, d.spell);
  digits = (omega arith, tt);
  short = omega arith;
  empty = λ z. absurd (nz z);
  lead = λ _. (omega arith, omega (arith, d.spell));
}
next_digit num limit (c ∷ ds) nz d = record {
  spell = omega (arith, d.spell);
  digits = (omega arith, d.digits);
  short = omega (arith, d.short);
  empty = λ z. absurd (nz z);
  lead = λ _. (
    omega arith,
    last_kept (num % 10 + b'0') c ds (d.lead (λ z. absurd (omega (arith, d.empty z)))).1,
  );
}

-- With more rounds than digits the loop ends, and has added the digits of `num`.
pub digits_loop_lem :
    (fuel num : ℕ) (b : Text)
    → num < 10 ^ fuel
    → (ds : Text) × (digits_loop (suc fuel) num b ≡ some (b ++ ds)) × DigitsOf num fuel ds
unfolding digits_loop
digits_loop_lem zero num b h =
    let z : (num == 0) ≡ true = ground arith in
    (
      [],
      rw (z, append-nil),
      record {
        spell = ground arith;
        digits = tt;
        short = omega arith;
        empty = λ _. refl;
        lead = λ nz. absurd (nz (ground arith));
      },
    )
digits_loop_lem (suc fuel) num b h = elim (Bool-cases (num == 0)) [
  | inl z ↦ (
    [],
    rw (z, append-nil),
    record {
      spell = ground arith;
      digits = tt;
      short = omega arith;
      empty = λ _. refl;
      lead = λ nz. absurd (nz (ground arith));
    },
  )
  | inr nz ↦
      let (ds, e, d) =
        digits_loop_lem fuel (num / 10) (b ++ ((num % 10 + b'0') ∷ []))
          (omega (arith, pow-suc 10 fuel)) in
      (
        (num % 10 + b'0') ∷ ds,
        rw nz (e ∙ ap some (append_assoc b ((num % 10 + b'0') ∷ []) ds)),
        next_digit num fuel ds (ground arith) d,
      )
]
