-- ===== src/Logger/Truncation.antt =====
-- The formatter of src/logger.c, against the full rendering of its format.
use mathlib.Core.Option
use mathlib.Core.Option.{some-injective}
use mathlib.Core.List.{reverse}
use shogun_os.Base.{
  ℕ, zero, suc, ◌-◌, ◌≤◌, ◌<◌, ◌≡◌, refl, ap, sym, ◌∙◌, Option, none, some, List, [], ◌∷◌, ◌++◌,
  true, false, inl, inr, Bool-cases, Option-cases, ltb, ltb→lt, ◌==◌, arith, length, take, take-all,
  length-append, append-nil, append_assoc, length-take,
}
use shogun_os.Number.{Text, Printed, text, out_of_fuel, undefined, int_to_string}
use shogun_os.Logger.Format.{
  Arg, copy_loop, emit_loop, nibbles_loop, nibble_fuel, directive_x, copy_printed, next_str,
  next_int, next_unsigned, case_s, case_d, case_x, directive, format_loop, simple_format_string,
}
use shogun_os.Logger.Rendering.{
  with_rest, printed_text, hex_text, expand_s, expand_d, expand_x, expand, render,
}

-- A text and the arguments behind it, once the text is copied.
abbrev copied : (limit : ℕ) → Text → Text × List Arg → Text × List Arg
copied limit out (s, rest) = (copy_loop limit out s, rest)

take-append_full : (n : ℕ) (s t : Text) → length s ≡ n → take n (s ++ t) ≡ s
take-append_full zero [] t h = refl
take-append_full zero (c ∷ s) t h = absurd (omega arith)
take-append_full (suc n) [] t h = absurd (omega arith)
take-append_full (suc n) (c ∷ s) t h = ap (λ l. c ∷ l) (take-append_full n s t (omega arith))

take-take-append : (n : ℕ) (s t : Text) → take n (take n s ++ t) ≡ take n (s ++ t)
take-take-append zero s t = refl
take-take-append (suc n) [] t = refl
take-take-append (suc n) (c ∷ s) t = ap (λ l. c ∷ l) (take-take-append n s t)

-- Copying stops at the limit.
copy_loop-take :
    (limit : ℕ) (out s : Text) → length out ≤ limit → copy_loop limit out s ≡ take limit (out ++ s)
unfolding copy_loop
copy_loop-take limit out [] h =
    sym (append-nil out) ∙ sym (take-all limit (out ++ []) (omega (arith, length-append out [])))
copy_loop-take limit out (c ∷ cs) h = elim (Bool-cases (ltb (length out) limit)) [
  | inl room ↦ rw room (
      copy_loop-take limit (out ++ (c ∷ [])) cs
        (omega (arith, length-append out (c ∷ []), ltb→lt (length out) limit room))
      ∙ ap (take limit) (append_assoc out (c ∷ []) cs))
  | inr full ↦ rw full (sym (take-append_full limit out (c ∷ cs) (ground arith)))
]

emit_loop_full :
    (limit : ℕ) (out s : Text) → ltb (length out) limit ≡ false → emit_loop limit out s ≡ out
unfolding emit_loop
emit_loop_full limit out [] full = refl
emit_loop_full limit out (c ∷ cs) full = rw full (emit_loop_full limit out cs full)

emit_loop-copy_loop : (limit : ℕ) (out s : Text) → emit_loop limit out s ≡ copy_loop limit out s
unfolding emit_loop copy_loop
emit_loop-copy_loop limit out [] = refl
emit_loop-copy_loop limit out (c ∷ cs) = elim (Bool-cases (ltb (length out) limit)) [
  | inl room ↦ rw room (emit_loop-copy_loop limit (out ++ (c ∷ [])) cs)
  | inr full ↦ rw full (emit_loop_full limit out cs full)
]

-- Each case of the switch copies the text of its directive.
case_s-expand :
    (limit : ℕ) (out : Text) (o : Option (Option Text × List Arg))
    → case_s limit out o ≡ Option.map (copied limit out) (expand_s o)
unfolding case_s expand_s copy_loop
case_s-expand limit out none = refl
case_s-expand limit out (some (none, rest)) = refl
case_s-expand limit out (some (some s, rest)) = refl

copy_printed-expand :
    (limit : ℕ) (out : Text) (rest : List Arg) (p : Printed)
    → Option.map (with_rest rest) (copy_printed limit out p)
      ≡ Option.map (copied limit out) (Option.map (with_rest rest) (printed_text p))
unfolding copy_printed printed_text
copy_printed-expand limit out rest (text s) = refl
copy_printed-expand limit out rest out_of_fuel = refl
copy_printed-expand limit out rest undefined = refl

case_d-expand :
    (limit : ℕ) (out : Text) (o : Option (ℕ × List Arg))
    → case_d limit out o ≡ Option.map (copied limit out) (expand_d o)
unfolding case_d expand_d
case_d-expand limit out none = refl
case_d-expand limit out (some (num, rest)) = copy_printed-expand limit out rest (int_to_string num)

case_x-expand :
    (limit : ℕ) (out : Text) (o : Option (ℕ × List Arg))
    → case_x limit out o ≡ Option.map (copied limit out) (expand_x o)
unfolding case_x expand_x directive_x hex_text
case_x-expand limit out none = refl
case_x-expand limit out (some (num, rest)) = elim (Bool-cases (num == 0)) [
  | inl z ↦ rw z (unfold copy_loop in refl)
  | inr nz ↦ elim (Option-cases (nibbles_loop nibble_fuel num [])) [
    | inl e ↦ rw (nz, e)
    | inr (temp, e) ↦
        rw (nz, e) (ap (λ t. some (t, rest)) (emit_loop-copy_loop limit out (reverse temp)))
  ]
]

directive-expand :
    (limit d : ℕ) (args : List Arg) (out : Text)
    → directive limit d args out ≡ Option.map (copied limit out) (expand d args)
unfolding directive expand
directive-expand limit d args out = elim (Bool-cases (d == b's')) [
  | inl is_s ↦ rw is_s (case_s-expand limit out (next_str args))
  | inr not_s ↦ elim (Bool-cases (d == b'd')) [
    | inl is_d ↦ rw (not_s, is_d) (case_d-expand limit out (next_int args))
    | inr not_d ↦ elim (Bool-cases (d == b'x')) [
      | inl is_x ↦ rw (not_s, not_d, is_x) (case_x-expand limit out (next_unsigned args))
      | inr not_x ↦ rw (not_s, not_d, not_x) (unfold copy_loop in refl)
    ]
  ]
]

-- The two ways in which the rendering goes on.
render_literal :
    (c d : ℕ) (rest : Text) (args : List Arg)
    → (c == b'%') ≡ false
    → render (c ∷ d ∷ rest) args ≡ Option.map (λ t. c ∷ t) (render (d ∷ rest) args)
unfolding render
render_literal c d rest args e = rw (e, render)

render_directive :
    (c d : ℕ) (rest : Text) (args args' : List Arg) (s : Text)
    → (c == b'%') ≡ true
    → expand d args ≡ some (s, args')
    → render (c ∷ d ∷ rest) args ≡ Option.map (λ t. s ++ t) (render rest args')
unfolding render
render_directive c d rest args args' s e x = rw (e, render, x, render)

format_literal :
    (limit c d : ℕ) (rest : Text) (args : List Arg) (out : Text)
    → ltb (length out) limit ≡ true
    → (c == b'%') ≡ false
    → format_loop limit (c ∷ d ∷ rest) args out
      ≡ format_loop limit (d ∷ rest) args (out ++ (c ∷ []))
unfolding format_loop
format_literal limit c d rest args out room e = rw (room, format_loop, e, format_loop)

format_directive :
    (limit c d : ℕ) (rest : Text) (args args' : List Arg) (out s : Text)
    → ltb (length out) limit ≡ true
    → (c == b'%') ≡ true
    → expand d args ≡ some (s, args')
    → format_loop limit (c ∷ d ∷ rest) args out
      ≡ format_loop limit rest args' (copy_loop limit out s)
unfolding format_loop
format_directive limit c d rest args args' out s room e x =
    let y : directive limit d args out ≡ some (copy_loop limit out s, args') =
      directive-expand limit d args out ∙ rw x in
    rw (room, format_loop, e, format_loop, y, format_loop)

render_undefined :
    (c d : ℕ) (rest : Text) (args : List Arg)
    → (c == b'%') ≡ true
    → expand d args ≡ none
    → render (c ∷ d ∷ rest) args ≡ none
unfolding render
render_undefined c d rest args e x = rw (e, render, x, render)

format_full :
    (limit c d : ℕ) (rest : Text) (args : List Arg) (out : Text)
    → ltb (length out) limit ≡ false
    → format_loop limit (c ∷ d ∷ rest) args out ≡ some out
unfolding format_loop
format_full limit c d rest args out full = rw (full, format_loop)

format_last :
    (limit c : ℕ) (args : List Arg) (out : Text)
    → format_loop limit (c ∷ []) args out ≡ some (copy_loop limit out (c ∷ []))
unfolding format_loop copy_loop
format_last limit c args out = elim (Bool-cases (ltb (length out) limit)) [
  | inl room ↦ rw room
  | inr full ↦ rw full
]

copy_nil : (limit : ℕ) (out : Text) → length out ≤ limit → out ≡ take limit (out ++ [])
unfolding copy_loop
copy_nil limit out h = copy_loop-take limit out [] h

length-copy_loop :
    (limit : ℕ) (out s : Text) → length out ≤ limit → length (copy_loop limit out s) ≤ limit
length-copy_loop limit out s h =
    rw (copy_loop-take limit out s h) (omega (arith, length-take limit (out ++ s)))

take-copy_loop :
    (limit : ℕ) (out s t : Text)
    → length out ≤ limit
    → take limit (copy_loop limit out s ++ t) ≡ take limit (out ++ (s ++ t))
take-copy_loop limit out s t h =
    ap (λ l. take limit (l ++ t)) (copy_loop-take limit out s h)
    ∙ take-take-append limit (out ++ s) t
    ∙ ap (take limit) (append_assoc out s t)

format_loop_lem :
    (limit : ℕ) (format : Text) (args : List Arg) (out t : Text)
    → length out ≤ limit
    → render format args ≡ some t
    → format_loop limit format args out ≡ some (take limit (out ++ t))
unfolding format_loop render
format_loop_lem limit [] args out t h e =
    ap some (copy_nil limit out h) ∙ ap (λ s. some (take limit (out ++ s))) (some-injective [] t e)
format_loop_lem limit (c ∷ []) args out t h e =
    format_last limit c args out
    ∙ ap some (copy_loop-take limit out (c ∷ []) h)
    ∙ ap (λ s. some (take limit (out ++ s))) (some-injective (c ∷ []) t e)
format_loop_lem limit (c ∷ d ∷ rest) args out t h e = elim (Bool-cases (ltb (length out) limit)) [
  | inr full ↦
      format_full limit c d rest args out full
      ∙ ap some (sym (take-append_full limit out t (ground arith)))
  | inl room ↦ elim (Bool-cases (c == b'%')) [
    | inr lit ↦
        let (t', e', tt') =
          (Option.map-eq-some_iff (λ s. c ∷ s) (render (d ∷ rest) args)).0
            (sym (render_literal c d rest args lit) ∙ e) in
        format_literal limit c d rest args out room lit
        ∙ format_loop_lem limit (d ∷ rest) args (out ++ (c ∷ [])) t'
            (omega (arith, length-append out (c ∷ []), ltb→lt (length out) limit room)) e'
        ∙ ap (λ s. some (take limit s)) (append_assoc out (c ∷ []) t' ∙ ap (λ s. out ++ s) tt')
    | inl percent ↦ elim (Option-cases (expand d args)) [
      | inl bad ↦
          absurd (Option.none-ne-some t (sym (render_undefined c d rest args percent bad) ∙ e))
      | inr ((s, args'), x) ↦
          let (t', e', tt') =
            (Option.map-eq-some_iff (λ t. s ++ t) (render rest args')).0
              (sym (render_directive c d rest args args' s percent x) ∙ e) in
          format_directive limit c d rest args args' out s room percent x
          ∙ format_loop_lem limit rest args' (copy_loop limit out s) t'
              (length-copy_loop limit out s h) e'
          ∙ ap some (take-copy_loop limit out s t' h ∙ ap (λ s. take limit (out ++ s)) tt')
    ]
  ]
]

-- For a buffer of at least one character, where the full rendering of the format is defined, the
-- formatter ends, and leaves as much of it as fits the buffer with its NUL.
pub simple_format_string_lem :
    (buffer_size : ℕ) (format : Text) (args : List Arg) (t : Text)
    → 0 < buffer_size
    → render format args ≡ some t
    → simple_format_string buffer_size format args ≡ some (take (buffer_size - 1) t)
unfolding simple_format_string
simple_format_string_lem buffer_size format args t pos e =
    format_loop_lem (buffer_size - 1) format args [] t (omega arith) e
