-- ===== src/Logger/Format.antt =====
-- src/logger.c: `simple_format_string`.
use mathlib.Core.Option
use mathlib.Core.List.{reverse}
use shogun_os.Base.{
  ℕ, zero, suc, ◌+◌, ◌-◌, ◌/◌, ◌^◌, bit_and, true, false, Option, none, some, List, [], ◌∷◌, ◌++◌,
  ltb, ◌==◌, if◌then◌else◌, length,
}
use shogun_os.Number.{Text, Printed, text, out_of_fuel, undefined, int_to_string}

-- An argument behind the format: a string (NULL is `none`), an `int` or an `unsigned int` by their
-- bit patterns.
pub data Arg : Type 0 where
  str : Option Text → Arg
  int : ℕ → Arg
  unsigned : ℕ → Arg

-- `if (written < buffer_size - 1) { *dst++ = c; written++; }`, where `limit` is `buffer_size - 1`
-- and `written` the length of what is there.
abbrev pub put : (limit : ℕ) → Text → ℕ → Text
put limit out c = if ltb (length out) limit then out ++ (c ∷ []) else out

-- `while (*str && written < buffer_size - 1) …`
unfoldable pub copy_loop : (limit : ℕ) → Text → Text → Text
copy_loop limit out [] = out
copy_loop limit out (c ∷ cs) =
    let rest = copy_loop limit (out ++ (c ∷ [])) cs in if ltb (length out) limit then rest else out

-- The loop over `temp`, whose test stands inside; the argument is `temp` from its end.
unfoldable pub emit_loop : (limit : ℕ) → Text → Text → Text
emit_loop limit out [] = out
emit_loop limit out (c ∷ cs) = emit_loop limit (put limit out c) cs

unfoldable pub nibble_char : ℕ → ℕ
nibble_char digit = if ltb digit 10 then b'0' + digit else b'a' + (digit - 10)

-- `while (n > 0)`: the nibbles of `n`, the lowest first. `none` means that the fuel ran out.
unfoldable pub nibbles_loop : ℕ → (n : ℕ) → (temp : Text) → Option Text
nibbles_loop zero n temp = none
nibbles_loop (suc fuel) n temp =
    let rest = nibbles_loop fuel (n / 2 ^ 4) (temp ++ (nibble_char (bit_and n 0xF) ∷ [])) in
    if n == 0 then some temp else rest

-- Eight rounds write the nibbles of an `unsigned int`, and the ninth makes the last test.
abbrev pub nibble_fuel : ℕ
nibble_fuel = 9

unfoldable pub directive_x : (limit num : ℕ) → Text → Option Text
directive_x limit num out =
    if num == 0 then some (put limit out b'0') else elim (nibbles_loop nibble_fuel num []) [
      | none ↦ none
      | some temp ↦ some (emit_loop limit out (reverse temp))
    ]

unfoldable pub copy_printed : (limit : ℕ) → Text → Printed → Option Text
copy_printed limit out (text s) = some (copy_loop limit out s)
copy_printed limit out out_of_fuel = none
copy_printed limit out undefined = none

-- `va_arg` at a type that the argument does not have, or with none left, is undefined: `none`.
unfoldable pub next_str : List Arg → Option (Option Text × List Arg)
next_str [] = none
next_str (str s ∷ args) = some (s, args)
next_str (int n ∷ args) = none
next_str (unsigned n ∷ args) = none

unfoldable pub next_int : List Arg → Option (ℕ × List Arg)
next_int [] = none
next_int (str s ∷ args) = none
next_int (int n ∷ args) = some (n, args)
next_int (unsigned n ∷ args) = none

unfoldable pub next_unsigned : List Arg → Option (ℕ × List Arg)
next_unsigned [] = none
next_unsigned (str s ∷ args) = none
next_unsigned (int n ∷ args) = none
next_unsigned (unsigned n ∷ args) = some (n, args)

-- The three cases of the `switch`, from the argument that they take.
unfoldable pub case_s :
    (limit : ℕ) → Text → Option (Option Text × List Arg) → Option (Text × List Arg)
case_s limit out none = none
case_s limit out (some (none, rest)) = some (out, rest)
case_s limit out (some (some s, rest)) = some (copy_loop limit out s, rest)

unfoldable pub case_d : (limit : ℕ) → Text → Option (ℕ × List Arg) → Option (Text × List Arg)
case_d limit out none = none
case_d limit out (some (num, rest)) =
    Option.map (λ t. (t, rest)) (copy_printed limit out (int_to_string num))

unfoldable pub case_x : (limit : ℕ) → Text → Option (ℕ × List Arg) → Option (Text × List Arg)
case_x limit out none = none
case_x limit out (some (num, rest)) = Option.map (λ t. (t, rest)) (directive_x limit num out)

-- The `switch` behind a `%`.
unfoldable pub directive : (limit : ℕ) → (d : ℕ) → List Arg → Text → Option (Text × List Arg)
directive limit d args out =
    if d == b's'
    then case_s limit out (next_str args)
    else if d == b'd'
    then case_d limit out (next_int args)
    else if d == b'x'
    then case_x limit out (next_unsigned args)
    else some (put limit out d, args)

-- The outer loop over the format. A `%` before the NUL is copied as it stands. `none` is a run that
-- C does not define.
unfoldable pub format_loop : (limit : ℕ) → (format : Text) → List Arg → Text → Option Text
format_loop limit [] args out = some out
format_loop limit (c ∷ []) args out =
    if ltb (length out) limit then some (out ++ (c ∷ [])) else some out
format_loop limit (c ∷ d ∷ rest) args out = elim (ltb (length out) limit) [
  | false ↦ some out
  | true ↦ elim (c == b'%') [
    | false ↦ format_loop limit (d ∷ rest) args (out ++ (c ∷ []))
    | true ↦ elim (directive limit d args out) [
      | none ↦ none
      | some (out', args') ↦ format_loop limit rest args' out'
    ]
  ]
]

-- The text in the buffer; its length is the result of the function.
unfoldable pub simple_format_string : (buffer_size : ℕ) → (format : Text) → List Arg → Option Text
simple_format_string buffer_size format args = format_loop (buffer_size - 1) format args []
