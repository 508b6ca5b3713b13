-- ===== src/Logger/Rendering.antt =====
-- The text that a format and its arguments stand for, with no bound on its length.
use mathlib.Core.Option
use mathlib.Core.List.{reverse}
use shogun_os.Base.{ℕ, Option, none, some, List, [], ◌∷◌, ◌++◌, true, false, ◌==◌, if◌then◌else◌}
use shogun_os.Number.{Text, Printed, text, out_of_fuel, undefined, int_to_string}
use shogun_os.Logger.Format.{Arg, nibbles_loop, nibble_fuel, next_str, next_int, next_unsigned}

abbrev pub with_rest : List Arg → Text → Text × List Arg
with_rest rest t = (t, rest)

-- The text that a directive stands for, with no bound.
unfoldable pub printed_text : Printed → Option Text
printed_text (text s) = some s
printed_text out_of_fuel = none
printed_text undefined = none

unfoldable pub hex_text : ℕ → Option Text
hex_text num =
    if num == 0 then some (b'0' ∷ []) else Option.map reverse (nibbles_loop nibble_fuel num [])

unfoldable pub expand_s : Option (Option Text × List Arg) → Option (Text × List Arg)
expand_s none = none
expand_s (some (none, rest)) = some ([], rest)
expand_s (some (some s, rest)) = some (s, rest)

unfoldable pub expand_d : Option (ℕ × List Arg) → Option (Text × List Arg)
expand_d none = none
expand_d (some (num, rest)) = Option.map (with_rest rest) (printed_text (int_to_string num))

unfoldable pub expand_x : Option (ℕ × List Arg) → Option (Text × List Arg)
expand_x none = none
expand_x (some (num, rest)) = Option.map (with_rest rest) (hex_text num)

unfoldable pub expand : (d : ℕ) → List Arg → Option (Text × List Arg)
expand d args =
    if d == b's'
    then expand_s (next_str args)
    else if d == b'd'
    then expand_d (next_int args)
    else if d == b'x'
    then expand_x (next_unsigned args)
    else some (d ∷ [], args)

-- The full rendering of a format.
unfoldable pub render : (format : Text) → List Arg → Option Text
render [] args = some []
render (c ∷ []) args = some (c ∷ [])
render (c ∷ d ∷ rest) args = elim (c == b'%') [
  | false ↦ Option.map (λ t. c ∷ t) (render (d ∷ rest) args)
  | true ↦ elim (expand d args) [
    | none ↦ none
    | some (s, args') ↦ Option.map (λ t. s ++ t) (render rest args')
  ]
]
