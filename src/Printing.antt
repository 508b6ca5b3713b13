-- ===== src/Printing.antt =====
-- src/terminal.c: sequences of calls of its printing functions. What a part of the kernel prints is the
-- list of these calls; here is what each of them hands to output_string.
pub mod Sequence
use shogun_os.Base.{ℕ, Option, none, some, List, [], ◌∷◌, ◌++◌}
use shogun_os.Number.{Text, Printed, text, out_of_fuel, undefined, put_u32, put_i32, put_hex}
use shogun_os.Output.{Screen, output_string}

-- `output_string(text)`, `put_i32(num)`, `put_u32(num)` and `put_hex(num)`.
pub data Print : Type 0 where
  string_out : (text : List ℕ) → Print
  number_out decimal_out hex_out : (num : ℕ) → Print

-- The text of a conversion that ends and is defined.
unfoldable pub printed_text : Printed → Option Text
printed_text (text t) = some t
printed_text out_of_fuel = none
printed_text undefined = none

unfoldable pub text_of : Print → Option Text
unfolding printed_text
text_of (string_out t) = some t
text_of (number_out num) = printed_text (put_i32 num)
text_of (decimal_out num) = put_u32 num
text_of (hex_out num) = some (put_hex num)

unfoldable pub perform : (polls : ℕ) → Print → Screen → Option Screen
unfolding text_of
perform polls call s = elim (text_of call) [ none ↦ none | some t ↦ output_string polls t s ]

-- The calls in their order.
unfoldable pub perform_all : (polls : ℕ) → List Print → Screen → Option Screen
unfolding perform
perform_all polls [] s = some s
perform_all polls (call ∷ calls) s = elim (perform polls call s) [
  | none ↦ none
  | some s' ↦ perform_all polls calls s'
]

-- All that the calls print, as one text.
unfoldable pub whole_text : List Print → Option Text
unfolding text_of
whole_text [] = some []
whole_text (call ∷ calls) = elim (text_of call) [
  | none ↦ none
  | some t ↦ elim (whole_text calls) [ none ↦ none | some rest ↦ some (t ++ rest) ]
]
