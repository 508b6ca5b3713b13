-- ===== src/Printing/Sequence.antt =====
-- A sequence of printing calls of src/terminal.c, against one text.
use shogun_os.Base.{
  ℕ, ◌^◌, ◌<◌, ◌≡◌, ◌≢◌, refl, ap, sym, ◌∙◌, Option-cases, if◌then◌else◌, inl, inr, ◌==◌, Option,
  none, some, List, [], ◌∷◌, ◌++◌,
}
use shogun_os.Io.{Bus}
use shogun_os.Io.Serial.{sent, on_the_line, ReadyWithin, write_serial, write_serial_string}
use shogun_os.Terminal.{Terminal, terminal_put_char, write_string}
use shogun_os.Terminal.Cursor.{IsValid}
use shogun_os.Number.{Text, is_negative, put_u32, put_i32, put_hex}
use shogun_os.Number.Decimal.{with_sign, uint_to_string_lem, int_to_string_lem}
use shogun_os.Output.{Screen, output_string}
use shogun_os.Output.Console.{output_string_lem}
use shogun_os.Printing.{
  Print, string_out, number_out, decimal_out, hex_out, text_of, perform, perform_all, whole_text,
}

-- The numbers of a call are 32-bit words, and that of put_i32 is not the least one.
abbrev pub Printable : Print → Type 0
Printable (string_out t) = Unit
Printable (number_out num) = (num < 2 ^ 32) × (num ≢ 2 ^ 31)
Printable (decimal_out num) = num < 2 ^ 32
Printable (hex_out num) = num < 2 ^ 32

abbrev pub AllPrintable : List Print → Type 0
AllPrintable [] = Unit
AllPrintable (call ∷ calls) = Printable call × AllPrintable calls

text_of_lem : (call : Print) → Printable call → (t : Text) × (text_of call ≡ some t)
unfolding text_of put_u32 put_i32
text_of_lem (string_out t) ok = (t, refl)
text_of_lem (number_out num) (small, least) =
    let (s, runs, _) = int_to_string_lem num small least in
    (with_sign (is_negative num) s, rw runs refl)
text_of_lem (decimal_out num) small = let (s, runs, _) = uint_to_string_lem num small in (s, runs)
text_of_lem (hex_out num) small = (put_hex num, refl)

pub write_string-append :
    (a b : Text) (t : Terminal) → write_string (a ++ b) t ≡ write_string b (write_string a t)
unfolding write_string
write_string-append [] b t = refl
write_string-append (c ∷ a) b t = write_string-append a b (terminal_put_char c t)

-- The text `b` behind what went before.
abbrev then_send : (polls : ℕ) (b : Text) → Option Bus → Option Bus
then_send polls b none = none
then_send polls b (some bus) = write_serial_string polls b bus

write_serial_string-append :
    (polls : ℕ) (a b : Text) (bus : Bus)
    → write_serial_string polls (a ++ b) bus ≡ then_send polls b (write_serial_string polls a bus)
unfolding write_serial_string
write_serial_string-append polls [] b bus = refl
write_serial_string-append polls (c ∷ a) b bus =
    let before = if c == b'\n' then write_serial polls b'\r' bus else some bus in
    elim (Option-cases before) [
      | inl stops ↦ rw (write_serial_string, stops) refl
      | inr (b1, runs) ↦ elim (Option-cases (write_serial polls c b1)) [
        | inl stops ↦ rw (write_serial_string, runs, stops) refl
        | inr (b2, sends) ↦
            rw (write_serial_string, runs, sends) (write_serial_string-append polls a b b2)
      ]
    ]

-- The text `b` behind what went before, on the console.
abbrev then_print : (polls : ℕ) (b : Text) → Option Screen → Option Screen
then_print polls b none = none
then_print polls b (some s) = output_string polls b s

output_string-append :
    (polls : ℕ) (a b : Text) (s : Screen)
    → output_string polls (a ++ b) s ≡ then_print polls b (output_string polls a s)
unfolding output_string
output_string-append polls a b s =
    let both = write_serial_string-append polls a b s.bus in
    let shown = write_string-append a b s.terminal in
    elim (Option-cases (write_serial_string polls a s.bus)) [
      | inl stops ↦ rw (output_string, both, stops) refl
      | inr (b1, runs) ↦ elim (Option-cases (write_serial_string polls b b1)) [
        | inl stops ↦ rw (output_string, both, runs, stops) refl
        | inr (b2, sends) ↦ rw (output_string, both, runs, sends, shown) refl
      ]
    ]

-- The calls print what one call with the whole text prints.
perform_all_lem :
    (polls : ℕ) (calls : List Print)
    → AllPrintable calls
    → (t : Text) × (whole_text calls ≡ some t)
      × ((s : Screen) → perform_all polls calls s ≡ output_string polls t s)
unfolding whole_text perform_all output_string write_string write_serial_string
perform_all_lem polls [] ok = ([], refl, λ s. refl)
perform_all_lem polls (call ∷ calls) (one, rest) =
    let (t, here) = text_of_lem call one in
    let (t', there, runs) = perform_all_lem polls calls rest in
    (
      t ++ t',
      rw (whole_text, here, there) refl,
      λ s.
          let joined = output_string-append polls t t' s in
          elim (Option-cases (output_string polls t s)) [
            | inl stops ↦ rw (perform_all, perform, here, stops, joined, stops) refl
            | inr (s1, prints) ↦ rw (perform_all, perform, here, prints, joined, prints) (runs s1)
          ],
    )

-- Calls whose text is known, on a valid terminal and with a line that becomes ready in time: their text
-- is on the screen and went over the line.
pub prints :
    (polls : ℕ) (calls : List Print) (t : Text) (s : Screen)
    → AllPrintable calls
    → whole_text calls ≡ some t
    → IsValid s.terminal
    → ReadyWithin polls s.bus
    → (s' : Screen) × (perform_all polls calls s ≡ some s')
      × (s'.terminal ≡ write_string t s.terminal)
      × IsValid s'.terminal
      × (sent s'.bus.trace ≡ on_the_line t (sent s.bus.trace))
prints polls calls t s ok known valid ready =
    let (t', joins, same) = perform_all_lem polls calls ok in
    let text : t' ≡ t = ap (λ o. elim o [ none ↦ t | some u ↦ u ]) (sym joins ∙ known) in
    let (s', runs, shown, good, line) = output_string_lem polls t s valid ready in
    (s', same s ∙ ap (λ u. output_string polls u s) text ∙ runs, shown, good, line)
