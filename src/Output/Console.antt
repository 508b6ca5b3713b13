-- ===== src/Output/Console.antt =====
-- The console of src/terminal.c: what a text does to the screen and the line.
use mathlib.Core.Option
use mathlib.Core.Path.{subst}
use shogun_os.Base.{ℕ, ◌≡◌, refl, some, List, [], ◌∷◌, Option-cases, inl, inr}
use shogun_os.Io.Serial.{
  sent, on_the_line, ReadyWithin, Printed, write_serial_string, write_serial_string_lem,
  write_serial_string-Printed,
}
use shogun_os.Terminal.{Terminal, terminal_put_char, write_string}
use shogun_os.Terminal.Cursor.{IsValid, terminal_put_char-IsValid}
use shogun_os.Output.{Screen, output_string}

pub write_string-IsValid : (str : List ℕ) (t : Terminal) → IsValid t → IsValid (write_string str t)
unfolding write_string
write_string-IsValid [] t ok = ok
write_string-IsValid (c ∷ cs) t ok =
    write_string-IsValid cs (terminal_put_char c t) (terminal_put_char-IsValid c t ok)

-- On a valid terminal and with a device that becomes ready within `polls` polls at any time,
-- printing a text returns; the terminal stays valid and has taken each character in order, and the
-- same text went over the line, with a carriage return before each newline.
pub output_string_lem :
    (polls : ℕ) (str : List ℕ) (s : Screen)
    → IsValid s.terminal
    → ReadyWithin polls s.bus
    → (s' : Screen) × (output_string polls str s ≡ some s')
      × (s'.terminal ≡ write_string str s.terminal)
      × IsValid s'.terminal
      × (sent s'.bus.trace ≡ on_the_line str (sent s.bus.trace))
unfolding output_string
output_string_lem polls str s ok ready =
    let (b, runs, text) = write_serial_string_lem polls str s.bus ready in
    (
      record { terminal = write_string str s.terminal; bus = b },
      rw (output_string, runs) refl,
      refl,
      write_string-IsValid str s.terminal ok,
      text,
    )

-- Printing a text makes no access but to the line.
pub output_string-Printed :
    (polls : ℕ) (str : List ℕ) (s s' : Screen)
    → output_string polls str s ≡ some s'
    → Printed s.bus.trace s'.bus.trace
unfolding output_string
output_string-Printed polls str s s' runs =
    elim (Option-cases (write_serial_string polls str s.bus)) [
      | inl stops ↦ absurd (Option.none-ne-some s' (rw (output_string, stops) at runs))
      | inr (b, sends) ↦
          subst (λ u. Printed s.bus.trace u.bus.trace)
            (Option.some-injective (record { terminal = write_string str s.terminal; bus = b }) s'
              (rw (output_string, sends) at runs))
            (write_serial_string-Printed polls str s.bus b sends)
    ]
