-- ===== src/Idt/Exceptions.antt =====
-- The handlers of src/idt.c that stop the machine, and the dispatch of an exception with an error code.
use shogun_os.Base.{
  ℕ, ◌≡◌, refl, ◌&&◌, Option, none, some, List, [], ◌∷◌, ◌++◌, ltb, if◌then◌else◌, Option-cases,
  inl, inr, get_or, add32, codes,
}
use shogun_os.Io.Serial.{sent, on_the_line, ReadyWithin}
use shogun_os.Terminal.{write_string}
use shogun_os.Terminal.Cursor.{IsValid}
use shogun_os.Output.{Screen}
use shogun_os.Printing.{string_out, perform_all, whole_text}
use shogun_os.Printing.Sequence.{prints}
use shogun_os.Idt.Registry.{Registry}
use shogun_os.Idt.Pic.{
  Pic, Machine, Handler, run_handler, pic_send_eoi, generic_interrupt_handler_no_error_code,
}

-- The machine behind `cli; hlt`: no interrupt wakes it, and this is on its console.
pub record Halted : Type 0 where
  pub screen : Screen

unfoldable pub halt : Option Screen → Option Halted
halt none = none
halt (some s) = some (record { screen = s })

unfoldable pub handle_divide_by_zero : (polls : ℕ) → Screen → Option Halted
unfolding halt perform_all
handle_divide_by_zero polls s = halt (
    perform_all polls
      (string_out (codes "Divide by zero exception occurred!\n")
        ∷ string_out (codes "System halted due to divide by zero.\n")
        ∷ [])
      s)

unfoldable pub handle_general_protection_fault : (polls : ℕ) → Screen → Option Halted
unfolding halt perform_all
handle_general_protection_fault polls s = halt (
    perform_all polls
      (string_out (codes "General Protection Fault occurred!\n")
        ∷ string_out (codes "System halted due to GPF.\n")
        ∷ [])
      s)

unfoldable pub handle_page_fault : (polls : ℕ) → Screen → Option Halted
unfolding halt perform_all
handle_page_fault polls s = halt (
    perform_all polls
      (string_out (codes "Page Fault occurred!\n")
        ∷ string_out (codes "System halted due to page fault.\n")
        ∷ [])
      s)

-- The machine stops with this text on its screen and over its line.
abbrev pub HaltsWith : List ℕ → Screen → Option Halted → Type 0
HaltsWith t s o =
    (h : Halted) × (o ≡ some h)
    × (h.screen.terminal ≡ write_string t s.terminal)
    × (sent h.screen.bus.trace ≡ on_the_line t (sent s.bus.trace))

halts :
    (polls : ℕ) (a b : List ℕ) (s : Screen)
    → IsValid s.terminal
    → ReadyWithin polls s.bus
    → HaltsWith (a ++ (b ++ [])) s (halt (perform_all polls (string_out a ∷ string_out b ∷ []) s))
unfolding halt whole_text
halts polls a b s valid ready =
    let (s', runs, shown, _, line) =
      prints polls (string_out a ∷ string_out b ∷ []) (a ++ (b ++ [])) s (tt, (tt, tt)) refl valid
        ready in
    (record { screen = s' }, rw runs refl, shown, line)

-- On a valid terminal and with a line that becomes ready in time, each of the three exceptions stops the
-- machine for good, with its two messages on the screen and over the line.
pub exceptions_halt :
    (polls : ℕ) (s : Screen)
    → IsValid s.terminal
    → ReadyWithin polls s.bus
    → HaltsWith
        (codes "Divide by zero exception occurred!\nSystem halted due to divide by zero.\n")
        s
        (handle_divide_by_zero polls s)
      × HaltsWith
          (codes "General Protection Fault occurred!\nSystem halted due to GPF.\n")
          s
          (handle_general_protection_fault polls s)
      × HaltsWith
          (codes "Page Fault occurred!\nSystem halted due to page fault.\n")
          s
          (handle_page_fault polls s)
unfolding handle_divide_by_zero handle_general_protection_fault handle_page_fault
exceptions_halt polls s valid ready = (
  halts polls (codes "Divide by zero exception occurred!\n")
      (codes "System halted due to divide by zero.\n") s valid ready,
  halts polls (codes "General Protection Fault occurred!\n") (codes "System halted due to GPF.\n") s
      valid ready,
  halts polls (codes "Page Fault occurred!\n") (codes "System halted due to page fault.\n") s valid
      ready,
)

module _ {ℓ} {S : Type ℓ} where
  -- Its inline assembly moves the stack pointer, by the size of an error code, and reads nothing. The
  -- stack pointer that the function leaves comes first.
  unfoldable pub generic_interrupt_handler_error_code :
      Registry (Handler S) → Pic → (vector stack_pointer : ℕ) → Machine S → Option (ℕ × Machine S)
  unfolding run_handler pic_send_eoi
  generic_interrupt_handler_error_code r p vector stack_pointer m =
      let sp = add32 stack_pointer 4 in
      elim (if r.handlers_initialized && ltb vector 256
        then run_handler (get_or r.interrupt_handlers vector none) m
        else some m) [
          | none ↦ none
          | some m' ↦ some (sp, record m' { bus = pic_send_eoi p vector m'.bus })
        ]

  -- The machine behind the stack pointer, if there is one.
  abbrev with_pointer : (stack_pointer : ℕ) → Option (Machine S) → Option (ℕ × Machine S)
  with_pointer sp none = none
  with_pointer sp (some m) = some (sp, m)

  -- An exception with an error code runs the same handler as an interrupt at its vector, with the same
  -- acknowledgement, and leaves the stack pointer four bytes higher.
  pub error_code_lem :
      (r : Registry (Handler S)) (p : Pic) (vector sp : ℕ) (m : Machine S)
      → generic_interrupt_handler_error_code r p vector sp m
        ≡ with_pointer (add32 sp 4) (generic_interrupt_handler_no_error_code r p vector m)
  unfolding generic_interrupt_handler_error_code generic_interrupt_handler_no_error_code
  error_code_lem r p vector sp m =
      elim (Option-cases (
        if r.handlers_initialized && ltb vector 256
        then run_handler (get_or r.interrupt_handlers vector none) m
        else some m)) [
          | inl stops ↦
              rw
                (
                  generic_interrupt_handler_error_code, generic_interrupt_handler_no_error_code,
                  stops,
                )
                refl
          | inr (m', runs) ↦
              rw
                (
                  generic_interrupt_handler_error_code, generic_interrupt_handler_no_error_code,
                  runs,
                )
                refl
        ]
