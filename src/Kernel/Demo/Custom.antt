-- ===== src/Kernel/Demo/Custom.antt =====
-- The handler at vector 0x81 in src/kernel.c, from its registration to its removal.
use shogun_os.Base.{
  ℕ, ◌+◌, ◌<◌, ◌≡◌, refl, ap, ◌∙◌, Bool, true, false, Option, none, some, List, [], ◌∷◌, ◌==◌,
  if◌then◌else◌, increment_lem, codes, arith, int_bound, get_or, same_test,
}
use mathlib.Core.Option
use shogun_os.Printing.{Print, string_out, decimal_out}
use shogun_os.Idt.Registry.{
  Registry, IsValid, handler_of, register_interrupt_handler, register_lem, unregister_lem,
}
use shogun_os.Idt.Pic.{
  Machine, Handler, run_handler, pic_send_eoi, generic_interrupt_handler_no_error_code,
}
use shogun_os.Idt.Chip.{standard_pic}
use shogun_os.Kernel.Demo.{
  Desk, Running, print, custom_interrupt_handler, int_0x81, trigger_twice,
  demonstrate_custom_handler,
}

-- The calls of the printing functions, the newest first, with the counts behind the two interrupts.
abbrev pub printed : (first second : ℕ) → List Print → List Print
printed first second before =
    string_out (codes "Custom handler unregistered successfully!\n")
    ∷ string_out (codes " time(s)\n")
    ∷ decimal_out (second)
    ∷ string_out (codes "Custom handler was called ")
    ∷ string_out (codes "\n")
    ∷ decimal_out (second)
    ∷ string_out (codes "Custom interrupt 0x81 handler called! Count: ")
    ∷ string_out (codes "Triggering interrupt 0x81 again...\n")
    ∷ string_out (codes "\n")
    ∷ decimal_out (first)
    ∷ string_out (codes "Custom interrupt 0x81 handler called! Count: ")
    ∷ string_out (codes "Triggering interrupt 0x81...\n")
    ∷ string_out (codes "Successfully registered custom handler for interrupt 0x81!\n")
    ∷ string_out (codes "Registering custom handler for interrupt 0x81...\n")
    ∷ before

module _ {T : Type 0} where
  -- A software interrupt runs the handler of its vector, and acknowledges nothing.
  runs_at :
      (hs : List (Option (Handler (Desk T)))) (on : Bool) (handler : Handler (Desk T))
      (m m' : Machine (Desk T))
      → handler_of (record { interrupt_handlers = hs; handlers_initialized = on }) 0x81
        ≡ some handler
      → handler m ≡ some m'
      → generic_interrupt_handler_no_error_code
          (record { interrupt_handlers = hs; handlers_initialized = on })
          standard_pic
          0x81
          m
        ≡ some m'
  unfolding handler_of generic_interrupt_handler_no_error_code run_handler pic_send_eoi
  runs_at hs true handler m m' registered runs =
      let there : get_or hs 0x81 none ≡ some handler = registered in
      rw (generic_interrupt_handler_no_error_code, there, runs) refl
  runs_at hs false handler m m' registered runs = absurd (Option.none-ne-some handler registered)

  -- The machine behind a run of the handler.
  abbrev called_once : Machine (Desk T) → Machine (Desk T)
  called_once m =
      let called = m.rest.custom_handler_called + 1 in
      print
        (string_out (codes "Custom interrupt 0x81 handler called! Count: ")
          ∷ decimal_out called
          ∷ string_out (codes "\n")
          ∷ [])
        (record m { rest = record m.rest { custom_handler_called = called } })

  -- A software interrupt behind the registration runs the handler, and acknowledges nothing.
  int_0x81_lem :
      (r : Registry (Handler (Desk T))) (m : Machine (Desk T))
      → handler_of r 0x81 ≡ some custom_interrupt_handler
      → m.rest.custom_handler_called + 1 < int_bound
      → int_0x81 r standard_pic m ≡ some (called_once m)
  unfolding custom_interrupt_handler
  int_0x81_lem r m registered room =
      let counted = increment_lem m.rest.custom_handler_called room in
      runs_at r.interrupt_handlers r.handlers_initialized custom_interrupt_handler m (called_once m)
        registered (rw (custom_interrupt_handler, counted) refl)

  -- What the demonstration leaves: no handler at vector 0x81 and the others as before, the count two
  -- higher, and the calls of the printing functions, the newest first. The accesses of these calls to the
  -- serial line are theirs; the bus has no other.
  pub record Demonstrated (s s' : Running T) : Type 0 where
    pub valid : IsValid s'.registry
    pub handlers :
        (v : ℕ) → handler_of s'.registry v ≡ (if 0x81 == v then none else handler_of s.registry v)
    pub bus : s'.machine.bus ≡ s.machine.bus
    pub world : s'.machine.rest.world ≡ s.machine.rest.world
    pub called : s'.machine.rest.custom_handler_called ≡ s.machine.rest.custom_handler_called + 2
    pub prints :
        s'.machine.rest.prints
        ≡ printed
            (s.machine.rest.custom_handler_called + 1)
            (s.machine.rest.custom_handler_called + 2)
            s.machine.rest.prints

  -- From a valid registry and with the standard controllers, when the count is below 2^31 - 2, the
  -- demonstration returns: the handler ran exactly twice, once for each software interrupt, no interrupt
  -- was acknowledged to a controller, and each message is printed in its place, with the count as it is
  -- then. Behind it there is no
  -- handler at vector 0x81, and the others are as before.
  pub demonstrate_custom_handler_lem :
      (s : Running T)
      → IsValid s.registry
      → s.machine.rest.custom_handler_called + 2 < int_bound
      → (s' : Running T) × (demonstrate_custom_handler standard_pic s ≡ some s') × Demonstrated s s'
  unfolding demonstrate_custom_handler trigger_twice
  demonstrate_custom_handler_lem s ok room =
      let (registered, valid, _) =
        register_lem s.registry 0x81 (some custom_interrupt_handler) 0x81 ok (omega arith) in
      let mine =
        (register_lem s.registry 0x81 (some custom_interrupt_handler) 0x81 ok (omega arith)).2 in
      let r = (register_interrupt_handler s.registry 0x81 (some custom_interrupt_handler)).1 in
      let m1 =
        print
          (string_out (codes "Registering custom handler for interrupt 0x81...\n")
            ∷ string_out (codes "Successfully registered custom handler for interrupt 0x81!\n")
            ∷ string_out (codes "Triggering interrupt 0x81...\n")
            ∷ [])
          s.machine in
      let first = int_0x81_lem r m1 mine (omega (arith, room)) in
      let m2 =
        print (string_out (codes "Triggering interrupt 0x81 again...\n") ∷ []) (called_once m1) in
      let second = int_0x81_lem r m2 mine (omega (arith, room)) in
      let twice : s.machine.rest.custom_handler_called + 1 + 1
          ≡ s.machine.rest.custom_handler_called + 2 =
        omega (arith, room) in
      rw (demonstrate_custom_handler, registered, trigger_twice, first, second)
        (
          _,
          refl,
          record {
            valid = (unregister_lem r 0x81 0x81 valid (omega arith)).1;
            handlers = λ v.
                (unregister_lem r 0x81 v valid (omega arith)).2
                ∙ ap (λ o. if 0x81 == v then none else o)
                    (register_lem s.registry 0x81 (some custom_interrupt_handler) v ok
                      (omega arith)).2
                ∙ same_test (0x81 == v) none (some custom_interrupt_handler)
                    (handler_of s.registry v);
            bus = refl;
            world = refl;
            called = twice;
            prints =
                ap (λ n. printed (s.machine.rest.custom_handler_called + 1) n s.machine.rest.prints)
                  twice;
          },
        )
