-- ===== src/Kernel/Demo.antt =====
-- The part of `kernel_main` in src/kernel.c that registers a handler at vector 0x81, calls it by two
-- software interrupts and takes it back, and that registers the handler of the serial line; and the
-- string length of the same file. The calls of the printing functions are kept, the newest first.
pub mod Custom
pub mod SerialLine
pub mod Strlen
use shogun_os.Base.{
  ℕ, zero, suc, ◌+◌, Bool, true, false, Option, none, some, List, [], ◌∷◌, ◌==◌, if◌then◌else◌,
  add32, increment, codes,
}
use shogun_os.Printing.{Print, string_out, decimal_out}
use shogun_os.Executor.{World, async_serial_interrupt_handler}
use shogun_os.Idt.Registry.{
  Registry, IrqId, irq_pic1, register_interrupt_handler, unregister_interrupt_handler,
  register_interrupt_handler_irq,
}
use shogun_os.Idt.Pic.{
  Pic, Machine, Handler, pic_unmask_irq, generic_interrupt_handler_no_error_code,
}

-- `while (str[len] != '\0') len++;` on the bytes in memory; `none` means that the fuel ran out.
unfoldable pub my_strlen_loop : ℕ → (memory : ℕ → ℕ) → (str len : ℕ) → Option ℕ
my_strlen_loop zero memory str len = none
my_strlen_loop (suc fuel) memory str len = elim (memory (add32 str len) == 0) [
  | true ↦ some len
  | false ↦ my_strlen_loop fuel memory str (add32 len 1)
]

unfoldable pub my_strlen : (fuel : ℕ) → (memory : ℕ → ℕ) → (str : ℕ) → Option ℕ
my_strlen fuel memory str = my_strlen_loop fuel memory str 0

-- What the two handlers work on. The count is a `static int`.
pub record Desk (T : Type 0) : Type 0 where
  pub custom_handler_called : ℕ
  pub prints : List Print
  pub world : World T

-- The registry of handlers with the rest of the machine.
pub record Running (T : Type 0) : Type 0 where
  pub registry : Registry (Handler (Desk T))
  pub machine : Machine (Desk T)

-- IRQ 4, the line COM1.
abbrev pub serial_irq : IrqId
serial_irq = record { type = irq_pic1; index = 4 }

module _ {T : Type 0} where
  abbrev pub print : List Print → Machine (Desk T) → Machine (Desk T)
  print [] m = m
  print (p ∷ ps) m = print ps (record m { rest = record m.rest { prints = p ∷ m.rest.prints } })

  -- `none` when the count overflows, which C does not define.
  unfoldable pub custom_interrupt_handler : Handler (Desk T)
  custom_interrupt_handler m = elim (increment m.rest.custom_handler_called) [
    | none ↦ none
    | some called ↦ some (
        print
          (string_out (codes "Custom interrupt 0x81 handler called! Count: ")
            ∷ decimal_out called
            ∷ string_out (codes "\n")
            ∷ [])
          (record m { rest = record m.rest { custom_handler_called = called } }))
  ]

  -- `int $0x81`: the stub of the vector calls the dispatch.
  abbrev pub int_0x81 :
      Registry (Handler (Desk T)) → Pic → Machine (Desk T) → Option (Machine (Desk T))
  int_0x81 r p m = generic_interrupt_handler_no_error_code r p 0x81 m

  -- The branch of the demonstration behind a registration.
  unfoldable pub trigger_twice :
      Registry (Handler (Desk T)) → Pic → Machine (Desk T) → Option (Running T)
  trigger_twice r p m =
      let m1 =
        print
          (string_out (codes "Successfully registered custom handler for interrupt 0x81!\n")
            ∷ string_out (codes "Triggering interrupt 0x81...\n")
            ∷ [])
          m in
      elim (int_0x81 r p m1) [
        | none ↦ none
        | some m2 ↦
            elim (int_0x81 r p
              (print (string_out (codes "Triggering interrupt 0x81 again...\n") ∷ []) m2)) [
                | none ↦ none
                | some m3 ↦
                    let m4 =
                      print
                        (string_out (codes "Custom handler was called ")
                          ∷ decimal_out m3.rest.custom_handler_called
                          ∷ string_out (codes " time(s)\n")
                          ∷ [])
                        m3 in
                    some (record {
                      registry = (unregister_interrupt_handler r 0x81).1;
                      machine =
                          print
                            (string_out (codes "Custom handler unregistered successfully!\n") ∷ [])
                            m4;
                    })
              ]
      ]

  unfoldable pub demonstrate_custom_handler : Pic → Running T → Option (Running T)
  demonstrate_custom_handler p s =
      let m =
        print (string_out (codes "Registering custom handler for interrupt 0x81...\n") ∷ [])
          s.machine in
      let (registered, r) =
        register_interrupt_handler s.registry 0x81 (some custom_interrupt_handler) in
      elim registered [
        | true ↦ trigger_twice r p m
        | false ↦ some (record {
          registry = r;
          machine = print (string_out (codes "Failed to register custom handler\n") ∷ []) m;
        })
      ]

  -- The handler as the registry has it.
  unfoldable pub serial_handler : Handler (Desk T)
  serial_handler m =
      some
        (record m { rest = record m.rest { world = async_serial_interrupt_handler m.rest.world } })

  unfoldable pub register_serial_handler : Pic → Running T → Running T
  register_serial_handler p s =
      let m =
        print (string_out (codes "Registering async serial interrupt handler for IRQ 4...\n") ∷ [])
          s.machine in
      let (registered, r) =
        register_interrupt_handler_irq s.registry serial_irq (some serial_handler) in
      elim registered [
        | true ↦
            let m1 =
              print
                (string_out (codes "Successfully registered async serial interrupt handler!\n")
                  ∷ [])
                m in
            record { registry = r; machine = record m1 { bus = pic_unmask_irq p 4 m1.bus } }
        | false ↦ record {
          registry = r;
          machine =
              print (string_out (codes "Failed to register async serial interrupt handler\n") ∷ [])
                m;
        }
      ]
