-- ===== src/Idt/Delivery.antt =====
-- From the registration of a device's handler to the interrupt of its line, of src/idt.c.
use shogun_os.Base.{
  ℕ, ◌+◌, ◌/◌, ◌<◌, ◌≡◌, refl, ap, ◌∙◌, some, true, false, List, ◌∷◌, ◌++◌, arith, ◌==◌, ==-refl,
}
use shogun_os.Io.{Access, out}
use shogun_os.Idt.Registry.{
  Registry, IrqId, irq_pic2, IsValid, handler_of, irq_id_to_vector, register_interrupt_handler,
  register_interrupt_handler_irq, register_lem,
}
use shogun_os.Idt.Pic.{Machine, Handler, run_handler, generic_interrupt_handler_no_error_code}
use shogun_os.Idt.Chip.{standard_pic, acknowledgements, dispatch_lem}

-- A line of the slave.
abbrev pub slave_line : ℕ → IrqId
slave_line line = record { type = irq_pic2; index = line }

vector_of_line : (line : ℕ) → line < 8 → irq_id_to_vector (slave_line line) ≡ 72 + line
unfolding irq_id_to_vector
vector_of_line line h = omega arith

both_acknowledged :
    (line : ℕ) (t : List Access)
    → line < 8
    → acknowledgements (72 + line) ++ t ≡ out 0x20 0x20 ∷ out 0xA0 0x20 ∷ t
unfolding acknowledgements
both_acknowledged line t h =
    let not_master : ((72 + line) / 8 == 8) ≡ false = ground arith in
    let slave : ((72 + line) / 8 == 9) ≡ true = ground arith in rw (not_master, slave) refl

-- A handler that was registered for an interrupt's vector runs when the vector does.
pub delivered {ℓ} :
    {S : Type ℓ} (r : Registry (Handler S)) (irq : IrqId) (v : ℕ) (handler : Handler S)
    (m m' : Machine S)
    → IsValid r
    → v < 256
    → irq_id_to_vector irq ≡ v
    → handler m ≡ some m'
    → (m'' : Machine S) × (generic_interrupt_handler_no_error_code
          (register_interrupt_handler_irq r irq (some handler)).1
          standard_pic
          v
          m
        ≡ some m'')
      × (m''.rest ≡ m'.rest)
      × (m''.bus.trace ≡ acknowledgements v ++ m'.bus.trace)
unfolding register_interrupt_handler_irq run_handler
delivered r irq v handler m m' ok h same returns =
    let r' = (register_interrupt_handler r v (some handler)).1 in
    let known = (register_lem r v (some handler) v ok h).2 in
    let mine : handler_of r' v ≡ some handler = known ∙ rw (==-refl v) refl in
    let (m'', runs, kept, trace) =
      dispatch_lem r' v m m' h (ap (λ o. run_handler o m) mine ∙ returns) in
    let there =
      ap
        (λ u.
          generic_interrupt_handler_no_error_code (register_interrupt_handler r u (some handler)).1
            standard_pic v m)
        same in
    (m'', there ∙ runs, kept, trace)

-- In a valid registry and with the standard handles, once a handler is registered for one of the
-- eight lines of the slave and returns, the interrupt of that line runs exactly this handler and
-- then acknowledges the interrupt to the slave and to the master.
pub irq_delivery_lem {ℓ} :
    {S : Type ℓ} (r : Registry (Handler S)) (line : ℕ) (handler : Handler S) (m m' : Machine S)
    → IsValid r
    → line < 8
    → handler m ≡ some m'
    → (m'' : Machine S) × (generic_interrupt_handler_no_error_code
          (register_interrupt_handler_irq r (slave_line line) (some handler)).1
          standard_pic
          (72 + line)
          m
        ≡ some m'')
      × (m''.rest ≡ m'.rest)
      × (m''.bus.trace ≡ out 0x20 0x20 ∷ out 0xA0 0x20 ∷ m'.bus.trace)
irq_delivery_lem r line handler m m' ok h returns =
    let (m'', runs, kept, trace) =
      delivered r (slave_line line) (72 + line) handler m m' ok (omega arith)
        (vector_of_line line h) returns in
    (m'', runs, kept, trace ∙ both_acknowledged line m'.bus.trace h)
