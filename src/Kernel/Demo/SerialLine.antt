-- ===== src/Kernel/Demo/SerialLine.antt =====
-- The interrupt of the serial line in src/kernel.c, from its registration to the wake-up of the executor.
use shogun_os.Base.{ℕ, ◌%◌, ◌≡◌, refl, ap, true, some, ◌∷◌, ◌==◌, if◌then◌else◌, arith}
use shogun_os.Io.{inp, out}
use shogun_os.Idt.Registry.{
  IsValid, handler_of, irq_id_to_vector, register_interrupt_handler_irq, register_lem,
}
use shogun_os.Executor.{async_serial_interrupt_handler, executor_wake_up}
use shogun_os.Idt.Pic.{Machine, run_handler, generic_interrupt_handler_no_error_code}
use shogun_os.Idt.Chip.{
  standard_pic, without_bit, acknowledgements, pic_unmask_irq_lem, dispatch_lem,
}
use shogun_os.Kernel.Demo.{Desk, Running, serial_irq, serial_handler, register_serial_handler}

module _ {T : Type 0} where
  registered_at_68 :
      (s : Running T)
      → IsValid s.registry
      → ((register_interrupt_handler_irq s.registry serial_irq (some serial_handler)).0 ≡ true)
        × IsValid (register_interrupt_handler_irq s.registry serial_irq (some serial_handler)).1
        × ((v : ℕ)
            → handler_of
                (register_interrupt_handler_irq s.registry serial_irq (some serial_handler)).1
                v
              ≡ (if 68 == v then some serial_handler else handler_of s.registry v))
  unfolding register_interrupt_handler_irq irq_id_to_vector
  registered_at_68 s ok = (
    (register_lem s.registry 68 (some serial_handler) 68 ok (omega arith)).0,
    (register_lem s.registry 68 (some serial_handler) 68 ok (omega arith)).1,
    λ v. (register_lem s.registry 68 (some serial_handler) v ok (omega arith)).2,
  )

  -- The line's interrupt is let through: its handler is at vector 68, and the master's mask was read and
  -- written back without bit 4.
  pub record LetIn (s s' : Running T) : Type 0 where
    pub valid : IsValid s'.registry
    pub handlers :
        (v : ℕ)
        → handler_of s'.registry v
          ≡ (if 68 == v then some serial_handler else handler_of s.registry v)
    pub world : s'.machine.rest.world ≡ s.machine.rest.world
    pub mask :
        s'.machine.bus.trace
        ≡ out 0x21 (without_bit (s.machine.bus.reply s.machine.bus.reads % 256) 4)
          ∷ inp 0x21 (s.machine.bus.reply s.machine.bus.reads % 256)
          ∷ s.machine.bus.trace

  let_in : (s : Running T) → IsValid s.registry → LetIn s (register_serial_handler standard_pic s)
  unfolding register_serial_handler
  let_in s ok =
      let (registered, valid, handlers) = registered_at_68 s ok in
      rw (register_serial_handler, registered)
        record {
          valid = valid;
          handlers = handlers;
          world = refl;
          mask = pic_unmask_irq_lem 4 s.machine.bus (omega arith);
        }

  -- From a valid registry and with the standard controllers, the registration puts the handler of the
  -- serial line at vector 68, keeps the others, and lets line 4 through on the master. From then on an
  -- interrupt at vector 68 sets the poll flag of the executor and is acknowledged to the master alone.
  pub register_serial_handler_lem :
      (s : Running T) (m : Machine (Desk T))
      → IsValid s.registry
      → LetIn s (register_serial_handler standard_pic s)
        × (m'' : Machine (Desk T)) × (generic_interrupt_handler_no_error_code
              (register_serial_handler standard_pic s).registry
              standard_pic
              68
              m
            ≡ some m'')
        × (m''.rest.world.should_poll ≡ true)
        × (m''.bus.trace ≡ out 0x20 0x20 ∷ m.bus.trace)
  unfolding run_handler serial_handler async_serial_interrupt_handler executor_wake_up
      acknowledgements
  register_serial_handler_lem s m ok =
      let l = let_in s ok in
      let m' : Machine (Desk T) = record m {
        rest = record m.rest { world = async_serial_interrupt_handler m.rest.world };
      } in
      let mine = l.handlers 68 in
      let (m'', runs, kept, trace) =
        dispatch_lem (register_serial_handler standard_pic s).registry 68 m m' (omega arith)
          (ap (λ o. run_handler o m) mine) in
      (l, m'', runs, ap (λ r. r.world.should_poll) kept, trace)
