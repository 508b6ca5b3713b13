-- ===== src/Rtc/Periodic.antt =====
-- What enabling and disabling the periodic interrupt of src/rtc.c does to the registry, the clock
-- and the interrupt controllers.
use shogun_os.Base.{
  ℕ, ◌+◌, ◌%◌, ◌≡◌, refl, ap, ap₂, ◌∙◌, true, Option, none, some, ◌==◌, if◌then◌else◌, arith, List,
  ◌∷◌,
}
use mathlib.Core.Path.{subst}
use shogun_os.Io.{Access, inp, out, Bus}
use shogun_os.PortManager.{Ports}
use shogun_os.Idt.Registry.{
  Registry, IsValid, handler_of, irq_id_to_vector, register_interrupt_handler,
  unregister_interrupt_handler, register_interrupt_handler_irq, unregister_interrupt_handler_irq,
  register_lem, unregister_lem,
}
use shogun_os.Idt.Pic.{port_of, Handler, pic_unmask_irq}
use shogun_os.Idt.Chip.{standard_pic, without_bit, pic_unmask_irq_lem}
use shogun_os.Rtc.{RtcDriver}
use shogun_os.Rtc.Interrupts.{
  set_rate, set_periodic, clear_periodic, enable_rtc_interrupts, disable_rtc_interrupts,
}
use shogun_os.Rtc.Cmos.{
  Cmos, cmos_after, at_rate_8, with_bit, less_bit, set_rate_lem, set_periodic_lem,
  clear_periodic_lem,
}

-- Line 8 is let through on both controllers, behind whatever was written before.
pub record LetThrough (before after : List Access) (master slave : ℕ) : Type 0 where
  pub last :
      after
      ≡ out 0xA1 (without_bit slave 0)
        ∷ inp 0xA1 slave
        ∷ out 0x21 (without_bit master 2)
        ∷ inp 0x21 master
        ∷ before

-- The clock does not see the interrupt controllers.
not_the_clock :
    (before after : List Access) (master slave : ℕ) (c : Cmos)
    → LetThrough before after master slave
    → cmos_after after c ≡ cmos_after before c
unfolding cmos_after
not_the_clock before after master slave c l = rw l.last refl

unmasked :
    (b : Bus)
    → LetThrough b.trace
        (pic_unmask_irq standard_pic 8 b).trace
        (b.reply b.reads % 256)
        (b.reply (b.reads + 1) % 256)
unmasked b = record { last = pic_unmask_irq_lem 8 b (omega arith) }

-- The accesses of `enable_rtc_interrupts` to the clock.
abbrev pub programmed : Ports → RtcDriver → Bus → Bus
programmed s d b = set_periodic s (some d) (set_rate s (some d) b)

module _ (s : Ports) (d : RtcDriver) (has_control : port_of s d.control_port ≡ some 0x70)
    (has_data : port_of s d.data_port ≡ some 0x71) where
  -- The registers behind the two changes.
  programmed_lem :
      (b : Bus) (c : Cmos) (q : ℕ)
      → ((cmos_after (programmed s d b).trace c).register q ≡ (
          if q == 0x0B
          then with_bit (b.reply (b.reads + 1) % 256) 6
          else if q == 0x0A
          then at_rate_8 (b.reply b.reads % 256)
          else (cmos_after b.trace c).register q))
        × ((programmed s d b).reply ≡ b.reply)
        × ((programmed s d b).reads ≡ b.reads + 1 + 1)
  programmed_lem b c q =
      let b1 = set_rate s (some d) b in
      let (rate, reply, reads) = set_rate_lem s d has_control has_data b c q in
      let (set, reply', reads') = set_periodic_lem s d has_control has_data b1 c q in
      let read = ap₂ (λ f n. f n % 256) reply reads in
      (
        set ∙ ap₂ (λ v w. if q == 0x0B then with_bit v 6 else w) read rate,
        reply' ∙ reply,
        reads' ∙ ap (λ n. n + 1) reads,
      )

module _ {ℓ} {S : Type ℓ} (s : Ports) (d : RtcDriver)
    (has_control : port_of s d.control_port ≡ some 0x70)
    (has_data : port_of s d.data_port ≡ some 0x71) where
  enabled :
      (r : Registry (Handler S)) (handler : Option (Handler S)) (b : Bus)
      → IsValid r
      → enable_rtc_interrupts r standard_pic s (some d) handler b ≡ (
        true,
        (register_interrupt_handler r 72 handler).1,
        pic_unmask_irq standard_pic 8 (programmed s d b),
      )
  unfolding enable_rtc_interrupts register_interrupt_handler_irq irq_id_to_vector
  enabled r handler b ok =
      let registered = (register_lem r 72 handler 72 ok (omega arith)).0 in
      rw (enable_rtc_interrupts, registered) refl

  -- On a valid registry, with the standard handles and a driver that holds its ports,
  -- `enable_rtc_interrupts` returns 0; the registry stays valid, with the handler at vector 72 and
  -- no other change; register A of the clock has rate 8, register B its bit 6 set, and the others
  -- are as before; and then line 8 is let through on both controllers.
  pub enable_rtc_interrupts_lem :
      (r : Registry (Handler S)) (handler : Option (Handler S)) (b : Bus) (c : Cmos)
      → IsValid r
      → (r' : Registry (Handler S)) × (b' : Bus) × (enable_rtc_interrupts r standard_pic s
            (some d)
            handler
            b
          ≡ (true, r', b'))
        × IsValid r'
        × ((v : ℕ) → handler_of r' v ≡ (if 72 == v then handler else handler_of r v))
        × ((q : ℕ)
            → (cmos_after b'.trace c).register q ≡ (
                if q == 0x0B
                then with_bit (b.reply (b.reads + 1) % 256) 6
                else if q == 0x0A
                then at_rate_8 (b.reply b.reads % 256)
                else (cmos_after b.trace c).register q))
        × LetThrough
            (programmed s d b).trace
            b'.trace
            (b.reply (b.reads + 2) % 256)
            (b.reply (b.reads + 3) % 256)
  enable_rtc_interrupts_lem r handler b c ok =
      let b1 = programmed s d b in
      let b2 = pic_unmask_irq standard_pic 8 b1 in
      let through = unmasked b1 in
      let (_, reply, reads) = programmed_lem s d has_control has_data b c 0 in
      let seen =
        not_the_clock b1.trace b2.trace (b1.reply b1.reads % 256) (b1.reply (b1.reads + 1) % 256) c
          through in
      let at : b1.reads ≡ b.reads + 2 = omega (arith, reads) in
      let at' : b1.reads + 1 ≡ b.reads + 3 = omega (arith, reads) in
      let master = ap₂ (λ f n. f n % 256) reply at in
      let slave = ap₂ (λ f n. f n % 256) reply at' in
      (
        (register_interrupt_handler r 72 handler).1,
        b2,
        enabled r handler b ok,
        (register_lem r 72 handler 72 ok (omega arith)).1,
        λ v. (register_lem r 72 handler v ok (omega arith)).2,
        λ q. ap (λ x. x.register q) seen ∙ (programmed_lem s d has_control has_data b c q).0,
        subst (λ (m, k). LetThrough b1.trace b2.trace m k) (ap₂ (λ x y. (x, y)) master slave)
            through,
      )

  -- On a valid registry and with a driver that holds its ports, `disable_rtc_interrupts` returns 0;
  -- the registry stays valid, with no handler at vector 72 and no other change; and register B of
  -- the clock has its bit 6 clear, with no other change of the registers.
  pub disable_rtc_interrupts_lem :
      (r : Registry (Handler S)) (b : Bus) (c : Cmos)
      → IsValid r
      → (r' : Registry (Handler S)) × (b' : Bus) × (disable_rtc_interrupts r s (some d) b
          ≡ (true, r', b'))
        × IsValid r'
        × ((v : ℕ) → handler_of r' v ≡ (if 72 == v then none else handler_of r v))
        × ((q : ℕ)
            → (cmos_after b'.trace c).register q ≡ (
                if q == 0x0B
                then less_bit (b.reply b.reads % 256) 6
                else (cmos_after b.trace c).register q))
  unfolding disable_rtc_interrupts unregister_interrupt_handler_irq irq_id_to_vector
  disable_rtc_interrupts_lem r b c ok =
      let b' = clear_periodic s (some d) b in
      let (done, valid, _) = unregister_lem r 72 72 ok (omega arith) in
      (
        (unregister_interrupt_handler r 72).1,
        b',
        rw (disable_rtc_interrupts, done) refl,
        valid,
        λ v. (unregister_lem r 72 v ok (omega arith)).2,
        λ q. (clear_periodic_lem s d has_control has_data b c q).0,
      )

  -- Neither changes what the devices answer.
  pub reply-enable_rtc_interrupts :
      (r : Registry (Handler S)) (handler : Option (Handler S)) (b : Bus)
      → IsValid r
      → (enable_rtc_interrupts r standard_pic s (some d) handler b).2.reply ≡ b.reply
  unfolding pic_unmask_irq
  reply-enable_rtc_interrupts r handler b ok =
      ap (λ x. x.2.reply) (enabled r handler b ok)
      ∙ (programmed_lem s d has_control has_data b (record { index = 0; register = λ q. 0 }) 0).1

  pub reply-disable_rtc_interrupts :
      (r : Registry (Handler S)) (b : Bus)
      → (disable_rtc_interrupts r s (some d) b).2.reply ≡ b.reply
  unfolding disable_rtc_interrupts
  reply-disable_rtc_interrupts r b =
      (clear_periodic_lem s d has_control has_data b (record { index = 0; register = λ q. 0 }) 0).1
