-- ===== src/Rtc/Interrupts.antt =====
-- The periodic interrupt of src/rtc.c: how the driver turns it on and off.
use shogun_os.Base.{
  ◌%◌, ◌^◌, Bool, true, false, not, Option, none, some, if◌then◌else◌, bit_and, bit_or, not32,
}
use shogun_os.Io.{Bus}
use shogun_os.PortManager.{Ports}
use shogun_os.Idt.Registry.{
  Registry, IrqId, irq_pic2, register_interrupt_handler_irq, unregister_interrupt_handler_irq,
}
use shogun_os.Idt.Pic.{Pic, Handler, pic_unmask_irq}
use shogun_os.Rtc.{RtcDriver, cmos_reg_a, cmos_reg_b, read_cmos_register, write_cmos_register}

abbrev pub rtc_irq : IrqId
rtc_irq = record { type = irq_pic2; index = 0 }

-- 256 Hz: the low four bits of register A are 8.
unfoldable pub set_rate : Ports → Option RtcDriver → Bus → Bus
unfolding read_cmos_register write_cmos_register
set_rate s rtc b =
    let (reg_a, b') = read_cmos_register s rtc cmos_reg_a b in
    write_cmos_register s rtc cmos_reg_a (bit_or (bit_and reg_a 0xF0) 0x08) b'

-- `reg_b |= 0x40`
unfoldable pub set_periodic : Ports → Option RtcDriver → Bus → Bus
unfolding read_cmos_register write_cmos_register
set_periodic s rtc b =
    let (reg_b, b') = read_cmos_register s rtc cmos_reg_b b in
    write_cmos_register s rtc cmos_reg_b (bit_or reg_b 0x40) b'

-- `reg_b &= ~0x40`
unfoldable pub clear_periodic : Ports → Option RtcDriver → Bus → Bus
unfolding read_cmos_register write_cmos_register
clear_periodic s rtc b =
    let (reg_b, b') = read_cmos_register s rtc cmos_reg_b b in
    write_cmos_register s rtc cmos_reg_b (bit_and reg_b (not32 0x40) % 2 ^ 8) b'

module _ {ℓ} {S : Type ℓ} where
  -- `true` is the result 0, `false` the result -1. The message is left out.
  unfoldable pub enable_rtc_interrupts :
      Registry (Handler S)
      → Pic
      → Ports
      → Option RtcDriver
      → Option (Handler S)
      → Bus
      → Bool × Registry (Handler S) × Bus
  unfolding set_rate set_periodic
  enable_rtc_interrupts r p s none handler b = (false, r, b)
  enable_rtc_interrupts r p s (some d) handler b =
      let (registered, r') = register_interrupt_handler_irq r rtc_irq handler in
      if not registered
      then (false, r', b)
      else (true, r', pic_unmask_irq p 8 (set_periodic s (some d) (set_rate s (some d) b)))

  unfoldable pub disable_rtc_interrupts :
      Registry (Handler S) → Ports → Option RtcDriver → Bus → Bool × Registry (Handler S) × Bus
  unfolding clear_periodic
  disable_rtc_interrupts r s none b = (false, r, b)
  disable_rtc_interrupts r s (some d) b =
      let b' = clear_periodic s (some d) b in
      let (unregistered, r') = unregister_interrupt_handler_irq r rtc_irq in (unregistered, r', b')
