-- ===== src/Idt/Chip.antt =====
-- The PICs of src/idt.c as the two chips see them: each chip follows the writes to its own two ports.
use shogun_os.Base.{
  ℕ, ◌+◌, ◌-◌, ◌/◌, ◌%◌, ◌^◌, ◌<◌, ◌≡◌, refl, ◌∙◌, inl, inr, Bool, true, false, ◌&&◌, Option, none,
  some, List, [], ◌∷◌, ◌++◌, ltb, leb, ◌==◌, if◌then◌else◌, bit_and, arith, not32, ==_iff, get_or,
  Bool-cases,
}
use shogun_os.Base.Bits.{all_below, all_below_sound}
use shogun_os.Io.{Access, inp, out, Bus}
use shogun_os.PortManager.{static_ports}
use shogun_os.Idt.Registry.{Registry, handler_of}
use shogun_os.Idt.Pic.{
  Machine, Handler, Pic, pic_init_ports, pic_send_eoi, pic_remap, pic_unmask_irq,
  generic_interrupt_handler_no_error_code, run_handler,
}

-- What a chip expects on its data port: one of the initialisation words, or the mask.
pub data Phase : Type 0 where
  vector_base cascade mode operating : Phase

pub record Chip : Type 0 where
  pub phase : Phase
  pub base : ℕ
  pub wiring : ℕ
  pub mask : ℕ

-- A write of 0x11 to the command port starts the initialisation in cascade mode, with a fourth word.
pub command : ℕ → Chip → Chip
command value c = if value == 0x11 then record c { phase = vector_base } else c

pub datum : ℕ → Chip → Chip
datum value c = elim (c.phase) [
  | vector_base ↦ record c { base = value; phase = cascade }
  | cascade ↦ record c { wiring = value; phase = mode }
  | mode ↦ record c { phase = operating }
  | operating ↦ record c { mask = value }
]

-- The chip behind two ports, after a trace of accesses, the newest first.
pub observe : (cmd data_port : ℕ) → List Access → Chip → Chip
unfolding command datum
observe cmd data_port [] c = c
observe cmd data_port (inp port value ∷ t) c = observe cmd data_port t c
observe cmd data_port (out port value ∷ t) c =
    let before = observe cmd data_port t c in
    if port == cmd
    then command value before
    else if port == data_port
    then datum value before
    else before

-- The handles that the kernel gets when no port is in use.
abbrev pub standard_pic : Pic
standard_pic = record {
  master_pic_cmd = some 0x20;
  master_pic_data = some 0x21;
  slave_pic_cmd = some 0xA0;
  slave_pic_data = some 0xA1;
}

pub pic_init_ports-standard_pic : (pic_init_ports static_ports).0 ≡ standard_pic
unfolding pic_init_ports shogun_os.PortManager.taken shogun_os.PortManager.first_free
pic_init_ports-standard_pic = refl

-- With the standard handles, remapping leaves each chip operating, with its vectors at 0x40 and
-- 0x48, wired to each other on line 2, and with the mask that was read for it, in whatever state
-- the chips were.
pub pic_remap_lem :
    (b : Bus) (master slave : Chip)
    → (observe 0x20 0x21 (pic_remap standard_pic b).1.trace master
        ≡ record { phase = operating; base = 0x40; wiring = 0x04; mask = b.reply b.reads % 256 })
      × (observe 0xA0 0xA1 (pic_remap standard_pic b).1.trace slave ≡ record {
        phase = operating;
        base = 0x48;
        wiring = 0x02;
        mask = b.reply (b.reads + 1) % 256;
      })
unfolding pic_remap observe
pic_remap_lem b master slave = (refl, refl)

-- The acknowledgements that a vector needs, the newest first: none for an exception, the master's
-- for its eight lines, and both for the slave's.
unfoldable pub acknowledgements : (vector : ℕ) → List Access
acknowledgements vector =
    if vector / 8 == 8
    then out 0x20 0x20 ∷ []
    else if vector / 8 == 9
    then out 0x20 0x20 ∷ out 0xA0 0x20 ∷ []
    else []

slave_range : (v : ℕ) → (leb 0x48 v && leb v 0x4F) ≡ (v / 8 == 9)
slave_range v = ground arith

master_range : (v : ℕ) → (leb 0x40 v && leb v 0x47) ≡ (v / 8 == 8)
master_range v = ground arith

pub pic_send_eoi_lem :
    (vector : ℕ) (b : Bus)
    → (pic_send_eoi standard_pic vector b).trace ≡ acknowledgements vector ++ b.trace
unfolding pic_send_eoi acknowledgements
pic_send_eoi_lem vector b =
    rw (slave_range vector, master_range vector)
      (elim (Bool-cases (vector / 8 == 9)) [
        | inl slave ↦ let other : (vector / 8 == 8) ≡ false = ground arith in rw (slave, other) refl
        | inr not_slave ↦ elim (Bool-cases (vector / 8 == 8)) [
          | inl master ↦ rw (not_slave, master) refl
          | inr neither ↦ rw (not_slave, neither) refl
        ]
      ])

runs_handler {ℓ} :
    {S : Type ℓ} (hs : List (Option (Handler S))) (on : Bool) (vector : ℕ) (m : Machine S)
    → vector < 256
    → (if on && ltb vector 256 then run_handler (get_or hs vector none) m else some m)
      ≡ run_handler (if on then get_or hs vector none else none) m
unfolding run_handler
runs_handler hs true vector m h = let known : ltb vector 256 ≡ true = ground arith in rw known refl
runs_handler hs false vector m h = refl

-- With the standard handles and for a vector below 256 whose handler, if one is registered,
-- returns, an interrupt runs this handler and then acknowledges the interrupt to the chips that
-- raised it, and to no other.
pub dispatch_lem {ℓ} :
    {S : Type ℓ} (r : Registry (Handler S)) (vector : ℕ) (m m' : Machine S)
    → vector < 256
    → run_handler (handler_of r vector) m ≡ some m'
    → (m'' : Machine S) × (generic_interrupt_handler_no_error_code r standard_pic vector m
        ≡ some m'')
      × (m''.rest ≡ m'.rest)
      × (m''.bus.trace ≡ acknowledgements vector ++ m'.bus.trace)
unfolding generic_interrupt_handler_no_error_code handler_of
dispatch_lem r vector m m' h runs =
    let ran = runs_handler r.interrupt_handlers r.handlers_initialized vector m h ∙ runs in
    (
      record m' { bus = pic_send_eoi standard_pic vector m'.bus },
      rw (generic_interrupt_handler_no_error_code, ran) refl,
      refl,
      pic_send_eoi_lem vector m'.bus,
    )

-- A mask with line `k` let through.
abbrev pub without_bit : ℕ → ℕ → ℕ
without_bit v k = if (v / 2 ^ k) % 2 == 1 then v - 2 ^ k else v

clear_bit : ℕ → ℕ → Bool
clear_bit v k = bit_and v (not32 (2 ^ k)) % 2 ^ 8 == without_bit v k

clear_bit_lem : (v k : ℕ) → v < 256 → k < 8 → bit_and v (not32 (2 ^ k)) % 2 ^ 8 ≡ without_bit v k
unfolding all_below clear_bit
clear_bit_lem v k hv hk = (==_iff _ _).0 (
    all_below_sound 8 (clear_bit v) k
      (all_below_sound 256 (λ x. all_below 8 (clear_bit x)) v refl hv) hk)

-- With the standard handles and for one of the 16 lines, unmasking reads the mask of the line's
-- chip and writes it back without that line's bit; for a line of the slave, the line that the slave
-- is wired to is let through on the master first.
pub pic_unmask_irq_lem :
    (irq : ℕ) (b : Bus)
    → irq < 16
    → (pic_unmask_irq standard_pic irq b).trace ≡ (
        if irq / 8 == 0
        then out 0x21 (without_bit (b.reply b.reads % 256) irq)
          ∷ inp 0x21 (b.reply b.reads % 256)
          ∷ b.trace
        else out 0xA1 (without_bit (b.reply (b.reads + 1) % 256) (irq % 8))
          ∷ inp 0xA1 (b.reply (b.reads + 1) % 256)
          ∷ out 0x21 (without_bit (b.reply b.reads % 256) 2)
          ∷ inp 0x21 (b.reply b.reads % 256)
          ∷ b.trace)
unfolding pic_unmask_irq
pic_unmask_irq_lem irq b h = elim (Bool-cases (ltb irq 8)) [
  | inl master ↦
      let chip : (irq / 8 == 0) ≡ true = ground arith in
      rw (master, chip, clear_bit_lem (b.reply b.reads % 256) irq (omega arith) (ground arith)) refl
  | inr slave ↦
      let chip : (irq / 8 == 0) ≡ false = ground arith in
      let known : (leb 8 irq && ltb irq 16) ≡ true = ground arith in
      let line : irq - 8 ≡ irq % 8 = ground arith in
      rw
        (
          slave,
          chip,
          known,
          clear_bit_lem (b.reply b.reads % 256) 2 (omega arith) (omega arith),
          line,
          clear_bit_lem (b.reply (b.reads + 1) % 256) (irq % 8) (omega arith) (omega arith),
        )
        refl
]
