-- ===== src/Rtc/Cmos.antt =====
-- The registers of the clock as the writes of src/rtc.c leave them.
use shogun_os.Base.{
  ℕ, ◌+◌, ◌-◌, ◌/◌, ◌%◌, ◌^◌, ◌<◌, ◌≡◌, refl, Bool, true, false, some, List, [], ◌∷◌, ◌==◌, ==_iff,
  if◌then◌else◌, bit_and, bit_or, not32, arith, Bool-cases, inl, inr,
}
use shogun_os.Base.Bits.{all_below, all_below_sound}
use shogun_os.Io.{Access, inp, out, Bus, next_byte}
use shogun_os.PortManager.{Ports}
use shogun_os.Idt.Pic.{port_of}
use shogun_os.Rtc.{RtcDriver, reg_select, read_cmos_register, write_cmos_register, set_data_format}
use shogun_os.Rtc.Interrupts.{set_rate, set_periodic, clear_periodic}

-- The selected register, and what was last written to each.
pub record Cmos : Type 0 where
  pub index : ℕ
  pub register : ℕ → ℕ

-- Port 0x70 selects a register by its low seven bits, port 0x71 writes to it. The trace has the
-- newest access first.
unfoldable pub cmos_after : List Access → Cmos → Cmos
cmos_after [] c = c
cmos_after (inp port value ∷ t) c = cmos_after t c
cmos_after (out port value ∷ t) c =
    let before = cmos_after t c in
    if port == 0x70
    then record before { index = value % 128 }
    else if port == 0x71
    then record before {
      register = λ reg. if reg == before.index then value else before.register reg;
    }
    else before

-- The byte with its low four bits made 8.
abbrev pub at_rate_8 : ℕ → ℕ
at_rate_8 v = v - v % 16 + 8

-- The byte with bit `k` set, and with bit `k` clear.
abbrev pub with_bit : ℕ → ℕ → ℕ
with_bit v k = if (v / 2 ^ k) % 2 == 1 then v else v + 2 ^ k

abbrev pub less_bit : ℕ → ℕ → ℕ
less_bit v k = if (v / 2 ^ k) % 2 == 1 then v - 2 ^ k else v

-- The four bytes that the driver computes from a register.
all_four :
    (a b c d : Bool)
    → (if a then if b then if c then d else false else false else false) ≡ true
    → (a ≡ true) × (b ≡ true) × (c ≡ true) × (d ≡ true)
all_four true true true true e = (refl, refl, refl, refl)
all_four false b c d e = ground arith
all_four true false c d e = ground arith
all_four true true false d e = ground arith
all_four true true true false e = ground arith

computed : ℕ → Bool
computed v =
    if bit_or (bit_and v 0xF0) 0x08 == at_rate_8 v
    then if bit_or v 0x40 == with_bit v 6
      then if bit_and v (not32 0x40) % 2 ^ 8 == less_bit v 6
        then bit_or v (bit_or (2 ^ 1) (2 ^ 2)) == with_bit (with_bit v 1) 2
        else false
      else false
    else false

computed_all : all_below 256 computed ≡ true
unfolding all_below computed
computed_all = refl

computed_lem :
    (v : ℕ)
    → v < 256
    → (bit_or (bit_and v 0xF0) 0x08 ≡ at_rate_8 v)
      × (bit_or v 0x40 ≡ with_bit v 6)
      × (bit_and v (not32 0x40) % 2 ^ 8 ≡ less_bit v 6)
      × (bit_or v (bit_or (2 ^ 1) (2 ^ 2)) ≡ with_bit (with_bit v 1) 2)
unfolding computed
computed_lem v h =
    let passed = all_below_sound 256 computed v computed_all h in
    let (rate, set, clear, format) =
      all_four (bit_or (bit_and v 0xF0) 0x08 == at_rate_8 v) (bit_or v 0x40 == with_bit v 6)
        (bit_and v (not32 0x40) % 2 ^ 8 == less_bit v 6)
        (bit_or v (bit_or (2 ^ 1) (2 ^ 2)) == with_bit (with_bit v 1) 2) passed in
    ((==_iff _ _).0 rate, (==_iff _ _).0 set, (==_iff _ _).0 clear, (==_iff _ _).0 format)

-- The trace of a write to a register, the newest access first.
abbrev written : (select value : ℕ) → List Access → List Access
written select value t = out 0x71 value ∷ out 0x70 select ∷ t

module _ (s : Ports) (d : RtcDriver) (has_control : port_of s d.control_port ≡ some 0x70)
    (has_data : port_of s d.data_port ≡ some 0x71) where
  -- A read, and then a write to the same register, as the clock sees them.
  modified :
      (reg : ℕ) (change : ℕ → ℕ) (b : Bus)
      → (let (v, b') = read_cmos_register s (some d) reg b in
          write_cmos_register s (some d) reg (change v) b')
        ≡ record b {
          reads = b.reads + 1;
          trace =
              written
                (reg_select d reg)
                (change (next_byte b))
                (inp 0x71 (next_byte b) ∷ out 0x70 (reg_select d reg) ∷ b.trace);
        }
  unfolding read_cmos_register write_cmos_register
  modified reg change b = rw (read_cmos_register, write_cmos_register, has_control, has_data) refl

  -- The registers behind it: the one has its new value, the others are as before.
  register_modified :
      (reg : ℕ) (change : ℕ → ℕ) (b b' : Bus) (c : Cmos) (q v : ℕ)
      → reg_select d reg % 128 ≡ reg
      → b' ≡ record b {
        reads = b.reads + 1;
        trace =
            written
              (reg_select d reg)
              (change (next_byte b))
              (inp 0x71 (next_byte b) ∷ out 0x70 (reg_select d reg) ∷ b.trace);
      }
      → change (next_byte b) ≡ v
      → ((cmos_after b'.trace c).register q
          ≡ (if q == reg then v else (cmos_after b.trace c).register q))
        × (b'.reply ≡ b.reply)
        × (b'.reads ≡ b.reads + 1)
  unfolding cmos_after
  register_modified reg change b b' c q v select e same = rw e (rw (select, same) refl, refl, refl)

  select_a : reg_select d 0x0A % 128 ≡ 0x0A
  select_a = elim (Bool-cases d.nmi_enabled) [ inl on ↦ rw on refl | inr off ↦ rw off refl ]

  select_b : reg_select d 0x0B % 128 ≡ 0x0B
  select_b = elim (Bool-cases d.nmi_enabled) [ inl on ↦ rw on refl | inr off ↦ rw off refl ]

  byte : (b : Bus) → next_byte b < 256
  byte b = omega arith

  -- A driver that holds its ports sets bits 1 and 2 of register B, for 24-hour binary time, with
  -- one read, and changes no other bit of it and no other register.
  pub set_data_format_lem :
      (b : Bus) (c : Cmos) (q : ℕ)
      → ((cmos_after (set_data_format s (some d) b).trace c).register q ≡ (
          if q == 0x0B
          then with_bit (with_bit (next_byte b) 1) 2
          else (cmos_after b.trace c).register q))
        × ((set_data_format s (some d) b).reply ≡ b.reply)
        × ((set_data_format s (some d) b).reads ≡ b.reads + 1)
  unfolding set_data_format
  set_data_format_lem b c q =
      register_modified 0x0B (λ v. bit_or v (bit_or (2 ^ 1) (2 ^ 2))) b
        (set_data_format s (some d) b) c q _ select_b
        (modified 0x0B (λ v. bit_or v (bit_or (2 ^ 1) (2 ^ 2))) b)
        (computed_lem (next_byte b) (byte b)).3

  pub set_rate_lem :
      (b : Bus) (c : Cmos) (q : ℕ)
      → ((cmos_after (set_rate s (some d) b).trace c).register q
          ≡ (if q == 0x0A then at_rate_8 (next_byte b) else (cmos_after b.trace c).register q))
        × ((set_rate s (some d) b).reply ≡ b.reply)
        × ((set_rate s (some d) b).reads ≡ b.reads + 1)
  unfolding set_rate
  set_rate_lem b c q =
      register_modified 0x0A (λ v. bit_or (bit_and v 0xF0) 0x08) b (set_rate s (some d) b) c q _
        select_a (modified 0x0A (λ v. bit_or (bit_and v 0xF0) 0x08) b)
        (computed_lem (next_byte b) (byte b)).0

  pub set_periodic_lem :
      (b : Bus) (c : Cmos) (q : ℕ)
      → ((cmos_after (set_periodic s (some d) b).trace c).register q
          ≡ (if q == 0x0B then with_bit (next_byte b) 6 else (cmos_after b.trace c).register q))
        × ((set_periodic s (some d) b).reply ≡ b.reply)
        × ((set_periodic s (some d) b).reads ≡ b.reads + 1)
  unfolding set_periodic
  set_periodic_lem b c q =
      register_modified 0x0B (λ v. bit_or v 0x40) b (set_periodic s (some d) b) c q _ select_b
        (modified 0x0B (λ v. bit_or v 0x40) b) (computed_lem (next_byte b) (byte b)).1

  pub clear_periodic_lem :
      (b : Bus) (c : Cmos) (q : ℕ)
      → ((cmos_after (clear_periodic s (some d) b).trace c).register q
          ≡ (if q == 0x0B then less_bit (next_byte b) 6 else (cmos_after b.trace c).register q))
        × ((clear_periodic s (some d) b).reply ≡ b.reply)
        × ((clear_periodic s (some d) b).reads ≡ b.reads + 1)
  unfolding clear_periodic
  clear_periodic_lem b c q =
      register_modified 0x0B (λ v. bit_and v (not32 0x40) % 2 ^ 8) b (clear_periodic s (some d) b) c
        q _ select_b (modified 0x0B (λ v. bit_and v (not32 0x40) % 2 ^ 8) b)
        (computed_lem (next_byte b) (byte b)).2
