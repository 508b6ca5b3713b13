-- ===== src/Rtc/Acquire.antt =====
-- How the driver of src/rtc.c gets its two ports, and what it leaves behind when it cannot; and how
-- the acknowledgement of an interrupt without a driver gets them.
use shogun_os.Base.{
  ℕ, ◌+◌, ◌≡◌, refl, ◌⊎◌, inl, inr, Bool, true, false, ◌||◌, Option, none, some, ◌==◌, ◌∷◌,
  Bool-cases,
}
use shogun_os.Io.{Bus, inp, out, next_byte, read_port_b, write_port_b}
use shogun_os.PortManager.{Ports, is_port_in_use}
use shogun_os.PortManager.Inv.{IsValid}
use shogun_os.PortManager.Contract.{Holds}
use shogun_os.Rtc.{RtcDriver, set_data_format, acquire_rtc, acknowledge_rtc_interrupt}
use shogun_os.Rtc.Pair.{
  control, datum, with_both, Holds-port_of, Blocked, SamePorts, NoControl, NoDatum, BothHeld,
  control_first, datum_first, both_requested,
}

-- The handles of a driver hold the two ports of the clock.
pub record Owns (s : Ports) (d : RtcDriver) : Type 0 where
  pub control : Holds s d.control_port 0x70
  pub data_port : Holds s d.data_port 0x71

-- The driver has both ports, which were idle; no other port changed hands, and the data format is set.
pub record Acquired (s : Ports) (b : Bus) (res : Option RtcDriver × Ports × Bus) : Type 0 where
  pub driver : RtcDriver
  pub returns : res.0 ≡ some driver
  pub valid : IsValid res.1
  pub owns : Owns res.1 driver
  pub taken : (q : ℕ) → is_port_in_use res.1 q ≡ ((0x70 == q) || (0x71 == q) || is_port_in_use s q)
  pub idle : (is_port_in_use s 0x70 ≡ false) × (is_port_in_use s 0x71 ≡ false)
  pub formatted : res.2 ≡ set_data_format res.1 (some driver) b

-- There is no driver, there is a reason, no port changed hands, and the devices were left alone.
pub record Declined (memory : Bool) (s : Ports) (b : Bus) (res : Option RtcDriver × Ports × Bus)
    : Type 0 where
  pub returns : res.0 ≡ none
  pub reason : (memory ≡ false) ⊎ Blocked s
  pub same : SamePorts s res.1
  pub silent : res.2 ≡ b

module _ (s : Ports) (memory : Bool) (b : Bus) where
  without_control : NoControl s → Declined memory s b (acquire_rtc memory s b)
  unfolding acquire_rtc
  without_control n =
      rw (acquire_rtc, n.absent)
        record { returns = refl; reason = inr n.reason; same = n.same; silent = refl }

  without_datum : NoDatum s → Declined memory s b (acquire_rtc memory s b)
  unfolding acquire_rtc
  without_datum n =
      rw (acquire_rtc, n.there, n.absent)
        record { returns = refl; reason = inr n.reason; same = n.same; silent = refl }

  without_memory : BothHeld s → memory ≡ false → Declined memory s b (acquire_rtc memory s b)
  unfolding acquire_rtc
  without_memory h m =
      let same = control_first h in
      let there = h.there in
      let there' = h.there' in
      record {
        returns = rw (acquire_rtc, there, there', m) refl;
        reason = inl m;
        same = rw (acquire_rtc, there, there', m) same;
        silent = rw (acquire_rtc, there, there', m) refl;
      }

  with_driver : BothHeld s → memory ≡ true → Acquired s b (acquire_rtc memory s b)
  unfolding acquire_rtc
  with_driver h m =
      let there = h.there in
      let there' = h.there' in
      record {
        driver = record { control_port = control s; data_port = datum s; nmi_enabled = true };
        returns = rw (acquire_rtc, there, there', m) refl;
        valid = rw (acquire_rtc, there, there', m) h.valid;
        owns =
            rw (acquire_rtc, there, there', m) record { control = h.holds; data_port = h.holds' };
        taken = rw (acquire_rtc, there, there', m) h.taken;
        idle = (h.idle, h.idle');
        formatted = rw (acquire_rtc, there, there', m) refl;
      }

  -- In a valid registry there is a driver that owns the two ports, or a reason why there is none.
  pub acquire_rtc_lem :
      IsValid s
      → Acquired s b (acquire_rtc memory s b) ⊎ Declined memory s b (acquire_rtc memory s b)
  acquire_rtc_lem valid = elim (both_requested s valid) [
    | inl n ↦ inr (without_control n)
    | inr (inl n) ↦ inr (without_datum n)
    | inr (inr h) ↦ elim (Bool-cases memory) [
      | inl m ↦ inl (with_driver h m)
      | inr m ↦ inr (without_memory h m)
    ]
  ]

-- Register C was selected and read through the two ports, which were idle.
pub record Acknowledged (s : Ports) (b : Bus) (res : Ports × Bus) : Type 0 where
  pub idle : (is_port_in_use s 0x70 ≡ false) × (is_port_in_use s 0x71 ≡ false)
  pub same : SamePorts s res.0
  pub read :
      res.1
      ≡ record b { reads = b.reads + 1; trace = inp 0x71 (next_byte b) ∷ out 0x70 0x0C ∷ b.trace }

-- The clock was left alone.
pub record Unacknowledged (s : Ports) (b : Bus) (res : Ports × Bus) : Type 0 where
  pub reason : Blocked s
  pub same : SamePorts s res.0
  pub silent : res.1 ≡ b

acknowledged : (s : Ports) (b : Bus) → BothHeld s → Acknowledged s b (acknowledge_rtc_interrupt s b)
unfolding acknowledge_rtc_interrupt read_port_b write_port_b
acknowledged s b h =
    let same = datum_first h in
    let there = h.there in
    let there' = h.there' in
    let at = Holds-port_of (with_both s) (control s) 0x70 h.holds in
    let at' = Holds-port_of (with_both s) (datum s) 0x71 h.holds' in
    record {
      idle = (h.idle, h.idle');
      same = rw (acknowledge_rtc_interrupt, there, there') same;
      read = rw (acknowledge_rtc_interrupt, there, there', at, at') refl;
    }

-- In a valid registry, `acknowledge_rtc_interrupt` reads register C, and so lets the clock raise its
-- next interrupt, only when it can get both ports; when one of them is in use, as it is while a driver
-- has them, it does nothing. In both cases exactly the ports are in use that were before.
pub acknowledge_rtc_interrupt_lem :
    (s : Ports) (b : Bus)
    → IsValid s
    → Acknowledged s b (acknowledge_rtc_interrupt s b)
      ⊎ Unacknowledged s b (acknowledge_rtc_interrupt s b)
unfolding acknowledge_rtc_interrupt
acknowledge_rtc_interrupt_lem s b valid = elim (both_requested s valid) [
  | inl n ↦ inr (
      rw (acknowledge_rtc_interrupt, n.absent)
        record { reason = n.reason; same = n.same; silent = refl })
  | inr (inl n) ↦ inr (
      rw (acknowledge_rtc_interrupt, n.there, n.absent)
        record { reason = n.reason; same = n.same; silent = refl })
  | inr (inr h) ↦ inl (acknowledged s b h)
]
