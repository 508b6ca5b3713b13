-- ===== src/Kernel/Boot.antt =====
-- The part of `kernel_main` in src/kernel.c that brings up the console's line, the interrupt table, the
-- controllers and the clock, in its order. What it prints is left out.
use shogun_os.Base.{
  ℕ, ◌≡◌, refl, ap₂, sym, ◌⊎◌, inl, inr, Bool, true, false, Option, none, some, List, [], ◌∷◌,
  arith,
}
use mathlib.Core.Path.{subst}
use shogun_os.Io.{Bus}
use shogun_os.PortManager.{
  Ports, static_ports, init_port_manager, request_port, is_port_in_use, max_tracked_ports,
}
use shogun_os.PortManager.Scan.{used}
use shogun_os.PortManager.Inv.{IsValid}
use shogun_os.PortManager.Reach.{Reached, boots, calls, requests, Reached-IsValid}
use shogun_os.Output.{init_output}
use shogun_os.Idt.Gate.{IdtEntry}
use shogun_os.Idt.Registry as Handlers
use shogun_os.Idt.Registry.{Registry, handler_of}
use shogun_os.Idt.Pic.{Pic, Handler, pic_init, pic_remap}
use shogun_os.Idt.Chip.{standard_pic}
use shogun_os.Idt.Table.{Loaded, idt_init}
use shogun_os.Rtc.{RtcDriver, acquire_rtc}
use shogun_os.Rtc.Interrupts.{enable_rtc_interrupts}
use shogun_os.Rtc.Pair.{Blocked, Holds-port_of}
use shogun_os.Rtc.Periodic.{enable_rtc_interrupts_lem}
use shogun_os.Rtc.Acquire.{Owns, Acquired, acquire_rtc_lem}

-- The ports, the table and the bus behind `pic_remap`.
pub record Booted : Type 0 where
  pub loaded : Loaded
  pub ports : Ports
  pub bus : Bus

unfoldable pub boot_devices :
    (gates : List (ℕ × ℕ)) → (address : ℕ) → List IdtEntry → Ports → Bus → Booted
boot_devices gates address idt s b =
    let (s1, b1) = init_output s b in
    let loaded = idt_init gates address s1 idt in
    let b2 = (pic_init loaded.pic b1).1 in
    let b3 = (pic_remap loaded.pic b2).1 in
    record { loaded = loaded; ports = init_port_manager loaded.ports; bus = b3 }

-- `system_rtc_instance = init_rtc();` and the enabling of its interrupts. The Boolean is false if they
-- were not enabled. The messages of a failure are not among the accesses of the bus.
unfoldable pub start_clock {ℓ} :
    {S : Type ℓ}
    → (memory : Bool) → Registry (Handler S)
    → Pic
    → Option (Handler S)
    → Ports
    → Bus
    → Bool × Option RtcDriver × Registry (Handler S) × Ports × Bus
unfolding acquire_rtc
start_clock memory r p handler s b =
    let (rtc, s', b') = acquire_rtc memory s b in
    elim rtc [
      | none ↦ (false, none, r, s', b')
      | some d ↦
          let (enabled, r', b'') = enable_rtc_interrupts r p s' (some d) handler b' in
          (enabled, some d, r', s', b'')
    ]

-- The registry with these ports in use, in this order.
abbrev after_requests : List ℕ → Ports → Ports
after_requests [] s = s
after_requests (port ∷ list) s = after_requests list (request_port s port).1

abbrev device_ports : List ℕ
device_ports = 0x3F8 ∷ 0x20 ∷ 0x21 ∷ 0xA0 ∷ 0xA1 ∷ []

-- The line COM1 and the two ports of each controller.
abbrev boot_ports : Ports
boot_ports = after_requests device_ports static_ports

reach : (list : List ℕ) (s : Ports) → Reached s → Reached (after_requests list s)
reach [] s r = r
reach (port ∷ list) s r = reach list (request_port s port).1 (calls r (requests port))

module _ (gates : List (ℕ × ℕ)) (address : ℕ) (idt : List IdtEntry) (b : Bus) where
  booted_ports : (boot_devices gates address idt static_ports b).ports ≡ boot_ports
  unfolding boot_devices init_output idt_init shogun_os.PortManager.taken
      shogun_os.PortManager.first_free request_port
  booted_ports = refl

  booted_pic : (boot_devices gates address idt static_ports b).loaded.pic ≡ standard_pic
  unfolding boot_devices init_output idt_init shogun_os.PortManager.taken
      shogun_os.PortManager.first_free request_port
  booted_pic = refl

boot_ports_free :
    (is_port_in_use boot_ports 0x70 ≡ false)
    × (is_port_in_use boot_ports 0x71 ≡ false)
    × (used boot_ports.registry ≡ 5)
unfolding request_port is_port_in_use used shogun_os.PortManager.taken
    shogun_os.PortManager.first_free
boot_ports_free = (refl, refl, refl)

-- With memory for it, the driver gets its ports from this registry.
acquires : (b : Bus) → Acquired boot_ports b (acquire_rtc true boot_ports b)
acquires b =
    elim (acquire_rtc_lem boot_ports true b
      (Reached-IsValid (reach device_ports static_ports boots))) [
        | inl a ↦ a
        | inr declined ↦ absurd (unblocked (declined.reason))
      ]
  where
    unblocked : (true ≡ false) ⊎ Blocked boot_ports → ⊥
    unblocked (inl no_memory) = ground arith
    unblocked (inr (inl busy)) = let free = boot_ports_free.0 in cc
    unblocked (inr (inr (inl busy))) = let free = boot_ports_free.1 in cc
    unblocked (inr (inr (inr full))) = omega (arith, boot_ports_free.2)

module _ {ℓ} {S : Type ℓ} where
  -- The clock is started: its handler is at vector 72, and the driver owns its ports.
  pub record Started (handler : Option (Handler S))
      (res : Bool × Option RtcDriver × Registry (Handler S) × Ports × Bus) : Type ℓ where
    pub driver : RtcDriver
    pub enabled : res.0 ≡ true
    pub instance_there : res.1 ≡ some driver
    pub registered : handler_of res.2 72 ≡ handler
    pub registry : Handlers.IsValid res.2
    pub owns : Owns res.3 driver
    pub ports : IsValid res.3

  starts :
      (r : Registry (Handler S)) (handler : Option (Handler S)) (b : Bus)
      → Handlers.IsValid r
      → Started handler (start_clock true r standard_pic handler boot_ports b)
  unfolding start_clock
  starts r handler b ok =
      let a = acquires b in
      let s' = (acquire_rtc true boot_ports b).1 in
      let b' = (acquire_rtc true boot_ports b).2 in
      let d = a.driver in
      let at = Holds-port_of s' d.control_port 0x70 a.owns.control in
      let at' = Holds-port_of s' d.data_port 0x71 a.owns.data_port in
      let (r', b'', runs, valid, handlers, _, _) =
        enable_rtc_interrupts_lem s' d at at' r handler b' (record { index = 0; register = λ q. 0 })
          ok in
      let there = a.returns in
      rw (start_clock, there, runs)
        record {
          driver = d;
          enabled = refl;
          instance_there = refl;
          registered = handlers 72;
          registry = valid;
          owns = a.owns;
          ports = a.valid;
        }

  -- From the zeroed registry of ports, whatever the devices answer and whatever gates are set, with
  -- memory for the driver and a valid registry of handlers: the devices come up with the standard
  -- handles, and starting the clock succeeds, with the handler at vector 72 and a driver that owns the
  -- ports 0x70 and 0x71.
  pub start_clock-boot_devices :
      (gates : List (ℕ × ℕ)) (address : ℕ) (idt : List IdtEntry) (b : Bus)
      (r : Registry (Handler S)) (handler : Option (Handler S))
      → Handlers.IsValid r
      → ((boot_devices gates address idt static_ports b).loaded.pic ≡ standard_pic)
        × Started handler (
            start_clock true r
              (boot_devices gates address idt static_ports b).loaded.pic
              handler
              (boot_devices gates address idt static_ports b).ports
              (boot_devices gates address idt static_ports b).bus)
  start_clock-boot_devices gates address idt b r handler ok =
      let bus = (boot_devices gates address idt static_ports b).bus in
      let pic = booted_pic gates address idt b in
      let ports = booted_ports gates address idt b in
      (
        pic,
        subst (λ (p, s). Started handler (start_clock true r p handler s bus))
            (ap₂ (λ p s. (p, s)) (sym pic) (sym ports)) (starts r handler bus ok),
      )
