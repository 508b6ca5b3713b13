-- ===== src/Output/Uart.antt =====
-- The serial controller as the writes of init_serial in src/io.c leave it.
use shogun_os.Base.{
  ℕ, ◌/◌, ◌%◌, ◌^◌, ◌≡◌, ◌⊎◌, inl, inr, refl, ap, true, false, none, List, [], ◌∷◌, ◌==◌,
  if◌then◌else◌, ◌||◌,
}
use shogun_os.Io.{Access, inp, out, Bus}
use shogun_os.PortManager.{Ports, HandlePtr, null, request_port, is_port_in_use, max_tracked_ports}
use shogun_os.PortManager.Scan.{used}
use shogun_os.PortManager.Inv.{IsValid}
use shogun_os.PortManager.Contract.{request_port_lem}
use shogun_os.Idt.Pic.{port_of}
use shogun_os.Rtc.Pair.{Holds-port_of}
use shogun_os.Output.{program_serial, init_serial}

-- The registers of the controller on COM1: while bit 7 of the line control is set, the first two
-- ports are the divisor's bytes.
pub record Uart : Type 0 where
  pub divisor_low : ℕ
  pub divisor_high : ℕ
  pub interrupts : ℕ
  pub fifo : ℕ
  pub line : ℕ
  pub modem : ℕ
  -- The bytes sent, the newest first.
  pub sent : List ℕ

-- The trace has the newest access first.
unfoldable pub uart_after : List Access → Uart → Uart
uart_after [] u = u
uart_after (inp port value ∷ t) u = uart_after t u
uart_after (out port value ∷ t) u =
    let before = uart_after t u in
    let latched = (before.line / 2 ^ 7) % 2 == 1 in
    if port == 0x3F8
    then if latched
      then record before { divisor_low = value }
      else record before { sent = value ∷ before.sent }
    else if port == 0x3F9
    then if latched
      then record before { divisor_high = value }
      else record before { interrupts = value }
    else if port == 0x3FA
    then record before { fifo = value }
    else if port == 0x3FB
    then record before { line = value }
    else if port == 0x3FC
    then record before { modem = value }
    else before

-- 38400 baud, eight data bits and one stop bit, the queues on, the lines to the modem raised; the
-- test byte went out.
abbrev pub IsProgrammed : (before after : Uart) → Type 0
IsProgrammed before after =
    (after.divisor_low ≡ 0x03)
    × (after.divisor_high ≡ 0x00)
    × (after.interrupts ≡ 0x00)
    × (after.line ≡ 0x03)
    × (after.fifo ≡ 0xC7)
    × (after.modem ≡ 0x0F)
    × (after.sent ≡ 0xAE ∷ before.sent)

program_serial_lem :
    (b : Bus) (u : Uart)
    → (uart_after b.trace u).line / 2 ^ 7 % 2 ≡ 0
    → IsProgrammed (uart_after b.trace u) (uart_after (program_serial 0x3F8 b).trace u)
unfolding program_serial uart_after
program_serial_lem b u unlatched = rw unlatched (refl, refl, refl, refl, refl, refl, refl)

null_port : (s : Ports) (h : HandlePtr) → h ≡ null → port_of s h ≡ none
unfolding port_of
null_port s h e = ap (port_of s) e

-- The port was free, is in use now, and the controller is programmed.
pub record Prepared (s : Ports) (b : Bus) (u : Uart) (res : Ports × Bus) : Type 0 where
  pub idle : is_port_in_use s 0x3F8 ≡ false
  pub taken : (q : ℕ) → is_port_in_use res.0 q ≡ ((0x3F8 == q) || is_port_in_use s q)
  pub programmed : IsProgrammed (uart_after b.trace u) (uart_after res.1.trace u)

-- The port is in use or the registry is full; nothing was written and no port changed hands.
pub record Unavailable (s : Ports) (b : Bus) (res : Ports × Bus) : Type 0 where
  pub reason : (is_port_in_use s 0x3F8 ≡ true) ⊎ (used s.registry ≡ max_tracked_ports)
  pub kept : (q : ℕ) → is_port_in_use res.0 q ≡ is_port_in_use s q
  pub silent : res.1 ≡ b

-- In a valid registry and with the divisor latch closed, `init_serial` either takes the port of
-- COM1, which was free, and leaves the line at 38400 baud with eight data bits, its interrupts off
-- and its queues on; or, when the port is in use or no handle is free, it does nothing.
pub init_serial_lem :
    (s : Ports) (b : Bus) (u : Uart)
    → IsValid s
    → (uart_after b.trace u).line / 2 ^ 7 % 2 ≡ 0
    → Prepared s b u (init_serial s b) ⊎ Unavailable s b (init_serial s b)
unfolding init_serial
init_serial_lem s b u valid unlatched = elim (request_port_lem 0x3F8 valid) [
  | inl (idle, g) ↦
      let there = Holds-port_of (request_port s 0x3F8).1 (request_port s 0x3F8).0 0x3F8 g.0 in
      inl record {
        idle = idle;
        taken = λ q. rw (init_serial, there) (g.1 q);
        programmed = rw (init_serial, there) (program_serial_lem b u unlatched);
      }
  | inr (nothing, kept, why) ↦
      let absent = null_port (request_port s 0x3F8).1 (request_port s 0x3F8).0 nothing in
      inr record {
        reason = why;
        kept = λ q. rw (init_serial, absent) (kept q);
        silent = rw (init_serial, absent) refl;
      }
]
