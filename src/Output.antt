-- ===== src/Output.antt =====
-- The console of src/terminal.c: what is printed goes to the screen and over the serial line. And
-- init_serial of src/io.c, which prepares the line.
pub mod Console
pub mod Uart
use shogun_os.Base.{ℕ, ◌+◌, Option, none, some, List}
use shogun_os.Io.{Bus, in_b, out_b}
use shogun_os.Io.Serial.{serial_com1, write_serial, write_serial_string}
use shogun_os.Terminal.{Terminal, terminal_put_char, write_string}
use shogun_os.PortManager.{Ports, HandlePtr, null, below, entry, request_port}
use shogun_os.Idt.Pic.{port_of}

-- What the two functions print to.
pub record Screen : Type 0 where
  pub terminal : Terminal
  pub bus : Bus

-- Each wait for the line has `polls` polls; `none` means that they ran out.
unfoldable pub output_char : (polls c : ℕ) → Screen → Option Screen
unfolding terminal_put_char write_serial
output_char polls c s = elim (write_serial polls c s.bus) [
  | none ↦ none
  | some b ↦ some (record { terminal = terminal_put_char c s.terminal; bus = b })
]

unfoldable pub output_string : (polls : ℕ) (str : List ℕ) → Screen → Option Screen
unfolding write_string write_serial_string
output_string polls str s = elim (write_serial_string polls str s.bus) [
  | none ↦ none
  | some b ↦ some (record { terminal = write_string str s.terminal; bus = b })
]

-- The writes of `init_serial`; the last read is compared with 0xAE, to no effect.
unfoldable pub program_serial : (port : ℕ) → Bus → Bus
unfolding in_b out_b
program_serial port b =
    let b1 = out_b (port + 3) 0x80 (out_b (port + 1) 0x00 b) in
    let b2 = out_b (port + 1) 0x00 (out_b (port + 0) 0x03 b1) in
    let b3 = out_b (port + 2) 0xC7 (out_b (port + 3) 0x03 b2) in
    let b4 = out_b (port + 0) 0xAE (out_b (port + 4) 0x1E (out_b (port + 4) 0x0B b3)) in
    out_b (port + 4) 0x0F (in_b (port + 0) b4).1

unfoldable pub init_serial : Ports → Bus → Ports × Bus
unfolding program_serial
init_serial s b =
    let (serial_handle, s') = request_port s serial_com1 in
    elim (port_of s' serial_handle) [ none ↦ (s', b) | some port ↦ (s', program_serial port b) ]

unfoldable pub init_output : Ports → Bus → Ports × Bus
unfolding init_serial
init_output s b = init_serial s b
