-- ===== src/Tests/Devices.antt =====
-- The devices: the serial line, the interrupt table and controllers, and the segment descriptors.
use shogun_os.PortManager.{static_ports}
use shogun_os.PortManager.Inv.{static-IsValid}
use shogun_os.Terminal.{write_string}
use shogun_os.Terminal.Cursor
use shogun_os.Output.{Screen, output_string, init_serial}
use shogun_os.Output.Console.{output_string_lem}
use shogun_os.Output.Uart.{Uart, uart_after, Prepared, Unavailable, init_serial_lem}
use shogun_os.Base.{
  ◌⊎◌, ℕ, ◌+◌, ◌/◌, ◌^◌, ◌<◌, ◌≡◌, false, Option, none, some, List, [], ◌∷◌, arith, replicate,
  length-replicate, length,
}
use shogun_os.Io.{Bus, out_b}
use shogun_os.Io.Serial.{sent, on_the_line, ReadyWithin}
use shogun_os.Idt.Gate.{IdtEntry, empty_gate}
use shogun_os.Idt.Registry.{Registry, vectors, no_handlers, IsValid, register_interrupt_handler}
use shogun_os.Idt.Pic.{Machine, Handler}
use shogun_os.Idt.Chip.{Chip, operating}
use shogun_os.Gdt.{create_descriptor, base_of, limit_of, flags_of, create_descriptor_lem}

-- A device that answers every read with 0x60.
abbrev idle_bus : Bus
idle_bus = record { reply = λ k. 0x60; reads = 0; trace = [] }

idle_bus-ReadyWithin : ReadyWithin 1 idle_bus
idle_bus-ReadyWithin k = (0, omega arith, omega arith)

abbrev blank_idt : List IdtEntry
blank_idt = replicate 256 empty_gate

blank_idt-length : 0x48 < length blank_idt
blank_idt-length = omega (arith, length-replicate {A = IdtEntry} 256 empty_gate)

-- The rest of the machine is a counter.
abbrev empty_registry : Registry (Handler ℕ)
empty_registry = record { interrupt_handlers = no_handlers; handlers_initialized = false }

empty_registry-IsValid : IsValid empty_registry
empty_registry-IsValid = record { size = length-replicate {A = Option (Handler ℕ)} vectors none }

-- A handler that counts, and writes a byte to a port.
abbrev acknowledging : Handler ℕ
acknowledging m = some (record { bus = out_b 0x70 0x0C m.bus; rest = m.rest + 1 })

abbrev idle_machine : Machine ℕ
idle_machine = record { bus = idle_bus; rest = 0 }

abbrev acknowledged_machine : Machine ℕ
acknowledged_machine = record { bus = out_b 0x70 0x0C idle_bus; rest = 1 }

abbrev fresh_chip : Chip
fresh_chip = record { phase = operating; base = 8; wiring = 0; mask = 0xFF }

abbrev rtc_registry : Registry (Handler ℕ)
rtc_registry = (register_interrupt_handler empty_registry 72 (some acknowledging)).1

create_descriptor_lem_example :
    (base_of (create_descriptor 0x12345678 0xFFFFF 0x9A 0xCF) ≡ 0x12345678)
    × (limit_of (create_descriptor 0x12345678 0xFFFFF 0x9A 0xCF) ≡ 0xFFFFF)
    × (flags_of (create_descriptor 0x12345678 0xFFFFF 0x9A 0xCF) ≡ 0xCF / 2 ^ 4)
    × ((create_descriptor 0x12345678 0xFFFFF 0x9A 0xCF).access_byte ≡ 0x9A)
create_descriptor_lem_example =
    create_descriptor_lem 0x12345678 0xFFFFF 0x9A 0xCF (omega arith) (omega arith) (omega arith)

abbrev blank_screen : Screen
blank_screen = record {
  terminal = record {
    vga_buffer = replicate 2000 0;
    terminal_row = 0;
    terminal_column = 0;
    terminal_color = 7;
  };
  bus = idle_bus;
}

blank_screen-IsValid : Cursor.IsValid blank_screen.terminal
blank_screen-IsValid = record {
  size = length-replicate {A = ℕ} 2000 0;
  row = omega arith;
  column = omega arith;
}

output_string_lem_example :
    (s' : Screen) × (output_string 1 (b'o' ∷ b'k' ∷ b'\n' ∷ []) blank_screen ≡ some s')
    × (s'.terminal ≡ write_string (b'o' ∷ b'k' ∷ b'\n' ∷ []) blank_screen.terminal)
    × Cursor.IsValid s'.terminal
    × (sent s'.bus.trace ≡ on_the_line (b'o' ∷ b'k' ∷ b'\n' ∷ []) (sent blank_screen.bus.trace))
output_string_lem_example =
    output_string_lem 1 (b'o' ∷ b'k' ∷ b'\n' ∷ []) blank_screen blank_screen-IsValid
      idle_bus-ReadyWithin

abbrev fresh_uart : Uart
fresh_uart = record {
  divisor_low = 12;
  divisor_high = 0;
  interrupts = 0;
  fifo = 0;
  line = 3;
  modem = 0;
  sent = [];
}

init_serial_lem_example :
    Prepared static_ports idle_bus fresh_uart (init_serial static_ports idle_bus)
    ⊎ Unavailable static_ports idle_bus (init_serial static_ports idle_bus)
unfolding uart_after
init_serial_lem_example =
    init_serial_lem static_ports idle_bus fresh_uart static-IsValid (omega arith)
