-- ===== src/Tests/Clocks.antt =====
-- The clock: its driver, its interrupt, and the boot that starts it.
use shogun_os.Base.{
  ℕ, ◌+◌, ◌%◌, ◌≤◌, ◌≡◌, ◌⊎◌, refl, true, false, Option, none, some, List, [], ◌∷◌, ◌++◌, ◌==◌,
  if◌then◌else◌, arith, add32, replicate, length-replicate,
}
use shogun_os.Io.{Access, Bus}
use shogun_os.Io.Serial.{ReadyWithin}
use shogun_os.PortManager.{Ports, entry, static_ports, request_port}
use shogun_os.PortManager.Inv.{static-IsValid, IsValid}
use shogun_os.Terminal.{Terminal}
use shogun_os.Wake.{WakeUpList}
use shogun_os.Idt.Registry as Handlers
use shogun_os.Idt.Registry.{Registry, vectors, no_handlers, handler_of, register_interrupt_handler}
use shogun_os.Idt.Gate.{empty_gate}
use shogun_os.Idt.Pic.{Machine, Handler, port_of, generic_interrupt_handler_no_error_code}
use shogun_os.Idt.Chip.{standard_pic, acknowledgements}
use shogun_os.Rtc.{RtcDriver, returned, read_rtc_time, acknowledge_rtc_interrupt}
use shogun_os.Rtc.Polling.{busy_at, IsPeriodic}
use shogun_os.Rtc.Update.{between_polls, read_rtc_time_lem}
use shogun_os.Rtc.Acquire.{Owns, Acknowledged, Unacknowledged, acknowledge_rtc_interrupt_lem}
use shogun_os.Output.{Screen}
use shogun_os.Rtc.Cmos.{Cmos, cmos_after, at_rate_8, with_bit}
use shogun_os.Rtc.Interrupts.{enable_rtc_interrupts}
use shogun_os.Rtc.Periodic.{LetThrough, programmed, enable_rtc_interrupts_lem}
use shogun_os.Kernel.{Kernel, rtc_interrupt_handler}
use shogun_os.Kernel.Tick.{Ticked, CanTick, Quiets, clock_interrupt}
use shogun_os.Kernel.Boot.{boot_devices, start_clock, Started, start_clock-boot_devices}

-- A device that answers every read with 0x60: the line is ready, and no update is in progress.
abbrev quiet_bus : Bus
quiet_bus = record { reply = λ k. 0x60; reads = 0; trace = [] }

quiet_bus-IsPeriodic : IsPeriodic 1 3 quiet_bus.reply
unfolding busy_at
quiet_bus-IsPeriodic = record {
  ends = λ k. (0, omega arith, refl);
  calm = λ k j updating clear h. refl;
}

quiet_bus-ReadyWithin : ReadyWithin 1 quiet_bus
quiet_bus-ReadyWithin k = (0, omega arith, omega arith)

-- The two ports of the clock are taken.
abbrev held_ports : Ports
held_ports = (request_port (request_port static_ports 0x70).1 0x71).1

abbrev driver : RtcDriver
driver = record { control_port = entry 0; data_port = entry 1; nmi_enabled = true }

driver-Owns : Owns held_ports driver
unfolding request_port shogun_os.PortManager.taken shogun_os.PortManager.first_free
driver-Owns = record { control = (omega arith, refl, refl); data_port = (omega arith, refl, refl) }

control_port_held : port_of held_ports driver.control_port ≡ some 0x70
unfolding port_of request_port shogun_os.PortManager.taken shogun_os.PortManager.first_free
control_port_held = refl

data_port_held : port_of held_ports driver.data_port ≡ some 0x71
unfolding port_of request_port shogun_os.PortManager.taken shogun_os.PortManager.first_free
data_port_held = refl

read_rtc_time_lem_example :
    (at : ℕ) × (b' : Bus) × (read_rtc_time 2 1 held_ports
        (some driver)
        true
        (record { seconds = 0; minutes = 0; hours = 0 })
        quiet_bus
      ≡ some (
        returned 0,
        some (record {
          seconds = quiet_bus.reply (at + 1) % 256;
          minutes = quiet_bus.reply (at + 2) % 256;
          hours = quiet_bus.reply (at + 3) % 256;
        }),
        b',
      ))
    × (busy_at quiet_bus.reply at ≡ false)
    × (busy_at quiet_bus.reply (at + 4) ≡ false)
    × (quiet_bus.reads ≤ at)
    × ((t : List Access) × (b'.trace
          ≡ between_polls held_ports driver 0x70 0x71 control_port_held data_port_held
              quiet_bus.reply at t))
read_rtc_time_lem_example =
    read_rtc_time_lem held_ports driver 0x70 0x71 control_port_held data_port_held 1
      (record { seconds = 0; minutes = 0; hours = 0 }) quiet_bus quiet_bus-IsPeriodic

acknowledge_rtc_interrupt_lem_example :
    Acknowledged static_ports quiet_bus (acknowledge_rtc_interrupt static_ports quiet_bus)
    ⊎ Unacknowledged static_ports quiet_bus (acknowledge_rtc_interrupt static_ports quiet_bus)
acknowledge_rtc_interrupt_lem_example =
    acknowledge_rtc_interrupt_lem static_ports quiet_bus static-IsValid

abbrev empty_registry : Registry (Handler (Kernel ℕ))
empty_registry = record { interrupt_handlers = no_handlers; handlers_initialized = true }

empty_registry-IsValid : Handlers.IsValid empty_registry
empty_registry-IsValid = record {
  size = length-replicate {A = Option (Handler (Kernel ℕ))} vectors none;
}

abbrev on_tick : Handler (Kernel ℕ)
on_tick = rtc_interrupt_handler 1 standard_pic

abbrev fresh_cmos : Cmos
fresh_cmos = record { index = 0; register = λ reg. 0 }

enable_rtc_interrupts_lem_example :
    (r' : Registry (Handler (Kernel ℕ))) × (b' : Bus) × (enable_rtc_interrupts empty_registry
        standard_pic held_ports
        (some driver)
        (some on_tick)
        quiet_bus
      ≡ (true, r', b'))
    × Handlers.IsValid r'
    × ((v : ℕ) → handler_of r' v ≡ (if 72 == v then some on_tick else handler_of empty_registry v))
    × ((q : ℕ)
        → (cmos_after b'.trace fresh_cmos).register q ≡ (
            if q == 0x0B
            then with_bit (quiet_bus.reply (quiet_bus.reads + 1) % 256) 6
            else if q == 0x0A
            then at_rate_8 (quiet_bus.reply quiet_bus.reads % 256)
            else (cmos_after quiet_bus.trace fresh_cmos).register q))
    × LetThrough
        (programmed held_ports driver quiet_bus).trace
        b'.trace
        (quiet_bus.reply (quiet_bus.reads + 2) % 256)
        (quiet_bus.reply (quiet_bus.reads + 3) % 256)
enable_rtc_interrupts_lem_example =
    enable_rtc_interrupts_lem held_ports driver control_port_held data_port_held empty_registry
      (some on_tick) quiet_bus fresh_cmos empty_registry-IsValid

-- One entry is due at tick 5, and counts.
abbrev one_entry : WakeUpList ℕ
one_entry = record {
  entries = record { wake_up_tick = 5; callback = some (λ n. n + 10) } ∷ [];
  entry_count = 1;
}

abbrev screen : Terminal
screen = record {
  vga_buffer = replicate 2000 0;
  terminal_row = 0;
  terminal_column = 0;
  terminal_color = 7;
}

abbrev console : Screen
console = record { terminal = screen; bus = quiet_bus }

abbrev machine : Machine (Kernel ℕ)
machine = record {
  bus = quiet_bus;
  rest = record {
    ports = held_ports;
    terminal = screen;
    clock = record { monotonic_time = some 4; wake_up_list = some one_entry };
    system_tick_count = 255;
    rtc_interrupt_count = 255;
    system_rtc_instance = some driver;
    tasks = 0;
  };
}

machine-CanTick : CanTick 1 4 one_entry driver machine
machine-CanTick = record {
  instance_there = refl;
  owns = driver-Owns;
  time = refl;
  there = refl;
  counted = record { count = refl; room = omega arith };
  terminal = record {
    size = length-replicate {A = ℕ} 2000 0;
    row = omega arith;
    column = omega arith;
  };
  ready = quiet_bus-ReadyWithin;
}

abbrev ticking : Registry (Handler (Kernel ℕ))
ticking = (register_interrupt_handler empty_registry 72 (some on_tick)).1

ticking_registered : handler_of ticking 72 ≡ some on_tick
unfolding handler_of register_interrupt_handler
ticking_registered = refl

clock_interrupt_example :
    (m'' : Machine (Kernel ℕ)) × (t : List Access) × (generic_interrupt_handler_no_error_code
        ticking standard_pic 72 machine
      ≡ some m'')
    × Ticked 4 one_entry machine.rest m''.rest
    × (m''.bus.trace ≡ acknowledgements 72 ++ (acknowledgements 72 ++ t))
    × Quiets driver (add32 machine.rest.system_tick_count 1) machine.bus t
clock_interrupt_example =
    clock_interrupt ticking 1 4 one_entry driver machine ticking_registered machine-CanTick

start_clock-boot_devices_example :
    ((boot_devices [] 0x1000 (replicate 256 empty_gate) static_ports quiet_bus).loaded.pic
      ≡ standard_pic)
    × Started (some on_tick) (
        start_clock true empty_registry
          (boot_devices [] 0x1000 (replicate 256 empty_gate) static_ports quiet_bus).loaded.pic
          (some on_tick)
          (boot_devices [] 0x1000 (replicate 256 empty_gate) static_ports quiet_bus).ports
          (boot_devices [] 0x1000 (replicate 256 empty_gate) static_ports quiet_bus).bus)
start_clock-boot_devices_example =
    start_clock-boot_devices [] 0x1000 (replicate 256 empty_gate) quiet_bus empty_registry
      (some on_tick) empty_registry-IsValid
