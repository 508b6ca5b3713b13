-- ===== src/Tests/Machines.antt =====
-- The parts of the kernel together: its built-in tests, its demonstrations and its reports.
use shogun_os.Base.{
  ℕ, ◌+◌, ◌*◌, ◌≡◌, ◌⊎◌, refl, true, false, Option, none, some, List, [], ◌∷◌, ◌==◌, if◌then◌else◌,
  arith, replicate, length-replicate, length, codes,
}
use shogun_os.Io.{Bus, out}
use shogun_os.Io.Serial.{ReadyWithin}
use shogun_os.PortManager.{Ports, entry, static_ports, request_port}
use shogun_os.PortManager.Inv.{static-IsValid}
use shogun_os.Terminal.Cursor
use shogun_os.Output.{Screen}
use shogun_os.Printing.{string_out, hex_out}
use shogun_os.Memory.{Heap}
use shogun_os.Memory.Chain.{Seg}
use shogun_os.Memory.Report.{debug_print_free_list, lines, debug_print_free_list_lem}
use shogun_os.Idt.Gate.{IdtEntry, empty_gate}
use shogun_os.Idt.Table.{idt_init}
use shogun_os.Idt.Report.{print_idt_info, line_for, print_idt_info-idt_init}
use shogun_os.Idt.Registry as Handlers
use shogun_os.Idt.Registry.{Registry, vectors, no_handlers}
use shogun_os.Idt.Pic.{Machine, Handler, generic_interrupt_handler_no_error_code, port_of}
use shogun_os.Idt.Chip.{standard_pic}
use shogun_os.Rtc.{RtcDriver, TimeData, returned, write_rtc_time}
use shogun_os.Rtc.Polling.{busy_at, IsPeriodic}
use shogun_os.Rtc.Cmos.{Cmos, cmos_after}
use shogun_os.Rtc.Writing.{Shows, write_rtc_time_lem}
use shogun_os.Executor.{executor_init}
use shogun_os.Wake.{WakeUpList}
use shogun_os.Executor.Sleeper.{
  Flags, System, Event, clock_ticks, executor_polls, sleep_seconds_async, happen, happens,
}
use shogun_os.Executor.{waker_create}
use shogun_os.Executor.Sleeper.Timeline.{sleeper}
use shogun_os.Executor.Sleeper.Wakes.{IsIdle, given, sleep_seconds_async_lem}
use shogun_os.Harness.{Harness}
use shogun_os.Harness.Report.{Counts, verdict}
use shogun_os.Kernel.SelfTest.{Bench, run_rtc_tests}
use shogun_os.Kernel.SelfTest.Clock.{IsPrepared}
use shogun_os.Kernel.SelfTest.Suite.{LeftBy, run_rtc_tests_lem}
use shogun_os.Kernel.Demo.{Desk, Running, demonstrate_custom_handler, register_serial_handler}
use shogun_os.Kernel.Demo.Custom.{Demonstrated, demonstrate_custom_handler_lem}
use shogun_os.Kernel.Demo.SerialLine.{LetIn, register_serial_handler_lem}

-- A device that answers every read with 0x60: the line is ready, and no update is in progress.
abbrev calm_bus : Bus
calm_bus = record { reply = λ k. 0x60; reads = 0; trace = [] }

calm_bus-IsPeriodic : (len : ℕ) → IsPeriodic 1 len calm_bus.reply
unfolding busy_at
calm_bus-IsPeriodic len = record {
  ends = λ k. (0, omega arith, refl);
  calm = λ k j updating clear h. refl;
}

abbrev calm_screen : Screen
calm_screen = record {
  terminal = record {
    vga_buffer = replicate 2000 0;
    terminal_row = 0;
    terminal_column = 0;
    terminal_color = 7;
  };
  bus = calm_bus;
}

calm_screen-IsValid : Cursor.IsValid calm_screen.terminal
calm_screen-IsValid = record {
  size = length-replicate {A = ℕ} 2000 0;
  row = omega arith;
  column = omega arith;
}

calm_bus-ReadyWithin : ReadyWithin 1 calm_bus
calm_bus-ReadyWithin k = (0, omega arith, omega arith)

-- A heap of one free segment of 256 bytes at 0x1000.
abbrev small_heap : Heap
small_heap = record { word = λ a. if a == 0x1000 then 256 else 0; first_free = 0x1000 }

abbrev one_free : List Seg
one_free = (0x1000, 256) ∷ []

debug_print_free_list_lem_example :
    debug_print_free_list 2 small_heap
    ≡ some (
        if length one_free == 0
        then string_out (codes "Free list is empty\\n") ∷ []
        else lines one_free)
debug_print_free_list_lem_example =
    debug_print_free_list_lem 2 small_heap one_free (omega arith) (refl, omega arith, refl, refl)
      (omega arith, omega arith, omega arith, tt)

-- The gates of a kernel that handles two vectors.
abbrev two_gates : List (ℕ × ℕ)
two_gates = (13, 0x101000) ∷ (0x80, 0) ∷ []

abbrev blank_table : List IdtEntry
blank_table = replicate 256 empty_gate

print_idt_info-idt_init_example :
    print_idt_info
      (idt_init two_gates 0x2000 static_ports blank_table).idt
      (idt_init two_gates 0x2000 static_ports blank_table).idt_ptr
    ≡ string_out (codes "IDT Info:\n")
      ∷ string_out (codes "  Base: 0x")
      ∷ hex_out 0x2000
      ∷ string_out (codes "\n")
      ∷ string_out (codes "  Limit: 0x")
      ∷ hex_out 2047
      ∷ string_out (codes "\n")
      ∷ string_out (codes "  Number of entries: 256\n")
      ∷ line_for (codes "Interrupt 0x80") 0x80 two_gates
      ∷ line_for (codes "Divide by zero") 0 two_gates
      ∷ line_for (codes "General Protection Fault") 13 two_gates
      ∷ []
print_idt_info-idt_init_example =
    print_idt_info-idt_init two_gates 0x2000 static_ports blank_table
      (length-replicate {A = IdtEntry} 256 empty_gate) (omega arith, (omega arith, tt))
      (omega arith, (omega arith, tt)) (omega arith)

-- The two ports of the clock are taken by its driver.
abbrev taken_ports : Ports
taken_ports = (request_port (request_port static_ports 0x70).1 0x71).1

abbrev clock_driver : RtcDriver
clock_driver = record { control_port = entry 0; data_port = entry 1; nmi_enabled = true }

control_stands : port_of taken_ports clock_driver.control_port ≡ some 0x70
unfolding port_of request_port shogun_os.PortManager.taken shogun_os.PortManager.first_free
control_stands = refl

data_stands : port_of taken_ports clock_driver.data_port ≡ some 0x71
unfolding port_of request_port shogun_os.PortManager.taken shogun_os.PortManager.first_free
data_stands = refl

write_rtc_time_lem_example :
    (b' : Bus) × (write_rtc_time 2 1 taken_ports (some clock_driver) 30 15 22 calm_bus
      ≡ some (returned 0, b'))
    × (b'.reply ≡ calm_bus.reply)
    × ((c : Cmos)
        → Shows (record { seconds = 30; minutes = 15; hours = 22 }) (cmos_after b'.trace c))
write_rtc_time_lem_example =
    write_rtc_time_lem taken_ports clock_driver control_stands data_stands 1 30 15 22 calm_bus
      (calm_bus-IsPeriodic 0)

-- An idle system at tick 7.
abbrev no_entries : WakeUpList Flags
no_entries = record { entries = []; entry_count = 0 }

abbrev idle_system : System
idle_system = record {
  executor = executor_init;
  world = record {
    env = record { monotonic_time = some 7; wake_up_list = some no_entries };
    should_poll = false;
    freed = [];
  };
}

idle_system-IsIdle : IsIdle 7 idle_system
unfolding executor_init
idle_system-IsIdle = record {
  queue = refl;
  time = refl;
  list = no_entries;
  there = refl;
  counted = record { count = refl; room = omega arith };
  room = omega arith;
  awake = tt;
}

-- A round of the executor and a tick; and all ticks of a second but the last.
abbrev one_tick : List Event
one_tick = executor_polls ∷ clock_ticks ∷ []

abbrev most_ticks : List Event
most_ticks = replicate 255 clock_ticks

sleep_seconds_async_lem_example :
    (let asleep = sleep_seconds_async (given 0x100 0x200 0x300 none) 1 idle_system in
      let over = happens clock_ticks (happen most_ticks asleep) in
      ((happen one_tick asleep).executor.task_queue
        ≡ sleeper 0x300 0x100 (7 + 1 * 256) (waker_create none) ∷ [])
      × (over.world.should_poll ≡ true)
      × ((happens executor_polls over).executor.task_queue ≡ []))
sleep_seconds_async_lem_example =
    sleep_seconds_async_lem 0x100 0x200 0x300 none 7 1 idle_system one_tick most_ticks (omega arith)
      idle_system-IsIdle (omega arith) refl

-- The machine of the demonstrations.
abbrev blank_handlers : Registry (Handler (Desk ℕ))
blank_handlers = record { interrupt_handlers = no_handlers; handlers_initialized = false }

blank_handlers-IsValid : Handlers.IsValid blank_handlers
blank_handlers-IsValid = record {
  size = length-replicate {A = Option (Handler (Desk ℕ))} vectors none;
}

abbrev calm_machine : Machine (Desk ℕ)
calm_machine = record {
  bus = calm_bus;
  rest = record {
    custom_handler_called = 0;
    prints = [];
    world = record { env = 0; should_poll = false; freed = [] };
  };
}

abbrev running : Running ℕ
running = record { registry = blank_handlers; machine = calm_machine }

demonstrate_custom_handler_lem_example :
    (s' : Running ℕ) × (demonstrate_custom_handler standard_pic running ≡ some s')
    × Demonstrated running s'
demonstrate_custom_handler_lem_example =
    demonstrate_custom_handler_lem running blank_handlers-IsValid (omega arith)

register_serial_handler_lem_example :
    LetIn running (register_serial_handler standard_pic running)
    × (m'' : Machine (Desk ℕ)) × (generic_interrupt_handler_no_error_code
          (register_serial_handler standard_pic running).registry
          standard_pic
          68
          calm_machine
        ≡ some m'')
    × (m''.rest.world.should_poll ≡ true)
    × (m''.bus.trace ≡ out 0x20 0x20 ∷ calm_machine.bus.trace)
register_serial_handler_lem_example =
    register_serial_handler_lem running calm_machine blank_handlers-IsValid

-- The bench of the built-in tests.
abbrev unit_handlers : Registry (Handler ℕ)
unit_handlers = record { interrupt_handlers = no_handlers; handlers_initialized = true }

abbrev bench : Bench ℕ
bench = record {
  heap = small_heap;
  ports = static_ports;
  bus = calm_bus;
  registry = unit_handlers;
  pic = standard_pic;
}

bench-IsPrepared : IsPrepared 0x1000 256 1 bench
unfolding shogun_os.PortManager.is_port_in_use shogun_os.PortManager.Scan.used
    shogun_os.PortManager.taken
bench-IsPrepared = record {
  chain = (refl, omega arith, refl, refl);
  ports = static-IsValid;
  control_free = refl;
  data_free = refl;
  handles = omega arith;
  registry = record { size = length-replicate {A = Option (Handler ℕ)} vectors none };
  pic = refl;
  clock = calm_bus-IsPeriodic 3;
}

abbrev midnight : TimeData
midnight = record { seconds = 0; minutes = 0; hours = 0 }

abbrev harness : Harness (Bench ℕ)
harness = record { tests_passed = 9; tests_failed = 9; prints = []; machine = bench }

abbrev returns_at_once : Handler ℕ
returns_at_once m = some m

run_rtc_tests_lem_example :
    (k : ℕ) × (h' : Harness (Bench ℕ)) × (run_rtc_tests 2 2 1 midnight midnight returns_at_once
        harness
      ≡ some h')
    × ((k ≡ 3) ⊎ (k ≡ 5))
    × Counts h' k 0
    × (verdict h' ≡ string_out (codes "All tests passed!\n") ∷ [])
    × LeftBy 0x1000 256 harness.machine h'.machine
run_rtc_tests_lem_example =
    run_rtc_tests_lem 0x1000 256 1 midnight midnight returns_at_once harness bench-IsPrepared
      (omega arith) (omega arith)
