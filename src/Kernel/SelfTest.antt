-- ===== src/Kernel/SelfTest.antt =====
-- src/kernel.c: the built-in tests of the clock. No interrupt comes during a test, and the accesses of
-- the printing to the serial line are not among those of the bus. `none` means that fuel ran out,
-- or that a counter overflowed.
pub mod Clock
pub mod Passing
pub mod Suite
pub mod Storage
use shogun_os.Base.{
  ℕ, ◌-◌, Bool, true, false, not, ◌&&◌, Option, none, some, List, [], ◌∷◌, leb, ltb, ◌==◌,
  if◌then◌else◌, is_some, codes,
}
use shogun_os.Io.{Bus}
use shogun_os.PortManager.{Ports, release_port}
use shogun_os.Memory.{Heap, malloc, free}
use shogun_os.Idt.Registry.{Registry}
use shogun_os.Idt.Pic.{Pic, Handler}
use shogun_os.Rtc.{
  RtcDriver, TimeData, CallResult, failed, returned, acquire_rtc, read_rtc_time, write_rtc_time,
}
use shogun_os.Rtc.Interrupts.{enable_rtc_interrupts, disable_rtc_interrupts}
use shogun_os.Rtc.Messages.{init_rtc_messages, enable_rtc_messages}
use shogun_os.Printing.{Print, string_out, decimal_out}
use shogun_os.Harness.{Harness, TestEntry, test_assert, run_tests}

-- What the tests work on.
pub record Bench (S : Type 0) : Type 0 where
  pub heap : Heap
  pub ports : Ports
  pub bus : Bus
  pub registry : Registry (Handler S)
  pub pic : Pic

-- A driver with the address that malloc gave for it.
pub record Opened : Type 0 where
  pub driver : RtcDriver
  pub address : ℕ

abbrev pub sizeof_rtc_driver : ℕ
sizeof_rtc_driver = 12

abbrev pub kernel_file : List ℕ
kernel_file = codes "src/kernel.c"

abbrev pub int_of : Bool → ℕ
int_of true = 1
int_of false = 0

-- `result != -1`
abbrev pub succeeded : CallResult → Bool
succeeded failed = false
succeeded (returned n) = true

-- The three variables behind the read.
abbrev pub seen : (stack : TimeData) → Option TimeData → TimeData
seen stack none = stack
seen stack (some time) = time

-- `put_u32(hours); output_string(":"); ...` behind a text.
abbrev pub time_lines : (before : List ℕ) → TimeData → List Print
time_lines before time =
    string_out before
    ∷ decimal_out time.hours
    ∷ string_out (codes ":")
    ∷ decimal_out time.minutes
    ∷ string_out (codes ":")
    ∷ decimal_out time.seconds
    ∷ string_out (codes "\n")
    ∷ []

-- `hours <= 23 && minutes <= 59 && seconds <= 59`
abbrev pub in_range : TimeData → Bool
in_range time = (leb time.hours 23 && leb time.minutes 59) && leb time.seconds 59

-- `(hours > 0) ? hours - 1 : 23`
abbrev pub new_hour : TimeData → ℕ
new_hour time = if ltb 0 time.hours then time.hours - 1 else 23

module _ {M : Type 0} where
  abbrev pub print_all : List Print → Harness M → Harness M
  print_all [] h = h
  print_all (p ∷ ps) h = print_all ps (record h { prints = p ∷ h.prints })

  abbrev pub assert : Bool → (message : List ℕ) → (line : ℕ) → Harness M → Harness M
  assert condition message line h = test_assert (int_of condition) message kernel_file line h

  abbrev pub with_machine : M → Harness M → Harness M
  with_machine m h = record h { machine = m }

module _ {S : Type 0} where
  -- A call of `init_rtc`, with its call of malloc.
  unfoldable pub open_rtc :
      (fuel : ℕ) → Harness (Bench S) → Option (Option Opened × Harness (Bench S))
  open_rtc fuel h = elim (malloc fuel h.machine.heap sizeof_rtc_driver) [
    | none ↦ none
    | some (address, heap) ↦
        let memory = not (address == 0) in
        let (rtc, ports, bus) = acquire_rtc memory h.machine.ports h.machine.bus in
        let said = print_all (init_rtc_messages memory h.machine.ports) h in
        elim rtc [
          | none ↦ some (none, with_machine (record h.machine { ports = ports; bus = bus }) said)
          | some d ↦ some (
            some (record { driver = d; address = address }),
            with_machine (record h.machine { heap = heap; ports = ports; bus = bus }) said,
          )
        ]
  ]

  -- `release_port(rtc->control_port); release_port(rtc->data_port); free(rtc);`
  unfoldable pub close_rtc : (fuel : ℕ) → Opened → Harness (Bench S) → Option (Harness (Bench S))
  close_rtc fuel o h =
      let m = h.machine in
      elim (free fuel m.heap o.address) [
        | none ↦ none
        | some heap ↦ some (
            with_machine
              (record m {
                heap = heap;
                ports =
                    release_port (release_port m.ports o.driver.control_port) o.driver.data_port;
              })
              h)
      ]

  -- The part of the test that writes the time and reads it again.
  unfoldable pub write_and_verify :
      (rounds polls : ℕ)
      → RtcDriver
      → (verify_stack time : TimeData) → Harness (Bench S)
      → Option (Harness (Bench S))
  write_and_verify rounds polls d verify_stack time h =
      let m = h.machine in
      elim (write_rtc_time rounds polls m.ports (some d) time.seconds time.minutes (new_hour time)
        m.bus) [
          | none ↦ none
          | some (result, b1) ↦
              let h1 =
                print_all (string_out (codes "RTC time write completed\n") ∷ [])
                  (assert (succeeded result) (codes "Writing RTC time should succeed") 326 h) in
              elim (read_rtc_time rounds polls m.ports (some d) true verify_stack b1) [
                | none ↦ none
                | some (result', verify, b2) ↦ some (
                    with_machine (record m { bus = b2 })
                      (print_all
                        (time_lines (codes "RTC Time after write attempt: ")
                          (seen verify_stack verify))
                        (assert (succeeded result')
                          (codes "Reading RTC time after write should succeed") 331 h1)))
              ]
        ]

  -- What the test prints and asserts about the first read.
  abbrev pub behind_read : CallResult → TimeData → Bus → Harness (Bench S) → Harness (Bench S)
  behind_read result time b h =
      let h1 =
        print_all
          (string_out (codes "RTC initialized successfully, attempting to read time...\n") ∷ [])
          h in
      with_machine (record h.machine { bus = b })
        (print_all (time_lines (codes "RTC Time read: ") time)
          (assert (succeeded result) (codes "Reading RTC time should succeed") 312 h1))

  -- The part of the test between the two ends of the driver.
  unfoldable pub exercise_rtc :
      (rounds polls : ℕ)
      → RtcDriver
      → (stack verify_stack : TimeData) → Harness (Bench S)
      → Option (Harness (Bench S))
  exercise_rtc rounds polls d stack verify_stack h =
      let m = h.machine in
      elim (read_rtc_time rounds polls m.ports (some d) true stack m.bus) [
        | none ↦ none
        | some (result, read, b1) ↦
            let time = seen stack read in
            let h2 = behind_read result time b1 h in
            elim (in_range time) [
              | true ↦ write_and_verify rounds polls d verify_stack time h2
              | false ↦ some (
                  print_all
                    (string_out (codes "Warning: Invalid time data returned, skipping write test\n")
                      ∷ [])
                    h2)
            ]
      ]

  -- `stack` and `verify_stack` are what the variables for the time hold before they are written.
  unfoldable pub rtc_basic_init :
      (fuel rounds polls : ℕ)
      → (stack verify_stack : TimeData) → Harness (Bench S)
      → Option (Harness (Bench S))
  rtc_basic_init fuel rounds polls stack verify_stack h =
      elim (open_rtc fuel
        (print_all (string_out (codes "Attempting to initialize RTC...\n") ∷ []) h)) [
          | none ↦ none
          | some (rtc, h1) ↦
              let h2 = assert (is_some rtc) (codes "RTC initialization should succeed") 305 h1 in
              elim rtc [
                | none ↦ some (print_all (string_out (codes "RTC initialization failed\n") ∷ []) h2)
                | some o ↦ elim (exercise_rtc rounds polls o.driver stack verify_stack h2) [
                  | none ↦ none
                  | some h3 ↦ elim (close_rtc fuel o h3) [
                    | none ↦ none
                    | some h4 ↦
                        some (print_all (string_out (codes "RTC cleanup completed\n") ∷ []) h4)
                  ]
                ]
              ]
        ]

  -- The two changes of the registration.
  unfoldable pub register_and_unregister :
      RtcDriver → (handler : Handler S) → Harness (Bench S) → Harness (Bench S)
  register_and_unregister d handler h =
      let m = h.machine in
      let (enabled, r1, b1) =
        enable_rtc_interrupts m.registry m.pic m.ports (some d) (some handler) m.bus in
      let h1 =
        with_machine (record m { registry = r1; bus = b1 })
          (print_all (enable_rtc_messages enabled) h) in
      elim enabled [
        | true ↦
            let (_, r2, b2) = disable_rtc_interrupts r1 m.ports (some d) b1 in
            with_machine (record m { registry = r2; bus = b2 })
              (print_all
                (string_out (codes "RTC interrupts enabled successfully\n")
                  ∷ string_out (codes "RTC interrupt handler registered successfully\n")
                  ∷ [])
                h1)
        | false ↦
            assert false (codes "RTC interrupt registration should succeed") 368
              (print_all (string_out (codes "RTC interrupt enable failed\n") ∷ []) h1)
      ]

  unfoldable pub rtc_interrupt_registration :
      (fuel : ℕ) → (handler : Handler S) → Harness (Bench S) → Option (Harness (Bench S))
  rtc_interrupt_registration fuel handler h =
      elim (open_rtc fuel
        (print_all (string_out (codes "Testing RTC interrupt registration...\n") ∷ []) h)) [
          | none ↦ none
          | some (rtc, h1) ↦
              let h2 =
                assert (is_some rtc) (codes "RTC initialization should succeed for interrupt test")
                  356 h1 in
              elim rtc [
                | none ↦
                    some
                      (assert false (codes "RTC initialization failed for interrupt test") 375 h2)
                | some o ↦ close_rtc fuel o (register_and_unregister o.driver handler h2)
              ]
        ]

  unfoldable pub run_rtc_tests :
      (fuel rounds polls : ℕ)
      → (stack verify_stack : TimeData) → (handler : Handler S) → Harness (Bench S)
      → Option (Harness (Bench S))
  run_rtc_tests fuel rounds polls stack verify_stack handler h =
      run_tests
        (record {
          name = codes "rtc_basic_init";
          func = rtc_basic_init fuel rounds polls stack verify_stack;
        }
          ∷ record {
            name = codes "rtc_interrupt_registration";
            func = rtc_interrupt_registration fuel handler;
          }
          ∷ [])
        h
