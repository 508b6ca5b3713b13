-- ===== src/Kernel/Tick.antt =====
-- One interrupt of the clock, from its registration to the acknowledgement, in src/kernel.c.
use shogun_os.Base.{
  ℕ, ◌+◌, ◌%◌, ◌≡◌, refl, ap, sym, ◌∙◌, ◌++◌, some, List, [], ◌∷◌, ◌==◌, if◌then◌else◌, Bool-cases,
  inl, inr, add32, arith,
}
use mathlib.Core.Path.{subst}
use shogun_os.Io.{Access, inp, out, Bus, next_byte, read_port_b, write_port_b}
use shogun_os.Io.Serial.{sent, on_the_line, ReadyWithin, Printed, Printed_none}
use shogun_os.PortManager.{Ports}
use shogun_os.Terminal.{write_string}
use shogun_os.Terminal.Cursor.{IsValid}
use shogun_os.Output.{Screen}
use shogun_os.Output.Console.{output_string_lem, output_string-Printed}
use shogun_os.Wake.{
  Clock, WakeUpList, IsCounted, due, waiting, run_all, monotonic_time_get_ticks_global,
  monotonic_time_increment_global, wake_up_list_check_and_execute,
  wake_up_list_check_and_execute_lem,
}
use shogun_os.Idt.Registry.{Registry, handler_of}
use shogun_os.Idt.Pic.{
  Machine, Handler, run_handler, pic_send_eoi, generic_interrupt_handler_no_error_code,
}
use shogun_os.Idt.Chip.{standard_pic, acknowledgements, pic_send_eoi_lem, dispatch_lem}
use shogun_os.Rtc.{RtcDriver, clear_rtc_interrupt, read_cmos_register, reg_select}
use shogun_os.Rtc.Acquire.{Owns}
use shogun_os.Rtc.Pair.{Holds-port_of}
use shogun_os.Kernel.{Kernel, quiet_clock, print_second, rtc_interrupt_handler}

-- The bus behind the read of register C.
abbrev pub c_read : (select : ℕ) → Bus → Bus
c_read select b = record b {
  reads = b.reads + 1;
  trace = inp 0x71 (next_byte b) ∷ out 0x70 select ∷ b.trace;
}

quiet_clock_lem :
    (s : Ports) (d : RtcDriver) (b : Bus)
    → Owns s d
    → quiet_clock s (some d) b ≡ (s, c_read (reg_select d 0x0C) b)
unfolding quiet_clock clear_rtc_interrupt read_cmos_register read_port_b write_port_b
quiet_clock_lem s d b owns =
    let at = Holds-port_of s d.control_port 0x70 owns.control in
    let at' = Holds-port_of s d.data_port 0x71 owns.data_port in
    rw (quiet_clock, clear_rtc_interrupt, read_cmos_register, at, at') refl

-- What is printed at a tick.
abbrev pub second_mark : ℕ → List ℕ
second_mark tick = if tick % 256 == 0 then b'.' ∷ [] else []

print_second_lem :
    (polls tick : ℕ) (s : Screen)
    → IsValid s.terminal
    → ReadyWithin polls s.bus
    → (s' : Screen) × (print_second polls tick s ≡ some s')
      × (s'.terminal ≡ write_string (second_mark tick) s.terminal)
      × IsValid s'.terminal
      × (sent s'.bus.trace ≡ on_the_line (second_mark tick) (sent s.bus.trace))
      × Printed s.bus.trace s'.bus.trace
unfolding print_second write_string on_the_line
print_second_lem polls tick s ok ready = elim (Bool-cases (tick % 256 == 0)) [
  | inl whole ↦
      let (s', runs, shown, valid, text) = output_string_lem polls (b'.' ∷ []) s ok ready in
      rw whole (s', runs, shown, valid, text, output_string-Printed polls (b'.' ∷ []) s s' runs)
  | inr within ↦ rw within (s, refl, refl, ok, refl, Printed_none s.bus.trace)
]

-- The accesses behind `before` and before the acknowledgement: register C of the clock is selected and
-- read, which lets the clock raise its next interrupt, and then only the mark goes over the line.
pub record Quiets (d : RtcDriver) (tick : ℕ) (before : Bus) (t : List Access) : Type 0 where
  pub cleared : Printed (c_read (reg_select d 0x0C) before).trace t
  pub text : sent t ≡ on_the_line (second_mark tick) (sent before.trace)

module _ {ℓ} {S : Type ℓ} where
  monotonic_time_increment_global_lem :
      (c : Clock S) (now : ℕ)
      → c.monotonic_time ≡ some now
      → monotonic_time_increment_global c ≡ record c { monotonic_time = some (add32 now 1) }
  unfolding monotonic_time_increment_global
  monotonic_time_increment_global_lem c now start = rw (monotonic_time_increment_global, start) refl

  -- The clock ticks once: the counters advance, and exactly the due entries of the wake-up list run and
  -- are removed.
  pub record Ticked (now : ℕ) (l : WakeUpList S) (before after : Kernel S) : Type ℓ where
    pub tick : after.system_tick_count ≡ add32 before.system_tick_count 1
    pub interrupts : after.rtc_interrupt_count ≡ add32 before.rtc_interrupt_count 1
    pub time : after.clock.monotonic_time ≡ some (add32 now 1)
    pub list : WakeUpList S
    pub there : after.clock.wake_up_list ≡ some list
    pub entries : list.entries ≡ waiting (add32 now 1) l.entries
    pub counted : IsCounted list
    pub tasks : after.tasks ≡ run_all (due (add32 now 1) l.entries) before.tasks
    pub terminal :
        after.terminal
        ≡ write_string (second_mark (add32 before.system_tick_count 1)) before.terminal
    pub valid : IsValid after.terminal
    pub ports : after.ports ≡ before.ports
    pub driver : after.system_rtc_instance ≡ before.system_rtc_instance

  -- What the handler needs: a driver that owns the clock's ports, a tick counter, a wake-up list with
  -- a true count, a terminal, and a serial line that becomes ready within `polls` polls.
  pub record CanTick (polls now : ℕ) (l : WakeUpList S) (d : RtcDriver) (m : Machine (Kernel S))
      : Type ℓ where
    pub instance_there : m.rest.system_rtc_instance ≡ some d
    pub owns : Owns m.rest.ports d
    pub time : m.rest.clock.monotonic_time ≡ some now
    pub there : m.rest.clock.wake_up_list ≡ some l
    pub counted : IsCounted l
    pub terminal : IsValid m.rest.terminal
    pub ready : ReadyWithin polls m.bus

  rtc_interrupt_handler_lem :
      (polls now : ℕ) (l : WakeUpList S) (d : RtcDriver) (m : Machine (Kernel S))
      → CanTick polls now l d m
      → (m' : Machine (Kernel S)) × (t : List Access) × (rtc_interrupt_handler polls standard_pic m
          ≡ some m')
        × Ticked now l m.rest m'.rest
        × (m'.bus.trace ≡ acknowledgements 72 ++ t)
        × Quiets d (add32 m.rest.system_tick_count 1) m.bus t
  unfolding rtc_interrupt_handler monotonic_time_get_ticks_global sent
  rtc_interrupt_handler_lem polls now l d m can =
      let k = m.rest in
      let b1 = c_read (reg_select d 0x0C) m.bus in
      let tick = add32 k.system_tick_count 1 in
      let quiet =
        ap (λ o. quiet_clock k.ports o m.bus) can.instance_there
        ∙ quiet_clock_lem k.ports d m.bus can.owns in
      let clock = record k.clock { monotonic_time = some (add32 now 1) } in
      let (list, checks, entries, counted) =
        wake_up_list_check_and_execute_lem clock l k.tasks can.there can.counted in
      let woken =
        ap (λ c. wake_up_list_check_and_execute c k.tasks)
          (monotonic_time_increment_global_lem k.clock now can.time)
        ∙ checks in
      let (screen, prints, shown, valid, text, only) =
        print_second_lem polls tick (record { terminal = k.terminal; bus = b1 }) can.terminal
          can.ready in
      (
        record {
          bus = pic_send_eoi standard_pic 0x48 screen.bus;
          rest = record k {
            terminal = screen.terminal;
            clock = record clock { wake_up_list = some list };
            system_tick_count = tick;
            rtc_interrupt_count = add32 k.rtc_interrupt_count 1;
            tasks = run_all (due (add32 now 1) l.entries) k.tasks;
          };
        },
        screen.bus.trace,
        rw (rtc_interrupt_handler, quiet, prints, quiet, woken) refl,
        record {
          tick = refl;
          interrupts = refl;
          time = refl;
          list = list;
          there = refl;
          entries = entries;
          counted = counted;
          tasks = refl;
          terminal = shown;
          valid = valid;
          ports = refl;
          driver = refl;
        },
        pic_send_eoi_lem 72 screen.bus,
        record { cleared = only; text = text },
      )

  -- When the handler of the clock interrupt is registered at vector 72, a driver owns the clock's
  -- ports, the wake-up list's count is true, the terminal is valid and the serial line becomes ready
  -- in time, an interrupt at that vector returns: the three counters advance by one, exactly the due
  -- entries of the wake-up list run and are removed, register C of the clock is selected and read, a
  -- dot goes to screen and line at each 256th tick, and the interrupt is acknowledged to both
  -- controllers, twice. No other port is accessed.
  pub clock_interrupt :
      (r : Registry (Handler (Kernel S))) (polls now : ℕ) (l : WakeUpList S) (d : RtcDriver)
      (m : Machine (Kernel S))
      → handler_of r 72 ≡ some (rtc_interrupt_handler polls standard_pic)
      → CanTick polls now l d m
      → (m'' : Machine (Kernel S)) × (t : List Access) × (generic_interrupt_handler_no_error_code r
            standard_pic 72 m
          ≡ some m'')
        × Ticked now l m.rest m''.rest
        × (m''.bus.trace ≡ acknowledgements 72 ++ (acknowledgements 72 ++ t))
        × Quiets d (add32 m.rest.system_tick_count 1) m.bus t
  unfolding run_handler
  clock_interrupt r polls now l d m registered can =
      let (m', t, runs, ticked, acked, quiets) = rtc_interrupt_handler_lem polls now l d m can in
      let (m'', dispatched, kept, trace) =
        dispatch_lem r 72 m m' (omega arith) (ap (λ o. run_handler o m) registered ∙ runs) in
      (
        m'',
        t,
        dispatched,
        subst (λ k. Ticked now l m.rest k) (sym kept) ticked,
        trace ∙ ap (λ u. acknowledgements 72 ++ u) acked,
        quiets,
      )
