-- ===== src/Kernel.antt =====
-- src/kernel.c: the state that the handler of the clock interrupt works on, and the handler. `S` is
-- what the callbacks of the wake-up list work on.
pub mod Tick
pub mod Boot
pub mod SelfTest
pub mod Demo
use shogun_os.Base.{
  ℕ, ◌%◌, Bool, true, false, Option, none, some, List, [], ◌∷◌, ◌==◌, if◌then◌else◌, add32,
}
use shogun_os.Io.{Bus}
use shogun_os.PortManager.{Ports}
use shogun_os.Terminal.{Terminal}
use shogun_os.Output.{Screen, output_string}
use shogun_os.Wake.{Clock, monotonic_time_increment_global, wake_up_list_check_and_execute}
use shogun_os.Idt.Pic.{Pic, Machine, Handler, pic_send_eoi}
use shogun_os.Rtc.{RtcDriver, clear_rtc_interrupt, acknowledge_rtc_interrupt}

pub record Kernel {ℓ} (S : Type ℓ) : Type ℓ where
  pub ports : Ports
  pub terminal : Terminal
  pub clock : Clock S
  pub system_tick_count : ℕ
  pub rtc_interrupt_count : ℕ
  pub system_rtc_instance : Option RtcDriver
  pub tasks : S

-- `if (system_rtc_instance != NULL) clear_rtc_interrupt(...); else acknowledge_rtc_interrupt();`
unfoldable pub quiet_clock : Ports → Option RtcDriver → Bus → Ports × Bus
unfolding clear_rtc_interrupt acknowledge_rtc_interrupt
quiet_clock s none b = acknowledge_rtc_interrupt s b
quiet_clock s (some rtc) b = (s, clear_rtc_interrupt s (some rtc) b)

-- `if (system_tick_count % 256 == 0) output_string(".");`
unfoldable pub print_second : (polls tick : ℕ) → Screen → Option Screen
unfolding output_string
print_second polls tick s = if tick % 256 == 0 then output_string polls (b'.' ∷ []) s else some s

module _ {ℓ} {S : Type ℓ} where
  -- The handler; `none` when the serial line is not ready within `polls` polls.
  unfoldable pub rtc_interrupt_handler : (polls : ℕ) → Pic → Handler (Kernel S)
  rtc_interrupt_handler polls p m =
      let k = m.rest in
      let tick = add32 k.system_tick_count 1 in
      let (ports, bus) = quiet_clock k.ports k.system_rtc_instance m.bus in
      let (clock, tasks) =
        wake_up_list_check_and_execute (monotonic_time_increment_global k.clock) k.tasks in
      elim (print_second polls tick (record { terminal = k.terminal; bus = bus })) [
        | none ↦ none
        | some screen ↦ some (record {
          bus = pic_send_eoi p 0x48 screen.bus;
          rest = record k {
            ports = ports;
            terminal = screen.terminal;
            clock = clock;
            system_tick_count = tick;
            rtc_interrupt_count = add32 k.rtc_interrupt_count 1;
            tasks = tasks;
          };
        })
      ]
