-- ===== src/Rtc/Start.antt =====
-- `init_rtc` of src/rtc.c with its messages, which go to the screen and over the serial line.
use shogun_os.Base.{
  ℕ, ◌≡◌, ◌⊎◌, Bool, true, false, not, ◌||◌, Option, none, some, List, ◌==◌, if◌then◌else◌,
}
use shogun_os.Io.Serial.{sent, on_the_line, Printed}
use shogun_os.Terminal.{write_string}
use shogun_os.Terminal.Cursor.{IsValid}
use shogun_os.Output.{Screen, output_string}
use shogun_os.PortManager.{Ports, request_port, release_port, is_port_in_use}
use shogun_os.PortManager.Inv as Registry
use shogun_os.Rtc.{
  RtcDriver, cmos_control_port, cmos_data_port, set_data_format, is_null, acquire_rtc,
}
use shogun_os.Rtc.Pair.{Blocked, SamePorts}
use shogun_os.Rtc.Acquire.{Owns}
use shogun_os.Rtc.Messages.{no_control, no_datum, no_memory}

-- NULL behind a message, with this registry; `none` when the line is not ready in time.
abbrev pub refuse :
    (polls : ℕ) → (message : List ℕ) → Ports → Screen → Option (Option RtcDriver × Ports × Screen)
refuse polls message s screen = elim (output_string polls message screen) [
  | none ↦ none
  | some screen' ↦ some (none, s, screen')
]

unfoldable pub init_rtc :
    (polls : ℕ) → (memory : Bool) → Ports → Screen → Option (Option RtcDriver × Ports × Screen)
unfolding set_data_format
init_rtc polls memory s screen =
    let (control_port, s1) = request_port s cmos_control_port in
    if is_null control_port
    then refuse polls no_control s1 screen
    else (let (data_port, s2) = request_port s1 cmos_data_port in
        if is_null data_port
        then refuse polls no_datum (release_port s2 control_port) screen
        else if not memory
        then refuse polls no_memory (release_port (release_port s2 control_port) data_port) screen
        else (let rtc =
              some (record {
                control_port = control_port;
                data_port = data_port;
                nmi_enabled = true;
              }) in
            some (rtc, s2, record screen { bus = set_data_format s2 rtc screen.bus })))

-- Only this message was printed: it is on the screen and went over the line, and no other port was
-- accessed.
pub record Says (message : List ℕ) (before after : Screen) : Type 0 where
  pub shown : after.terminal ≡ write_string message before.terminal
  pub valid : IsValid after.terminal
  pub text : sent after.bus.trace ≡ on_the_line message (sent before.bus.trace)
  pub printed : Printed before.bus.trace after.bus.trace

-- The driver has both ports, which were idle; no other port changed hands, the data format is set, and
-- nothing is printed. `acquire_rtc` does the same.
pub record Opens (memory : Bool) (s : Ports) (screen : Screen)
    (res : Option (Option RtcDriver × Ports × Screen)) : Type 0 where
  pub driver : RtcDriver
  pub after : Ports
  pub returns :
      res
      ≡ some (
        some driver,
        after,
        record screen { bus = set_data_format after (some driver) screen.bus },
      )
  pub valid : Registry.IsValid after
  pub owns : Owns after driver
  pub taken : (q : ℕ) → is_port_in_use after q ≡ ((0x70 == q) || (0x71 == q) || is_port_in_use s q)
  pub idle : (is_port_in_use s 0x70 ≡ false) × (is_port_in_use s 0x71 ≡ false)
  pub quiet :
      acquire_rtc memory s screen.bus
      ≡ (some driver, after, set_data_format after (some driver) screen.bus)

-- There is no driver, there is a reason, no port changed hands, and the message says which step failed.
-- `acquire_rtc` does the same without it.
pub record Refuses (memory : Bool) (s : Ports) (screen : Screen)
    (res : Option (Option RtcDriver × Ports × Screen)) : Type 0 where
  pub after : Ports
  pub screen' : Screen
  pub returns : res ≡ some (none, after, screen')
  pub same : SamePorts s after
  pub quiet : acquire_rtc memory s screen.bus ≡ (none, after, screen.bus)
  pub says :
      (Blocked s × (Says no_control screen screen' ⊎ Says no_datum screen screen'))
      ⊎ ((memory ≡ false) × Says no_memory screen screen')
