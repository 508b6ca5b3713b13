-- ===== src/Rtc/Messages.antt =====
-- What init_rtc and enable_rtc_interrupts of src/rtc.c print.
use shogun_os.Base.{ℕ, Bool, true, false, not, List, [], ◌∷◌, if◌then◌else◌, codes}
use shogun_os.PortManager.{Ports, request_port}
use shogun_os.Printing.{Print, string_out}
use shogun_os.Rtc.{is_null, cmos_control_port, cmos_data_port}

abbrev pub no_control : List ℕ
no_control = codes "Failed to acquire CMOS control port\n"

abbrev pub no_datum : List ℕ
no_datum = codes "Failed to acquire CMOS data port\n"

abbrev pub no_memory : List ℕ
no_memory = codes "Failed to allocate memory for RTC driver\n"

-- By the same tests as `init_rtc`.
unfoldable pub init_rtc_messages : (memory : Bool) → Ports → List Print
init_rtc_messages memory s =
    let (control, s1) = request_port s cmos_control_port in
    if is_null control
    then string_out no_control ∷ []
    else if is_null (request_port s1 cmos_data_port).0
    then string_out no_datum ∷ []
    else if not memory
    then string_out no_memory ∷ []
    else []

-- By whether the handler was registered, for a driver that is there.
unfoldable pub enable_rtc_messages : Bool → List Print
enable_rtc_messages true = []
enable_rtc_messages false = string_out (codes "Failed to register RTC interrupt handler\n") ∷ []
