-- ===== src/Rtc.antt =====
-- src/rtc.c and src/rtc.h: the driver of the real-time clock. An `RTCDriver*` is the driver that it
-- points to, or `none` for NULL; whether `malloc` returned memory for it is an argument.
pub mod Polling
pub mod Update
pub mod Pair
pub mod Acquire
pub mod Start
pub mod Interrupts
pub mod Cmos
pub mod Periodic
pub mod Waiting
pub mod Writing
pub mod Messages
use shogun_os.Base.{
  ℕ, zero, suc, ◌%◌, ◌^◌, Bool, true, false, not, Option, none, some, ◌==◌, if◌then◌else◌, bit_and,
  bit_or,
}
use shogun_os.Io.{Bus, read_port_b, write_port_b}
use shogun_os.PortManager.{Ports, HandlePtr, null, below, entry, request_port, release_port}
use shogun_os.Idt.Pic.{port_of}

abbrev pub cmos_reg_seconds : ℕ
cmos_reg_seconds = 0x00

abbrev pub cmos_reg_minutes : ℕ
cmos_reg_minutes = 0x02

abbrev pub cmos_reg_hours : ℕ
cmos_reg_hours = 0x04

abbrev pub cmos_reg_a : ℕ
cmos_reg_a = 0x0A

abbrev pub cmos_reg_b : ℕ
cmos_reg_b = 0x0B

abbrev pub cmos_reg_c : ℕ
cmos_reg_c = 0x0C

abbrev pub cmos_control_port : ℕ
cmos_control_port = 0x70

abbrev pub cmos_data_port : ℕ
cmos_data_port = 0x71

pub record RtcDriver : Type 0 where
  pub control_port : HandlePtr
  pub data_port : HandlePtr
  pub nmi_enabled : Bool

-- `reg | nmi_mask`
abbrev pub reg_select : RtcDriver → (reg : ℕ) → ℕ
reg_select d reg = bit_or reg (if d.nmi_enabled then 0x00 else 0x80)

-- The handles stand for the ports that the registry says.
unfoldable pub read_cmos_register : Ports → Option RtcDriver → (reg : ℕ) → Bus → ℕ × Bus
unfolding read_port_b write_port_b
read_cmos_register s none reg b = (0, b)
read_cmos_register s (some d) reg b =
    read_port_b (port_of s d.data_port)
      (write_port_b (port_of s d.control_port) (reg_select d reg) b)

unfoldable pub write_cmos_register : Ports → Option RtcDriver → (reg value : ℕ) → Bus → Bus
unfolding write_port_b
write_cmos_register s none reg value b = b
write_cmos_register s (some d) reg value b =
    write_port_b (port_of s d.data_port) value
      (write_port_b (port_of s d.control_port) (reg_select d reg) b)

unfoldable pub set_data_format : Ports → Option RtcDriver → Bus → Bus
unfolding read_cmos_register write_cmos_register
set_data_format s none b = b
set_data_format s (some d) b =
    let (status_reg_b, b') = read_cmos_register s (some d) cmos_reg_b b in
    write_cmos_register s (some d) cmos_reg_b (bit_or status_reg_b (bit_or (2 ^ 1) (2 ^ 2))) b'

unfoldable pub update_in_progress : Ports → Option RtcDriver → Bus → Bool × Bus
unfolding read_cmos_register
update_in_progress s none b = (false, b)
update_in_progress s (some d) b =
    let (status_reg_a, b') = read_cmos_register s (some d) cmos_reg_a b in
    (not (bit_and status_reg_a (2 ^ 7) == 0), b')

-- An operation on the driver, with its `data`, which it may overwrite; the first result is its own.
abbrev pub GuardedOp {ℓ} : Type ℓ → Type ℓ
GuardedOp D = Ports → Option RtcDriver → D → Bus → ℕ × D × Bus

-- `time_data`
pub record TimeData : Type 0 where
  pub seconds : ℕ
  pub minutes : ℕ
  pub hours : ℕ

unfoldable pub read_time_guarded_op : GuardedOp TimeData
read_time_guarded_op s rtc time_data b =
    let (seconds, b1) = read_cmos_register s rtc cmos_reg_seconds b in
    let (minutes, b2) = read_cmos_register s rtc cmos_reg_minutes b1 in
    let (hours, b3) = read_cmos_register s rtc cmos_reg_hours b2 in
    (0, record { seconds = seconds; minutes = minutes; hours = hours }, b3)

unfoldable pub write_time_guarded_op : GuardedOp TimeData
write_time_guarded_op s rtc time_data b =
    let b1 = write_cmos_register s rtc cmos_reg_seconds time_data.seconds b in
    let b2 = write_cmos_register s rtc cmos_reg_minutes time_data.minutes b1 in
    (0, time_data, write_cmos_register s rtc cmos_reg_hours time_data.hours b2)

-- `while (update_in_progress(rtc)) { }`; `none` means that the fuel ran out.
unfoldable pub wait_for_update : (polls : ℕ) → Ports → Option RtcDriver → Bus → Option Bus
wait_for_update zero s rtc b = none
wait_for_update (suc polls) s rtc b =
    let (busy, b') = update_in_progress s rtc b in
    elim busy [ true ↦ wait_for_update polls s rtc b' | false ↦ some b' ]

-- The loop of `update_guarded_op`, which runs the operation again when an update has begun.
unfoldable pub guarded_rounds {ℓ} :
    {D : Type ℓ}
    → (rounds polls : ℕ) → Ports
    → Option RtcDriver
    → GuardedOp D
    → D
    → Bus
    → Option (ℕ × D × Bus)
guarded_rounds zero polls s rtc op op_data b = none
guarded_rounds (suc rounds) polls s rtc op op_data b = elim (wait_for_update polls s rtc b) [
  | none ↦ none
  | some b1 ↦
      let (result, op_data', b2) = op s rtc op_data b1 in
      let (busy, b3) = update_in_progress s rtc b2 in
      elim busy [
        | true ↦ guarded_rounds rounds polls s rtc op op_data' b3
        | false ↦ some (result, op_data', b3)
      ]
]

-- The result of a call: -1, or what it returns otherwise.
pub data CallResult : Type 0 where
  failed : CallResult
  returned : ℕ → CallResult

unfoldable pub update_guarded_op {ℓ} :
    {D : Type ℓ}
    → (rounds polls : ℕ) → Ports
    → Option RtcDriver
    → Option (GuardedOp D)
    → D
    → Bus
    → Option (CallResult × D × Bus)
update_guarded_op rounds polls s none op_func op_data b = some (failed, op_data, b)
update_guarded_op rounds polls s (some d) none op_data b = some (failed, op_data, b)
update_guarded_op rounds polls s (some d) (some op) op_data b =
    elim (guarded_rounds rounds polls s (some d) op op_data b) [
      | none ↦ none
      | some (result, op_data', b') ↦ some (returned result, op_data', b')
    ]

-- `targets` is false if one of the three pointers is NULL; the array on the stack starts with the
-- given contents. The time is that which is written through the pointers, if it is.
unfoldable pub read_rtc_time :
    (rounds polls : ℕ)
    → Ports
    → Option RtcDriver
    → (targets : Bool) → (stack : TimeData) → Bus
    → Option (CallResult × Option TimeData × Bus)
unfolding update_guarded_op
read_rtc_time rounds polls s none targets stack b = some (failed, none, b)
read_rtc_time rounds polls s (some d) false stack b = some (failed, none, b)
read_rtc_time rounds polls s (some d) true stack b =
    elim (update_guarded_op rounds polls s (some d) (some read_time_guarded_op) stack b) [
      | none ↦ none
      | some (result, time_data, b') ↦ some (result, some time_data, b')
    ]

unfoldable pub write_rtc_time :
    (rounds polls : ℕ)
    → Ports
    → Option RtcDriver
    → (seconds minutes hours : ℕ) → Bus
    → Option (CallResult × Bus)
unfolding update_guarded_op
write_rtc_time rounds polls s none seconds minutes hours b = some (failed, b)
write_rtc_time rounds polls s (some d) seconds minutes hours b =
    let time_data : TimeData = record { seconds = seconds; minutes = minutes; hours = hours } in
    elim (update_guarded_op rounds polls s (some d) (some write_time_guarded_op) time_data b) [
      | none ↦ none
      | some (result, time_data', b') ↦ some (result, b')
    ]

abbrev pub is_null : HandlePtr → Bool
is_null null = true
is_null below = false
is_null (entry i) = false

-- What `init_rtc` does to the registry and the clock, without the messages of its three failures, which
-- Start adds: the driver, or NULL, with the registry and the bus afterwards.
unfoldable pub acquire_rtc : (memory : Bool) → Ports → Bus → Option RtcDriver × Ports × Bus
unfolding set_data_format
acquire_rtc memory s b =
    let (control, s1) = request_port s cmos_control_port in
    if is_null control
    then (none, s1, b)
    else (let (d, s2) = request_port s1 cmos_data_port in
        if is_null d
        then (none, release_port s2 control, b)
        else if not memory
        then (none, release_port (release_port s2 control) d, b)
        else (let rtc =
              some (record { control_port = control; data_port = d; nmi_enabled = true }) in
            (rtc, s2, set_data_format s2 rtc b)))

unfoldable pub clear_rtc_interrupt : Ports → Option RtcDriver → Bus → Bus
unfolding read_cmos_register
clear_rtc_interrupt s none b = b
clear_rtc_interrupt s (some d) b = (read_cmos_register s (some d) cmos_reg_c b).1

-- It asks for the two ports itself, and gives them back.
unfoldable pub acknowledge_rtc_interrupt : Ports → Bus → Ports × Bus
acknowledge_rtc_interrupt s b =
    let (control, s1) = request_port s cmos_control_port in
    if is_null control
    then (s1, b)
    else (let (d, s2) = request_port s1 cmos_data_port in
        if is_null d
        then (release_port s2 control, b)
        else (let b1 = write_port_b (port_of s2 control) (bit_or cmos_reg_c 0x00) b in
            let b2 = (read_port_b (port_of s2 d) b1).1 in
            (release_port (release_port s2 d) control, b2)))
