-- ===== src/Idt/Pic.antt =====
-- src/idt.c: the two interrupt controllers, and the dispatch of an interrupt.
use shogun_os.Base.{
  ℕ, ◌-◌, ◌%◌, ◌^◌, Bool, true, false, ◌&&◌, Option, none, some, ltb, leb, if◌then◌else◌, bit_and,
  get_or, not32,
}
use shogun_os.Io.{Bus, PortRef, in_b, out_b, read_port_b, write_port_b}
use shogun_os.PortManager.{Ports, HandlePtr, null, below, entry, request_port}
use shogun_os.Idt.Registry.{Registry}

-- The four static handles, as the ports that they stand for.
pub record Pic : Type 0 where
  pub master_pic_cmd : PortRef
  pub master_pic_data : PortRef
  pub slave_pic_cmd : PortRef
  pub slave_pic_data : PortRef

-- The port that a handle stands for.
unfoldable pub port_of : Ports → HandlePtr → PortRef
port_of s null = none
port_of s below = none
port_of s (entry i) =
    some (get_or s.registry i (record { port = 0; in_use = false; next = null })).port

unfoldable pub pic_init_ports : Ports → Pic × Ports
unfolding port_of request_port
pic_init_ports s =
    let (master_cmd, s1) = request_port s 0x20 in
    let (master_data, s2) = request_port s1 0x21 in
    let (slave_cmd, s3) = request_port s2 0xA0 in
    let (slave_data, s4) = request_port s3 0xA1 in
    (
      record {
        master_pic_cmd = port_of s4 master_cmd;
        master_pic_data = port_of s4 master_data;
        slave_pic_cmd = port_of s4 slave_cmd;
        slave_pic_data = port_of s4 slave_data;
      },
      s4,
    )

-- The guards on the handles are those of `write_port_b` as well, which does nothing on NULL.
unfoldable pub pic_send_eoi : Pic → (int_num : ℕ) → Bus → Bus
unfolding write_port_b
pic_send_eoi p int_num b =
    if leb 0x48 int_num && leb int_num 0x4F
    then write_port_b p.master_pic_cmd 0x20 (write_port_b p.slave_pic_cmd 0x20 b)
    else if leb 0x40 int_num && leb int_num 0x47
    then write_port_b p.master_pic_cmd 0x20 b
    else b

abbrev pub held : PortRef → Bool
held none = false
held (some _) = true

-- The result tells which of the two messages is printed.
unfoldable pub pic_init : Pic → Bus → Bool × Bus
unfolding write_port_b
pic_init p b =
    if held p.master_pic_data && held p.slave_pic_data
    then (true, write_port_b p.slave_pic_data 0xFF (write_port_b p.master_pic_data 0xFF b))
    else (false, b)

-- The writes of `pic_remap` behind the reads of the masks.
unfoldable pub remap_writes : Pic → (master_mask slave_mask : ℕ) → Bus → Bus
unfolding write_port_b
remap_writes p master_mask slave_mask b =
    let b1 = write_port_b p.slave_pic_cmd 0x11 (write_port_b p.master_pic_cmd 0x11 b) in
    let b2 = write_port_b p.slave_pic_data 0x48 (write_port_b p.master_pic_data 0x40 b1) in
    let b3 = write_port_b p.slave_pic_data 0x02 (write_port_b p.master_pic_data 0x04 b2) in
    let b4 = write_port_b p.slave_pic_data 0x01 (write_port_b p.master_pic_data 0x01 b3) in
    write_port_b p.slave_pic_data slave_mask (write_port_b p.master_pic_data master_mask b4)

unfoldable pub pic_remap : Pic → Bus → Bool × Bus
unfolding read_port_b remap_writes
pic_remap p b =
    if ((held p.master_pic_cmd && held p.slave_pic_cmd) && held p.master_pic_data)
      && held p.slave_pic_data
    then (let (master_mask, b1) = read_port_b p.master_pic_data b in
        let (slave_mask, b2) = read_port_b p.slave_pic_data b1 in
        (true, remap_writes p master_mask slave_mask b2))
    else (false, b)

-- `value = read_port_b(port); value &= ~(1 << bit); write_port_b(port, value);` under `if (port)`.
unfoldable pub clear_mask_bit : PortRef → (bit : ℕ) → Bus → Bus
unfolding in_b out_b
clear_mask_bit none bit b = b
clear_mask_bit (some port) bit b =
    let (value, b') = in_b port b in out_b port (bit_and value (not32 (2 ^ bit)) % 2 ^ 8) b'

unfoldable pub pic_unmask_irq : Pic → (irq : ℕ) → Bus → Bus
unfolding clear_mask_bit
pic_unmask_irq p irq b =
    if ltb irq 8
    then clear_mask_bit p.master_pic_data irq b
    else if leb 8 irq && ltb irq 16
    then clear_mask_bit p.slave_pic_data (irq - 8) (clear_mask_bit p.master_pic_data 2 b)
    else b

-- The bus with the rest of the machine's state.
pub record Machine {ℓ} (S : Type ℓ) : Type ℓ where
  pub bus : Bus
  pub rest : S

-- What a handler does to the machine; `none` for a handler that does not return.
abbrev pub Handler {ℓ} : Type ℓ → Type ℓ
Handler S = Machine S → Option (Machine S)

module _ {ℓ} {S : Type ℓ} where
  unfoldable pub run_handler : Option (Handler S) → Machine S → Option (Machine S)
  run_handler none m = some m
  run_handler (some handler) m = handler m

  -- `handlers_initialized && vector < 256 && interrupt_handlers[vector] != NULL`.
  unfoldable pub generic_interrupt_handler_no_error_code :
      Registry (Handler S) → Pic → (vector : ℕ) → Machine S → Option (Machine S)
  unfolding run_handler pic_send_eoi
  generic_interrupt_handler_no_error_code r p vector m =
      elim (if r.handlers_initialized && ltb vector 256
        then run_handler (get_or r.interrupt_handlers vector none) m
        else some m) [
          | none ↦ none
          | some m' ↦ some (record m' { bus = pic_send_eoi p vector m'.bus })
        ]
