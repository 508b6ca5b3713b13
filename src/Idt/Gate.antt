-- ===== src/Idt/Gate.antt =====
-- The gate descriptors of src/idt.c.
use shogun_os.Base.{
  ℕ, ◌+◌, ◌*◌, ◌/◌, ◌%◌, ◌^◌, ◌<◌, ◌≡◌, refl, List, bit_and, bit_or, arith, get_or, set, length,
  get_or-set, get_or-set_self, ◌==◌, if◌then◌else◌,
}
use shogun_os.Base.Bits.{bit_and_low}

pub record IdtEntry : Type 0 where
  pub offset_low : ℕ
  pub selector : ℕ
  pub reserved : ℕ
  pub type_attr : ℕ
  pub offset_high : ℕ

-- The fields that `create_idt_descriptor` writes into the entry, which are all of them.
unfoldable pub create_idt_descriptor : (offset selector type_attr : ℕ) → IdtEntry
create_idt_descriptor offset selector type_attr = record {
  offset_low = bit_and offset 0xFFFF % 2 ^ 16;
  selector = selector;
  reserved = 0;
  type_attr = type_attr;
  offset_high = bit_and (offset / 2 ^ 16) 0xFFFF % 2 ^ 16;
}

-- The entry that `idt_init` starts from, for each vector.
abbrev pub empty_gate : IdtEntry
empty_gate = record { offset_low = 0; selector = 0; reserved = 0; type_attr = 0; offset_high = 0 }

unfoldable pub idt_set_handler : List IdtEntry → (vector handler_offset : ℕ) → List IdtEntry
unfolding create_idt_descriptor
idt_set_handler idt vector handler_offset =
    set idt vector (create_idt_descriptor handler_offset 0x08 (bit_or 0x80 0x0E))

-- The address that the processor calls, from the two halves of a gate.
pub handler_offset_of : IdtEntry → ℕ
handler_offset_of e = e.offset_high * 2 ^ 16 + e.offset_low

-- For a vector of the table and a 32-bit address, setting a handler gives the vector a present
-- interrupt gate into the kernel's code segment, for exactly that address, and changes no other
-- gate.
pub idt_set_handler_lem :
    (idt : List IdtEntry) (vector offset v : ℕ)
    → vector < length idt
    → offset < 2 ^ 32
    → (handler_offset_of (get_or (idt_set_handler idt vector offset) vector empty_gate) ≡ offset)
      × ((get_or (idt_set_handler idt vector offset) vector empty_gate).selector ≡ 0x08)
      × ((get_or (idt_set_handler idt vector offset) vector empty_gate).type_attr ≡ 0x8E)
      × (get_or (idt_set_handler idt vector offset) v empty_gate ≡ (
          if vector == v
          then get_or (idt_set_handler idt vector offset) vector empty_gate
          else get_or idt v empty_gate))
unfolding idt_set_handler handler_offset_of
idt_set_handler_lem idt vector offset v inside small =
    let gate = create_idt_descriptor offset 0x08 (bit_or 0x80 0x0E) in
    let here : get_or (set idt vector gate) vector empty_gate ≡ gate =
      get_or-set_self idt vector gate empty_gate inside in
    (
      rw here (omega (arith, bit_and_low 16 offset, bit_and_low 16 (offset / 2 ^ 16))),
      rw here refl,
      rw here refl,
      rw here (get_or-set idt vector v gate empty_gate inside),
    )
