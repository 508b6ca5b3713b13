-- ===== src/Idt/Report.antt =====
-- `print_idt_info` of src/idt.c, and the messages of pic_init, pic_remap and idt_init.
use shogun_os.Base.{
  ℕ, ◌/◌, ◌%◌, ◌^◌, ◌<◌, ◌≡◌, refl, ap, ◌∙◌, Bool, true, false, not, ◌||◌, List, [], ◌∷◌, ◌++◌,
  ◌==◌, if◌then◌else◌, get_or, length, codes, arith,
}
use shogun_os.Base.Bits.{bit_and_low}
use shogun_os.PortManager.{Ports}
use shogun_os.Printing.{Print, string_out, hex_out}
use shogun_os.Idt.Gate.{IdtEntry, empty_gate, create_idt_descriptor}
use shogun_os.Idt.Table.{IdtPointer, InTable, idt_init, idt_init_lem, gate_of, gate_to}

-- `idt[v].offset_low != 0 || idt[v].offset_high != 0`
abbrev pub is_set : IdtEntry → Bool
is_set e = not (e.offset_low == 0) || not (e.offset_high == 0)

-- One of the three lines on handlers.
abbrev pub handler_line : (name : List ℕ) → Bool → Print
handler_line name set =
    string_out
      (codes "  " ++ name ++ (if set then codes " handler: SET\n" else codes " handler: NOT SET\n"))

unfoldable pub print_idt_info : List IdtEntry → IdtPointer → List Print
print_idt_info idt idt_ptr =
    string_out (codes "IDT Info:\n")
    ∷ string_out (codes "  Base: 0x")
    ∷ hex_out (idt_ptr.base % 2 ^ 32)
    ∷ string_out (codes "\n")
    ∷ string_out (codes "  Limit: 0x")
    ∷ hex_out (idt_ptr.limit % 2 ^ 32)
    ∷ string_out (codes "\n")
    ∷ string_out (codes "  Number of entries: 256\n")
    ∷ handler_line (codes "Interrupt 0x80") (is_set (get_or idt 0x80 empty_gate))
    ∷ handler_line (codes "Divide by zero") (is_set (get_or idt 0 empty_gate))
    ∷ handler_line (codes "General Protection Fault") (is_set (get_or idt 13 empty_gate))
    ∷ []

-- The messages by the result of `pic_init`, and by that of `pic_remap`.
unfoldable pub pic_init_messages : Bool → List Print
pic_init_messages true = string_out (codes "PIC interrupts masked successfully!\n") ∷ []
pic_init_messages false =
    string_out (codes "PIC initialization failed - couldn't acquire ports!\n") ∷ []

unfoldable pub pic_remap_messages : Bool → List Print
pic_remap_messages true =
    string_out (codes "PIC remapping: Before - Master vectors 0x20-0x27, Slave vectors 0x28-0x2F\n")
    ∷ string_out (
        codes
          "PIC remapped successfully! After - Master vectors 0x40-0x47, Slave vectors 0x48-0x4F\n")
    ∷ []
pic_remap_messages false =
    string_out (codes "PIC remapping failed - couldn't acquire ports!\n") ∷ []

-- The address of the last call for a vector, 0 if there is none.
pub address_of : ℕ → (v : ℕ) → List (ℕ × ℕ) → ℕ
address_of before v [] = before
address_of before v ((vector, handler) ∷ gates) =
    address_of (if vector == v then handler else before) v gates

-- All addresses are words.
abbrev pub Addresses : List (ℕ × ℕ) → Type 0
Addresses [] = Unit
Addresses ((vector, handler) ∷ gates) = (handler < 2 ^ 32) × Addresses gates

is_set-gate_to : (handler : ℕ) → handler < 2 ^ 32 → is_set (gate_to handler) ≡ not (handler == 0)
unfolding create_idt_descriptor
is_set-gate_to handler h = ground (arith, bit_and_low 16 handler, bit_and_low 16 (handler / 2 ^ 16))

-- One call, for the vector or for another.
is_set-step :
    (mine : Bool) (before : IdtEntry) (address handler : ℕ)
    → handler < 2 ^ 32
    → is_set before ≡ not (address == 0)
    → is_set (if mine then gate_to handler else before)
      ≡ not ((if mine then handler else address) == 0)
is_set-step true before address handler word same = is_set-gate_to handler word
is_set-step false before address handler word same = same

-- The gate that the calls leave, seen through the test of the report.
is_set-gate_of :
    (before : IdtEntry) (address v : ℕ) (gates : List (ℕ × ℕ))
    → is_set before ≡ not (address == 0)
    → Addresses gates
    → is_set (gate_of before v gates) ≡ not (address_of address v gates == 0)
unfolding gate_of address_of
is_set-gate_of before address v [] same words = same
is_set-gate_of before address v ((vector, handler) ∷ gates) same (word, words) =
    is_set-gate_of (if vector == v then gate_to handler else before)
      (if vector == v then handler else address) v gates
      (is_set-step (vector == v) before address handler word same) words

-- The line of a vector, by the address of its generated entry.
abbrev pub line_for : (name : List ℕ) (v : ℕ) → List (ℕ × ℕ) → Print
line_for name v gates = handler_line name (not (address_of 0 v gates == 0))

-- After `idt_init` on a table of 256 gates, with generated calls for vectors of the table and 32-bit
-- addresses, the report gives the table's address and its size less one, and says of each of the three
-- vectors that its handler is set exactly when the last generated call for it has an address that
-- is not NULL.
pub print_idt_info-idt_init :
    (gates : List (ℕ × ℕ)) (address : ℕ) (s : Ports) (idt : List IdtEntry)
    → length idt ≡ 256
    → InTable gates
    → Addresses gates
    → address < 2 ^ 32
    → print_idt_info (idt_init gates address s idt).idt (idt_init gates address s idt).idt_ptr
      ≡ string_out (codes "IDT Info:\n")
        ∷ string_out (codes "  Base: 0x")
        ∷ hex_out address
        ∷ string_out (codes "\n")
        ∷ string_out (codes "  Limit: 0x")
        ∷ hex_out 2047
        ∷ string_out (codes "\n")
        ∷ string_out (codes "  Number of entries: 256\n")
        ∷ line_for (codes "Interrupt 0x80") 0x80 gates
        ∷ line_for (codes "Divide by zero") 0 gates
        ∷ line_for (codes "General Protection Fault") 13 gates
        ∷ []
unfolding print_idt_info idt_init
print_idt_info-idt_init gates address s idt size inside words word =
    let set : (v : ℕ)
        → v < 256
        → is_set (get_or (idt_init gates address s idt).idt v empty_gate)
          ≡ not (address_of 0 v gates == 0) =
      λ v small.
        ap is_set (idt_init_lem gates address v s idt size inside small).0
        ∙ is_set-gate_of empty_gate 0 v gates refl words in
    let whole : address % 2 ^ 32 ≡ address = omega arith in
    rw (whole, set 0x80 (omega arith), set 0 (omega arith), set 13 (omega arith)) refl
