-- ===== src/Idt/Table.antt =====
-- `idt_init` of src/idt.c. The calls of idt_set_handler that the build generates are an argument: the
-- vectors with the addresses of their entries.
use shogun_os.Base.{
  ℕ, zero, suc, ◌+◌, ◌-◌, ◌*◌, ◌≤◌, ◌<◌, ◌≡◌, refl, ap, ◌∙◌, ◌&&◌, List, [], ◌∷◌, ltb, leb, ◌==◌,
  if◌then◌else◌, bit_or, get_or, set, length, length-set, get_or-set, arith,
}
use shogun_os.PortManager.{Ports}
use shogun_os.Idt.Gate.{IdtEntry, empty_gate, create_idt_descriptor, idt_set_handler}
use shogun_os.Idt.Pic.{Pic, pic_init_ports}

-- The loop over the vectors, from `i` on, `n` of them.
unfoldable pub clear_gates : (i n : ℕ) → List IdtEntry → List IdtEntry
clear_gates i zero idt = idt
clear_gates i (suc n) idt = clear_gates (i + 1) n (set idt i empty_gate)

unfoldable pub set_handlers : List (ℕ × ℕ) → List IdtEntry → List IdtEntry
unfolding idt_set_handler
set_handlers [] idt = idt
set_handlers ((vector, handler) ∷ gates) idt =
    set_handlers gates (idt_set_handler idt vector handler)

-- `IDTPointer`
pub record IdtPointer : Type 0 where
  pub limit : ℕ
  pub base : ℕ

pub record Loaded : Type 0 where
  pub pic : Pic
  pub ports : Ports
  pub idt : List IdtEntry
  pub idt_ptr : IdtPointer

-- The message is left out; loading the pointer is an instruction.
unfoldable pub idt_init : (gates : List (ℕ × ℕ)) → (address : ℕ) → Ports → List IdtEntry → Loaded
unfolding pic_init_ports clear_gates set_handlers
idt_init gates address s idt =
    let (pic, s') = pic_init_ports s in
    record {
      pic = pic;
      ports = s';
      idt = set_handlers gates (clear_gates 0 256 idt);
      idt_ptr = record { limit = 256 * 8 - 1; base = address };
    }

length-clear_gates : (i n : ℕ) (idt : List IdtEntry) → length (clear_gates i n idt) ≡ length idt
unfolding clear_gates
length-clear_gates i zero idt = refl
length-clear_gates i (suc n) idt =
    length-clear_gates (i + 1) n (set idt i empty_gate) ∙ length-set idt i empty_gate

clear_gates_lem :
    (i n v : ℕ) (idt : List IdtEntry)
    → i + n ≤ length idt
    → get_or (clear_gates i n idt) v empty_gate
      ≡ (if leb i v && ltb v (i + n) then empty_gate else get_or idt v empty_gate)
unfolding clear_gates
clear_gates_lem i zero v idt h = ground arith
clear_gates_lem i (suc n) v idt h =
    clear_gates_lem (i + 1) n v (set idt i empty_gate)
      (omega (arith, h, length-set idt i empty_gate))
    ∙ ground (arith, get_or-set idt i v empty_gate empty_gate (omega (arith, h)))

-- The gate for an entry at an address.
abbrev pub gate_to : ℕ → IdtEntry
gate_to handler = create_idt_descriptor handler 0x08 (bit_or 0x80 0x0E)

-- The gate that the calls leave at a vector, which had `before`: the last call for it decides.
unfoldable pub gate_of : IdtEntry → (v : ℕ) → List (ℕ × ℕ) → IdtEntry
gate_of before v [] = before
gate_of before v ((vector, handler) ∷ gates) =
    gate_of (if vector == v then gate_to handler else before) v gates

-- All vectors are in the table.
abbrev pub InTable : List (ℕ × ℕ) → Type 0
InTable [] = Unit
InTable ((vector, handler) ∷ gates) = (vector < 256) × InTable gates

set_handlers_lem :
    (gates : List (ℕ × ℕ)) (v : ℕ) (idt : List IdtEntry)
    → length idt ≡ 256
    → InTable gates
    → get_or (set_handlers gates idt) v empty_gate ≡ gate_of (get_or idt v empty_gate) v gates
unfolding set_handlers gate_of idt_set_handler
set_handlers_lem [] v idt size inside = refl
set_handlers_lem ((vector, handler) ∷ gates) v idt size (here, inside) =
    set_handlers_lem gates v (set idt vector (gate_to handler))
      (length-set idt vector (gate_to handler) ∙ size) inside
    ∙ ap (λ g. gate_of g v gates)
        (get_or-set idt vector v (gate_to handler) empty_gate (omega (arith, size)))

-- Whatever the table of 256 gates held, `idt_init` leaves at each vector the gate of the last generated
-- call for it, and an empty gate where there is none; the pointer covers exactly the 256 gates.
pub idt_init_lem :
    (gates : List (ℕ × ℕ)) (address v : ℕ) (s : Ports) (idt : List IdtEntry)
    → length idt ≡ 256
    → InTable gates
    → v < 256
    → (get_or (idt_init gates address s idt).idt v empty_gate ≡ gate_of empty_gate v gates)
      × ((idt_init gates address s idt).idt_ptr.limit + 1 ≡ length idt * 8)
unfolding idt_init
idt_init_lem gates address v s idt size inside small =
    let cleared = clear_gates 0 256 idt in
    let blank : get_or cleared v empty_gate ≡ empty_gate =
      clear_gates_lem 0 256 v idt (omega (arith, size)) ∙ ground arith in
    (
      set_handlers_lem gates v cleared (length-clear_gates 0 256 idt ∙ size) inside
          ∙ ap (λ g. gate_of g v gates) blank,
      omega (arith, size),
    )
