-- ===== src/Gdt/Report.antt =====
-- The pointer that `gdt_init` loads, and `print_gdt_info`, of src/gdt.c. Loading and reading the
-- pointer are instructions: the report gets the pointer that the processor holds.
use shogun_os.Base.{ℕ, ◌+◌, ◌*◌, ◌-◌, ◌%◌, ◌^◌, ◌≡◌, refl, List, [], ◌∷◌, add32, length, codes}
use shogun_os.Printing.{Print, string_out, hex_out}
use shogun_os.Gdt.{gdt_init}

pub record GdtPointer : Type 0 where
  pub limit : ℕ
  pub base : ℕ

-- `gdt_ptr.limit = sizeof(gdt) - 1; gdt_ptr.base = (uint32_t)&gdt;`
unfoldable pub loaded_gdt : (address : ℕ) → GdtPointer
loaded_gdt address = record { limit = 3 * 8 - 1; base = address }

-- `address` is that of the table.
unfoldable pub print_gdt_info : (address : ℕ) → GdtPointer → List Print
print_gdt_info address current_gdt_ptr =
    string_out (codes "GDT Info:\n")
    ∷ string_out (codes "  Base: 0x")
    ∷ hex_out (current_gdt_ptr.base % 2 ^ 32)
    ∷ string_out (codes "\n")
    ∷ string_out (codes "  Limit: 0x")
    ∷ hex_out (current_gdt_ptr.limit % 2 ^ 32)
    ∷ string_out (codes "\n")
    ∷ string_out (codes "  Null Descriptor: at 0x")
    ∷ hex_out (add32 address (0 * 8))
    ∷ string_out (codes "\n")
    ∷ string_out (codes "  Code Descriptor: at 0x")
    ∷ hex_out (add32 address (1 * 8))
    ∷ string_out (codes "\n")
    ∷ string_out (codes "  Data Descriptor: at 0x")
    ∷ hex_out (add32 address (2 * 8))
    ∷ string_out (codes "\n")
    ∷ []

-- The pointer covers exactly the descriptors of the table.
pub loaded_gdt_lem : (address : ℕ) → (loaded_gdt address).limit + 1 ≡ length gdt_init * 8
unfolding loaded_gdt gdt_init
loaded_gdt_lem address = refl
