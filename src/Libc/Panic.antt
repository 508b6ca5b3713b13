-- ===== src/Libc/Panic.antt =====
-- `panic` of src/libc.c, up to the halt of the machine.
use shogun_os.Base.{ℕ, ◌≡◌, sym, ◌∙◌, List, ◌++◌, codes}
use shogun_os.Terminal.{Terminal, write_string, clear_terminal}
use shogun_os.Printing.Sequence.{write_string-append}

-- The screen that the machine halts with.
unfoldable pub panic : (message : List ℕ) → Terminal → Terminal
panic message t =
    write_string (codes "\nSystem halted.")
      (write_string message (write_string (codes "KERNEL PANIC: ") (clear_terminal t)))

-- The cleared screen takes the three parts as one text.
pub panic_lem :
    (message : List ℕ) (t : Terminal)
    → panic message t
      ≡ write_string
          (codes "KERNEL PANIC: " ++ (message ++ codes "\nSystem halted."))
          (clear_terminal t)
unfolding panic
panic_lem message t = sym (
    write_string-append (codes "KERNEL PANIC: ") (message ++ codes "\nSystem halted.")
      (clear_terminal t)
    ∙ write_string-append message (codes "\nSystem halted.")
        (write_string (codes "KERNEL PANIC: ") (clear_terminal t)))
