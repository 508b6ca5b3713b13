-- ===== src/Io.antt =====
-- src/io.c: the I/O ports and the serial line. The devices behind the ports are an environment: the
-- byte that the k-th read returns is arbitrary. A `PortHandle*` is the port of its handle, or
-- `none` for NULL.
pub mod Serial
use shogun_os.Base.{
  ℕ, zero, suc, ◌+◌, ◌%◌, Bool, true, false, Option, none, some, List, [], ◌∷◌, ◌==◌, if◌then◌else◌,
  bit_and,
}

-- An access to a port: the byte that came in, or went out.
pub data Access : Type 0 where
  inp : (port value : ℕ) → Access
  out : (port value : ℕ) → Access

pub record Bus : Type 0 where
  pub reply : ℕ → ℕ
  pub reads : ℕ
  -- All accesses, the newest first.
  pub trace : List Access

abbrev pub PortRef : Type 0
PortRef = Option ℕ

-- The byte that the next read returns.
abbrev pub next_byte : Bus → ℕ
next_byte b = b.reply b.reads % 256

unfoldable pub in_b : (port : ℕ) → Bus → ℕ × Bus
in_b port b =
    (next_byte b, record b { reads = b.reads + 1; trace = inp port (next_byte b) ∷ b.trace })

unfoldable pub out_b : (port value : ℕ) → Bus → Bus
out_b port value b = record b { trace = out port value ∷ b.trace }

unfoldable pub read_port_b : PortRef → Bus → ℕ × Bus
unfolding in_b
read_port_b none b = (0, b)
read_port_b (some port) b = in_b port b

unfoldable pub write_port_b : PortRef → (value : ℕ) → Bus → Bus
unfolding out_b
write_port_b none value b = b
write_port_b (some port) value b = out_b port value b
