-- ===== src/PortManager.antt =====
-- src/port_manager.c and src/port_manager.h: the registry of I/O ports.
-- A `PortHandle*` is null, an offset into `port_registry`, or an address below that array.
pub mod Scan
pub mod Inv
pub mod Contract
pub mod Holding
pub mod Reach
use shogun_os.Base.{
  ℕ, zero, suc, ◌+◌, Bool, true, false, ◌&&◌, List, [], ◌∷◌, Option, none, some, ltb, ◌==◌,
  if◌then◌else◌, get_or, set, replicate,
}

pub data HandlePtr : Type 0 where
  null below : HandlePtr
  entry : ℕ → HandlePtr

pub record PortHandle : Type 0 where
  pub port : ℕ
  pub in_use : Bool
  pub next : HandlePtr

pub record Ports : Type 0 where
  pub registry : List PortHandle
  pub initialized : Bool

abbrev pub max_tracked_ports : ℕ
max_tracked_ports = 64

abbrev pub free_handle : PortHandle
free_handle = record { port = 0; in_use = false; next = null }

-- The zeroed static storage of the kernel image.
abbrev pub static_ports : Ports
static_ports = record { registry = replicate max_tracked_ports free_handle; initialized = false }

-- The body of the loop of `init_port_manager`.
unfoldable pub reset_all : List PortHandle → List PortHandle
reset_all [] = []
reset_all (h ∷ hs) = record h { in_use = false; port = 0; next = null } ∷ reset_all hs

unfoldable pub init_port_manager : Ports → Ports
unfolding reset_all
init_port_manager s =
    if s.initialized then s else record { registry = reset_all s.registry; initialized = true }

-- The first loop of `request_port`, and the loop of `is_port_in_use`.
unfoldable pub taken : List PortHandle → ℕ → Bool
taken [] port = false
taken (h ∷ hs) port = if h.in_use && (h.port == port) then true else taken hs port

-- The second loop of `request_port`: the index of the first handle that is free.
unfoldable pub first_free : List PortHandle → ℕ → Option ℕ
first_free [] i = none
first_free (h ∷ hs) i = if h.in_use then first_free hs (i + 1) else some i

-- `port_registry[i].port = port; port_registry[i].in_use = true;`
unfoldable pub claim : ℕ → PortHandle → PortHandle
claim port h = record h { port = port; in_use = true }

unfoldable pub claim_free : Ports → ℕ → HandlePtr × Ports
unfolding claim
claim_free s port = elim (first_free s.registry 0) [
  | none ↦ (null, s)
  | some i ↦ (
    entry i,
    record s { registry = set s.registry i (claim port (get_or s.registry i free_handle)) },
  )
]

unfoldable pub request_port : Ports → ℕ → HandlePtr × Ports
unfolding init_port_manager claim_free
request_port s port =
    let s' = (if s.initialized then s else init_port_manager s) in
    if taken s'.registry port then (null, s') else claim_free s' port

pub release_port : Ports → HandlePtr → Ports
release_port s null = s
release_port s below = s
release_port s (entry i) =
    if ltb i max_tracked_ports
    then if (get_or s.registry i free_handle).in_use
      then record s {
        registry = set s.registry i (record (get_or s.registry i free_handle) { in_use = false });
      }
      else s
    else s

unfoldable pub is_port_in_use : Ports → ℕ → Bool
unfolding taken
is_port_in_use s port = taken s.registry port
