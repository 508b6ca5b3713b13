-- ===== src/PortManager/Inv.antt =====
-- The invariant of the port manager of src/port_manager.c.
use shogun_os.Base.{
  ◌<◌, ◌≡◌, ◌∙◌, refl, inl, inr, true, false, ℕ, arith, Bool-cases, Option-cases, length, get_or,
  length-set, ltb, ltb→lt, replicate, if◌then◌else◌,
}
use shogun_os.PortManager.{
  Ports, HandlePtr, null, below, entry, max_tracked_ports, free_handle, static_ports,
  init_port_manager, request_port, release_port, claim_free, taken, first_free, reset_all,
}
use shogun_os.PortManager.Scan.{
  Unique, AllFree, AllFree-at, replicate-AllFree, taken-AllFree, used, used-AllFree,
  reset_all-AllFree, length-reset_all, AllFree-Unique, first_free_zero, Unique-claim, Unique-free,
}

pub record IsValid (s : Ports) : Type 0 where
  pub size : length s.registry ≡ max_tracked_ports
  pub unique : Unique s.registry
  pub fresh : s.initialized ≡ false → AllFree s.registry

-- What the loops of a request see: the state after the lazy initialisation.
abbrev pub ready : Ports → Ports
ready s = init_port_manager s

pub static-IsValid : IsValid static_ports
static-IsValid = record {
  size = refl;
  unique =
      AllFree-Unique (replicate max_tracked_ports free_handle)
        (replicate-AllFree max_tracked_ports);
  fresh = λ _. replicate-AllFree max_tracked_ports;
}

-- The lazy initialisation leaves an initialised registry that holds the same ports.
pub record IsReady (s : Ports) : Type 0 where
  pub size : length s.registry ≡ max_tracked_ports
  pub unique : Unique s.registry
  pub started : s.initialized ≡ true

pub IsReady-IsValid : {s : Ports} → IsReady s → IsValid s
IsReady-IsValid r = record { size = r.size; unique = r.unique; fresh = λ e. cc }

pub init-IsReady : {s : Ports} → IsValid s → IsReady (init_port_manager s)
unfolding init_port_manager
init-IsReady {s} v = ground (
  arith,
  length-reset_all s.registry,
  AllFree-Unique (reset_all s.registry) (reset_all-AllFree s.registry),
)

pub taken-init :
    {s : Ports} (p : ℕ) → IsValid s → taken (init_port_manager s).registry p ≡ taken s.registry p
unfolding init_port_manager
taken-init {s} p v = elim (Bool-cases s.initialized) [
  | inl e ↦ rw e
  | inr e ↦
      rw (e, taken-AllFree s.registry p (v.fresh e))
        (taken-AllFree (reset_all s.registry) p (reset_all-AllFree s.registry))
]

pub used-init : {s : Ports} → IsValid s → used (init_port_manager s).registry ≡ used s.registry
unfolding init_port_manager
used-init {s} v = elim (Bool-cases s.initialized) [
  | inl e ↦ rw e
  | inr e ↦
      rw (e, used-AllFree s.registry (v.fresh e))
        (used-AllFree (reset_all s.registry) (reset_all-AllFree s.registry))
]

-- A request first makes the registry ready, and then scans it.
pub request_port_ready :
    (s : Ports) (p : ℕ)
    → request_port s p ≡ (
        if taken (init_port_manager s).registry p
        then (null, init_port_manager s)
        else claim_free (init_port_manager s) p)
unfolding request_port init_port_manager
request_port_ready s p = elim (Bool-cases s.initialized) [ inl e ↦ rw e | inr e ↦ rw e ]

pub claim_free-IsReady :
    (s : Ports) (p : ℕ) → IsReady s → taken s.registry p ≡ false → IsReady (claim_free s p).1
unfolding claim_free
claim_free-IsReady s p r t = elim (Option-cases (first_free s.registry 0)) [
  | inl e ↦ rw (e, claim_free) r
  | inr (k, e) ↦
      let (b, f) = first_free_zero s.registry e in
      rw (e, claim_free)
        (record {
          size = length-set s.registry k _ ∙ r.size;
          unique = Unique-claim s.registry k p b f t r.unique;
          started = r.started;
        })
]

-- A request leaves the registry valid and ready, whether it succeeds or not.
pub request_port-IsReady : {s : Ports} (p : ℕ) → IsValid s → IsReady (request_port s p).1
request_port-IsReady {s} p v =
    rw (request_port_ready s p) (elim (Bool-cases (taken (init_port_manager s).registry p)) [
      | inl e ↦ rw e (init-IsReady v)
      | inr e ↦ rw e (claim_free-IsReady (init_port_manager s) p (init-IsReady v) e)
    ])

-- A release keeps the registry valid, whatever pointer it is given.
pub release_port-IsValid : {s : Ports} (h : HandlePtr) → IsValid s → IsValid (release_port s h)
unfolding release_port
release_port-IsValid null v = v
release_port-IsValid below v = v
release_port-IsValid {s} (entry k) v = elim (Bool-cases (ltb k max_tracked_ports)) [
  | inr out ↦ rw out v
  | inl in_range ↦ elim (Bool-cases (get_or s.registry k free_handle).in_use) [
    | inr idle ↦ rw (in_range, idle) v
    | inl held ↦
        let b : k < length s.registry = omega (arith, v.size, ltb→lt k 64 in_range) in
        rw (in_range, held)
          (record {
            size = length-set s.registry k _ ∙ v.size;
            unique = Unique-free s.registry k b held v.unique;
            fresh = λ e. let idle = AllFree-at s.registry k (v.fresh e) in cc;
          })
  ]
]
