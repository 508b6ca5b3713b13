-- ===== src/PortManager/Reach.antt =====
-- Sequences of calls of src/port_manager.c, from the zeroed registry on.
use shogun_os.Base.{
  ℕ, zero, suc, ◌<◌, ◌≡◌, ap, refl, sym, true, false, List, [], ◌∷◌, get_or, length, arith,
}
use shogun_os.PortManager.{
  Ports, PortHandle, HandlePtr, free_handle, max_tracked_ports, static_ports, init_port_manager,
  request_port, release_port, taken,
}
use shogun_os.PortManager.Scan.{Unique, taken_at}
use shogun_os.PortManager.Inv.{
  IsValid, static-IsValid, init-IsReady, IsReady-IsValid, request_port-IsReady,
  release_port-IsValid,
}

-- One call, with any port or any pointer.
pub data Step : Ports → Ports → Type 0 where
  initialises : {s : Ports} → Step s (init_port_manager s)
  requests : {s : Ports} → (port : ℕ) → Step s (request_port s port).1
  releases : {s : Ports} → (handle : HandlePtr) → Step s (release_port s handle)

-- The registries after the calls so far, from the zeroed one of the kernel image.
pub data Reached : Ports → Type 0 where
  boots : Reached static_ports
  calls : {s t : Ports} → Reached s → Step s t → Reached t

Step-IsValid : {s t : Ports} → Step s t → IsValid s → IsValid t
Step-IsValid initialises v = IsReady-IsValid (init-IsReady v)
Step-IsValid (requests port) v = IsReady-IsValid (request_port-IsReady port v)
Step-IsValid (releases handle) v = release_port-IsValid handle v

pub Reached-IsValid : {s : Ports} → Reached s → IsValid s
Reached-IsValid boots = static-IsValid
Reached-IsValid (calls r step) = Step-IsValid step (Reached-IsValid r)

both_found : (hs : List PortHandle) (p q : ℕ) → p ≡ q → taken hs p ≡ false → taken hs q ≡ true → ⊥
both_found hs p q e free found = cc

-- Two entries in use with one port are one entry.
same_entry :
    (hs : List PortHandle) (i j : ℕ)
    → Unique hs
    → i < length hs
    → j < length hs
    → (get_or hs i free_handle).in_use ≡ true
    → (get_or hs j free_handle).in_use ≡ true
    → (get_or hs i free_handle).port ≡ (get_or hs j free_handle).port
    → i ≡ j
same_entry [] i j u bi bj ui uj e = absurd (omega arith)
same_entry (h ∷ hs) zero zero u bi bj ui uj e = refl
same_entry (h ∷ hs) zero (suc j) u bi bj ui uj e =
    let found = taken_at hs j (omega arith) uj in
    let free = u.0 ui in absurd (both_found hs h.port (get_or hs j free_handle).port e free found)
same_entry (h ∷ hs) (suc i) zero u bi bj ui uj e =
    let found = taken_at hs i (omega arith) ui in
    let free = u.0 uj in
    absurd (both_found hs h.port (get_or hs i free_handle).port (sym e) free found)
same_entry (h ∷ hs) (suc i) (suc j) u bi bj ui uj e =
    ap suc (same_entry hs i j u.1 (omega arith) (omega arith) ui uj e)

-- After any sequence of initialisations, requests and releases, whatever ports and pointers they are
-- given, the registry has its 64 handles and is valid, and two handles in use never carry one port.
pub one_handle_per_port :
    {s : Ports} (i j : ℕ)
    → Reached s
    → i < max_tracked_ports
    → j < max_tracked_ports
    → (get_or s.registry i free_handle).in_use ≡ true
    → (get_or s.registry j free_handle).in_use ≡ true
    → IsValid s
      × ((get_or s.registry i free_handle).port ≡ (get_or s.registry j free_handle).port → i ≡ j)
one_handle_per_port {s} i j r bi bj ui uj =
    let v = Reached-IsValid r in
    (v, same_entry s.registry i j v.unique (omega (arith, v.size)) (omega (arith, v.size)) ui uj)
