-- ===== src/PortManager/Contract.antt =====
-- The port manager of src/port_manager.c as its clients see it: which ports are in use.
use shogun_os.Base.{
  ℕ, ◌+◌, ◌<◌, ap, ◌≡◌, ◌∙◌, ◌≢◌, ◌≤◌, sym, refl, inl, inr, true, false, not, ◌&&◌, ◌||◌, ◌⊎◌,
  arith, lt→ltb, ◌==◌, ==_iff, get_or, length, Bool-cases, Option-cases, get_or-set_self,
}
use shogun_os.PortManager.{
  Ports, HandlePtr, null, below, entry, max_tracked_ports, free_handle, init_port_manager,
  request_port, release_port, is_port_in_use, claim_free, claim, taken, first_free,
}
use shogun_os.PortManager.Scan.{
  used, first_free_zero, first_free_none, taken-claim, taken-free, used-claim, used-free,
}
use shogun_os.PortManager.Inv.{
  IsValid, IsReady, init-IsReady, IsReady-IsValid, taken-init, used-init, request_port_ready,
  request_port-IsReady,
}

-- The pointer is the handle of an entry of the registry that holds the port.
abbrev pub Holds : Ports → HandlePtr → ℕ → Type 0
Holds s null port = ⊥
Holds s below port = ⊥
Holds s (entry k) port =
    (k < max_tracked_ports)
    × ((get_or s.registry k free_handle).in_use ≡ true)
    × ((get_or s.registry k free_handle).port ≡ port)

-- A request is granted: the handle holds the port, and the port joins those in use.
abbrev pub Granted : Ports → ℕ → HandlePtr × Ports → Type 0
Granted s port (h, t) =
    Holds t h port
    × ((q : ℕ) → is_port_in_use t q ≡ ((port == q) || is_port_in_use s q))
    × (used t.registry ≡ used s.registry + 1)

-- A request is refused: NULL, and no port changes hands.
abbrev pub Refused : Ports → ℕ → HandlePtr × Ports → Type 0
Refused s port (h, t) =
    (h ≡ null)
    × ((q : ℕ) → is_port_in_use t q ≡ is_port_in_use s q)
    × ((is_port_in_use s port ≡ true) ⊎ (used s.registry ≡ max_tracked_ports))

claim_free_outcome :
    (s : Ports) (p : ℕ) → IsReady s → Granted s p (claim_free s p) ⊎ Refused s p (claim_free s p)
unfolding claim_free is_port_in_use
claim_free_outcome s p r = elim (Option-cases (first_free s.registry 0)) [
  | inl e ↦
      inr (rw (e, claim_free) (refl, λ q. refl, inr (first_free_none s.registry 0 e ∙ r.size)))
  | inr (k, e) ↦
      let (b, f) = first_free_zero s.registry e in
      let at =
        get_or-set_self s.registry k (claim p (get_or s.registry k free_handle)) free_handle b in
      inl (
        rw (e, claim_free)
          (
            (omega (arith, r.size), rw at (unfold claim in refl), rw at (unfold claim in refl)),
            λ q. taken-claim s.registry k p q b f,
            used-claim s.registry k p b f,
          ))
]

-- The lazy initialisation changes neither the ports in use nor their number.
Refused-ready :
    {s : Ports} (p : ℕ) (r : HandlePtr × Ports)
    → IsValid s
    → Refused (init_port_manager s) p r
    → Refused s p r
unfolding is_port_in_use
Refused-ready p (h, t) v (n, f, why) = (
  n,
  λ q. f q ∙ taken-init q v,
  elim why [
    | inl busy ↦ inl (sym (taken-init p v) ∙ busy)
    | inr full ↦ inr (sym (used-init v) ∙ full)
  ],
)

Granted-ready :
    {s : Ports} (p : ℕ) (r : HandlePtr × Ports)
    → IsValid s
    → Granted (init_port_manager s) p r
    → Granted s p r
unfolding is_port_in_use
Granted-ready p (h, t) v (holds, f, n) =
    (holds, λ q. f q ∙ ap (λ b. (p == q) || b) (taken-init q v), n ∙ ap (λ k. k + 1) (used-init v))

-- For every valid registry a request is either granted, for a port that is not in use, or refused,
-- and it is refused only when the port is in use or all 64 handles are.
pub request_port_lem :
    {s : Ports} (port : ℕ)
    → IsValid s
    → ((is_port_in_use s port ≡ false) × Granted s port (request_port s port))
      ⊎ Refused s port (request_port s port)
unfolding is_port_in_use
request_port_lem {s} p v =
    rw (request_port_ready s p) (elim (Bool-cases (taken (init_port_manager s).registry p)) [
      | inl busy ↦
          rw busy (inr (Refused-ready p (null, init_port_manager s) v (refl, λ q. refl, inl busy)))
      | inr idle ↦ rw idle (elim (claim_free_outcome (init_port_manager s) p (init-IsReady v)) [
        | inl g ↦
            inl (
              sym (taken-init p v) ∙ idle,
              Granted-ready p (claim_free (init_port_manager s) p) v g,
            )
        | inr no_room ↦ inr (Refused-ready p (claim_free (init_port_manager s) p) v no_room)
      ])
    ])

-- In a valid registry, releasing a handle that holds a port takes exactly that port off those in
-- use, and frees one handle: any port `q` is in use afterwards if it was before and is another one.
pub release_port_lem :
    {s : Ports} (k port q : ℕ)
    → IsValid s
    → Holds s (entry k) port
    → (is_port_in_use (release_port s (entry k)) q ≡ (not (port == q) && is_port_in_use s q))
      × (used (release_port s (entry k)).registry + 1 ≡ used s.registry)
unfolding release_port is_port_in_use
release_port_lem {s} k port q v (range, held, e) =
    let b : k < length s.registry = omega (arith, v.size) in
    rw (lt→ltb k max_tracked_ports range, held, ← e)
      (taken-free s.registry k q b held v.unique, used-free s.registry k b held)

-- A pointer that is null, outside the registry or to a handle that is not in use is ignored.
pub release_port_ignored :
    {s : Ports} (h : HandlePtr) (k : ℕ)
    → (h ≡ null)
      ⊎ (h ≡ below)
      ⊎ ((h ≡ entry k)
          × ((max_tracked_ports ≤ k) ⊎ ((get_or s.registry k free_handle).in_use ≡ false)))
    → release_port s h ≡ s
unfolding release_port
release_port_ignored h k why = ground arith

Granted-then_released :
    (s : Ports) (p : ℕ) (r : HandlePtr × Ports)
    → IsValid r.1
    → is_port_in_use s p ≡ false
    → Granted s p r
    → (q : ℕ) → is_port_in_use (release_port r.1 r.0) q ≡ is_port_in_use s q
Granted-then_released s p (null, t) v idle g q = absurd g.0
Granted-then_released s p (below, t) v idle g q = absurd g.0
Granted-then_released s p (entry k, t) v idle g q =
    (release_port_lem k p q v g.0).0 ∙ ground (arith, g.1 q, ==_iff p q)

-- In a valid registry, when a port was granted and is then released, exactly the ports are in use
-- that were before.
pub release_port-request_port :
    {s : Ports} (port : ℕ)
    → IsValid s
    → (request_port s port).0 ≢ null
    → (q : ℕ)
    → is_port_in_use (release_port (request_port s port).1 (request_port s port).0) q
      ≡ is_port_in_use s q
release_port-request_port {s} port v ok q = elim (request_port_lem port v) [
  | inl (idle, g) ↦
      Granted-then_released s port (request_port s port)
        (IsReady-IsValid (request_port-IsReady port v)) idle g q
  | inr no_room ↦ absurd (ok no_room.0)
]
