-- ===== src/PortManager/Holding.antt =====
-- Handles of src/port_manager.c that are held while other ports are asked for and given back.
use shogun_os.Base.{
  ℕ, ◌<◌, ◌≡◌, ◌≢◌, refl, ap, sym, ◌∙◌, inl, inr, true, false, arith, ◌==◌, ==_iff, Bool-cases,
  Option-cases, length, get_or, get_or-set, lt→ltb,
}
use shogun_os.PortManager.{
  Ports, HandlePtr, null, below, entry, max_tracked_ports, free_handle, init_port_manager,
  request_port, release_port, claim_free, claim, taken, first_free,
}
use shogun_os.PortManager.Scan.{first_free_zero}
use shogun_os.PortManager.Inv.{IsReady, IsValid, request_port_ready}
use shogun_os.PortManager.Contract.{Holds}

init_port_manager_ready : {s : Ports} → IsReady s → init_port_manager s ≡ s
unfolding init_port_manager
init_port_manager_ready {s} r = rw (init_port_manager, r.started) refl

claim_free-Holds :
    (s : Ports) (h : HandlePtr) (p q : ℕ) → IsReady s → Holds s h p → Holds (claim_free s q).1 h p
unfolding claim_free
claim_free-Holds s null p q r holds = elim holds [ ]
claim_free-Holds s below p q r holds = elim holds [ ]
claim_free-Holds s (entry i) p q r (range, held, port) =
    elim (Option-cases (first_free s.registry 0)) [
      | inl e ↦ rw (e, claim_free) (range, held, port)
      | inr (k, e) ↦
          let (b, f) = first_free_zero s.registry e in
          let same =
            get_or-set s.registry k i (claim q (get_or s.registry k free_handle)) free_handle b in
          elim (Bool-cases (k == i)) [
            | inl hit ↦ let at = (==_iff k i).0 hit in absurd (free_held s k i at f held)
            | inr other ↦
                let kept = rw other at same in
                rw (e, claim_free)
                  (range, ap (λ x. x.in_use) kept ∙ held, ap (λ x. x.port) kept ∙ port)
          ]
    ]
  where
    free_held :
        (s : Ports) (k i : ℕ)
        → k ≡ i
        → (get_or s.registry k free_handle).in_use ≡ false
        → (get_or s.registry i free_handle).in_use ≡ true
        → ⊥
    free_held s k i at f held = cc

-- A handle that is held stays so when another port is asked for, whether that is granted or not.
pub request_port-Holds :
    (s : Ports) (h : HandlePtr) (p q : ℕ) → IsReady s → Holds s h p → Holds (request_port s q).1 h p
request_port-Holds s h p q r holds =
    rw (request_port_ready s q, init_port_manager_ready r)
      (elim (Bool-cases (taken s.registry q)) [
        | inl busy ↦ rw busy holds
        | inr idle ↦ rw idle (claim_free-Holds s h p q r holds)
      ])

-- A handle that is held stays so when another port is given back.
pub release_port-Holds :
    (s : Ports) (h g : HandlePtr) (p q : ℕ)
    → IsValid s
    → Holds s h p
    → Holds s g q
    → p ≢ q
    → Holds (release_port s g) h p
unfolding release_port
release_port-Holds s null g p q v holds other d = elim holds [ ]
release_port-Holds s below g p q v holds other d = elim holds [ ]
release_port-Holds s (entry i) null p q v holds other d = elim other [ ]
release_port-Holds s (entry i) below p q v holds other d = elim other [ ]
release_port-Holds s (entry i) (entry k) p q v (range, held, port) (range', held', port') d =
    let b : k < length s.registry = omega (arith, v.size) in
    let same =
      get_or-set s.registry k i (record (get_or s.registry k free_handle) { in_use = false })
        free_handle b in
    elim (Bool-cases (k == i)) [
      | inl hit ↦
          let at = ap (λ n. (get_or s.registry n free_handle).port) ((==_iff k i).0 hit) in
          absurd (d (sym port ∙ sym at ∙ port'))
      | inr apart ↦
          let kept = rw apart at same in
          rw (lt→ltb k max_tracked_ports range', held')
            (range, ap (λ x. x.in_use) kept ∙ held, ap (λ x. x.port) kept ∙ port)
    ]
