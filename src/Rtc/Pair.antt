-- ===== src/Rtc/Pair.antt =====
-- The two requests for the clock's ports with which functions of src/rtc.c start.
use shogun_os.Base.{
  ℕ, ◌<◌, ◌≡◌, ◌≢◌, refl, ap, sym, ◌∙◌, ◌⊎◌, inl, inr, true, false, not, ◌&&◌, ◌||◌, some, arith,
  ◌==◌, ==_iff, ◌+◌,
}
use shogun_os.PortManager.{
  Ports, HandlePtr, null, below, entry, max_tracked_ports, request_port, release_port,
  is_port_in_use,
}
use shogun_os.PortManager.Scan.{used}
use shogun_os.PortManager.Inv.{
  IsValid, IsReady, IsReady-IsValid, request_port-IsReady, release_port-IsValid,
}
use shogun_os.PortManager.Contract.{Holds, Granted, Refused, request_port_lem, release_port_lem}
use shogun_os.PortManager.Holding.{request_port-Holds, release_port-Holds}
use shogun_os.Idt.Pic.{port_of}
use shogun_os.Rtc.{is_null}

-- A handle that holds a port stands for it.
pub Holds-port_of : (s : Ports) (h : HandlePtr) (p : ℕ) → Holds s h p → port_of s h ≡ some p
unfolding port_of
Holds-port_of s null p holds = elim holds [ ]
Holds-port_of s below p holds = elim holds [ ]
Holds-port_of s (entry i) p (range, held, port) = ap some port

Holds-is_null : (s : Ports) (h : HandlePtr) (p : ℕ) → Holds s h p → is_null h ≡ false
Holds-is_null s null p holds = elim holds [ ]
Holds-is_null s below p holds = elim holds [ ]
Holds-is_null s (entry i) p holds = refl

-- Releasing a handle takes its port off those in use.
release_held :
    (s : Ports) (h : HandlePtr) (p q : ℕ)
    → IsValid s
    → Holds s h p
    → is_port_in_use (release_port s h) q ≡ (not (p == q) && is_port_in_use s q)
release_held s null p q v holds = elim holds [ ]
release_held s below p q v holds = elim holds [ ]
release_held s (entry k) p q v holds = (release_port_lem k p q v holds).0

-- It frees one handle.
release_used :
    (s : Ports) (h : HandlePtr) (p : ℕ)
    → IsValid s
    → Holds s h p
    → used (release_port s h).registry + 1 ≡ used s.registry
release_used s null p v holds = elim holds [ ]
release_used s below p v holds = elim holds [ ]
release_used s (entry k) p v holds = (release_port_lem k p p v holds).1

-- The two requests, one behind the other.
abbrev pub control : Ports → HandlePtr
control s = (request_port s 0x70).0

abbrev pub with_control : Ports → Ports
with_control s = (request_port s 0x70).1

abbrev pub datum : Ports → HandlePtr
datum s = (request_port (with_control s) 0x71).0

abbrev pub with_both : Ports → Ports
with_both s = (request_port (with_control s) 0x71).1

-- Why a request may fail: one of the ports is in use, or fewer than two handles are free.
abbrev pub Blocked : Ports → Type 0
Blocked s =
    (is_port_in_use s 0x70 ≡ true)
    ⊎ (is_port_in_use s 0x71 ≡ true)
    ⊎ (max_tracked_ports < used s.registry + 2)

-- A registry in which exactly the ports are in use that were before.
pub record SamePorts (s t : Ports) : Type 0 where
  pub valid : IsValid t
  pub kept : (q : ℕ) → is_port_in_use t q ≡ is_port_in_use s q

pub record NoControl (s : Ports) : Type 0 where
  pub absent : is_null (control s) ≡ true
  pub reason : Blocked s
  pub same : SamePorts s (with_control s)

pub record NoDatum (s : Ports) : Type 0 where
  pub there : is_null (control s) ≡ false
  pub absent : is_null (datum s) ≡ true
  pub reason : Blocked s
  pub same : SamePorts s (release_port (with_both s) (control s))

pub record BothHeld (s : Ports) : Type 0 where
  pub there : is_null (control s) ≡ false
  pub there' : is_null (datum s) ≡ false
  pub holds : Holds (with_both s) (control s) 0x70
  pub holds' : Holds (with_both s) (datum s) 0x71
  pub valid : IsValid (with_both s)
  pub taken :
      (q : ℕ) → is_port_in_use (with_both s) q ≡ ((0x70 == q) || (0x71 == q) || is_port_in_use s q)
  pub idle : is_port_in_use s 0x70 ≡ false
  pub idle' : is_port_in_use s 0x71 ≡ false
  pub counted : used (with_both s).registry ≡ used s.registry + 2

-- Giving back two held ports, one behind the other.
give_back :
    (s : Ports) (h g : HandlePtr) (p p' q : ℕ)
    → IsValid s
    → Holds s h p
    → Holds s g p'
    → p' ≢ p
    → is_port_in_use (release_port (release_port s h) g) q
      ≡ (not (p' == q) && (not (p == q) && is_port_in_use s q))
give_back s h g p p' q v holds holds' d =
    let held = release_port-Holds s g h p' p v holds' holds d in
    release_held (release_port s h) g p' q (release_port-IsValid h v) held
    ∙ ap (λ b. not (p' == q) && b) (release_held s h p q v holds)

-- When both are held, giving them back in either order restores which ports are in use.
pub control_first :
    {s : Ports}
    → BothHeld s
    → SamePorts s (release_port (release_port (with_both s) (control s)) (datum s))
control_first {s} h = record {
  valid = release_port-IsValid (datum s) (release_port-IsValid (control s) h.valid);
  kept = λ q.
      give_back (with_both s) (control s) (datum s) 0x70 0x71 q h.valid h.holds h.holds'
        (λ e. omega (arith, e))
      ∙ ground (arith, h.taken q, h.idle, h.idle', ==_iff 0x70 q, ==_iff 0x71 q);
}

-- And as many handles are in use as before.
pub control_first_used :
    {s : Ports}
    → BothHeld s
    → used (release_port (release_port (with_both s) (control s)) (datum s)).registry
      ≡ used s.registry
control_first_used {s} h =
    let held =
      release_port-Holds (with_both s) (datum s) (control s) 0x71 0x70 h.valid h.holds' h.holds
        (λ e. omega (arith, e)) in
    let first = release_used (with_both s) (control s) 0x70 h.valid h.holds in
    let second =
      release_used (release_port (with_both s) (control s)) (datum s) 0x71
        (release_port-IsValid (control s) h.valid) held in
    omega (arith, first, second, h.counted)

pub datum_first :
    {s : Ports}
    → BothHeld s
    → SamePorts s (release_port (release_port (with_both s) (datum s)) (control s))
datum_first {s} h = record {
  valid = release_port-IsValid (control s) (release_port-IsValid (datum s) h.valid);
  kept = λ q.
      give_back (with_both s) (datum s) (control s) 0x71 0x70 q h.valid h.holds' h.holds
        (λ e. omega (arith, e))
      ∙ ground (arith, h.taken q, h.idle, h.idle', ==_iff 0x70 q, ==_iff 0x71 q);
}

module _ (s : Ports) (valid : IsValid s) where
  with_control-IsReady : IsReady (with_control s)
  with_control-IsReady = request_port-IsReady 0x70 valid

  with_both-IsValid : IsValid (with_both s)
  with_both-IsValid =
      IsReady-IsValid (request_port-IsReady 0x71 (IsReady-IsValid with_control-IsReady))

  no_control : Refused s 0x70 (request_port s 0x70) → NoControl s
  no_control (nothing, kept, why) = record {
    absent = ap is_null nothing;
    reason = elim why [ inl busy ↦ inl busy | inr full ↦ inr (inr (omega (arith, full))) ];
    same = record { valid = IsReady-IsValid with_control-IsReady; kept = kept };
  }

  module _ (idle : is_port_in_use s 0x70 ≡ false) (g : Granted s 0x70 (request_port s 0x70)) where
    still : Holds (with_both s) (control s) 0x70
    still = request_port-Holds (with_control s) (control s) 0x70 0x71 with_control-IsReady g.0

    no_datum : Refused (with_control s) 0x71 (request_port (with_control s) 0x71) → NoDatum s
    no_datum (nothing, kept, why) = record {
      there = Holds-is_null (with_control s) (control s) 0x70 g.0;
      absent = ap is_null nothing;
      reason = elim why [
        | inl busy ↦ inr (inl (sym (g.1 0x71) ∙ busy))
        | inr full ↦ inr (inr (omega (arith, full, g.2)))
      ];
      same = record {
        valid = release_port-IsValid (control s) with_both-IsValid;
        kept = λ q.
            release_held (with_both s) (control s) 0x70 q with_both-IsValid still
            ∙ ground (arith, kept q, g.1 q, ==_iff 0x70 q);
      };
    }

    both_held :
        is_port_in_use (with_control s) 0x71 ≡ false
        → Granted (with_control s) 0x71 (request_port (with_control s) 0x71)
        → BothHeld s
    both_held idle' g' = record {
      there = Holds-is_null (with_control s) (control s) 0x70 g.0;
      there' = Holds-is_null (with_both s) (datum s) 0x71 g'.0;
      holds = still;
      holds' = g'.0;
      valid = with_both-IsValid;
      taken = λ q. g'.1 q ∙ ground (arith, g.1 q);
      idle = idle;
      idle' = sym (g.1 0x71) ∙ idle';
      counted = omega (arith, g.2, g'.2);
    }

    datum_requested : NoDatum s ⊎ BothHeld s
    datum_requested = elim (request_port_lem 0x71 (IsReady-IsValid with_control-IsReady)) [
      | inl (idle', g') ↦ inr (both_held idle' g')
      | inr refused ↦ inl (no_datum refused)
    ]

  -- The three outcomes of the two requests.
  pub both_requested : NoControl s ⊎ NoDatum s ⊎ BothHeld s
  both_requested = elim (request_port_lem 0x70 valid) [
    | inl (idle, g) ↦ inr (datum_requested idle g)
    | inr refused ↦ inl (no_control refused)
  ]
