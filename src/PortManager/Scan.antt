-- ===== src/PortManager/Scan.antt =====
-- The two scans of the registry, and what a write to one handle does to them.
use shogun_os.Base.{
  ℕ, zero, suc, ◌+◌, ◌-◌, ◌≤◌, ◌<◌, ◌≡◌, refl, inl, inr, Bool-cases, true, false, not, ◌&&◌, ◌||◌,
  List, [], ◌∷◌, none, some, arith, ◌==◌, if◌then◌else◌, get_or, set, length, replicate,
}
use native.Mathlib.Nat.{sub_self, sub-zero}
use shogun_os.PortManager.{PortHandle, free_handle, taken, first_free, claim, reset_all}

-- No two handles in use carry one port.
abbrev pub Unique : List PortHandle → Type 0
Unique [] = Unit
Unique (h ∷ hs) = (h.in_use ≡ true → taken hs h.port ≡ false) × Unique hs

abbrev pub AllFree : List PortHandle → Type 0
AllFree [] = Unit
AllFree (h ∷ hs) = (h.in_use ≡ false) × AllFree hs

-- How many handles are in use.
unfoldable pub used : List PortHandle → ℕ
used [] = 0
used (h ∷ hs) = (if h.in_use then 1 else 0) + used hs

pub taken-AllFree : (hs : List PortHandle) (p : ℕ) → AllFree hs → taken hs p ≡ false
unfolding taken
taken-AllFree [] p a = refl
taken-AllFree (h ∷ hs) p a = ground (arith, taken-AllFree hs p)

pub reset_all-AllFree : (hs : List PortHandle) → AllFree (reset_all hs)
unfolding reset_all
reset_all-AllFree [] = tt
reset_all-AllFree (h ∷ hs) = (refl, reset_all-AllFree hs)

pub length-reset_all : (hs : List PortHandle) → length (reset_all hs) ≡ length hs
unfolding reset_all
length-reset_all [] = refl
length-reset_all (h ∷ hs) = omega (arith, length-reset_all hs)

pub replicate-AllFree : (n : ℕ) → AllFree (replicate n free_handle)
replicate-AllFree zero = tt
replicate-AllFree (suc n) = (refl, replicate-AllFree n)

pub AllFree-at :
    (hs : List PortHandle) (k : ℕ) → AllFree hs → (get_or hs k free_handle).in_use ≡ false
AllFree-at [] k a = refl
AllFree-at (h ∷ hs) zero a = a.0
AllFree-at (h ∷ hs) (suc k) a = AllFree-at hs k a.1

pub AllFree-Unique : (hs : List PortHandle) → AllFree hs → Unique hs
AllFree-Unique [] a = tt
AllFree-Unique (h ∷ hs) a = (λ e. ground (arith), AllFree-Unique hs a.1)

-- The index that the second loop finds is in range and free.
first_free_at :
    (hs : List PortHandle) (i : ℕ) {j : ℕ}
    → first_free hs i ≡ some j
    → (i ≤ j) × (j < i + length hs) × ((get_or hs (j - i) free_handle).in_use ≡ false)
unfolding first_free
first_free_at [] i e = ground arith
first_free_at (h ∷ hs) i {j} e = elim (Bool-cases h.in_use) [
  | inl busy ↦ first_free_after h hs i j (first_free_at hs (i + 1) (rw busy at e))
  | inr free ↦
      let here : i ≡ j = ground arith in (omega arith, omega arith, rw (← here, sub_self) free)
]
  where
    first_free_after :
        (h : PortHandle) (hs : List PortHandle) (i j : ℕ)
        → (i + 1 ≤ j)
          × (j < i + 1 + length hs)
          × ((get_or hs (j - (i + 1)) free_handle).in_use ≡ false)
        → (i ≤ j)
          × (j < i + length (h ∷ hs))
          × ((get_or (h ∷ hs) (j - i) free_handle).in_use ≡ false)
    first_free_after h hs i j (lo, hi, free) =
        let e : j - i ≡ suc (j - (i + 1)) = omega arith in (omega arith, omega arith, rw e free)

pub first_free_zero :
    (hs : List PortHandle) {k : ℕ}
    → first_free hs 0 ≡ some k
    → (k < length hs) × ((get_or hs k free_handle).in_use ≡ false)
first_free_zero hs {k} e =
    let (_, b, f) = first_free_at hs 0 e in (omega (arith, b), rw (sub-zero k) at f)

-- There is none only when every handle is in use.
pub first_free_none : (hs : List PortHandle) (i : ℕ) → first_free hs i ≡ none → used hs ≡ length hs
unfolding first_free used
first_free_none [] i e = refl
first_free_none (h ∷ hs) i e = ground (arith, first_free_none hs (i + 1))

-- A handle taken over for `p` adds `p` to the ports that the scan finds, and nothing else.
pub taken-claim :
    (hs : List PortHandle) (k p q : ℕ)
    → k < length hs
    → (get_or hs k free_handle).in_use ≡ false
    → taken (set hs k (claim p (get_or hs k free_handle))) q ≡ ((p == q) || taken hs q)
unfolding taken claim
taken-claim [] k p q b f = absurd (omega arith)
taken-claim (h ∷ hs) zero p q b f = ground arith
taken-claim (h ∷ hs) (suc k) p q b f = ground (arith, taken-claim hs k p q)

pub Unique-claim :
    (hs : List PortHandle) (k p : ℕ)
    → k < length hs
    → (get_or hs k free_handle).in_use ≡ false
    → taken hs p ≡ false
    → Unique hs
    → Unique (set hs k (claim p (get_or hs k free_handle)))
unfolding taken claim
Unique-claim [] k p b f t u = absurd (omega arith)
Unique-claim (h ∷ hs) zero p b f t u = (λ _. ground arith, u.1)
Unique-claim (h ∷ hs) (suc k) p b f t u = (
  λ e. ground (arith, taken-claim hs k p h.port, u.0 e),
  Unique-claim hs k p (omega arith) f (ground arith) u.1,
)

pub used-claim :
    (hs : List PortHandle) (k p : ℕ)
    → k < length hs
    → (get_or hs k free_handle).in_use ≡ false
    → used (set hs k (claim p (get_or hs k free_handle))) ≡ used hs + 1
unfolding used claim
used-claim [] k p b f = absurd (omega arith)
used-claim (h ∷ hs) zero p b f = ground arith
used-claim (h ∷ hs) (suc k) p b f = omega (arith, used-claim hs k p (omega arith) f)

-- A handle in use is found by the scan for its port.
pub taken_at :
    (hs : List PortHandle) (k : ℕ)
    → k < length hs
    → (get_or hs k free_handle).in_use ≡ true
    → taken hs (get_or hs k free_handle).port ≡ true
unfolding taken
taken_at [] k b e = absurd (omega arith)
taken_at (h ∷ hs) zero b e = ground arith
taken_at (h ∷ hs) (suc k) b e = ground (arith, taken_at hs k (omega arith) e)

-- Freeing a handle in use takes exactly its port off, since no other handle carries it.
pub taken-free :
    (hs : List PortHandle) (k q : ℕ)
    → k < length hs
    → (get_or hs k free_handle).in_use ≡ true
    → Unique hs
    → taken (set hs k (record (get_or hs k free_handle) { in_use = false })) q
      ≡ (not ((get_or hs k free_handle).port == q) && taken hs q)
unfolding taken
taken-free [] k q b e u = absurd (omega arith)
taken-free (h ∷ hs) zero q b e u = ground (arith, u.0 e)
taken-free (h ∷ hs) (suc k) q b e u = ground (arith, taken-free hs k q, taken_at hs k)

pub Unique-free :
    (hs : List PortHandle) (k : ℕ)
    → k < length hs
    → (get_or hs k free_handle).in_use ≡ true
    → Unique hs
    → Unique (set hs k (record (get_or hs k free_handle) { in_use = false }))
Unique-free [] k b e u = absurd (omega arith)
Unique-free (h ∷ hs) zero b e u = (λ f. cc f, u.1)
Unique-free (h ∷ hs) (suc k) b e u =
    (λ f. ground (arith, taken-free hs k h.port, u.0 f), Unique-free hs k (omega arith) e u.1)

pub used-free :
    (hs : List PortHandle) (k : ℕ)
    → k < length hs
    → (get_or hs k free_handle).in_use ≡ true
    → used (set hs k (record (get_or hs k free_handle) { in_use = false })) + 1 ≡ used hs
unfolding used
used-free [] k b e = absurd (omega arith)
used-free (h ∷ hs) zero b e = ground arith
used-free (h ∷ hs) (suc k) b e = omega (arith, used-free hs k (omega arith) e)

pub used-AllFree : (hs : List PortHandle) → AllFree hs → used hs ≡ 0
unfolding used
used-AllFree [] a = refl
used-AllFree (h ∷ hs) a = ground (arith, used-AllFree hs)
