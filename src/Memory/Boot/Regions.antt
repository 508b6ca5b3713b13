-- ===== src/Memory/Boot/Regions.antt =====
-- The memory map that src/memory.c searches, as a list of entries, and its usable regions.
use shogun_os.Base.{
  ℕ, zero, suc, ◌≤◌, ◌<◌, ◌≡◌, ◌⊎◌, inl, inr, refl, ◌∙◌, true, false, ◌&&◌, some, List, [], ◌∷◌,
  ltb, leb, ◌==◌, add32, length, arith, Bool-cases,
}
use shogun_os.Memory.Boot.{
  Region, heap_size, entry_size, base_addr_low, length_low, entry_type, consider, scan_regions,
}

-- The map from `current` to `end` has its entries at these addresses: each lies inside, and its size
-- field leads to the next.
abbrev pub MapFrom : (ℕ → ℕ) → (end current : ℕ) → List ℕ → Type 0
MapFrom w end current [] = end ≤ current
MapFrom w end current (e ∷ es) =
    (e ≡ current)
    × (current < end)
    × MapFrom w end (add32 current (add32 (entry_size w current) 4)) es

-- Memory that may be used, and enough of it for a heap.
abbrev pub IsUsable : (ℕ → ℕ) → ℕ → Type 0
IsUsable w e = (entry_type w e ≡ 1) × (heap_size ≤ length_low w e)

-- No usable entry is longer.
abbrev pub Bounded : (ℕ → ℕ) → List ℕ → ℕ → Type 0
Bounded w [] n = Unit
Bounded w (e ∷ es) n = (IsUsable w e → length_low w e ≤ n) × Bounded w es n

-- The region is that of a usable entry.
abbrev pub Found : (ℕ → ℕ) → List ℕ → Region → Type 0
Found w [] best = ⊥
Found w (e ∷ es) best =
    (IsUsable w e × (best ≡ record { addr = base_addr_low w e; size = length_low w e }))
    ⊎ Found w es best

-- The region that the search ends with, having started from `from`.
pub record Largest (w : ℕ → ℕ) (es : List ℕ) (from best : Region) : Type 0 where
  pub grows : from.size ≤ best.size
  pub bounded : Bounded w es best.size
  pub origin : (best ≡ from) ⊎ Found w es best

-- One entry.
record Considered (w : ℕ → ℕ) (e : ℕ) (from best : Region) : Type 0 where
  grows : from.size ≤ best.size
  bounded : IsUsable w e → length_low w e ≤ best.size
  origin :
      (best ≡ from)
      ⊎ (IsUsable w e × (best ≡ record { addr = base_addr_low w e; size = length_low w e }))

consider_lem : (w : ℕ → ℕ) (e : ℕ) (from : Region) → Considered w e from (consider w e from)
unfolding consider
consider_lem w e from =
    elim (Bool-cases ((entry_type w e == 1) && ltb from.size (length_low w e))) [
      | inl better ↦ elim (Bool-cases (leb heap_size (length_low w e))) [
        | inl large ↦
            rw (better, large)
              record {
                grows = ground arith;
                bounded = λ _. omega arith;
                origin = inr ((ground arith, ground arith), refl);
              }
        | inr small ↦
            rw (better, small)
              record {
                grows = omega arith;
                bounded = λ usable. ground (arith, usable.1);
                origin = inl refl;
              }
      ]
      | inr worse ↦ rw worse record {
        grows = omega arith;
        bounded = λ usable. ground (arith, usable.0);
        origin = inl refl;
      }
    ]

-- For a map with fewer entries than there is fuel, the search returns.
pub scan_regions_lem :
    (fuel : ℕ) (w : ℕ → ℕ) (end current : ℕ) (es : List ℕ) (from : Region)
    → MapFrom w end current es
    → length es < fuel
    → (best : Region) × (scan_regions fuel w end current from ≡ some best) × Largest w es from best
unfolding scan_regions
scan_regions_lem zero w end current es from m h = absurd (omega arith)
scan_regions_lem (suc fuel) w end current [] from m h =
    let stops : ltb current end ≡ false = ground arith in
    (
      from,
      rw (scan_regions, stops) refl,
      record { grows = omega arith; bounded = tt; origin = inl refl },
    )
scan_regions_lem (suc fuel) w end current (e ∷ es) from (at, inside, m) h =
    let goes_on : ltb current end ≡ true = ground arith in
    let c = consider_lem w current from in
    let (best, runs, l) =
      scan_regions_lem fuel w end (add32 current (add32 (entry_size w current) 4)) es
        (consider w current from) m (omega arith) in
    (
      best,
      rw (scan_regions, goes_on) runs,
      rw at record {
        grows = omega (arith, c.grows, l.grows);
        bounded = (λ usable. omega (arith, c.bounded usable, l.grows), l.bounded);
        origin = elim (l.origin) [
          | inr later ↦ inr (inr later)
          | inl same ↦ elim (c.origin) [
            | inl kept ↦ inl (same ∙ kept)
            | inr (usable, here) ↦ inr (inl (usable, same ∙ here))
          ]
        ];
      },
    )
