-- ===== src/Memory/Place.antt =====
-- One round of the search: where a block is placed in a free segment.
use shogun_os.Base.{
  ℕ, ◌+◌, ◌-◌, ◌/◌, ◌%◌, ◌^◌, ◌≤◌, ◌<◌, ◌≡◌, ◌≢◌, none, some, bit_and, arith, add32, sub32, not32,
  ◌∙◌,
}
use shogun_os.Base.Bits.{bit_and_low, bit_and_shifted}
use shogun_os.Memory.{Placed, place}

-- `x & ~7` clears the last three bits.
pub mask_eight : (x : ℕ) → x < 2 ^ 32 → bit_and x (not32 (sub32 8 1)) ≡ x - x % 8
mask_eight x h = bit_and_shifted 3 x (2 ^ 29 - 1) ∙ omega (arith, bit_and_low 29 (x / 8))

-- What a placement in the segment `a` of `n` bytes means: the block is aligned, lies in the
-- segment behind its header, and is as large as asked for; the header is the word before it.
pub record Fits (a n size : ℕ) (p : Placed) : Type 0 where
  pub aligned : p.aligned_data_ptr % 8 ≡ 0
  pub header : p.header_ptr + 4 ≡ p.aligned_data_ptr
  pub low : a + 8 ≤ p.header_ptr
  pub high : p.aligned_data_ptr + size ≤ a + 8 + n
  pub full : p.full_alloc_size + p.header_ptr ≡ a + 8 + n
  pub within : p.full_alloc_size ≤ n

pub place-Fits :
    (a n size : ℕ) {p : Placed}
    → a + 8 + n < 2 ^ 32
    → size ≤ a + n
    → place a n size 8 ≡ some p
    → Fits a n size p
unfolding place
place-Fits a n size {p} b small e = ground (arith, mask_eight (sub32 (add32 (add32 a 8) n) size))

-- A segment with room to spare serves the request, and something of it is left.
pub place-ne-none :
    (a n size : ℕ) → 4 ≤ size → size + 20 ≤ n → a + 12 + n < 2 ^ 32 → place a n size 8 ≢ none
unfolding place
place-ne-none a n size lo hi fits e = ground (arith, mask_eight (sub32 (add32 (add32 a 8) n) size))

pub place_size :
    (a n size : ℕ) {p : Placed}
    → 4 ≤ size
    → size + 20 ≤ n
    → a + 12 + n < 2 ^ 32
    → place a n size 8 ≡ some p
    → (8 ≤ p.full_alloc_size) × (p.full_alloc_size < n)
unfolding place
place_size a n size lo hi fits e = ground (arith, mask_eight (sub32 (add32 (add32 a 8) n) size))

-- A request of nearly 2^32 bytes wraps: `segment_end - size` lies behind the end of the segment,
-- and any segment serves it with the empty block at its end.
pub place_wraps :
    (a n k : ℕ)
    → (a + 8 + n) % 8 ≡ 0
    → a + 8 + n < 2 ^ 32 - 8
    → 4 ≤ n
    → 0 < k
    → k < 8
    → place a n (2 ^ 32 - k) 8
      ≡ some (record { aligned_data_ptr = a + 8 + n; header_ptr = a + 4 + n; full_alloc_size = 4 })
unfolding place
place_wraps a n k al fits room pos small =
    ground (arith, mask_eight (sub32 (add32 (add32 a 8) n) (2 ^ 32 - k)))
