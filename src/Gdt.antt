-- ===== src/Gdt.antt =====
-- src/gdt.c and src/gdt.h: segment descriptors.
pub mod Report
use shogun_os.Base.{
  ℕ, ◌+◌, ◌*◌, ◌/◌, ◌%◌, ◌^◌, ◌<◌, ◌≡◌, refl, List, [], ◌∷◌, bit_and, bit_or, arith, ◌==◌, ==_iff,
  if◌then◌else◌, Bool, true, false,
}
use shogun_os.Base.Bits.{bit_and_low, bit_and_shifted, all_below, all_below_sound}

pub record GdtEntry : Type 0 where
  pub limit_low : ℕ
  pub base_low : ℕ
  pub base_mid : ℕ
  pub access_byte : ℕ
  pub limit_high_flags : ℕ
  pub base_high : ℕ

pub record AccessByteBuilder : Type 0 where
  pub flags : ℕ

-- `if (test) builder.flags |= bit;`
abbrev pub with_flag : (test bit : ℕ) → ℕ → ℕ
with_flag test bit flags = if test == 0 then flags else bit_or flags bit

unfoldable pub create_access_byte : (is_executable is_readable_writable dpl : ℕ) → AccessByteBuilder
create_access_byte is_executable is_readable_writable dpl =
    let flags = bit_or (bit_or 0x80 (bit_and (dpl * 2 ^ 5) 0x60 % 2 ^ 8)) 0x10 in
    record { flags = with_flag is_readable_writable 0x02 (with_flag is_executable 0x08 flags) }

abbrev pub access_byte_build : AccessByteBuilder → ℕ
access_byte_build builder = builder.flags

-- The fields that it writes into the entry, which are all of them.
unfoldable pub create_descriptor : (base limit access_byte flags : ℕ) → GdtEntry
create_descriptor base limit access_byte flags = record {
  base_low = bit_and base 0xFFFF % 2 ^ 16;
  base_mid = bit_and (base / 2 ^ 16) 0xFF % 2 ^ 8;
  base_high = bit_and (base / 2 ^ 24) 0xFF % 2 ^ 8;
  limit_low = bit_and limit 0xFFFF % 2 ^ 16;
  limit_high_flags = bit_or (bit_and (limit / 2 ^ 16) 0x0F % 2 ^ 8) (bit_and flags 0xF0);
  access_byte = access_byte;
}

-- The table that `gdt_init` loads.
unfoldable pub gdt_init : List GdtEntry
unfolding create_access_byte create_descriptor
gdt_init =
    record {
      limit_low = 0;
      base_low = 0;
      base_mid = 0;
      access_byte = 0;
      limit_high_flags = 0;
      base_high = 0;
    }
    ∷ create_descriptor 0 0xFFFFF (access_byte_build (create_access_byte 1 1 0)) 0xCF
    ∷ create_descriptor 0 0xFFFFF (access_byte_build (create_access_byte 0 1 0)) 0xCF
    ∷ []

-- What the processor reads from a descriptor.
pub base_of : GdtEntry → ℕ
base_of e = e.base_high * 2 ^ 24 + e.base_mid * 2 ^ 16 + e.base_low

pub limit_of : GdtEntry → ℕ
limit_of e = (e.limit_high_flags % 2 ^ 4) * 2 ^ 16 + e.limit_low

pub flags_of : GdtEntry → ℕ
flags_of e = e.limit_high_flags / 2 ^ 4

-- Two parts of a byte, the upper one a multiple of 16.
joined : ℕ → ℕ → Bool
joined q r = bit_or r (q * 2 ^ 4) == q * 2 ^ 4 + r

joined_lem : (q r : ℕ) → q < 16 → r < 16 → bit_or r (q * 2 ^ 4) ≡ q * 2 ^ 4 + r
unfolding joined all_below
joined_lem q r hq hr = (==_iff _ _).0 (
    all_below_sound 16 (joined q) r (all_below_sound 16 (λ x. all_below 16 (joined x)) q refl hq)
      hr)

high_flags :
    (limit flags : ℕ)
    → bit_or (bit_and (limit / 2 ^ 16) 0x0F % 2 ^ 8) (bit_and flags 0xF0)
      ≡ (flags / 2 ^ 4 % 2 ^ 4) * 2 ^ 4 + (limit / 2 ^ 16) % 2 ^ 4
high_flags limit flags =
    let low : bit_and (limit / 2 ^ 16) 0x0F % 2 ^ 8 ≡ (limit / 2 ^ 16) % 2 ^ 4 =
      omega (arith, bit_and_low 4 (limit / 2 ^ 16)) in
    let high : bit_and flags 0xF0 ≡ (flags / 2 ^ 4 % 2 ^ 4) * 2 ^ 4 =
      omega (arith, bit_and_shifted 4 flags 15, bit_and_low 4 (flags / 2 ^ 4)) in
    rw (low, high)
      (joined_lem (flags / 2 ^ 4 % 2 ^ 4) ((limit / 2 ^ 16) % 2 ^ 4) (omega arith) (omega arith))

-- When base, limit and flags fit 32, 20 and 8 bits, the processor reads from the descriptor the
-- base, the limit, the upper four flags and the access byte that it was made of.
pub create_descriptor_lem :
    (base limit access_byte flags : ℕ)
    → base < 2 ^ 32
    → limit < 2 ^ 20
    → flags < 2 ^ 8
    → (base_of (create_descriptor base limit access_byte flags) ≡ base)
      × (limit_of (create_descriptor base limit access_byte flags) ≡ limit)
      × (flags_of (create_descriptor base limit access_byte flags) ≡ flags / 2 ^ 4)
      × ((create_descriptor base limit access_byte flags).access_byte ≡ access_byte)
unfolding create_descriptor base_of limit_of flags_of
create_descriptor_lem base limit access_byte flags hb hl hf =
    let high = high_flags limit flags in
    (
      omega (
        arith,
        bit_and_low 16 base,
        bit_and_low 8 (base / 2 ^ 16),
        bit_and_low 8 (base / 2 ^ 24),
      ),
      omega (arith, high, bit_and_low 16 limit),
      omega (arith, high),
      refl,
    )

-- The access byte by the two tests, and its expected value.
abbrev flags_made : (data_only read_only : Bool) (dpl : ℕ) → ℕ
flags_made data_only read_only dpl =
    let flags = bit_or (bit_or 0x80 (bit_and (dpl * 2 ^ 5) 0x60 % 2 ^ 8)) 0x10 in
    let code = if data_only then flags else bit_or flags 0x08 in
    if read_only then code else bit_or code 0x02

abbrev flags_meant : (data_only read_only : Bool) (dpl : ℕ) → ℕ
flags_meant data_only read_only dpl =
    0x90 + dpl * 0x20 + (if data_only then 0 else 0x08) + (if read_only then 0 else 0x02)

flags_agree : (data_only read_only : Bool) (dpl : ℕ) → Bool
flags_agree data_only read_only dpl =
    flags_made data_only read_only dpl == flags_meant data_only read_only dpl

flags_made_lem :
    (data_only read_only : Bool) (dpl : ℕ)
    → dpl < 4
    → flags_made data_only read_only dpl ≡ flags_meant data_only read_only dpl
unfolding flags_agree all_below
flags_made_lem true true dpl h =
    (==_iff _ _).0 (all_below_sound 4 (flags_agree true true) dpl refl h)
flags_made_lem true false dpl h =
    (==_iff _ _).0 (all_below_sound 4 (flags_agree true false) dpl refl h)
flags_made_lem false true dpl h =
    (==_iff _ _).0 (all_below_sound 4 (flags_agree false true) dpl refl h)
flags_made_lem false false dpl h =
    (==_iff _ _).0 (all_below_sound 4 (flags_agree false false) dpl refl h)

-- For each of the four privilege levels, the access byte is that of a present code or data segment
-- with the level in bits 5 and 6 and the two bits that were asked for.
pub create_access_byte_lem :
    (is_executable is_readable_writable dpl : ℕ)
    → dpl < 4
    → access_byte_build (create_access_byte is_executable is_readable_writable dpl)
      ≡ 0x90
        + dpl * 0x20
        + (if is_executable == 0 then 0 else 0x08)
        + (if is_readable_writable == 0 then 0 else 0x02)
unfolding create_access_byte
create_access_byte_lem is_executable is_readable_writable dpl h =
    flags_made_lem (is_executable == 0) (is_readable_writable == 0) dpl h
