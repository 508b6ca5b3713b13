-- ===== src/Libc.antt =====
-- src/libc.c: the two routines on memory. Memory is a byte for each address.
pub mod Panic
use shogun_os.Base.{
  ℕ, zero, suc, ◌+◌, ◌-◌, ◌%◌, ◌^◌, ◌≤◌, ◌≡◌, ◌⊎◌, refl, ap, ◌∙◌, ◌&&◌, ltb, leb, ◌==◌,
  if◌then◌else◌, add32, arith,
}

abbrev store : (ℕ → ℕ) → (address value : ℕ) → ℕ → ℕ
store m address value x = if x == address then value else m x

-- The loop of `memset` from the byte `i` on, `n` bytes.
unfoldable pub memset_loop : (p value i n : ℕ) → (ℕ → ℕ) → ℕ → ℕ
memset_loop p value i zero m = m
memset_loop p value i (suc n) m =
    memset_loop p value (i + 1) n (store m (add32 p i) (value % 2 ^ 8))

-- The result, and the memory.
unfoldable pub memset : (p value num : ℕ) → (ℕ → ℕ) → ℕ × (ℕ → ℕ)
unfolding memset_loop
memset p value num m = (p, memset_loop p value 0 num m)

-- The loop of `memcpy`.
unfoldable pub memcpy_loop : (d s i n : ℕ) → (ℕ → ℕ) → ℕ → ℕ
memcpy_loop d s i zero m = m
memcpy_loop d s i (suc n) m = memcpy_loop d s (i + 1) n (store m (add32 d i) (m (add32 s i)))

unfoldable pub memcpy : (dest src num : ℕ) → (ℕ → ℕ) → ℕ × (ℕ → ℕ)
unfolding memcpy_loop
memcpy dest src num m = (dest, memcpy_loop dest src 0 num m)

memset_loop_lem :
    (p value i n x : ℕ) (m : ℕ → ℕ)
    → p + i + n ≤ 2 ^ 32
    → memset_loop p value i n m x
      ≡ (if leb (p + i) x && ltb x (p + i + n) then value % 2 ^ 8 else m x)
unfolding memset_loop
memset_loop_lem p value i zero x m h = ground arith
memset_loop_lem p value i (suc n) x m h =
    let at : add32 p i ≡ p + i = omega (arith, h) in
    memset_loop_lem p value (i + 1) n x (store m (add32 p i) (value % 2 ^ 8)) (omega (arith, h))
    ∙ ground (arith, at)

-- In a range below the end of the address space, `memset` fills exactly the range with the low byte of
-- the value.
pub memset_lem :
    (p value num x : ℕ) (m : ℕ → ℕ)
    → p + num ≤ 2 ^ 32
    → ((memset p value num m).0 ≡ p)
      × ((memset p value num m).1 x ≡ (if leb p x && ltb x (p + num) then value % 2 ^ 8 else m x))
unfolding memset
memset_lem p value num x m h =
    (refl, memset_loop_lem p value 0 num x m (omega (arith, h)) ∙ ground arith)

memcpy_loop_lem :
    (d s i n x : ℕ) (m : ℕ → ℕ)
    → d + i + n ≤ 2 ^ 32
    → s + i + n ≤ 2 ^ 32
    → (d ≤ s) ⊎ (s + i + n ≤ d)
    → memcpy_loop d s i n m x
      ≡ (if leb (d + i) x && ltb x (d + i + n) then m (s + (x - d)) else m x)
unfolding memcpy_loop
memcpy_loop_lem d s i zero x m h h' apart = ground arith
memcpy_loop_lem d s i (suc n) x m h h' apart =
    let at : add32 d i ≡ d + i = omega (arith, h) in
    let from : add32 s i ≡ s + i = omega (arith, h') in
    let m' = store m (add32 d i) (m (add32 s i)) in
    let same : x ≡ d + i → m (add32 s i) ≡ m (s + (x - d)) =
      λ e. ap m {x = add32 s i} {y = s + (x - d)} (omega (arith, from, e)) in
    memcpy_loop_lem d s (i + 1) n x m' (omega (arith, h)) (omega (arith, h'))
      (ground (arith, apart))
    ∙ ground (arith, at, from, same, apart)

-- With both ranges below the end of the address space, `memcpy` gives each byte of the destination that
-- of the source before the call, and changes no other byte, provided that the destination does not
-- begin inside the source's range behind its start.
pub memcpy_lem :
    (dest src num x : ℕ) (m : ℕ → ℕ)
    → dest + num ≤ 2 ^ 32
    → src + num ≤ 2 ^ 32
    → (dest ≤ src) ⊎ (src + num ≤ dest)
    → ((memcpy dest src num m).0 ≡ dest)
      × ((memcpy dest src num m).1 x
          ≡ (if leb dest x && ltb x (dest + num) then m (src + (x - dest)) else m x))
unfolding memcpy
memcpy_lem dest src num x m h h' apart = (
  refl,
  memcpy_loop_lem dest src 0 num x m (omega (arith, h)) (omega (arith, h')) (ground (arith, apart))
      ∙ ground arith,
)
