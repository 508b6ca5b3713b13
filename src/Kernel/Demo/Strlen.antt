-- ===== src/Kernel/Demo/Strlen.antt =====
-- The length of a string in memory, of src/kernel.c.
use shogun_os.Base.{
  ℕ, zero, suc, ◌+◌, ◌<◌, ◌≡◌, ◌≢◌, refl, ap, ◌∙◌, false, some, List, [], ◌∷◌, ◌==◌, length, add32,
  u32_mod, arith,
}
use shogun_os.Kernel.Demo.{my_strlen_loop, my_strlen}

-- From an address on the memory holds the characters of a text, none of which is NUL, and then a NUL.
abbrev pub Spells : (ℕ → ℕ) → ℕ → List ℕ → Type 0
Spells memory p [] = memory p ≡ 0
Spells memory p (c ∷ cs) = (memory p ≡ c) × (c ≢ 0) × Spells memory (p + 1) cs

my_strlen_loop_lem :
    (fuel : ℕ) (memory : ℕ → ℕ) (str len : ℕ) (text : List ℕ)
    → length text < fuel
    → str + len + length text < u32_mod
    → Spells memory (str + len) text
    → my_strlen_loop fuel memory str len ≡ some (len + length text)
unfolding my_strlen_loop
my_strlen_loop_lem zero memory str len text enough room spells = absurd (omega arith)
my_strlen_loop_lem (suc fuel) memory str len [] enough room spells =
    let at : add32 str len ≡ str + len = omega arith in
    let none_left : len + 0 ≡ len = omega arith in rw (my_strlen_loop, at, spells, none_left) refl
my_strlen_loop_lem (suc fuel) memory str len (c ∷ cs) enough room (here, nz, spells) =
    let at : add32 str len ≡ str + len = omega arith in
    let more : (memory (str + len) == 0) ≡ false = ground arith in
    let next : add32 len 1 ≡ len + 1 = omega arith in
    let there : str + (len + 1) ≡ str + len + 1 = omega arith in
    let whole : len + suc (length cs) ≡ len + 1 + length cs = omega arith in
    rw (my_strlen_loop, at, more, next, whole)
      (my_strlen_loop_lem fuel memory str (len + 1) cs (omega arith) (omega arith)
        (rw there spells))

-- When the memory holds a text and its NUL from an address on, below the end of the address space, and
-- with more fuel than the text has characters, `my_strlen` returns the length of the text.
pub my_strlen_lem :
    (fuel : ℕ) (memory : ℕ → ℕ) (str : ℕ) (text : List ℕ)
    → length text < fuel
    → str + length text < u32_mod
    → Spells memory str text
    → my_strlen fuel memory str ≡ some (length text)
unfolding my_strlen
my_strlen_lem fuel memory str text enough room spells =
    let at : str + 0 ≡ str = omega arith in
    my_strlen_loop_lem fuel memory str 0 text enough (omega arith) (rw at spells)
    ∙ ap some (omega arith)
