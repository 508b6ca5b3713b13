-- ===== src/Terminal/Scroll.antt =====
-- What scrolling does to the cells of the VGA buffer.
use shogun_os.Base.{
  ℕ, zero, suc, ◌+◌, ◌*◌, ◌≤◌, ◌<◌, ◌≡◌, refl, ap, ◌∙◌, ◌&&◌, Bool-cases, inl, inr, List, ltb, leb,
  if◌then◌else◌, get_or, set, length, length-set, get_or-set, arith, ◌==◌, ==_iff,
}
use shogun_os.Terminal.{Terminal, cell_of, copy_cells, copy_rows, blank_cells, scroll_terminal}

-- The cells from `lo` below `hi` hold what was one row further on.
abbrev moved : (lo hi : ℕ) → List ℕ → ℕ → ℕ
moved lo hi buffer i = if leb lo i && ltb i hi then get_or buffer (i + 80) 0 else get_or buffer i 0

length-copy_cells : (y x n : ℕ) (b : List ℕ) → length (copy_cells y x n b) ≡ length b
unfolding copy_cells
length-copy_cells y x zero b = refl
length-copy_cells y x (suc n) b =
    length-copy_cells y (x + 1) n _ ∙ length-set b (y * 80 + x) (get_or b ((y + 1) * 80 + x) 0)

length-copy_rows : (y n : ℕ) (b : List ℕ) → length (copy_rows y n b) ≡ length b
unfolding copy_rows
length-copy_rows y zero b = refl
length-copy_rows y (suc n) b =
    length-copy_rows (y + 1) n (copy_cells y 0 80 b) ∙ length-copy_cells y 0 80 b

length-blank_cells : (color x n : ℕ) (b : List ℕ) → length (blank_cells color x n b) ≡ length b
unfolding blank_cells
length-blank_cells color x zero b = refl
length-blank_cells color x (suc n) b =
    length-blank_cells color (x + 1) n _ ∙ length-set b (24 * 80 + x) (cell_of b' ' color)

-- One cell more, when `a` and `c` are what the cell `i` would get, or keep.
shift_step :
    (s n i a c v : ℕ)
    → (s ≡ i → v ≡ a)
    → (if leb (s + 1) i && ltb i (s + 1 + n)
        then (if s == i + 80 then v else a)
        else (if s == i then v else c))
      ≡ (if leb s i && ltb i (s + suc n) then a else c)
shift_step s n i a c v same = elim (Bool-cases (s == i)) [
  | inl here ↦ ground (arith, same ((==_iff s i).0 here))
  | inr elsewhere ↦ ground arith
]

copy_cells_lem :
    (y x n : ℕ) (b : List ℕ) (i : ℕ)
    → y * 80 + x + n ≤ length b
    → get_or (copy_cells y x n b) i 0 ≡ moved (y * 80 + x) (y * 80 + x + n) b i
unfolding copy_cells
copy_cells_lem y x zero b i h = ground arith
copy_cells_lem y x (suc n) b i h =
    let s = y * 80 + x in
    let v = get_or b ((y + 1) * 80 + x) 0 in
    let b' = set b s v in
    let room : s + 1 + n ≤ length b' = omega (arith, length-set b s v) in
    let from_here : y * 80 + (x + 1) ≡ s + 1 = omega arith in
    let source : (y + 1) * 80 + x ≡ s + 80 = omega arith in
    let next : get_or (copy_cells y (x + 1) n b') i 0 ≡ moved (s + 1) (s + 1 + n) b' i =
      rw⁻¹ from_here (copy_cells_lem y (x + 1) n b' i (rw from_here room)) in
    let here = get_or-set b s i v 0 (omega (arith, h)) in
    let below = get_or-set b s (i + 80) v 0 (omega (arith, h)) in
    next
    ∙ rw (here, below)
        (shift_step s n i (get_or b (i + 80) 0) (get_or b i 0) v
          (λ e. ap (λ k. get_or b k 0) (source ∙ ap (λ k. k + 80) e)))

copy_rows_lem :
    (y n : ℕ) (b : List ℕ) (i : ℕ)
    → (y + n) * 80 ≤ length b
    → get_or (copy_rows y n b) i 0 ≡ moved (y * 80) ((y + n) * 80) b i
unfolding copy_rows
copy_rows_lem y zero b i h = ground arith
copy_rows_lem y (suc n) b i h =
    let b' = copy_cells y 0 80 b in
    let row_end : y * 80 + 0 + 80 ≡ (y + 1) * 80 = omega arith in
    let row = copy_cells_lem y 0 80 b in
    let next = copy_rows_lem (y + 1) n b' i (omega (arith, h, length-copy_cells y 0 80 b)) in
    next ∙ ground (arith, row i (omega (arith, h)), row (i + 80) (omega (arith, h)))

blank_step :
    (x n i a c : ℕ)
    → (if leb (1920 + (x + 1)) i && ltb i (1920 + (x + 1) + n)
        then a
        else (if 1920 + x == i then a else c))
      ≡ (if leb (1920 + x) i && ltb i (1920 + x + suc n) then a else c)
blank_step x n i a c = ground arith

blank_cells_lem :
    (color x n : ℕ) (b : List ℕ) (i : ℕ)
    → 1920 + x + n ≤ length b
    → get_or (blank_cells color x n b) i 0
      ≡ (if leb (1920 + x) i && ltb i (1920 + x + n) then cell_of b' ' color else get_or b i 0)
unfolding blank_cells
blank_cells_lem color x zero b i h = ground arith
blank_cells_lem color x (suc n) b i h =
    let b' = set b (1920 + x) (cell_of b' ' color) in
    let room : 1920 + (x + 1) + n ≤ length b' =
      omega (arith, h, length-set b (1920 + x) (cell_of b' ' color)) in
    blank_cells_lem color (x + 1) n b' i room
    ∙ rw (get_or-set b (1920 + x) i (cell_of b' ' color) 0 (omega (arith, h)))
        (blank_step x n i (cell_of b' ' color) (get_or b i 0))

-- On a buffer of 2000 cells, scrolling moves every row up by one and blanks the last one in the
-- terminal's colour.
pub scroll_terminal_lem :
    (t : Terminal) (i : ℕ)
    → length t.vga_buffer ≡ 2000
    → i < 2000
    → get_or (scroll_terminal t).vga_buffer i 0
      ≡ (if ltb i 1920 then get_or t.vga_buffer (i + 80) 0 else cell_of b' ' t.terminal_color)
unfolding scroll_terminal
scroll_terminal_lem t i size inside =
    let rows = copy_rows 0 24 t.vga_buffer in
    let upper = copy_rows_lem 0 24 t.vga_buffer i (omega (arith, size)) in
    let last =
      blank_cells_lem t.terminal_color 0 80 rows i
        (omega (arith, size, length-copy_rows 0 24 t.vga_buffer)) in
    last ∙ ground (arith, upper)

pub scroll_terminal-length :
    (t : Terminal) → length (scroll_terminal t).vga_buffer ≡ length t.vga_buffer
unfolding scroll_terminal
scroll_terminal-length t =
    length-blank_cells t.terminal_color 0 80 _ ∙ length-copy_rows 0 24 t.vga_buffer
