-- ===== src/Terminal/Clear.antt =====
-- What clearing the terminal of src/terminal.c leaves on the screen.
use shogun_os.Base.{
  ℕ, zero, suc, ◌+◌, ◌*◌, ◌≤◌, ◌<◌, ◌≡◌, refl, ◌∙◌, ◌&&◌, List, ltb, leb, if◌then◌else◌, get_or,
  set, length, length-set, get_or-set, arith, true,
}
use shogun_os.Terminal.{Terminal, cell_of, put_char, clear_cells, clear_rows, clear_terminal}
use shogun_os.Terminal.Cursor.{IsValid}

-- The cells from `lo` below `hi` are blank, the others as they were.
abbrev blanked : (color lo hi : ℕ) → List ℕ → ℕ → ℕ
blanked color lo hi buffer i =
    if leb lo i && ltb i hi then cell_of b' ' color else get_or buffer i 0

length-clear_cells : (color y x n : ℕ) (b : List ℕ) → length (clear_cells color y x n b) ≡ length b
unfolding clear_cells put_char
length-clear_cells color y x zero b = refl
length-clear_cells color y x (suc n) b =
    length-clear_cells color y (x + 1) n _ ∙ length-set b (y * 80 + x) (cell_of b' ' color)

length-clear_rows : (color y n : ℕ) (b : List ℕ) → length (clear_rows color y n b) ≡ length b
unfolding clear_rows
length-clear_rows color y zero b = refl
length-clear_rows color y (suc n) b =
    length-clear_rows color (y + 1) n _ ∙ length-clear_cells color y 0 80 b

clear_cells_lem :
    (color y x n : ℕ) (b : List ℕ) (i : ℕ)
    → y * 80 + x + n ≤ length b
    → get_or (clear_cells color y x n b) i 0 ≡ blanked color (y * 80 + x) (y * 80 + x + n) b i
unfolding clear_cells put_char
clear_cells_lem color y x zero b i h = ground arith
clear_cells_lem color y x (suc n) b i h =
    let s = y * 80 + x in
    let v = cell_of b' ' color in
    let room : y * 80 + (x + 1) + n ≤ length (set b s v) = omega (arith, h, length-set b s v) in
    clear_cells_lem color y (x + 1) n (set b s v) i room
    ∙ ground (arith, get_or-set b s i v 0 (omega (arith, h)))

clear_rows_lem :
    (color y n : ℕ) (b : List ℕ) (i : ℕ)
    → (y + n) * 80 ≤ length b
    → get_or (clear_rows color y n b) i 0 ≡ blanked color (y * 80) ((y + n) * 80) b i
unfolding clear_rows
clear_rows_lem color y zero b i h = ground arith
clear_rows_lem color y (suc n) b i h =
    let b1 = clear_cells color y 0 80 b in
    let room : (y + 1 + n) * 80 ≤ length b1 = omega (arith, h, length-clear_cells color y 0 80 b) in
    clear_rows_lem color (y + 1) n b1 i room
    ∙ ground (arith, clear_cells_lem color y 0 80 b i (omega (arith, h)))

-- On a buffer of 2000 cells, wherever the cursor was, clearing leaves each cell a space in the
-- terminal's colour and a valid terminal with the cursor on the first cell.
pub clear_terminal_lem :
    (t : Terminal) (i : ℕ)
    → length t.vga_buffer ≡ 2000
    → i < 2000
    → (get_or (clear_terminal t).vga_buffer i 0 ≡ cell_of b' ' t.terminal_color)
      × ((clear_terminal t).terminal_row ≡ 0)
      × ((clear_terminal t).terminal_column ≡ 0)
      × IsValid (clear_terminal t)
unfolding clear_terminal
clear_terminal_lem t i size inside =
    let inner : (leb (0 * 80) i && ltb i ((0 + 25) * 80)) ≡ true = ground arith in
    (
      clear_rows_lem t.terminal_color 0 25 t.vga_buffer i (omega (arith, size)) ∙ rw inner refl,
      refl,
      refl,
      record {
        size = length-clear_rows t.terminal_color 0 25 t.vga_buffer ∙ size;
        row = omega arith;
        column = omega arith;
      },
    )
