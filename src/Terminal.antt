-- ===== src/Terminal.antt =====
-- src/terminal.c: the VGA text buffer and its cursor. A `char` is a byte; it is signed.
pub mod Scroll
pub mod Cursor
pub mod Clear
use shogun_os.Base.{
  ℕ, zero, suc, ◌+◌, ◌-◌, ◌*◌, ◌%◌, ◌^◌, ◌==◌, List, [], ◌∷◌, bit_or, ltb, leb, if◌then◌else◌,
  get_or, set,
}

abbrev pub vga_width : ℕ
vga_width = 80

abbrev pub vga_height : ℕ
vga_height = 25

pub record Terminal : Type 0 where
  pub vga_buffer : List ℕ
  pub terminal_row : ℕ
  pub terminal_column : ℕ
  pub terminal_color : ℕ

-- `(uint16_t)c`: the sign is extended.
abbrev pub char_to_u16 : ℕ → ℕ
char_to_u16 c = if ltb c 0x80 then c else c + 0xFF00

abbrev pub cell_of : (c color : ℕ) → ℕ
cell_of c color = bit_or (char_to_u16 c) (color * 2 ^ 8)

unfoldable pub put_char : (c color x y : ℕ) → List ℕ → List ℕ
put_char c color x y buffer = set buffer (y * vga_width + x) (cell_of c color)

-- The loop over the columns of one row, from `x` on, `n` of them.
unfoldable pub copy_cells : (y x n : ℕ) → List ℕ → List ℕ
copy_cells y x zero buffer = buffer
copy_cells y x (suc n) buffer =
    copy_cells y (x + 1) n
      (set buffer (y * vga_width + x) (get_or buffer ((y + 1) * vga_width + x) 0))

-- The loop over the rows, from `y` on, `n` of them.
unfoldable pub copy_rows : (y n : ℕ) → List ℕ → List ℕ
copy_rows y zero buffer = buffer
copy_rows y (suc n) buffer = copy_rows (y + 1) n (copy_cells y 0 vga_width buffer)

-- The loop that blanks the last row.
unfoldable pub blank_cells : (color x n : ℕ) → List ℕ → List ℕ
blank_cells color x zero buffer = buffer
blank_cells color x (suc n) buffer =
    blank_cells color (x + 1) n (set buffer ((vga_height - 1) * vga_width + x) (cell_of b' ' color))

unfoldable pub scroll_terminal : Terminal → Terminal
scroll_terminal t = record t {
  vga_buffer = blank_cells t.terminal_color 0 vga_width (copy_rows 0 (vga_height - 1) t.vga_buffer);
}

-- The row past the last one scrolls the buffer.
abbrev pub keep_on_screen : Terminal → Terminal
keep_on_screen t =
    if leb vga_height t.terminal_row
    then record (scroll_terminal t) { terminal_row = vga_height - 1 }
    else t

unfoldable pub terminal_put_cursor : Terminal → Terminal
terminal_put_cursor t =
    let column = (t.terminal_column + 1) % 2 ^ 8 in
    keep_on_screen (
      if leb vga_width column
      then record t { terminal_column = 0; terminal_row = (t.terminal_row + 1) % 2 ^ 8 }
      else record t { terminal_column = column })

unfoldable pub terminal_put_char : (c : ℕ) → Terminal → Terminal
terminal_put_char c t =
    if c == b'\n'
    then keep_on_screen
        (record t { terminal_column = 0; terminal_row = (t.terminal_row + 1) % 2 ^ 8 })
    else terminal_put_cursor (record t {
      vga_buffer = put_char c t.terminal_color t.terminal_column t.terminal_row t.vga_buffer;
    })

unfoldable pub write_string : (str : List ℕ) → Terminal → Terminal
write_string [] t = t
write_string (c ∷ cs) t = write_string cs (terminal_put_char c t)

-- The loop over the columns of row `y`, from `x` on, `n` of them.
unfoldable pub clear_cells : (color y x n : ℕ) → List ℕ → List ℕ
unfolding put_char
clear_cells color y x zero buffer = buffer
clear_cells color y x (suc n) buffer =
    clear_cells color y (x + 1) n (put_char b' ' color x y buffer)

-- The loop over the rows, from `y` on, `n` of them.
unfoldable pub clear_rows : (color y n : ℕ) → List ℕ → List ℕ
unfolding clear_cells
clear_rows color y zero buffer = buffer
clear_rows color y (suc n) buffer =
    clear_rows color (y + 1) n (clear_cells color y 0 vga_width buffer)

unfoldable pub clear_terminal : Terminal → Terminal
clear_terminal t = record t {
  vga_buffer = clear_rows t.terminal_color 0 vga_height t.vga_buffer;
  terminal_row = 0;
  terminal_column = 0;
}
