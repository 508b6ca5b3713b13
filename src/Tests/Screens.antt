-- ===== src/Tests/Screens.antt =====
-- The terminal on a blank screen, in front of its last cell.
use shogun_os.Base.{ℕ, ◌+◌, ◌≡◌, arith, replicate, length-replicate, ltb, if◌then◌else◌, get_or}
use shogun_os.Terminal.{Terminal, cell_of, terminal_put_char}
use shogun_os.Terminal.Cursor.{IsValid, cursor, written, terminal_put_char_lem}

abbrev last_cell : Terminal
last_cell = record {
  vga_buffer = replicate 2000 0x0F20;
  terminal_row = 24;
  terminal_column = 79;
  terminal_color = 0x0F;
}

last_cell-IsValid : IsValid last_cell
last_cell-IsValid = record {
  size = length-replicate {A = ℕ} 2000 0x0F20;
  row = omega arith;
  column = omega arith;
}

terminal_put_char_lem_example :
    (cursor (terminal_put_char b'A' last_cell)
      ≡ (if ltb (cursor last_cell + 1) 2000 then cursor last_cell + 1 else 1920))
    × (get_or (terminal_put_char b'A' last_cell).vga_buffer 1919 0 ≡ (
        if ltb (cursor last_cell + 1) 2000
        then written b'A' last_cell 1919
        else if ltb 1919 1920
        then written b'A' last_cell (1919 + 80)
        else cell_of b' ' last_cell.terminal_color))
terminal_put_char_lem_example =
    terminal_put_char_lem b'A' last_cell 1919 last_cell-IsValid (omega arith) (omega arith)
