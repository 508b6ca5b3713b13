-- ===== src/Terminal/Cursor.antt =====
-- The cursor of the terminal of src/terminal.c, and what a character does to it.
use shogun_os.Base.{
  ℕ, ◌+◌, ◌*◌, ◌%◌, ◌^◌, ◌≤◌, ◌<◌, ◌≡◌, ◌≢◌, refl, ap, ◌∙◌, Bool-cases, true, false, inl, inr, ltb,
  leb, if◌then◌else◌, get_or, set, length, length-set, get_or-set, arith, ◌==◌,
}
use shogun_os.Terminal.{
  Terminal, vga_width, vga_height, cell_of, put_char, scroll_terminal, keep_on_screen,
  terminal_put_cursor, terminal_put_char,
}
use shogun_os.Terminal.Scroll.{scroll_terminal-length, scroll_terminal_lem}

pub record IsValid (t : Terminal) : Type 0 where
  pub size : length t.vga_buffer ≡ 2000
  pub row : t.terminal_row < vga_height
  pub column : t.terminal_column < vga_width

-- The row may be one past the end before the screen scrolls.
keep_on_screen-IsValid :
    (t : Terminal)
    → length t.vga_buffer ≡ 2000
    → t.terminal_row ≤ vga_height
    → t.terminal_column < vga_width
    → IsValid (keep_on_screen t)
unfolding scroll_terminal
keep_on_screen-IsValid t size row column = elim (Bool-cases (leb vga_height t.terminal_row)) [
  | inl past ↦
      rw past record { size = scroll_terminal-length t ∙ size; row = omega arith; column = column }
  | inr on ↦ rw on record { size = size; row = ground arith; column = column }
]

terminal_put_cursor-IsValid : (t : Terminal) → IsValid t → IsValid (terminal_put_cursor t)
unfolding terminal_put_cursor
terminal_put_cursor-IsValid t ok =
    elim (Bool-cases (leb vga_width ((t.terminal_column + 1) % 2 ^ 8))) [
      | inl wraps ↦ rw wraps (
          keep_on_screen-IsValid
            (record t { terminal_column = 0; terminal_row = (t.terminal_row + 1) % 2 ^ 8 }) ok.size
            (omega (arith, ok.row)) (omega arith))
      | inr fits ↦ rw fits (
          keep_on_screen-IsValid (record t { terminal_column = (t.terminal_column + 1) % 2 ^ 8 })
            ok.size (omega (arith, ok.row)) (ground arith))
    ]

-- A character keeps a terminal valid: the cursor on the screen of 25 rows and 80 columns, and the
-- buffer at 2000 cells.
pub terminal_put_char-IsValid : (c : ℕ) (t : Terminal) → IsValid t → IsValid (terminal_put_char c t)
unfolding terminal_put_char put_char
terminal_put_char-IsValid c t ok = elim (Bool-cases (c == b'\n')) [
  | inl newline ↦ rw newline (
      keep_on_screen-IsValid
        (record t { terminal_column = 0; terminal_row = (t.terminal_row + 1) % 2 ^ 8 }) ok.size
        (omega (arith, ok.row)) (omega arith))
  | inr printed ↦ rw printed (
      terminal_put_cursor-IsValid
        (record t {
          vga_buffer = put_char c t.terminal_color t.terminal_column t.terminal_row t.vga_buffer;
        })
        record { size = length-set t.vga_buffer _ _ ∙ ok.size; row = ok.row; column = ok.column })
]

-- The cursor as the index of its cell.
pub cursor : Terminal → ℕ
cursor t = t.terminal_row * 80 + t.terminal_column

-- The cell `i` after the character is written at the cursor.
abbrev pub written : (c : ℕ) → Terminal → (i : ℕ) → ℕ
written c t i = if cursor t == i then cell_of c t.terminal_color else get_or t.vga_buffer i 0

scroll_terminal-column : (t : Terminal) → (scroll_terminal t).terminal_column ≡ t.terminal_column
unfolding scroll_terminal
scroll_terminal-column t = refl

advance_lem :
    (t : Terminal) (i : ℕ)
    → IsValid t
    → i < 2000
    → (cursor (terminal_put_cursor t) ≡ (if ltb (cursor t + 1) 2000 then cursor t + 1 else 1920))
      × (get_or (terminal_put_cursor t).vga_buffer i 0 ≡ (
          if ltb (cursor t + 1) 2000
          then get_or t.vga_buffer i 0
          else if ltb i 1920
          then get_or t.vga_buffer (i + 80) 0
          else cell_of b' ' t.terminal_color))
unfolding terminal_put_cursor cursor
advance_lem t i ok inside =
    let byte : (t.terminal_row + 1) % 2 ^ 8 ≡ t.terminal_row + 1 = omega (arith, ok.row) in
    let byte' : (t.terminal_column + 1) % 2 ^ 8 ≡ t.terminal_column + 1 =
      omega (arith, ok.column) in
    elim (Bool-cases (leb 80 (t.terminal_column + 1))) [
      | inl wraps ↦ elim (Bool-cases (leb 25 (t.terminal_row + 1))) [
        | inl past ↦
            let wrapped = record t { terminal_column = 0; terminal_row = t.terminal_row + 1 } in
            let last : ltb (t.terminal_row * 80 + t.terminal_column + 1) 2000 ≡ false =
              ground (arith, ok.row, ok.column) in
            (
              rw (byte', wraps, byte, past, last)
                  (ap (λ k. 1920 + k) (scroll_terminal-column wrapped)),
              rw (byte', wraps, byte, past, last) (scroll_terminal_lem wrapped i ok.size inside),
            )
        | inr on ↦
            let more : ltb (t.terminal_row * 80 + t.terminal_column + 1) 2000 ≡ true =
              ground (arith, ok.row, ok.column) in
            (
              rw (byte', wraps, byte, on, more) (ground (arith, ok.column)),
              rw (byte', wraps, byte, on, more) refl,
            )
      ]
      | inr fits ↦
          let on : leb 25 t.terminal_row ≡ false = ground (arith, ok.row) in
          let more : ltb (t.terminal_row * 80 + t.terminal_column + 1) 2000 ≡ true =
            ground (arith, ok.row, ok.column) in
          (rw (byte', fits, on, more) (omega arith), rw (byte', fits, on, more) refl)
    ]

-- On a valid terminal, a character other than a newline goes into the cell at the cursor, in the
-- terminal's colour, and the cursor goes to the next cell; behind the last cell, the rows move up,
-- the last one becomes blank, and the cursor goes to its start. No other cell changes.
pub terminal_put_char_lem :
    (c : ℕ) (t : Terminal) (i : ℕ)
    → IsValid t
    → c ≢ b'\n'
    → i < 2000
    → (cursor (terminal_put_char c t) ≡ (if ltb (cursor t + 1) 2000 then cursor t + 1 else 1920))
      × (get_or (terminal_put_char c t).vga_buffer i 0 ≡ (
          if ltb (cursor t + 1) 2000
          then written c t i
          else if ltb i 1920
          then written c t (i + 80)
          else cell_of b' ' t.terminal_color))
unfolding terminal_put_char put_char cursor
terminal_put_char_lem c t i ok visible inside =
    let printed : (c == b'\n') ≡ false = ground (arith, visible) in
    let p = cursor t in
    let b' = set t.vga_buffer p (cell_of c t.terminal_color) in
    let t' : Terminal = record t { vga_buffer = b' } in
    let ok' : IsValid t' = record {
      size = length-set t.vga_buffer p _ ∙ ok.size;
      row = ok.row;
      column = ok.column;
    } in
    let in_buffer : p < length t.vga_buffer = omega (arith, ok.size, ok.row, ok.column) in
    let here = get_or-set t.vga_buffer p i (cell_of c t.terminal_color) 0 in_buffer in
    let below = get_or-set t.vga_buffer p (i + 80) (cell_of c t.terminal_color) 0 in_buffer in
    let (moves, cells) = advance_lem t' i ok' inside in
    (rw printed moves, rw printed (cells ∙ rw (here, below) refl))
