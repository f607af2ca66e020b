-- ===== src/Editor/Screen.antt =====
-- What `screen_flush` draws, and the end of the window that it finds.
pub mod Window
use ninix.Editor.{Vi, row_len, col_len, key_tab, key_spc, key_enter_n, key_enter_r}
use ninix.Base.{
  ltb, leb, ◌==◌, if◌then◌else◌, update, ℕ, zero, suc, ◌+◌, ◌-◌, ◌*◌, ◌/◌, ◌%◌, ◌^◌, ◌&&◌,
}

abbrev pub color_black_white : ℕ
color_black_white = 0x00000FFF

abbrev pub color_white_black : ℕ
color_white_black = 0x0FFF0000

abbrev pub color_black_blue : ℕ
color_black_blue = 0x0000000F

abbrev pub color_statebar : ℕ
color_statebar = 0x05520135

abbrev pub vga_char_max_col : ℕ
vga_char_max_col = 128

-- The driver keeps 32 rows and 128 columns, and 12 bits of each colour.
unfoldable pub kernel_putchar_at : (ch fc bg row col : ℕ) → (ℕ → ℕ) → ℕ → ℕ
kernel_putchar_at ch fc bg row col m =
    update m (row % 32 * vga_char_max_col + col % 128)
      ((bg % 2 ^ 12 * 2 ^ 20 + fc % 2 ^ 12 * 2 ^ 8) + ch % 2 ^ 8)

unfoldable pub put_char_on_screen : (ch row column color : ℕ) → (ℕ → ℕ) → ℕ → ℕ
unfolding kernel_putchar_at
put_char_on_screen ch row column color m =
    kernel_putchar_at ch (color % 2 ^ 16) (color / 2 ^ 16 % 2 ^ 16) row column m

-- `for (; col < …; col++)`: `rounds` spaces.
unfoldable pub blanks : (rounds row col : ℕ) → (ℕ → ℕ) → ℕ → ℕ
blanks zero row col m = m
blanks (suc rounds) row col m =
    blanks rounds row (col + 1) (put_char_on_screen key_spc row col color_black_white m)

-- The stop of the tabulator behind `col`: `(col & 0xfffffffc) + 4`.
abbrev pub dst_col : ℕ → ℕ
dst_col col = col / 4 * 4 + 4

-- What one character draws.
unfoldable pub draw : (c row col color : ℕ) → (ℕ → ℕ) → ℕ → ℕ
unfolding blanks put_char_on_screen
draw c row col color m =
    if c == key_enter_n
    then blanks (col_len - (col + 1)) row (col + 1) (put_char_on_screen key_spc row col color m)
    else if c == key_enter_r
    then m
    else if c == key_tab
    then blanks (dst_col col - (col + 1)) row (col + 1) (put_char_on_screen key_spc row col color m)
    else put_char_on_screen c row col color m

-- Row and column behind one character, before the row is full.
unfoldable pub behind : (c row col : ℕ) → ℕ × ℕ
behind c row col =
    if c == key_enter_n
    then (row + 1, 0)
    else if c == key_enter_r
    then (row, col)
    else if c == key_tab
    then (row, dst_col col)
    else (row, col + 1)

unfoldable pub advance : (c row col : ℕ) → ℕ × ℕ
unfolding behind
advance c row col = let p = behind c row col in if leb col_len p.1 then (p.0 + 1, 0) else p

-- The loop over the text: `row`, `loc` and the memory when it ends.
unfoldable pub show : (fuel row col loc : ℕ) → Vi → (ℕ → ℕ) → ℕ × ℕ × (ℕ → ℕ)
unfolding draw advance
show zero row col loc v m = (row, loc, m)
show (suc fuel) row col loc v m =
    let c = v.buffer loc in
    let color = if loc == v.cursor_loc then color_white_black else color_black_white in
    let p = advance c row col in
    let rest = show fuel p.0 p.1 (loc + 1) v (draw c row col color m) in
    if ltb row row_len && ltb loc v.size then rest else (row, loc, m)

-- The rows behind the text.
unfoldable pub empty_rows : (rounds row : ℕ) → (ℕ → ℕ) → ℕ → ℕ
unfolding blanks put_char_on_screen
empty_rows zero row m = m
empty_rows (suc rounds) row m =
    empty_rows rounds (row + 1)
      (blanks (col_len - 1) row 1 (put_char_on_screen b'~' row 0 color_black_blue m))

-- `MODE_TEXT`.
unfoldable pub mode_text : ℕ → ℕ
mode_text x =
    if x % 4 == 0 then b'M' else if x % 4 == 1 then b'O' else if x % 4 == 2 then b'D' else b'E'

unfoldable pub status_char : ℕ → Vi → ℕ
unfolding mode_text
status_char col v =
    if ltb col v.inst_len
    then v.inst col
    else if col / 4 == col_len / 8
    then mode_text col
    else if col == 45
    then v.mode + b'0'
    else key_spc

-- The row of the command and the mode.
unfoldable pub status_bar : (rounds col : ℕ) → Vi → (ℕ → ℕ) → ℕ → ℕ
unfolding status_char put_char_on_screen
status_bar zero col v m = m
status_bar (suc rounds) col v m =
    status_bar rounds (col + 1) v
      (put_char_on_screen (status_char col v) row_len col color_statebar m)

unfoldable pub screen_flush : Vi → Vi
unfolding show empty_rows status_bar
screen_flush v =
    let r = show (v.size - v.page_begin_loc) 0 0 v.page_begin_loc v v.vram in
    record v {
      page_end_loc = r.1;
      vram = status_bar col_len 0 v (empty_rows (row_len - r.0) r.0 r.2);
    }
