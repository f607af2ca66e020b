-- ===== src/Editor/Modes.antt =====
-- The keys of the three modes.
pub mod Window
pub mod Moves
pub mod Follow
use ninix.Utils.{kernel_memset}
use ninix.Editor.{
  Vi, before, col_len, key_del, key_spc, key_esc, key_enter_n, insert_key, delete_key,
}
use ninix.Editor.Lines.{
  page_location_last_line, page_location_next_line, cursor_last_line, cursor_next_line,
}
use ninix.Editor.Screen.{screen_flush}
use ninix.Base.{
  ltb, leb, ◌==◌, if◌then◌else◌, update, word, ℕ, ◌+◌, ◌-◌, ◌/◌, ◌%◌, false, not, ◌&&◌,
}

-- The window follows the cursor by one line, and the screen is drawn.
unfoldable pub scroll : Vi → Vi
unfolding page_location_last_line page_location_next_line
scroll v =
    let w = if ltb v.cursor_loc v.page_begin_loc then page_location_last_line v else v in
    screen_flush (if leb w.page_end_loc w.cursor_loc then page_location_next_line w else w)

unfoldable pub command : (key : ℕ) → Vi → Vi
unfolding cursor_last_line cursor_next_line
command key v =
    if key == b'h'
    then (if ltb 0 v.cursor_loc && not (v.buffer (v.cursor_loc - 1) == key_enter_n)
        then record v { cursor_loc = v.cursor_loc - 1 }
        else v)
    else if key == b'j'
    then cursor_next_line v
    else if key == b'k'
    then cursor_last_line v
    else if key == b'l'
    then (if ltb v.cursor_loc v.size && not (v.buffer v.cursor_loc == key_enter_n)
        then record v { cursor_loc = (v.cursor_loc + 1) % word }
        else v)
    else if key == b'x'
    then (if ltb v.cursor_loc (before v.size) then screen_flush (delete_key v.cursor_loc v) else v)
    else if key == b'i'
    then record v { mode = 1 }
    else if key == b':'
    then record v {
      inst = update (kernel_memset 0 key_spc col_len v.inst) 0 b':';
      mode = 2;
      inst_len = 1;
    }
    else v

unfoldable pub do_command_mode : (key : ℕ) → Vi → Vi
unfolding scroll command
do_command_mode key v = scroll (command key v)

unfoldable pub insertion : (key : ℕ) → Vi → Vi
insertion key v =
    if key == key_esc
    then record v { mode = 0 }
    else if key == key_del
    then (if ltb 0 v.cursor_loc
        then (let w = delete_key (v.cursor_loc - 1) v in
            screen_flush (record w { cursor_loc = w.cursor_loc - 1 }))
        else v)
    else (let w = insert_key key v.cursor_loc v in
        screen_flush (record w { cursor_loc = (w.cursor_loc + 1) % word }))

unfoldable pub do_insert_mode : (key : ℕ) → Vi → Vi
unfolding scroll insertion
do_insert_mode key v = scroll (insertion key v)

-- `key - 'A' + 'a'` for a capital.
unfoldable pub lower : ℕ → ℕ
lower key = if leb b'A' key && leb key b'Z' then key - b'A' + b'a' else key

-- `vfs_save` is given as the answer and the effect on the files that it has.
unfoldable pub last_line {ℓ} : {S : Type ℓ} → (Vi → S → ℕ × S) → (key : ℕ) → Vi → S → Vi × S
last_line vfs_save key v s =
    if key == key_esc
    then (record v { mode = 0; inst = kernel_memset 0 0 col_len v.inst; inst_len = 0 }, s)
    else if key == key_enter_n
    then (if v.inst_len == 3 && (v.inst 1 == b'q' && v.inst 2 == b'!')
        then (record v { again = false }, s)
        else if v.inst_len == 3 && (v.inst 1 == b'w' && v.inst 2 == b'q')
        then (let r = vfs_save v s in (record v { err = r.0; again = false }, r.1))
        else (v, s))
    else if key == key_del
    then (if ltb 1 v.inst_len
        then (
          record v { inst = update v.inst (v.inst_len - 1) key_spc; inst_len = v.inst_len - 1 },
          s,
        )
        else (v, s))
    else (if ltb v.inst_len (col_len / 4)
        then (record v { inst = update v.inst v.inst_len key; inst_len = v.inst_len + 1 }, s)
        else (v, s))

unfoldable pub do_last_line_mode {ℓ} : {S : Type ℓ} → (Vi → S → ℕ × S) → (key : ℕ) → Vi → S → Vi × S
unfolding last_line lower
do_last_line_mode vfs_save key v s =
    let r = last_line vfs_save (lower key) v s in (screen_flush r.0, r.1)
