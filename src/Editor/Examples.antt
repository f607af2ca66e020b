-- ===== src/Editor/Examples.antt =====
-- The theorems on the editor at a small text.
use ninix.Editor.{Vi, key_enter_n, insert_key, delete_key}
use ninix.Editor.Text.{text, insert_key_lem, delete_key_lem}
use ninix.Editor.Text.Bytes.{bytes}
use ninix.Editor.Lines.{cursor_next_line}
use ninix.Editor.Lines.Scan.{NextLine, cursor_next_line_lem}
use ninix.Editor.Modes.{command, insertion, do_command_mode, do_insert_mode}
use ninix.Editor.Screen.{screen_flush}
use ninix.Editor.Modes.Window.{Valid, Tracks, ShortLines}
use ninix.Editor.Modes.Follow.{do_command_mode-Tracks, do_insert_mode-Tracks}
use ninix.Base.{◌==◌, if◌then◌else◌, ◌+◌, ◌-◌, ◌≡◌, refl, inl, true, [], ◌∷◌, arith}

-- The lines `ab` and `cd`, with the cursor on the `b`.
abbrev two_lines : Vi
two_lines = record {
  filename = b'f' ∷ [];
  buffer = λ i.
      if i == 0
      then b'a'
      else if i == 1
      then b'b'
      else if i == 3
      then b'c'
      else if i == 4
      then b'd'
      else key_enter_n;
  inst = λ i. 0;
  inst_len = 0;
  old_size = 5;
  size = 6;
  cursor_loc = 1;
  page_begin_loc = 0;
  page_end_loc = 6;
  mode = 0;
  again = true;
  err = 0;
  vram = λ i. 0;
}

insert_key_example :
    text (insert_key b'x' 1 two_lines)
    ≡ b'a' ∷ b'x' ∷ b'b' ∷ key_enter_n ∷ b'c' ∷ b'd' ∷ key_enter_n ∷ []
unfolding bytes
insert_key_example =
    insert_key_lem two_lines (b'a' ∷ []) (b'b' ∷ key_enter_n ∷ b'c' ∷ b'd' ∷ key_enter_n ∷ []) b'x'
      (omega arith) refl

delete_key_example : text (delete_key 2 two_lines) ≡ b'a' ∷ b'b' ∷ b'c' ∷ b'd' ∷ key_enter_n ∷ []
unfolding bytes
delete_key_example =
    delete_key_lem two_lines (b'a' ∷ b'b' ∷ []) (b'c' ∷ b'd' ∷ key_enter_n ∷ []) key_enter_n refl

two_lines-Valid : Valid two_lines
two_lines-Valid = record {
  some_text = omega arith;
  room = omega arith;
  ends = refl;
  inside = omega arith;
}

two_lines-Tracks : Tracks two_lines
two_lines-Tracks = record { start = inl refl; ahead = omega arith; reach = λ k n c l. omega arith }

down-ShortLines : ShortLines (command b'j' two_lines)
unfolding command cursor_next_line
down-ShortLines s h =
    let e : s + (5 - s) ≡ 5 = omega arith in (5 - s, omega arith, omega arith, rw e refl)

command_example : Valid (do_command_mode b'j' two_lines) × Tracks (do_command_mode b'j' two_lines)
command_example =
    do_command_mode-Tracks b'j' two_lines two_lines-Valid two_lines-Tracks down-ShortLines

typed-ShortLines : ShortLines (insertion b'x' two_lines)
unfolding insertion insert_key screen_flush
typed-ShortLines s h =
    let e : s + (6 - s) ≡ 6 = omega arith in (6 - s, omega arith, omega arith, rw e refl)

insert_example : Valid (do_insert_mode b'x' two_lines) × Tracks (do_insert_mode b'x' two_lines)
insert_example =
    do_insert_mode-Tracks b'x' two_lines two_lines-Valid two_lines-Tracks (omega arith)
      typed-ShortLines

-- A buffer without room.
abbrev full : Vi
full = record two_lines { size = 4096; cursor_loc = 4095 }

next_line_example : NextLine two_lines.buffer 6 1 (cursor_next_line two_lines).cursor_loc
next_line_example = cursor_next_line_lem two_lines (omega arith) (omega arith) (omega arith)
