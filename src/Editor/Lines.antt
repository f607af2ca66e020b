-- ===== src/Editor/Lines.antt =====
-- The moves of the cursor and of the window by lines.
pub mod Scan
use ninix.Editor.{Vi, before, key_enter_n}
use ninix.Base.{leb, ◌==◌, if◌then◌else◌, word, ℕ, zero, suc, ◌+◌, ◌-◌, ◌%◌}

-- `while (loc >= 0 && vc.buffer[loc] != KEY_ENTER_N) loc--;`, and one more: the loop starts at
-- `loc` = `n` - 1, which may be -1, and the answer is 0 where it ends at -1.
unfoldable pub scan_back : ℕ → (ℕ → ℕ) → ℕ
scan_back zero b = 0
scan_back (suc loc) b = if b loc == key_enter_n then suc loc else scan_back loc b

-- `while (loc < vc.size - 1 && vc.buffer[loc] != KEY_ENTER_N) loc++;` for `rounds` rounds at most.
unfoldable pub scan_on : (rounds loc : ℕ) → (ℕ → ℕ) → ℕ
scan_on zero loc b = loc
scan_on (suc rounds) loc b = if b loc == key_enter_n then loc else scan_on rounds (loc + 1) b

-- The head of the next line, or `loc` itself.
unfoldable pub next_line : ℕ → Vi → ℕ
unfolding scan_on
next_line loc v =
    let last = before v.size in
    let found = scan_on (last - loc) loc v.buffer in
    if leb last found then loc else (found + 1) % word

unfoldable pub page_location_last_line : Vi → Vi
unfolding scan_back
page_location_last_line v =
    if v.page_begin_loc == 0
    then v
    else record v { page_begin_loc = scan_back (v.page_begin_loc - 1) v.buffer }

unfoldable pub page_location_next_line : Vi → Vi
unfolding next_line
page_location_next_line v = record v { page_begin_loc = next_line v.page_begin_loc v }

-- Three cases: the first line, the head of a line, and the middle of one.
unfoldable pub cursor_last_line : Vi → Vi
unfolding scan_back
cursor_last_line v =
    let loc = scan_back v.cursor_loc v.buffer in
    if loc == 0
    then record v { cursor_loc = 0 }
    else if loc == v.cursor_loc
    then record v { cursor_loc = scan_back (v.cursor_loc - 1) v.buffer }
    else record v { cursor_loc = loc }

unfoldable pub cursor_next_line : Vi → Vi
unfolding next_line
cursor_next_line v = record v { cursor_loc = next_line v.cursor_loc v }
