-- ===== src/Editor/Modes/Window.antt =====
-- The invariant of the editor, and how the window follows the cursor.
use ninix.Editor.{Vi, buffer_size, key_enter_n}
use ninix.Editor.Lines.{scan_back, page_location_last_line, page_location_next_line}
use ninix.Editor.Lines.Scan.{IsLineStart, NoEnd, NextLine, last, next, scan_back_lem, next_line_lem}
use ninix.Editor.Screen.{screen_flush}
use ninix.Editor.Screen.Window.{screen_flush_reaches}
use ninix.Editor.Modes.{scroll}
use ninix.Base.{
  ltb, leb, ◌==◌, if◌then◌else◌, Bool-cases, ℕ, ◌+◌, ◌-◌, ◌≤◌, ◌<◌, ◌≡◌, refl, inl, inr, true,
  false, arith,
}

-- The text ends with a line feed, and the cursor is in it.
pub record Valid (v : Vi) : Type 0 where
  pub some_text : 0 < v.size
  pub room : v.size ≤ buffer_size
  pub ends : v.buffer (v.size - 1) ≡ key_enter_n
  pub inside : v.cursor_loc < v.size

-- The window begins with a line, not behind the cursor, and reaches to the end of this line if that is
-- less than 580 characters away.
pub record Tracks (v : Vi) : Type 0 where
  pub start : IsLineStart v.buffer v.page_begin_loc
  pub ahead : v.page_begin_loc ≤ v.cursor_loc
  pub reach :
      (k : ℕ)
      → NoEnd v.buffer v.page_begin_loc (v.page_begin_loc + k)
      → k < 580
      → v.page_begin_loc + k < v.size
      → v.page_begin_loc + k < v.page_end_loc

-- Every line of the text is shorter than 580 characters.
abbrev pub ShortLines : Vi → Type 0
ShortLines v =
    (s : ℕ) → s < v.size → (k : ℕ) × (k < 580) × (s + k < v.size) × (v.buffer (s + k) ≡ key_enter_n)

-- Before the window follows: it still tracks the cursor, or the cursor has moved up one line.
pub data Placed (v : Vi) : Type 0 where
  in_window : Tracks v → Placed v
  above :
      v.cursor_loc < v.page_begin_loc
      → v.page_begin_loc ≤ v.page_end_loc
      → scan_back (v.page_begin_loc - 1) v.buffer ≤ v.cursor_loc
      → Placed v

pub flushed :
    (v : Vi)
    → IsLineStart v.buffer v.page_begin_loc
    → v.page_begin_loc ≤ v.cursor_loc
    → Tracks (screen_flush v)
unfolding screen_flush
flushed v s a = record { start = s; ahead = a; reach = λ k ne c l. screen_flush_reaches v k ne c l }

pub screen_flush-Valid : (v : Vi) → Valid v → Valid (screen_flush v)
unfolding screen_flush
screen_flush-Valid v w = record {
  some_text = w.some_text;
  room = w.room;
  ends = w.ends;
  inside = w.inside;
}

moved-Valid : (v : Vi) (p : ℕ) → Valid v → Valid (record v { page_begin_loc = p })
moved-Valid v p w = record {
  some_text = w.some_text;
  room = w.room;
  ends = w.ends;
  inside = w.inside;
}

next_line-Valid : (v : Vi) → Valid v → Valid (screen_flush (page_location_next_line v))
unfolding page_location_next_line
next_line-Valid v w = screen_flush-Valid _ (moved-Valid v _ w)

-- Where the cursor is behind the window, the window goes on by one line.
next_line_ahead :
    (v : Vi)
    → Valid v
    → Tracks v
    → ShortLines v
    → v.page_end_loc ≤ v.cursor_loc
    → Tracks (screen_flush (page_location_next_line v))
unfolding page_location_next_line
next_line_ahead v w t short h =
    go (next_line_lem v.page_begin_loc v w.some_text w.room (omega (arith, t.ahead, w.inside)))
  where
    go :
        {p : ℕ}
        → NextLine v.buffer v.size v.page_begin_loc p
        → Tracks (screen_flush (record v { page_begin_loc = p }))
    go (last e none_there) = flushed (record v { page_begin_loc = _ }) (rw e t.start) (rw e t.ahead)
    go {p} (next far small end none_there) =
        let (k, c, l, e) = short v.page_begin_loc (omega (arith, t.ahead, w.inside)) in
        let first : p - 1 ≤ v.page_begin_loc + k =
          elim (Bool-cases (ltb (v.page_begin_loc + k) (p - 1))) [
            | inl q ↦ absurd (none_there (v.page_begin_loc + k) (omega arith) (ground arith) e)
            | inr q ↦ ground arith
          ] in
        let on : v.page_begin_loc + (p - 1 - v.page_begin_loc) ≡ p - 1 = omega arith in
        let seen =
          t.reach (p - 1 - v.page_begin_loc) (rw on none_there) (omega arith) (omega arith) in
        flushed (record v { page_begin_loc = p }) (inr end) (omega arith)

module _ (v : Vi) where
  scroll-above :
      v.cursor_loc < v.page_begin_loc
      → v.page_begin_loc ≤ v.page_end_loc
      → scroll v
        ≡ screen_flush (record v { page_begin_loc = scan_back (v.page_begin_loc - 1) v.buffer })
  unfolding scroll page_location_last_line
  scroll-above h k =
      let a : ltb v.cursor_loc v.page_begin_loc ≡ true = ground arith in
      let b : (v.page_begin_loc == 0) ≡ false = ground arith in
      let c : leb v.page_end_loc v.cursor_loc ≡ false = ground arith in rw (a, b, c) refl

  scroll-below :
      v.page_begin_loc ≤ v.cursor_loc
      → scroll v
        ≡ screen_flush (if leb v.page_end_loc v.cursor_loc then page_location_next_line v else v)
  unfolding scroll
  scroll-below h = let a : ltb v.cursor_loc v.page_begin_loc ≡ false = ground arith in rw a refl

-- `scroll` keeps the text and the cursor, and after it the window tracks the cursor again.
pub scroll-Tracks :
    (v : Vi) → Valid v → Placed v → ShortLines v → Valid (scroll v) × Tracks (scroll v)
scroll-Tracks v w (above h k u) short =
    let r = scan_back_lem (v.page_begin_loc - 1) v.buffer in
    let v' = record v { page_begin_loc = scan_back (v.page_begin_loc - 1) v.buffer } in
    rw (scroll-above v h k) (screen_flush-Valid v' (moved-Valid v _ w), flushed v' r.start u)
scroll-Tracks v w (in_window t) short = elim (Bool-cases (leb v.page_end_loc v.cursor_loc)) [
  | inl e ↦
      rw (scroll-below v t.ahead, e)
        (next_line-Valid v w, next_line_ahead v w t short (ground arith))
  | inr e ↦ rw (scroll-below v t.ahead, e) (screen_flush-Valid v w, flushed v t.start t.ahead)
]
