-- ===== src/Editor/Modes/Follow.antt =====
-- Every key of the two modes that move in the text keeps the invariant of the editor.
use ninix.Editor.{before, Vi, buffer_size, key_enter_n, key_del, key_esc, delete_key, insert_key}
use ninix.Editor.Text.{insert_key_bytes, delete_key_bytes}
use ninix.Editor.Lines.{cursor_last_line, cursor_next_line}
use ninix.Editor.Lines.Scan.{NextLine, last, next, cursor_next_line_lem, cursor_last_line_lem}
use ninix.Editor.Modes.{command, insertion, do_command_mode, do_insert_mode}
use ninix.Editor.Modes.Moves.{Kept, moved_on, moved_back, shrunk-Kept, grown-Kept}
use ninix.Editor.Modes.Window.{Valid, Tracks, ShortLines, in_window, scroll-Tracks}
use ninix.Base.{
  ltb, ◌==◌, Bool-cases, word, ℕ, ◌+◌, ◌-◌, ◌%◌, ◌<◌, ◌≡◌, ap, ◌∙◌, inl, inr, true, false, not,
  ◌&&◌, arith, ℕ_discrete,
}

cursor_last_line_rest :
    (v : Vi) → cursor_last_line v ≡ record v { cursor_loc = (cursor_last_line v).cursor_loc }
unfolding cursor_last_line
cursor_last_line_rest v = ground arith

delete_key_rest :
    (site : ℕ) (v : Vi)
    → ((delete_key site v).page_begin_loc ≡ v.page_begin_loc)
      × ((delete_key site v).cursor_loc ≡ v.cursor_loc)
unfolding delete_key
delete_key_rest site v = ground arith

insert_key_rest :
    (key site : ℕ) (v : Vi)
    → ((insert_key key site v).page_begin_loc ≡ v.page_begin_loc)
      × ((insert_key key site v).cursor_loc ≡ v.cursor_loc)
unfolding insert_key
insert_key_rest key site v = ground arith

module _ (v : Vi) (w : Valid v) (t : Tracks v) where
  next_line-Kept : Kept (cursor_next_line v)
  unfolding cursor_next_line
  next_line-Kept = go (cursor_next_line_lem v w.some_text w.room w.inside)
    where
      go : {p : ℕ} → NextLine v.buffer v.size v.cursor_loc p → Kept (record v { cursor_loc = p })
      go {p} (last e _) = moved_on v w t p (omega arith) (omega (arith, w.inside))
      go {p} (next far small _ _) = moved_on v w t p (omega arith) small

  other_mode :
      (m : ℕ) (inst : ℕ → ℕ) (inst_len : ℕ)
      → Kept (record v { mode = m; inst = inst; inst_len = inst_len })
  other_mode m inst inst_len = (
    record { some_text = w.some_text; room = w.room; ends = w.ends; inside = w.inside },
    in_window (record { start = t.start; ahead = t.ahead; reach = t.reach }),
  )

  left_key : Kept (command b'h' v)
  unfolding command
  left_key =
      elim (Bool-cases (ltb 0 v.cursor_loc && not (v.buffer (v.cursor_loc - 1) == key_enter_n))) [
        | inl e ↦
            rw e (moved_back v w t (v.cursor_loc - 1) (omega arith) (λ j x y. absurd (omega arith)))
        | inr e ↦ rw e (w, in_window t)
      ]

  last_line-Kept : Kept (cursor_last_line v)
  last_line-Kept =
      let r = cursor_last_line_lem v in
      rw (cursor_last_line_rest v) (moved_back v w t _ (omega (arith, r.behind)) r.inside)

  right_key : Kept (command b'l' v)
  unfolding command
  right_key =
      elim (Bool-cases (ltb v.cursor_loc v.size && not (v.buffer v.cursor_loc == key_enter_n))) [
        | inl e ↦
            let before_end : v.cursor_loc + 1 < v.size =
              elim (ℕ_discrete (v.cursor_loc + 1) v.size) [
                | yes y ↦
                    let q : v.cursor_loc ≡ v.size - 1 = omega arith in
                    let r : v.buffer v.cursor_loc ≡ 10 = ap v.buffer q ∙ w.ends in
                    absurd (ground arith)
                | no y ↦ omega (arith, w.inside)
              ] in
            let same : (v.cursor_loc + 1) % word ≡ v.cursor_loc + 1 = omega (arith, w.room) in
            rw (e, same) (moved_on v w t (v.cursor_loc + 1) (omega arith) before_end)
        | inr e ↦ rw e (w, in_window t)
      ]

  delete_here : Kept (command b'x' v)
  unfolding command
  delete_here = elim (Bool-cases (ltb v.cursor_loc (before v.size))) [
    | inl e ↦
        let h : v.cursor_loc + 1 < v.size = ground (arith, w.room) in
        let (b, c) = delete_key_rest v.cursor_loc v in
        rw e (
          shrunk-Kept v w t (delete_key v.cursor_loc v)
            (rw c (delete_key_bytes v.cursor_loc v w.inside)) b (rw c h) (omega (arith, t.ahead)))
    | inr e ↦ rw e (w, in_window t)
  ]

  command-Kept : (key : ℕ) → Kept (command key v)
  unfolding command
  command-Kept key = elim (Bool-cases (key == b'h')) [
    | inl e ↦ rw e left_key
    | inr e ↦ rw e (elim (Bool-cases (key == b'j')) [
      | inl f ↦ rw f next_line-Kept
      | inr f ↦ rw f (elim (Bool-cases (key == b'k')) [
        | inl g ↦ rw g last_line-Kept
        | inr g ↦ rw g (elim (Bool-cases (key == b'l')) [
          | inl h ↦ rw h right_key
          | inr h ↦ rw h (elim (Bool-cases (key == b'x')) [
            | inl i ↦ rw i delete_here
            | inr i ↦ rw i (elim (Bool-cases (key == b'i')) [
              | inl j ↦ rw j (other_mode 1 v.inst v.inst_len)
              | inr j ↦ rw j (elim (Bool-cases (key == b':')) [
                | inl k ↦ rw k (other_mode 2 _ 1)
                | inr k ↦ rw k (w, in_window t)
              ])
            ])
          ])
        ])
      ])
    ])
  ]

  escape : (key : ℕ) → (key == key_esc) ≡ true → Kept (insertion key v)
  unfolding insertion
  escape key e = rw e (other_mode 0 v.inst v.inst_len)

  at_head :
      (key : ℕ)
      → (key == key_esc) ≡ false
      → (key == key_del) ≡ true
      → ltb 0 v.cursor_loc ≡ false
      → Kept (insertion key v)
  unfolding insertion
  at_head key e f g = rw (e, f, g) (w, in_window t)

  delete_before : 0 < v.cursor_loc → Kept (insertion key_del v)
  unfolding insertion
  delete_before h =
      let e : ltb 0 v.cursor_loc ≡ true = ground arith in
      let site = v.cursor_loc - 1 in
      let (b, c) = delete_key_rest site v in
      let u = record (delete_key site v) { cursor_loc = (delete_key site v).cursor_loc - 1 } in
      rw e (
        shrunk-Kept v w t u (rw c (delete_key_bytes site v (omega (arith, w.inside)))) b
          (rw c (omega (arith, w.inside))) (rw c (omega (arith, t.ahead))))

  insert_here :
      (key : ℕ)
      → v.size < buffer_size
      → (key == key_esc) ≡ false
      → (key == key_del) ≡ false
      → Kept (insertion key v)
  unfolding insertion
  insert_here key room e f =
      let (b, c) = insert_key_rest key v.cursor_loc v in
      let u = insert_key key v.cursor_loc v in
      let n : (v.cursor_loc + 1) % word ≡ v.cursor_loc + 1 = omega (arith, w.inside) in
      rw (e, f)
        (grown-Kept v w t (record u { cursor_loc = (u.cursor_loc + 1) % word }) key
          (insert_key_bytes key v.cursor_loc v room (omega (arith, w.inside))) b (rw c n) room)

  insertion-Kept : (key : ℕ) → v.size < buffer_size → Kept (insertion key v)
  insertion-Kept key room = elim (Bool-cases (key == key_esc)) [
    | inl e ↦ escape key e
    | inr e ↦ elim (Bool-cases (key == key_del)) [
      | inl f ↦ elim (Bool-cases (ltb 0 v.cursor_loc)) [
        | inl g ↦ let same : key ≡ key_del = ground arith in rw same (delete_before (ground arith))
        | inr g ↦ at_head key e f g
      ]
      | inr f ↦ insert_here key room e f
    ]
  ]

-- In command mode every key keeps the text ending with a line feed, the cursor in the text and the
-- window on it: it begins with a line not behind the cursor and shows this line to its end, if the
-- lines are shorter than 580 characters.
pub do_command_mode-Tracks :
    (key : ℕ) (v : Vi)
    → Valid v
    → Tracks v
    → ShortLines (command key v)
    → Valid (do_command_mode key v) × Tracks (do_command_mode key v)
unfolding do_command_mode
do_command_mode-Tracks key v w t short =
    let (w', p) = command-Kept v w t key in scroll-Tracks (command key v) w' p short

-- In insert mode, while the buffer is not full, every key keeps the text ending with a line feed, the
-- cursor in the text and the window on it, if the lines are shorter than 580 characters.
pub do_insert_mode-Tracks :
    (key : ℕ) (v : Vi)
    → Valid v
    → Tracks v
    → v.size < buffer_size
    → ShortLines (insertion key v)
    → Valid (do_insert_mode key v) × Tracks (do_insert_mode key v)
unfolding do_insert_mode
do_insert_mode-Tracks key v w t room short =
    let (w', p) = insertion-Kept v w t key room in scroll-Tracks (insertion key v) w' p short
