-- ===== src/Editor/Session/End.antt =====
-- How a run of the editor ends: it is left with and without saving, and a save goes wrong.
use ninix.Editor.{Vi, col_len, key_spc, key_enter_n, key_esc, key_del, buffer_size, insert_key}
use ninix.Editor.Lines.{page_location_last_line, page_location_next_line}
use ninix.Editor.Screen.{screen_flush}
use ninix.Editor.Modes.{
  scroll, command, insertion, lower, do_command_mode, do_insert_mode, last_line, do_last_line_mode,
}
use ninix.Editor.Session.{Files, obey, edit}
use ninix.Utils.{kernel_memset}
use ninix.Base.{
  ltb, leb, ◌==◌, Bool-cases, update, word, ℕ, ◌+◌, ◌%◌, ◌<◌, ◌≡◌, refl, ◌∙◌, ◌≢◌, inl, inr, true,
  false, ◌&&◌, List, [], ◌∷◌, arith,
}

-- The window moves, and nothing else changes.
abbrev redrawn : Vi → Vi → Vi
redrawn v u = record v {
  page_begin_loc = u.page_begin_loc;
  page_end_loc = u.page_end_loc;
  vram = u.vram;
}

scroll_rest : (v : Vi) → scroll v ≡ redrawn v (scroll v)
unfolding scroll page_location_last_line page_location_next_line screen_flush
scroll_rest v = elim (Bool-cases (ltb v.cursor_loc v.page_begin_loc)) [
  | inl e ↦ rw e (elim (Bool-cases (v.page_begin_loc == 0)) [
    | inl f ↦ rw f (elim (Bool-cases (leb v.page_end_loc v.cursor_loc)) [
      | inl g ↦ rw g refl
      | inr g ↦ rw g refl
    ])
    | inr f ↦ rw f (elim (Bool-cases (leb v.page_end_loc v.cursor_loc)) [
      | inl g ↦ rw g refl
      | inr g ↦ rw g refl
    ])
  ])
  | inr e ↦ rw e (elim (Bool-cases (leb v.page_end_loc v.cursor_loc)) [
    | inl g ↦ rw g refl
    | inr g ↦ rw g refl
  ])
]

screen_flush_rest : (v : Vi) → screen_flush v ≡ redrawn v (screen_flush v)
unfolding screen_flush
screen_flush_rest v = refl

-- What a key in a full buffer does: the text stays, and the cursor still goes on.
pub do_insert_mode_full :
    (key : ℕ) (v : Vi)
    → v.size ≡ buffer_size
    → v.cursor_loc + 1 < word
    → key ≢ key_esc
    → key ≢ key_del
    → ((do_insert_mode key v).size ≡ v.size)
      × ((do_insert_mode key v).buffer ≡ v.buffer)
      × ((do_insert_mode key v).cursor_loc ≡ v.cursor_loc + 1)
unfolding do_insert_mode insertion insert_key
do_insert_mode_full key v full room e d =
    let e' : (key == key_esc) ≡ false = ground arith in
    let d' : (key == key_del) ≡ false = ground arith in
    let f : (v.size == buffer_size) ≡ true = ground arith in
    let n : (v.cursor_loc + 1) % word ≡ v.cursor_loc + 1 = omega arith in
    rw (e', d', f, scroll_rest, screen_flush_rest) (refl, refl, n)

-- A command is typed in `u`: the text and the error are those of `v`.
record Typing (v u : Vi) (n : ℕ) : Type 0 where
  mode : u.mode ≡ 2
  again : u.again ≡ true
  typed : u.inst_len ≡ n
  buffer : u.buffer ≡ v.buffer
  err : u.err ≡ v.err

module _ {ℓ} {S : Type ℓ} (files : Files S) (v : Vi) (s : S) where
  edit_on :
      (key : ℕ) (keys : List ℕ) (u : Vi) {u' : Vi} {s' : S}
      → u.again ≡ true
      → obey files key u s ≡ (u', s')
      → edit files (key ∷ keys) u s ≡ edit files keys u' s'
  unfolding edit
  edit_on key keys u a e = rw (e, a) refl

  edit_off : (keys : List ℕ) (u : Vi) → u.again ≡ false → edit files keys u s ≡ (u, s, keys)
  unfolding edit
  edit_off [] u a = refl
  edit_off (key ∷ keys) u a = rw a refl

  colon : v.again ≡ true → v.mode ≡ 0 → (u : Vi) × (obey files b':' v s ≡ (u, s)) × Typing v u 1
  unfolding obey do_command_mode command
  colon a m =
      let u = record v {
        inst = update (kernel_memset 0 key_spc col_len v.inst) 0 b':';
        mode = 2;
        inst_len = 1;
      } in
      (
        scroll u,
        rw m refl,
        rw scroll_rest (record { mode = refl; again = a; typed = refl; buffer = refl; err = refl }),
      )

  letter :
      (key n : ℕ) (u : Vi)
      → Typing v u n
      → ltb n 20 ≡ true
      → lower key ≡ key
      → (key == key_esc) ≡ false
      → (key == key_enter_n) ≡ false
      → (key == key_del) ≡ false
      → (u' : Vi) × (obey files key u s ≡ (u', s))
        × Typing v u' (n + 1)
        × (u'.inst ≡ update u.inst n key)
  unfolding obey do_last_line_mode last_line screen_flush
  letter key n u t room low e f g = (
    screen_flush (record u { inst = update u.inst n key; inst_len = n + 1 }),
    rw (t.mode, low, e, f, g, t.typed, room) refl,
    record { mode = t.mode; again = t.again; typed = refl; buffer = t.buffer; err = t.err },
    refl,
  )

  enter :
      (u : Vi)
      → Typing v u 3
      → u.inst 1 ≡ b'q'
      → u.inst 2 ≡ b'!'
      → (u' : Vi) × (obey files key_enter_n u s ≡ (u', s))
        × (u'.again ≡ false)
        × (u'.buffer ≡ v.buffer)
        × (u'.err ≡ v.err)
  unfolding obey do_last_line_mode last_line lower screen_flush
  enter u t p q =
      let command : (u.mode == 0) ≡ false = ground (arith, t.mode) in
      let insert : (u.mode == 1) ≡ false = ground (arith, t.mode) in
      let last : (u.mode == 2) ≡ true = ground (arith, t.mode) in
      let quit : (u.inst_len == 3 && (u.inst 1 == b'q' && u.inst 2 == b'!')) ≡ true =
        ground (arith, t.typed) in
      (
        screen_flush (record u { again = false }),
        rw (command, insert, last, quit) refl,
        refl,
        t.buffer,
        t.err,
      )

  -- In command mode a colon, q, an exclamation mark and a line feed end the loop of `vi`: nothing is
  -- saved, the files and the text are as before, and the rest of the keys is left.
  pub edit_quit :
      (keys : List ℕ)
      → v.again ≡ true
      → v.mode ≡ 0
      → (v' : Vi) × (edit files (b':' ∷ b'q' ∷ b'!' ∷ key_enter_n ∷ keys) v s ≡ (v', s, keys))
        × (v'.again ≡ false)
        × (v'.buffer ≡ v.buffer)
        × (v'.err ≡ v.err)
  unfolding lower
  edit_quit keys a m =
      let (u₁, o₁, t₁) = colon a m in
      let (u₂, o₂, t₂, i₂) = letter b'q' 1 u₁ t₁ refl refl refl refl refl in
      let (u₃, o₃, t₃, i₃) = letter b'!' 2 u₂ t₂ refl refl refl refl refl in
      let (u₄, o₄, a₄, b₄, e₄) = enter u₃ t₃ (rw (i₃, i₂) refl) (rw i₃ refl) in
      (
        u₄,
        edit_on b':' _ v a o₁
            ∙ edit_on b'q' _ u₁ t₁.again o₂
            ∙ edit_on b'!' _ u₂ t₂.again o₃
            ∙ edit_on key_enter_n keys u₃ t₃.again o₄
            ∙ edit_off keys u₄ a₄,
        a₄,
        b₄,
        e₄,
      )
