-- ===== src/Editor/Session.antt =====
-- A run of the editor: the file is read, the keys are obeyed, and the text is written back.
pub mod End
use ninix.Utils.{kernel_memset}
use ninix.Editor.{Vi, buffer_size, col_len, key_enter_n, before}
use ninix.Editor.Screen.{screen_flush}
use ninix.Editor.Modes.{do_command_mode, do_insert_mode, do_last_line_mode}
use ninix.Base.{
  ltb, leb, ◌==◌, if◌then◌else◌, update, word, ℕ, ◌+◌, ◌-◌, ◌%◌, Bool, true, ◌||◌, Option, none,
  some, List, [], ◌∷◌,
}

-- What the editor asks of the files; `S` is their state. A pointer is the address that `vfs_open`
-- answers. A read answers the number of bytes with the buffer that they are in.
pub record Files {ℓ} (S : Type ℓ) : Type ℓ where
  pub vfs_open : (filename : List ℕ) (flags mode : ℕ) → S → ℕ × S
  pub i_size : (filp : ℕ) → S → ℕ
  pub read : (filp : ℕ) → (ℕ → ℕ) → (count : ℕ) → S → ℕ × (ℕ → ℕ) × S
  pub write : (filp : ℕ) → (ℕ → ℕ) → (count : ℕ) → S → ℕ × S
  pub vfs_close : (filp : ℕ) → S → ℕ × S

abbrev pub is_err_or_null : ℕ → Bool
is_err_or_null p = p == 0 || leb (word - 4095) p

-- `-ESIZE`, `-EREAD`.
abbrev pub e_size : ℕ
e_size = word - 523

abbrev pub e_read : ℕ
e_read = word - 521

-- The screen is not touched.
unfoldable pub init_vi : (filename : List ℕ) → Vi → Vi
init_vi filename v = record {
  filename = filename;
  buffer = kernel_memset 0 0 buffer_size v.buffer;
  inst = kernel_memset 0 0 col_len v.inst;
  inst_len = 0;
  old_size = 0;
  size = 0;
  cursor_loc = 0;
  page_begin_loc = 0;
  page_end_loc = 0;
  mode = 0;
  again = true;
  err = 0;
  vram = v.vram;
}

module _ {ℓ} {S : Type ℓ} (files : Files S) where
  open files use {vfs_open, i_size, read, write, vfs_close}

  -- The text of an open file, with a line feed behind it.
  unfoldable pub load_text : (filp : ℕ) → Vi → S → ℕ × Vi × S
  load_text filp v s =
      let w = record v { old_size = i_size filp s; size = i_size filp s } in
      let r = read filp w.buffer w.size s in
      let w' = record w { buffer = r.1 } in
      if ltb r.0 w'.size
      then (e_read, w', r.2)
      else (let c = vfs_close filp r.2 in
          (
            c.0,
            record w' {
              buffer = update w'.buffer w'.size key_enter_n;
              size = (w'.size + 1) % word;
            },
            c.1,
          ))

  unfoldable pub load_file : Vi → S → ℕ × Vi × S
  unfolding load_text
  load_file v s =
      let o = vfs_open v.filename 0 0 s in
      if is_err_or_null o.0
      then (o.0, v, o.1)
      else if leb buffer_size (i_size o.0 o.1)
      then (e_size, v, (vfs_close o.0 o.1).1)
      else load_text o.0 v o.1

  -- The number of bytes that `vfs_save` asks to be written.
  unfoldable pub write_size : Vi → ℕ
  write_size v = if ltb v.old_size (before v.size) then before v.size else v.old_size

  -- Both branches behind the write answer what `vfs_close` answers.
  unfoldable pub vfs_save : Vi → S → ℕ × S
  unfolding write_size
  vfs_save v s =
      let o = vfs_open v.filename 1 0 s in
      if is_err_or_null o.0
      then o
      else (let w = write o.0 v.buffer (write_size v) o.1 in
          if w.0 == write_size v then vfs_close o.0 w.1 else vfs_close o.0 w.1)

  -- The body of the loop; in no other mode is anything done.
  unfoldable pub obey : (key : ℕ) → Vi → S → Vi × S
  unfolding vfs_save
  obey key v s =
      if v.mode == 0
      then (do_command_mode key v, s)
      else if v.mode == 1
      then (do_insert_mode key v, s)
      else if v.mode == 2
      then do_last_line_mode vfs_save key v s
      else (v, s)

  -- `while (vc.again)`, on the keys that are typed; the rest are the keys that are left.
  unfoldable pub edit : List ℕ → Vi → S → Vi × S × List ℕ
  edit [] v s = (v, s, [])
  edit (key ∷ keys) v s =
      let r = obey key v s in
      let rest = edit keys r.0 r.1 in if v.again then rest else (v, s, key ∷ keys)

  -- The answer, the control block, `cursor_freq` and the files; `none` while the editor waits for a
  -- key. The clearing of the screen at the end is left out.
  unfoldable pub vi :
      (keys filename : List ℕ) → Vi → (cursor_freq : ℕ) → S → Option (ℕ × Vi × ℕ × S)
  unfolding init_vi load_file edit
  vi keys filename v cursor_freq s =
      let l = load_file (init_vi filename v) s in
      if l.0 == 0
      then (let r = edit keys (screen_flush l.1) l.2 in
          if (r.0).again then none else some ((r.0).err, r.0, cursor_freq, r.1))
      else some (l.0, l.1, 0, l.2)
