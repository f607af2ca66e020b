-- ===== src/Editor.antt =====
-- The editor of kernel/vfs/vi.c: its control block, the text in the buffer, and the keys of its modes.
mod Examples
pub mod Text
pub mod Lines
pub mod Screen
pub mod Modes
pub mod Session
use ninix.Base.{leb, ◌==◌, if◌then◌else◌, update, word, ℕ, zero, suc, ◌+◌, ◌-◌, ◌%◌, Bool, List}

abbrev pub buffer_size : ℕ
buffer_size = 4096

abbrev pub row_len : ℕ
row_len = 29

abbrev pub col_len : ℕ
col_len = 80

abbrev pub key_del : ℕ
key_del = 0x8

abbrev pub key_tab : ℕ
key_tab = 0x9

abbrev pub key_spc : ℕ
key_spc = 0x20

abbrev pub key_esc : ℕ
key_esc = 0x1b

abbrev pub key_enter_n : ℕ
key_enter_n = 0xa

abbrev pub key_enter_r : ℕ
key_enter_r = 0xd

-- `struct victrl`, with the name of the file as its characters and the words of the video memory.
pub record Vi : Type 0 where
  pub filename : List ℕ
  pub buffer : ℕ → ℕ
  pub inst : ℕ → ℕ
  pub inst_len : ℕ
  pub old_size : ℕ
  pub size : ℕ
  pub cursor_loc : ℕ
  pub page_begin_loc : ℕ
  pub page_end_loc : ℕ
  pub mode : ℕ
  pub again : Bool
  pub err : ℕ
  pub vram : ℕ → ℕ

-- `vc.size - 1`, on words.
abbrev pub before : ℕ → ℕ
before n = (n + word - 1) % word

-- `for (int i = vc.size - 1; i >= (int)site; i--) vc.buffer[i + 1] = vc.buffer[i];`, from `i` + 1 on.
unfoldable pub shift_right : (i site : ℕ) → (ℕ → ℕ) → ℕ → ℕ
shift_right zero site b = b
shift_right (suc i) site b = if leb site i then shift_right i site (update b (i + 1) (b i)) else b

unfoldable pub insert_key : (key site : ℕ) → Vi → Vi
unfolding shift_right
insert_key key site v = if v.size == buffer_size then v else record v {
  size = (v.size + 1) % word;
  buffer = update (shift_right v.size site v.buffer) site key;
}

-- `for (u32 i = site; i < vc.size - 1; i++) vc.buffer[i] = vc.buffer[i + 1];` for `rounds` rounds.
unfoldable pub shift_left : (rounds i : ℕ) → (ℕ → ℕ) → ℕ → ℕ
shift_left zero i b = b
shift_left (suc rounds) i b = shift_left rounds (i + 1) (update b i (b (i + 1)))

unfoldable pub delete_key : (site : ℕ) → Vi → Vi
unfolding shift_left
delete_key site v = if v.size == 0 then v else record v {
  buffer = update (shift_left (v.size - 1 - site) site v.buffer) (v.size - 1) key_spc;
  size = v.size - 1;
}
