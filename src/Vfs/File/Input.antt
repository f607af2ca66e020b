-- ===== src/Vfs/File/Input.antt =====
-- `generic_file_read` and `vfs_read` of kernel/vfs/read_write.c.
use ninix.Utils.{kernel_memcpy}
use ninix.Vfs.File.{
  FileSystem, Store, File, put_disk, last_byte, begin_off, end_off, span, general_find_page,
}
use ninix.Base.{
  ◌==◌, if◌then◌else◌, word, ℕ, zero, suc, ◌+◌, ◌-◌, ◌/◌, ◌%◌, ◌||◌, Option, none, some, ◌>>=◌,
}

module _ {D : Type 0} (fs : FileSystem D) where
  open fs use {bmap}

  -- One page goes to the buffer.
  abbrev pub copy_out : (page_size f_pos last vpn page buf len : ℕ) → Store D → Store D
  copy_out page_size f_pos last vpn page buf len s =
      let b = begin_off page_size f_pos vpn in
      record s {
        mem =
            kernel_memcpy (span b (end_off page_size last vpn)) (buf + len)
              ((s.pages.pages page).p_data + b) s.mem;
      }

  -- The loop over the pages, with the rounds left: the number of bytes that were read.
  unfoldable pub read_loop :
      (rounds vpn inode page_size f_pos last buf len : ℕ) → Store D → Option (Store D × ℕ)
  unfolding general_find_page
  read_loop zero vpn inode page_size f_pos last buf len s = some (s, len)
  read_loop (suc rounds) vpn inode page_size f_pos last buf len s =
      let m = bmap inode vpn s.pages.disk in
      if m.0 == word - 1 then some (put_disk (m.1) s, len) else do
        (s', page) ← general_find_page fs m.0 inode (put_disk (m.1) s)
        let n = span (begin_off page_size f_pos vpn) (end_off page_size last vpn)
        let rest =
            read_loop rounds (vpn + 1) inode page_size f_pos last buf ((len + n) % word)
              (copy_out page_size f_pos last vpn page buf len s')
        if page == 0 || (s'.pages.pages page).p_data == 0 then some (s', len) else rest

  -- The file, the rest of the state and the number of bytes.
  unfoldable pub generic_file_read : File → (buf count : ℕ) → Store D → Option (File × Store D × ℕ)
  unfolding read_loop
  generic_file_read file buf count s = elim file.d_inode [
    | none ↦ some (file, s, 0)
    | some inode ↦ elim file.f_mapping [
      | none ↦ some (file, s, 0)
      | some _ ↦ do
        let page_size = (s.inodes inode).i_blksize
        let last = last_byte file.f_pos count (s.inodes inode).i_size
        let first = file.f_pos / page_size
        (s', len) ←
            read_loop (last / page_size + 1 - first) first inode page_size file.f_pos last buf 0 s
        some (record file { f_pos = (file.f_pos + len) % word }, s', len)
    ]
  ]

  -- `FMODE_READ` is the bit 1; the file systems read by `generic_file_read`.
  unfoldable pub vfs_read : File → (buf count : ℕ) → Store D → Option (File × Store D × ℕ)
  unfolding generic_file_read
  vfs_read file buf count s =
      if file.f_mode % 2 == 1 then generic_file_read file buf count s else some (file, s, 0)
