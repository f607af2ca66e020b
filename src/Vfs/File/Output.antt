-- ===== src/Vfs/File/Output.antt =====
-- `generic_file_write`, `vfs_write` and `generic_file_flush` of kernel/vfs/read_write.c.
use ninix.Utils.{kernel_memcpy}
use ninix.Vfs.Cache.{page_dirty, e_io}
use ninix.Vfs.File.{
  FileSystem, Store, File, put_page, put_disk, begin_off, end_off, span, general_find_page,
}
use ninix.Base.{
  ltb, ◌==◌, if◌then◌else◌, update, word, ℕ, zero, suc, ◌+◌, ◌-◌, ◌/◌, ◌%◌, Bool, false, not, ◌||◌,
  Option, none, some, List, [], ◌∷◌, ◌>>=◌,
}

module _ {D : Type 0} (fs : FileSystem D) where
  open fs use {bmap, writepage, write_inode}

  -- One page takes its part of the buffer.
  abbrev pub copy_in : (page_size f_pos last vpn page buf len : ℕ) → Store D → Store D
  copy_in page_size f_pos last vpn page buf len s =
      let b = begin_off page_size f_pos vpn in
      put_page page (record (s.pages.pages page) { p_state = page_dirty })
        (record s {
          mem =
              kernel_memcpy (span b (end_off page_size last vpn)) ((s.pages.pages page).p_data + b)
                (buf + len) s.mem;
        })

  unfoldable pub write_loop :
      (rounds vpn inode page_size f_pos last buf len : ℕ) → Store D → Option (Store D × ℕ)
  unfolding general_find_page
  write_loop zero vpn inode page_size f_pos last buf len s = some (s, len)
  write_loop (suc rounds) vpn inode page_size f_pos last buf len s =
      let m = bmap inode vpn s.pages.disk in
      if m.0 == word - 1 then some (put_disk (m.1) s, len) else do
        (s', page) ← general_find_page fs m.0 inode (put_disk (m.1) s)
        let n = span (begin_off page_size f_pos vpn) (end_off page_size last vpn)
        let rest =
            write_loop rounds (vpn + 1) inode page_size f_pos last buf ((len + n) % word)
              (copy_in page_size f_pos last vpn page buf len s')
        if page == 0 || (s'.pages.pages page).p_data == 0 then some (s', len) else rest

  -- A file that grows: its new size is written to its directory. `false` stands for a failure.
  unfoldable pub grow : (inode size : ℕ) → Store D → Store D × Bool
  grow inode size s =
      let i = s.inodes inode in
      if not i.s_op || not i.i_dentry
      then (s, false)
      else (let s' = record s { inodes = update s.inodes inode (record i { i_size = size }) } in
          let w = write_inode inode s'.pages.disk in (put_disk (w.1) s', w.0 == 0))

  -- The write behind that.
  unfoldable pub write_pages :
      (inode : ℕ) → File → (buf count : ℕ) → Store D → Option (File × Store D × ℕ)
  unfolding write_loop
  write_pages inode file buf count s = do
    let page_size = (s.inodes inode).i_blksize
    let last = (file.f_pos + count + word - 1) % word
    let first = file.f_pos / page_size
    (s', len) ←
        write_loop (last / page_size + 1 - first) first inode page_size file.f_pos last buf 0 s
    some (record file { f_pos = (file.f_pos + len) % word }, s', len)

  unfoldable pub generic_file_write : File → (buf count : ℕ) → Store D → Option (File × Store D × ℕ)
  unfolding grow write_pages
  generic_file_write file buf count s = elim file.d_inode [
    | none ↦ some (file, s, 0)
    | some inode ↦ elim file.f_mapping [
      | none ↦ some (file, s, 0)
      | some _ ↦
          let size = (file.f_pos + count) % word in
          let g = grow inode size s in
          if ltb (s.inodes inode).i_size size
          then (if g.1 then write_pages inode file buf count g.0 else some (file, g.0, 0))
          else write_pages inode file buf count s
    ]
  ]

  -- `FMODE_WRITE` is the bit 2.
  unfoldable pub vfs_write : File → (buf count : ℕ) → Store D → Option (File × Store D × ℕ)
  unfolding generic_file_write
  vfs_write file buf count s =
      if file.f_mode / 2 % 2 == 1 then generic_file_write file buf count s else some (file, s, 0)

  -- Every cached page of the inode is written back, up to the first failure.
  unfoldable pub flush_pages : List ℕ → Store D → Store D × ℕ
  flush_pages [] s = (s, 0)
  flush_pages (p ∷ ps) s =
      let page = s.pages.pages p in
      let w = writepage page s.pages.disk in
      let s' = put_disk (w.2) (put_page p (record page { p_state = w.1 }) s) in
      let rest = flush_pages ps s' in if w.0 == 0 then rest else (s', e_io)

  unfoldable pub generic_file_flush : (inode : ℕ) → Store D → Store D × ℕ
  unfolding flush_pages
  generic_file_flush inode s = flush_pages (s.pages.a_cache inode) s
