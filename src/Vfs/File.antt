-- ===== src/Vfs/File.antt =====
-- Reading and writing of kernel/vfs/read_write.c, through the page cache.
pub mod Input
pub mod Output
pub mod Page
pub mod Cached
pub mod Contents
pub mod Loop
use ninix.Vfs.Cache.{
  VfsPage, PageStatus, page_invalid, page_dirty, Pages, pcache_look_up, pcache_add, e_io,
}
use ninix.Base.{
  ltb, ◌==◌, if◌then◌else◌, update, word, ℕ, ◌+◌, ◌-◌, ◌/◌, ◌%◌, Bool, Option, some, ◌∷◌, ◌>>=◌,
}

-- What a file system and the allocator do; `D` is the state of both and of the disks. `bmap` answers
-- the block of a page of a file, -1 if there is none.
pub record FileSystem (D : Type 0) : Type 0 where
  pub bmap : (inode vpn : ℕ) → D → ℕ × D
  pub readpage : VfsPage → (ℕ → ℕ) → D → ℕ × PageStatus × (ℕ → ℕ) × D
  pub writepage : VfsPage → D → ℕ × PageStatus × D
  pub write_inode : (inode : ℕ) → D → ℕ × D
  pub kmalloc : (size : ℕ) → D → ℕ × D

-- `i_size` is in the store, since a write changes it; `i_dentry` tells if an entry of a directory with
-- a parent belongs to the inode, and `s_op` if its file system has operations.
pub record Inode : Type 0 where
  pub i_size : ℕ
  pub i_blksize : ℕ
  pub i_dentry : Bool
  pub s_op : Bool

pub record Store (D : Type 0) : Type 0 where
  pub pages : Pages D
  pub mem : ℕ → ℕ
  pub inodes : ℕ → Inode

-- `struct file`, with null pointers as `none`; the inode stands for its mapping too.
pub record File : Type 0 where
  pub f_pos : ℕ
  pub d_inode : Option ℕ
  pub f_mapping : Option ℕ
  pub f_mode : ℕ

abbrev pub put_page : {D : Type 0} → ℕ → VfsPage → Store D → Store D
put_page p page s = record s { pages = record s.pages { pages = update s.pages.pages p page } }

abbrev pub put_disk : {D : Type 0} → D → Store D → Store D
put_disk d s = record s { pages = record s.pages { disk = d } }

-- The last byte of a transfer of `count` bytes that does not pass `limit`.
abbrev pub last_byte : (f_pos count limit : ℕ) → ℕ
last_byte f_pos count limit =
    if ltb limit ((f_pos + count) % word)
    then (limit + word - 1) % word
    else (f_pos + count + word - 1) % word

-- Where the transfer begins and ends in page `vpn`.
abbrev pub begin_off : (page_size f_pos vpn : ℕ) → ℕ
begin_off page_size f_pos vpn = if vpn == f_pos / page_size then f_pos % page_size else 0

abbrev pub end_off : (page_size last vpn : ℕ) → ℕ
end_off page_size last vpn = if vpn == last / page_size then last % page_size else page_size - 1

abbrev pub span : (begin end : ℕ) → ℕ
span begin end = (end + word - begin + 1) % word

module _ {D : Type 0} (fs : FileSystem D) where
  open fs use {readpage, writepage, kmalloc}

  -- The page that was read is cached; what `pcache_add` answers is not looked at.
  unfoldable pub keep_page : (p inode : ℕ) → Store D → Option (Store D × ℕ)
  keep_page p inode s = do
    let listed = record s.pages {
      a_cache = update s.pages.a_cache inode (p ∷ s.pages.a_cache inode);
    }
    (pages, err) ← pcache_add writepage p listed
    some (record s { pages = pages }, p)

  -- A page at the address `p` with its data at `a`.
  unfoldable pub load_page : (p a ppn inode : ℕ) → Store D → Option (Store D × ℕ)
  unfolding keep_page
  load_page p a ppn inode s =
      let page : VfsPage = record {
        p_data = a;
        p_state = page_invalid;
        p_location = ppn;
        a_host = inode;
      } in
      let r = readpage page s.mem s.pages.disk in
      let s' =
        put_disk (r.3) (put_page p (record page { p_state = r.1 }) (record s { mem = r.2 })) in
      if r.0 == 0
      then keep_page p inode s'
      else some (record s' { pages = record s'.pages { freed = a ∷ p ∷ s'.pages.freed } }, 0)

  -- The size of `struct vfs_page` is 44. A page without memory for its data is not given back.
  unfoldable pub new_page : (ppn inode : ℕ) → Store D → Option (Store D × ℕ)
  unfolding load_page
  new_page ppn inode s =
      let m = kmalloc 44 s.pages.disk in
      let m' = kmalloc (s.inodes inode).i_blksize (m.1) in
      if m.0 == 0
      then some (put_disk (m.1) s, 0)
      else if m'.0 == 0
      then some (put_disk (m'.1) s, 0)
      else load_page m.0 m'.0 ppn inode (put_disk (m'.1) s)

  unfoldable pub general_find_page : (ppn inode : ℕ) → Store D → Option (Store D × ℕ)
  unfolding new_page
  general_find_page ppn inode s =
      let r = pcache_look_up ppn inode s.pages in
      if r.1 == 0 then new_page ppn inode s else some (record s { pages = r.0 }, r.1)
