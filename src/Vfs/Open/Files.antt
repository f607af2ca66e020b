-- ===== src/Vfs/Open/Files.antt =====
-- `vfs_open` of kernel/vfs/open.c, and what it opens.
use ninix.Vfs.Tree.{
  LastType, last_norm, last_dir, last_root, last_dot, last_dotdot, Tree, InodeOps, Place, e_nomem,
  e_noinode, e_lasttype, do_lookup_create,
}
use ninix.Vfs.Open.{NameData, put_place, path_lookup}
use ninix.Base.{
  ◌==◌, if◌then◌else◌, ℕ, ◌+◌, ◌/◌, ◌%◌, Bool, true, false, not, ◌&&◌, ◌||◌, Option, none, some,
  List, ◌>>=◌,
}

-- What `dentry_open` sets of a `struct file`; the mapping and the operations are those of the inode.
pub record OpenFile : Type 0 where
  pub f_flags : LastType
  pub f_mode : ℕ
  pub f_place : Place
  pub f_inode : ℕ
  pub f_pos : ℕ

abbrev pub is_some : {A : Type 0} → Option A → Bool
is_some none = false
is_some (some a) = true

abbrev pub is_norm : LastType → Bool
is_norm last_norm = true
is_norm last_dir = false
is_norm last_root = false
is_norm last_dot = false
is_norm last_dotdot = false

abbrev pub is_last_dir : LastType → Bool
is_last_dir last_norm = false
is_last_dir last_dir = true
is_last_dir last_root = false
is_last_dir last_dot = false
is_last_dir last_dotdot = false

-- `O_DIR` is the bit 4 and `O_CREATE` the bit 8 of the flags, `O_MASK` the lowest two.
unfoldable pub is_dir : (flags : ℕ) → Bool
is_dir flags = flags / 4 % 2 == 1

unfoldable pub is_create : (flags : ℕ) → Bool
is_create flags = flags / 8 % 2 == 1

module _ {D : Type 0} (ops : InodeOps D) where
  open ops use {kmalloc, create}

  -- Behind the look-up of the directory: the entry is found there, or made.
  unfoldable pub create_last : (mode : ℕ) → NameData → Tree D → Tree D × NameData × ℕ
  unfolding do_lookup_create
  create_last mode nd t =
      let r = do_lookup_create ops nd.last nd.place.1 nd.last_type t in
      let c = create r.0 mode r.1 in
      let nd' = put_place (nd.place.0, r.0) nd in
      if not (is_norm nd.last_type) && not (is_last_dir nd.last_type)
      then (t, nd, e_lasttype)
      else if r.0 == 0
      then (r.1, nd, e_nomem)
      else if not ((r.1).d_inode r.0 == 0)
      then (if is_last_dir nd.last_type then (r.1, nd, e_lasttype) else (r.1, nd', 0))
      else if c.0 == 0
      then (c.1, nd', 0)
      else (c.1, nd, e_noinode)

  unfoldable pub open_namei : List ℕ → (flag mode : ℕ) → Tree D → Option (Tree D × NameData × ℕ)
  unfolding path_lookup create_last is_dir is_create
  open_namei pathname flag mode t = do
    (t', nd, err) ← path_lookup ops pathname (is_dir flag) (is_create flag) t
    if not (err == 0) || not (is_create flag)
        then some (t', nd, err)
        else some (create_last mode nd t')

  -- The size of `struct file` is 28. The rest of the file is what its inode says.
  unfoldable pub dentry_open : Place → (flags : ℕ) → Tree D → Option OpenFile × Tree D
  unfolding is_dir
  dentry_open place flags t =
      let f = kmalloc 28 t.disk in
      let rwflag = flags % 4 in
      let write = if rwflag == 0 then 0 else 2 in
      let read = if rwflag == 0 || rwflag == 2 then 1 else 0 in
      let t' = record t { disk = f.1 } in
      if f.0 == 0 then (none, t') else (
        some (record {
          f_flags = if is_dir flags then last_dir else last_norm;
          f_mode = write + read;
          f_place = place;
          f_inode = t.d_inode place.1;
          f_pos = 0;
        }),
        t',
      )

  -- The error, 0 if there is none; without memory for the file it is `-ENOMEM`.
  unfoldable pub vfs_open :
      List ℕ → (flags mode : ℕ) → Tree D → Option (Option OpenFile × ℕ × Tree D)
  unfolding open_namei dentry_open
  vfs_open filename flags mode t = do
    (t', nd, err) ← open_namei filename flags mode t
    let f = dentry_open nd.place flags t'
    some (if err == 0 then (f.0, if is_some f.0 then 0 else e_nomem, f.1) else (none, err, t'))

-- The pages of the file are written back, and its memory is freed if that worked.
unfoldable pub vfs_close :
    {D : Type 0}
    → (flush : (filp : ℕ) → D → ℕ × D) → (kfree : (filp : ℕ) → D → D) → (filp : ℕ) → D
    → ℕ × D
vfs_close flush kfree filp d = let r = flush filp d in if r.0 == 0 then (0, kfree filp r.1) else r
