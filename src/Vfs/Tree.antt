-- ===== src/Vfs/Tree.antt =====
-- The tree of directory entries and mounts: kernel/vfs/open.c and kernel/vfs/mount.c.
pub mod Upward
use ninix.Vfs.Dentry.{Dentry, Dentries, dcache_look_up, dcache_add}
use ninix.Base.{
  ◌==◌, if◌then◌else◌, update, length, word, ℕ, zero, suc, ◌+◌, ◌-◌, ◌%◌, Bool, false, not, ◌&&◌,
  ◌||◌, Option, none, some, List, [], ◌∷◌,
}

-- `enum last_type`.
pub data LastType : Type 0 where
  last_norm last_dir last_root last_dot last_dotdot : LastType

-- `struct vfsmount`.
pub record Mount : Type 0 where
  pub mnt_parent : ℕ
  pub mnt_mountpoint : ℕ
  pub mnt_root : ℕ

-- The cache of entries, what it does not read of them (an inode is 0 for a null pointer), and the
-- mounts; `mnt_hash` has those behind `root_mount`. `D` is the state of the memory and the disks.
pub record Tree (D : Type 0) : Type 0 where
  pub dcache : Dentries
  pub d_mounted : ℕ → ℕ
  pub d_inode : ℕ → ℕ
  pub mounts : ℕ → Mount
  pub mnt_hash : List ℕ
  pub root_dentry : ℕ
  pub root_mount : ℕ
  pub pwd_dentry : ℕ
  pub pwd_mount : ℕ
  pub disk : D

-- What the inodes of a file system and the allocator do. `lookup` answers an entry, 0 if there is none.
pub record InodeOps (D : Type 0) : Type 0 where
  pub kmalloc : (size : ℕ) → D → ℕ × D
  pub lookup : (inode new : ℕ) → LastType → Tree D → ℕ × Tree D
  pub has_lookup : (inode : ℕ) → Bool
  pub create : (dentry mode : ℕ) → Tree D → ℕ × Tree D

abbrev pub e_nomem : ℕ
e_nomem = word - 512

abbrev pub e_noinode : ℕ
e_noinode = word - 514

abbrev pub e_novfsmnt : ℕ
e_novfsmnt = word - 517

abbrev pub e_nopath : ℕ
e_nopath = word - 518

abbrev pub e_lasttype : ℕ
e_lasttype = word - 520

-- A place in the tree: the mount and the entry.
abbrev pub Place : Type 0
Place = ℕ × ℕ

-- The first mount of the list that is mounted at the place, if any.
unfoldable pub find_mount : (ℕ → Mount) → Place → List ℕ → Option ℕ
find_mount mounts place [] = none
find_mount mounts place (m ∷ ms) =
    if (mounts m).mnt_parent == place.0 && (mounts m).mnt_mountpoint == place.1
    then some m
    else find_mount mounts place ms

unfoldable pub is_mountpoint : (ℕ → Mount) → (dentry : ℕ) → List ℕ → Bool
is_mountpoint mounts dentry [] = false
is_mountpoint mounts dentry (m ∷ ms) =
    (mounts m).mnt_mountpoint == dentry || is_mountpoint mounts dentry ms

module _ {D : Type 0} where
  -- From an entry that is mounted on to the root of what is mounted there.
  unfoldable pub follow_mount : Place → Tree D → Place × ℕ
  unfolding find_mount
  follow_mount place t =
      if t.d_mounted place.1 == 0
      then (place, 0)
      else elim (find_mount t.mounts place (t.root_mount ∷ t.mnt_hash)) [
        | none ↦ (place, e_novfsmnt)
        | some m ↦ ((m, (t.mounts m).mnt_root), 0)
      ]

  -- To the directory above, over the roots of mounted file systems; `none` if the rounds do not do.
  unfoldable pub follow_dotdot : (rounds : ℕ) → Place → Tree D → Option Place
  follow_dotdot zero place t = none
  follow_dotdot (suc rounds) (mnt, dentry) t =
      let rest =
        follow_dotdot rounds ((t.mounts mnt).mnt_parent, (t.mounts mnt).mnt_mountpoint) t in
      if dentry == t.root_dentry && mnt == t.root_mount
      then some (mnt, dentry)
      else if not (dentry == (t.mounts mnt).mnt_root)
      then some (mnt, (t.dcache.dentries dentry).d_parent)
      else rest

  -- The fields of the entry `d`, as `d_alloc` sets them.
  unfoldable pub new_dentry : (d : ℕ) → List ℕ → (parent : ℕ) → Tree D → Tree D
  unfolding is_mountpoint
  new_dentry d name parent t =
      let c = t.dcache in
      let subdirs = update c.subdirs d [] in
      let c' = record c {
        dentries =
            update c.dentries d
              (record { d_count = 1; d_pinned = 0; d_parent = parent; d_name = name });
        subdirs = update subdirs parent (d ∷ subdirs parent);
      } in
      record t {
        dcache = dcache_add d c';
        d_mounted =
            update t.d_mounted d
              (if is_mountpoint t.mounts d (t.root_mount ∷ t.mnt_hash) then 1 else 0);
        d_inode = update t.d_inode d 0;
      }

module _ {D : Type 0} (ops : InodeOps D) where
  open ops use {kmalloc, lookup}

  -- The size of `struct dentry` is 68. Without memory for the name the entry is not given back.
  unfoldable pub d_alloc : List ℕ → (parent : ℕ) → Tree D → ℕ × Tree D
  unfolding new_dentry
  d_alloc name parent t =
      let d = kmalloc 68 t.disk in
      let b = kmalloc ((length name + 1) % word) d.1 in
      if d.0 == 0
      then (0, record t { disk = d.1 })
      else if b.0 == 0
      then (0, record t { disk = b.1 })
      else (d.0, new_dentry d.0 name parent (record t { disk = b.1 }))

  -- The entry of the name below `parent`, 0 for a failure.
  unfoldable pub do_lookup : (parent : ℕ) → List ℕ → LastType → Tree D → ℕ × Tree D
  unfolding d_alloc
  do_lookup parent name type t =
      let this = dcache_look_up name parent t.dcache in
      let new = d_alloc name parent t in
      if not (this == 0)
      then (this, t)
      else if new.0 == 0
      then (0, new.1)
      else lookup (t.d_inode parent) new.0 type new.1

  -- The entry for a file that is to be created; it has no inode if there is none yet.
  unfoldable pub do_lookup_create : List ℕ → (parent : ℕ) → LastType → Tree D → ℕ × Tree D
  unfolding d_alloc
  do_lookup_create name parent type t =
      let this = dcache_look_up name parent t.dcache in
      let new = d_alloc name parent t in
      let found = lookup (t.d_inode parent) new.0 type new.1 in
      if not (this == 0)
      then (this, t)
      else if new.0 == 0
      then (0, new.1)
      else if found.0 == 0
      then (new.0, found.1)
      else found
