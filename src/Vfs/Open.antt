-- ===== src/Vfs/Open.antt =====
-- The look-up of paths and the opening of files of kernel/vfs/open.c. A path is the list of its bytes.
mod Examples
pub mod Files
pub mod Walk
pub mod Ends
pub mod Refused
use ninix.Vfs.Tree.{
  LastType, last_norm, last_dir, last_root, last_dot, last_dotdot, Tree, InodeOps, Place, e_nomem,
  e_noinode, e_nopath, e_lasttype, follow_mount, follow_dotdot, do_lookup,
}
use ninix.Base.{
  ◌==◌, if◌then◌else◌, length, word, ℕ, zero, suc, ◌+◌, ◌%◌, Bool, true, false, not, ◌&&◌, ◌||◌,
  Option, none, some, List, [], ◌∷◌, ◌>>=◌,
}

-- `struct nameidata`; `directory` and `create` are the two bits of its flags.
pub record NameData : Type 0 where
  pub place : Place
  pub last : List ℕ
  pub directory : Bool
  pub create : Bool
  pub last_type : LastType

abbrev pub slash : ℕ
slash = b'/'

-- `while (*p == '/') p++;`.
unfoldable pub skip_slashes : List ℕ → List ℕ
skip_slashes [] = []
skip_slashes (c ∷ p) = if c == slash then skip_slashes p else c ∷ p

-- `while ((*p) && (*p != '/')) p++;`: the name, and the path from the end of it on.
unfoldable pub take_name : List ℕ → List ℕ × List ℕ
take_name [] = ([], [])
take_name (c ∷ p) =
    let rest = take_name p in if c == slash then ([], c ∷ p) else (c ∷ rest.0, rest.1)

unfoldable pub is_dot : List ℕ → Bool
is_dot (c ∷ []) = c == b'.'
is_dot [] = false
is_dot (c ∷ d ∷ p) = false

unfoldable pub is_dotdot : List ℕ → Bool
is_dotdot (c ∷ d ∷ []) = c == b'.' && d == b'.'
is_dotdot [] = false
is_dotdot (c ∷ []) = false
is_dotdot (c ∷ d ∷ e ∷ p) = false

-- The last names of files that the function refuses: one letter, or two with a dot behind.
unfoldable pub is_refused : List ℕ → Bool
is_refused [] = false
is_refused (c ∷ []) = true
is_refused (c ∷ d ∷ []) = d == b'.'
is_refused (c ∷ d ∷ e ∷ p) = false

abbrev pub last_type_of : (directory : Bool) → List ℕ → LastType
last_type_of directory name =
    if directory
    then last_dir
    else if is_dot name
    then last_dot
    else if is_dotdot name
    then last_dotdot
    else last_norm

abbrev pub put_place : Place → NameData → NameData
put_place place nd = record nd { place = place }

-- `path_lookup` starts there. For an empty path the C sets no place.
abbrev pub start_at : Place → (directory create : Bool) → NameData
start_at place directory create = record {
  place = place;
  last = [];
  directory = directory;
  create = create;
  last_type = last_root;
}

module _ {D : Type 0} (ops : InodeOps D) where
  open ops use {kmalloc, has_lookup}

  -- The walk up takes a round for each mount at most.
  abbrev pub up : NameData → Tree D → Option NameData
  up nd t = do place ← follow_dotdot (length t.mnt_hash + 2) nd.place t; some (put_place place nd)

  -- From a directory to the entry of a name in it, over a mount; `searched` tells that the inode of the
  -- entry must have a look-up of its own.
  unfoldable pub enter :
      List ℕ → LastType → (searched : Bool) → NameData → Tree D → Tree D × NameData × ℕ
  unfolding follow_mount do_lookup
  enter name type searched nd t =
      let r = do_lookup ops nd.place.1 name type t in
      let f = follow_mount (nd.place.0, r.0) r.1 in
      let inode = (r.1).d_inode (f.0).1 in
      if r.0 == 0
      then (r.1, nd, e_noinode)
      else if not (f.1 == 0)
      then (r.1, nd, f.1)
      else if inode == 0 || searched && not (has_lookup inode)
      then (r.1, nd, e_noinode)
      else (r.1, put_place f.0 nd, 0)

  -- A name that is not the last one.
  unfoldable pub middle : List ℕ → NameData → Tree D → Option (Tree D × NameData × ℕ)
  unfolding enter is_dot is_dotdot follow_dotdot
  middle name nd t =
      if is_dot name
      then some (t, nd, 0)
      else if is_dotdot name
      then (do nd' ← up nd t; some (t, nd', 0))
      else some (enter name last_dir true nd t)

  -- `lookup_parent`.
  unfoldable pub lookup_parent : List ℕ → NameData → Tree D → Tree D × NameData × ℕ
  unfolding is_dot is_dotdot
  lookup_parent name nd t =
      let b = kmalloc ((length name + 1) % word) t.disk in
      let t' = record t { disk = b.1 } in
      if b.0 == 0
      then (t', nd, e_nomem)
      else (t', record nd { last = name; last_type = last_type_of nd.directory name }, 0)

  -- `last_component`.
  unfoldable pub last_component : List ℕ → NameData → Tree D → Option (Tree D × NameData × ℕ)
  unfolding lookup_parent enter is_refused
  last_component name nd t =
      if nd.create
      then some (lookup_parent name nd t)
      else if nd.directory
      then (if is_dot name
          then some (t, nd, 0)
          else if is_dotdot name
          then (do nd' ← up nd t; some (t, nd', 0))
          else some (enter name last_dir true nd t))
      else if is_refused name
      then some (t, nd, e_nopath)
      else some (enter name last_norm false nd t)

  -- The loop over the names of a path that does not begin with a slash. `none`: the rounds do not do.
  unfoldable pub walk : (rounds : ℕ) → List ℕ → NameData → Tree D → Option (Tree D × NameData × ℕ)
  unfolding take_name skip_slashes middle last_component
  walk zero p nd t = none
  walk (suc rounds) p nd t =
      let n = take_name p in
      elim n.1 [
        | [] ↦ last_component n.0 nd t
        | c ∷ r ↦ elim (skip_slashes (c ∷ r)) [
          | [] ↦ if nd.directory then last_component n.0 nd t else some (t, nd, e_lasttype)
          | d ∷ q ↦ do
            (t', nd', err) ← middle n.0 nd t
            let rest = walk rounds (d ∷ q) nd' t'
            if err == 0 then rest else some (t', nd', err)
        ]
      ]

  -- A path of slashes alone names a directory.
  unfoldable pub do_path_lookup : List ℕ → NameData → Tree D → Option (Tree D × NameData × ℕ)
  unfolding walk
  do_path_lookup name nd t = elim (skip_slashes name) [
    | [] ↦ some (t, nd, if nd.directory then 0 else e_nopath)
    | c ∷ p ↦ walk (length name) (c ∷ p) nd t
  ]

  unfoldable pub path_lookup :
      List ℕ → (directory create : Bool) → Tree D → Option (Tree D × NameData × ℕ)
  unfolding do_path_lookup
  path_lookup [] directory create t =
      some (t, start_at (t.root_mount, t.root_dentry) directory create, e_nopath)
  path_lookup (c ∷ p) directory create t =
      if c == slash
      then do_path_lookup (c ∷ p) (start_at (t.root_mount, t.root_dentry) directory create) t
      else do_path_lookup (c ∷ p) (start_at (t.pwd_mount, t.pwd_dentry) directory create) t
