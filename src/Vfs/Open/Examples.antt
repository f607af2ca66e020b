-- ===== src/Vfs/Open/Examples.antt =====
-- The theorems on paths at a tree with a mounted file system.
use ninix.Vfs.Cache.{dcache}
use ninix.Vfs.Dentry.{Dentries}
use ninix.Vfs.Tree.{Tree, InodeOps, Place, last_root, e_nopath, follow_dotdot}
use ninix.Vfs.Tree.Upward.{Above, follow_dotdot-Above}
use ninix.Vfs.Open.{NameData, do_path_lookup}
use ninix.Vfs.Open.Walk.{slashes, path_of, resolve}
use ninix.Vfs.Open.Ends.{Grounded, do_path_lookup-resolved}
use ninix.Vfs.Open.Refused.{do_path_lookup-one_letter}
use ninix.Base.{
  ◌==◌, if◌then◌else◌, update, ℕ, ◌+◌, ◌≡◌, refl, ◌≢◌, true, false, some, List, [], ◌∷◌, arith,
}

abbrev no_entries : Dentries
no_entries = record {
  cache = record {
    c_size = 0;
    c_capacity = 256;
    c_tablesize = 64;
    c_hashtable = λ h. [];
    c_lru = [];
    c_op = dcache;
  };
  dentries = λ d. record { d_count = 1; d_pinned = 0; d_parent = 10; d_name = b'e' ∷ [] };
  subdirs = λ d. [];
  aliases = λ i. [];
  freed = [];
}

-- Mount 2 has the root 30 and is mounted on entry 20, below the root 10 of mount 1.
abbrev two_mounts : Tree ℕ
two_mounts = record {
  dcache = no_entries;
  d_mounted = λ d. if d == 20 then 1 else 0;
  d_inode = λ d. d + 100;
  mounts =
      λ m. record { mnt_parent = 1; mnt_mountpoint = 20; mnt_root = if m == 1 then 10 else 30 };
  mnt_hash = 2 ∷ [];
  root_dentry = 10;
  root_mount = 1;
  pwd_dentry = 30;
  pwd_mount = 2;
  disk = 1000;
}

-- Every name is found, as the entry that was made for it.
abbrev all_there : InodeOps ℕ
all_there = record {
  kmalloc = λ size d. (d, d + size);
  lookup = λ inode new type t. (new, record t { d_inode = update t.d_inode new 7 });
  has_lookup = λ inode. true;
  create = λ dentry mode t. (0, t);
}

dotdot_example :
    (place : Place) × (follow_dotdot 3 (2, 30) two_mounts ≡ some place)
    × Above two_mounts (2, 30) place
dotdot_example =
    follow_dotdot-Above two_mounts (λ m. if m == 1 then 0 else 1) (λ m n. ground arith) refl 3 2 30
      (ground arith)

abbrev start : NameData
start = record {
  place = (1, 10);
  last = [];
  directory = false;
  create = false;
  last_type = last_root;
}

two_mounts-Grounded : Grounded (λ m. if m == 1 then 0 else 1) two_mounts
two_mounts-Grounded = record {
  root = refl;
  lower = λ m n. ground arith;
  shallow = λ m. ground arith;
}

-- The path `/usr//../ps`.
abbrev up_again : List (List ℕ × ℕ)
up_again = (b'u' ∷ b's' ∷ b'r' ∷ [], 1) ∷ (b'.' ∷ b'.' ∷ [], 0) ∷ []

path_example :
    (r : Tree ℕ × NameData × ℕ) × (do_path_lookup all_there
        (slashes 1 (path_of up_again (b'p' ∷ b's' ∷ [])))
        start
        two_mounts
      ≡ some r)
    × (resolve all_there up_again (b'p' ∷ b's' ∷ []) start two_mounts ≡ some r)
path_example =
    do_path_lookup-resolved all_there (λ m. if m == 1 then 0 else 1) 1 up_again (b'p' ∷ b's' ∷ [])
      start two_mounts
      (λ inode new type t. record {
        mounts = refl;
        mnt_hash = refl;
        root_mount = refl;
        root_dentry = refl;
      })
      two_mounts-Grounded refl refl

-- The path `/a`.
look_up_a :
    do_path_lookup all_there (slashes 1 (path_of [] (b'a' ∷ []))) start two_mounts
    ≡ some (two_mounts, start, e_nopath)
unfolding do_path_lookup
look_up_a = refl

one_letter_example : e_nopath ≢ 0
one_letter_example =
    do_path_lookup-one_letter all_there 1 [] b'a' start start two_mounts two_mounts e_nopath refl
      (λ e. omega arith) refl refl look_up_a
