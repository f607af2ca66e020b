-- ===== src/Vfs/Examples.antt =====
-- The theorems on the caches at concrete states.
use ninix.Ring.Nodes.{count}
use ninix.Vfs.Cache.{
  Cache, VfsPage, PageStatus, Pages, page_dirty, pcache, dcache, pcache_look_up, pcache_add,
}
use ninix.Vfs.Cache.Coherent.{Coherent}
use ninix.Vfs.Cache.Find.{LookedUp, pcache_look_up-LookedUp}
use ninix.Vfs.Cache.Replace.{Added, pcache_add-Added}
use ninix.Vfs.Dentry.{Dentries, dcache_look_up, dcache_add, generic_check_filename, string_hash}
use ninix.Vfs.Dentry.Names.{SameButCase, generic_check_filename_lem, string_hash_case}
use ninix.Vfs.Dentry.Look.{dcache_look_up-add}
use ninix.Vfs.File.{FileSystem, Store, File}
use ninix.Vfs.File.Input.{generic_file_read}
use ninix.Vfs.File.Cached.{Held}
use ninix.Vfs.File.Contents.{generic_file_read_lem}
use ninix.Base.{
  ltb, leb, ◌==◌, if◌then◌else◌, ℕ, ◌+◌, ◌-◌, ◌≡◌, refl, ◌≢◌, ◌↔◌, true, false, ◌&&◌, some, [], ◌∷◌,
  arith,
}

abbrev one_page : Cache
one_page = record {
  c_size = 1;
  c_capacity = 1;
  c_tablesize = 64;
  c_hashtable = λ h. if 3 == h then 100 ∷ [] else [];
  c_lru = 100 ∷ [];
  c_op = pcache;
}

-- A cache for one page, which has page 100 of inode 9, from block 67.
abbrev full : Pages ℕ
full = record {
  cache = one_page;
  pages = λ p. record {
    p_data = p + 1000;
    p_state = page_dirty;
    p_location = if p == 100 then 67 else 68;
    a_host = 9;
  };
  a_cache = λ i. [];
  freed = [];
  disk = 0;
}

full-Coherent : Coherent full
unfolding count
full-Coherent = record {
  some_room = omega arith;
  small = omega arith;
  size = refl;
  bound = omega arith;
  once = λ p. ground arith;
  nonnull = refl;
  placed = λ p h. ground arith;
}

-- The disk counts the pages that are written.
abbrev write_page : VfsPage → ℕ → ℕ × PageStatus × ℕ
write_page page disk = (0, page.p_state, disk + 1)

look_up_example : let r = pcache_look_up 67 9 full in Coherent r.0 × LookedUp full 67 9 r
look_up_example = pcache_look_up-LookedUp full full-Coherent 67 9

five_new : count 5 full.cache.c_lru ≡ 0
unfolding count
five_new = refl

add_example :
    (s' : Pages ℕ) × (err : ℕ) × (pcache_add write_page 5 full ≡ some (s', err))
    × Coherent s'
    × Added write_page full s' 5 err
add_example = pcache_add-Added write_page full full-Coherent 5 (λ e. omega arith) five_new

names_example :
    (generic_check_filename (b'a' ∷ []) (b'A' ∷ []) ≡ 0) ↔ SameButCase (b'a' ∷ []) (b'A' ∷ [])
names_example = generic_check_filename_lem (b'a' ∷ []) (b'A' ∷ [])

case_example :
    (generic_check_filename (b'o' ∷ b'k' ∷ []) (b'o' ∷ b'K' ∷ []) ≡ 0)
    × (string_hash (b'o' ∷ b'k' ∷ []) 64 ≢ string_hash (b'o' ∷ b'K' ∷ []) 64)
case_example = string_hash_case (b'o' ∷ []) b'k' (omega arith) (omega arith) (omega arith)

-- Entry 7 has the name `a` in the directory 1.
abbrev no_entries : Dentries
no_entries = record {
  cache = record one_page { c_hashtable = λ h. []; c_op = dcache };
  dentries = λ d. record { d_count = 1; d_pinned = 0; d_parent = 1; d_name = b'a' ∷ [] };
  subdirs = λ d. [];
  aliases = λ i. [];
  freed = [];
}

entry_example :
    (dcache_look_up (b'a' ∷ []) 1 (dcache_add 7 no_entries) ≡ 7)
    × ((generic_check_filename (b'a' ∷ []) (b'b' ∷ []) == 0 && true) ≡ false
        → dcache_look_up (b'b' ∷ []) 1 (dcache_add 7 no_entries)
          ≡ dcache_look_up (b'b' ∷ []) 1 no_entries)
entry_example = dcache_look_up-add 7 (b'b' ∷ []) 1 no_entries

-- Every file is in the blocks from 67 on.
abbrev plain : FileSystem ℕ
plain = record {
  bmap = λ inode v d. (67 + v, d);
  readpage = λ page m d. (1, page.p_state, m, d);
  writepage = write_page;
  write_inode = λ inode d. (0, d);
  kmalloc = λ size d. (0, d);
}

-- Inode 9 has 6 bytes, in pages of 16.
abbrev six_bytes : Store ℕ
six_bytes = record {
  pages = full;
  mem = λ a. a;
  inodes = λ i. record { i_size = 6; i_blksize = 16; i_dentry = true; s_op = true };
}

abbrev opened : File
opened = record { f_pos = 2; d_inode = some 9; f_mapping = some 9; f_mode = 1 }

six_bytes-Held : Held plain 9 16 (λ k. 1100 + k) (λ v. 67 + v) 0 0 5000 5004 six_bytes
unfolding count
six_bytes-Held = record {
  coherent = full-Coherent;
  mapped = λ v l u. refl;
  real = λ v l u e. omega arith;
  cached = λ v l u. (100, refl, ground arith);
  allocated = λ v q l u c e. omega arith;
  apart = λ v q l u c e. ground arith;
  content = λ v q k l u c e b. ground arith;
}

-- From position 2 on 10 bytes are asked for, and 4 are there.
read_example :
    (s' : Store ℕ) × (generic_file_read plain opened 5000 10 six_bytes
      ≡ some (record opened { f_pos = 6 }, s', 4))
    × ((j : ℕ)
        → s'.mem j
          ≡ (if leb 5000 j && ltb j 5004 then 1100 + (2 + (j - 5000)) else six_bytes.mem j))
read_example =
    generic_file_read_lem plain 9 9 (λ k. 1100 + k) (λ v. 67 + v) opened 5000 10 six_bytes refl refl
      (omega arith) (omega arith) (omega arith) (omega arith) (omega arith) (omega arith)
      six_bytes-Held
