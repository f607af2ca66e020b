-- ===== src/Vfs/Dentry.antt =====
-- The cache of directory entries of kernel/vfs/vfscache.c, and the comparison of names of
-- kernel/vfs/open.c. A name is the list of its bytes.
pub mod Names
pub mod Look
use ninix.Ring.Nodes.{unlink}
use ninix.Vfs.Cache.{Cache}
use ninix.Base.{
  leb, ◌==◌, if◌then◌else◌, update, length, word, ℕ, zero, suc, ◌+◌, ◌-◌, ◌*◌, ◌%◌, ◌&&◌, List, [],
  ◌∷◌,
}

-- What the cache reads of a `struct dentry`.
pub record Dentry : Type 0 where
  pub d_count : ℕ
  pub d_pinned : ℕ
  pub d_parent : ℕ
  pub d_name : List ℕ

-- `subdirs` has the list behind each `d_subdirs`, of nodes `d_child`, and `aliases` the list behind
-- each `i_dentry`, of nodes `d_alias`.
pub record Dentries : Type 0 where
  pub cache : Cache
  pub dentries : ℕ → Dentry
  pub subdirs : ℕ → List ℕ
  pub aliases : ℕ → List ℕ
  pub freed : List ℕ

-- The loop of `__stringHash`.
unfoldable pub string_sum : (rounds : ℕ) → List ℕ → (sum : ℕ) → ℕ
string_sum zero s sum = sum
string_sum (suc rounds) [] sum = sum
string_sum (suc rounds) (c ∷ s) sum = string_sum rounds s ((sum * 2 % word + c) % word)

-- `__stringHash`, which reads 24 bytes at most.
unfoldable pub string_hash : List ℕ → (hashsize : ℕ) → ℕ
unfolding string_sum
string_hash s hashsize = string_sum 24 s 0 % hashsize

unfoldable pub upper : ℕ → ℕ
upper c = if leb b'a' c && leb c b'z' then c - b'a' + b'A' else c

-- The loop over two names of one length.
unfoldable pub check_chars : List ℕ → List ℕ → ℕ
unfolding upper
check_chars [] t = 0
check_chars (c ∷ s) [] = 0
check_chars (c ∷ s) (d ∷ t) = if upper c == upper d then check_chars s t else 1

unfoldable pub generic_check_filename : List ℕ → List ℕ → ℕ
unfolding check_chars
generic_check_filename s t = if length s == length t then check_chars s t else 1

unfoldable pub search_dentries : (ℕ → Dentry) → (name : List ℕ) → (parent : ℕ) → List ℕ → ℕ
unfolding generic_check_filename
search_dentries dentries name parent [] = 0
search_dentries dentries name parent (d ∷ ds) =
    if generic_check_filename (dentries d).d_name name == 0 && (dentries d).d_parent == parent
    then d
    else search_dentries dentries name parent ds

unfoldable pub dcache_look_up : (name : List ℕ) → (parent : ℕ) → Dentries → ℕ
unfolding string_hash search_dentries
dcache_look_up name parent s =
    search_dentries s.dentries name parent
      (s.cache.c_hashtable (string_hash name s.cache.c_tablesize))

unfoldable pub dcache_add : ℕ → Dentries → Dentries
unfolding string_hash
dcache_add d s =
    let c = s.cache in
    let hash = string_hash (s.dentries d).d_name c.c_tablesize in
    record s {
      cache = record c {
        c_hashtable = update c.c_hashtable hash (d ∷ c.c_hashtable hash);
        c_size = (c.c_size + 1) % word;
      };
    }

-- The entry leaves every list it is on; its children are left on a list without a head.
unfoldable pub dcache_del : ℕ → Dentries → Dentries
dcache_del d s =
    let c = s.cache in
    record s {
      cache = record c {
        c_hashtable = λ h. unlink d (c.c_hashtable h);
        c_size = (c.c_size + word - 1) % word;
      };
      subdirs = λ p. if p == d then [] else unlink d (s.subdirs p);
      aliases = λ i. unlink d (s.aliases i);
      freed = d ∷ s.freed;
    }

unfoldable pub delete_all : List ℕ → Dentries → Dentries
unfolding dcache_del
delete_all [] s = s
delete_all (d ∷ ds) s = delete_all ds (dcache_del d s)

-- Every entry of an inode leaves the cache.
unfoldable pub generic_delete_alias : (inode : ℕ) → Dentries → Dentries
unfolding delete_all
generic_delete_alias inode s = delete_all (s.aliases inode) s

unfoldable pub dget : ℕ → Dentries → Dentries
dget d s = record s {
  dentries =
      update s.dentries d (record (s.dentries d) { d_count = ((s.dentries d).d_count + 1) % word });
}

unfoldable pub dput : ℕ → Dentries → Dentries
unfolding dcache_del
dput d s =
    let t = record s {
      dentries =
          update s.dentries d
            (record (s.dentries d) { d_count = ((s.dentries d).d_count + word - 1) % word });
    } in
    if (t.dentries d).d_count == 0 && (t.dentries d).d_pinned == 0 then dcache_del d t else t
