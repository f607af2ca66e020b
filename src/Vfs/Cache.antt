-- ===== src/Vfs/Cache.antt =====
-- The page cache of kernel/vfs/vfscache.c: a hash table and a list in the order of use. Lists are given
-- by their nodes, as in the module Ring.
pub mod Coherent
pub mod Find
pub mod Replace
use ninix.Ring.Nodes.{unlink}
use ninix.Base.{
  ltb, ◌==◌, if◌then◌else◌, update, word, ℕ, ◌+◌, ◌-◌, ◌%◌, Bool, true, false, not, ◌&&◌, Option,
  none, some, List, [], ◌∷◌, ◌++◌, ◌>>=◌,
}

abbrev pub cache_hashsize : ℕ
cache_hashsize = 64

abbrev pub cache_capacity : ℕ
cache_capacity = 256

pub data PageStatus : Type 0 where
  page_invalid page_intact page_dirty : PageStatus

abbrev pub is_invalid : PageStatus → Bool
is_invalid page_invalid = true
is_invalid page_intact = false
is_invalid page_dirty = false

pub data CacheType : Type 0 where
  dcache pcache : CacheType

-- `struct vfs_page`, with the inode of its mapping for the mapping.
pub record VfsPage : Type 0 where
  pub p_data : ℕ
  pub p_state : PageStatus
  pub p_location : ℕ
  pub a_host : ℕ

-- `struct cache`; `c_op` tells the two tables of operations apart.
pub record Cache : Type 0 where
  pub c_size : ℕ
  pub c_capacity : ℕ
  pub c_tablesize : ℕ
  pub c_hashtable : ℕ → List ℕ
  pub c_lru : List ℕ
  pub c_op : CacheType

-- The cached pages by their addresses, the list of pages of every inode, and what was freed. `D` is the
-- state of the disks.
pub record Pages (D : Type 0) : Type 0 where
  pub cache : Cache
  pub pages : ℕ → VfsPage
  pub a_cache : ℕ → List ℕ
  pub freed : List ℕ
  pub disk : D

abbrev pub e_io : ℕ
e_io = word - 513

-- `table` is the memory for the hash table, 0 if there is none; `type` is 0 for `DCACHE`.
unfoldable pub cache_init : Cache → (table hashsize capacity type : ℕ) → Cache × ℕ
cache_init c table hashsize capacity type =
    let c' = record c {
      c_capacity = capacity;
      c_tablesize = hashsize;
      c_size = 0;
      c_op = if type == 0 then dcache else pcache;
      c_lru = [];
    } in
    if table == 0
    then (c', word - 1)
    else (record c' { c_hashtable = λ i. if ltb i cache_hashsize then [] else c.c_hashtable i }, 0)

-- Two caches, for entries and for pages, at the addresses that the allocator answers. The answer, the
-- caches, what was freed and the memory behind it.
unfoldable pub init_cache :
    {D : Type 0}
    → (kmalloc : (size : ℕ) → D → ℕ × D) → (c p : Cache) → D
    → ℕ × Cache × Cache × List ℕ × D
unfolding cache_init
init_cache kmalloc c p d =
    let a = kmalloc 28 d in
    let b = kmalloc 28 a.1 in
    let ta = kmalloc 512 b.1 in
    let c' = cache_init c ta.0 cache_hashsize cache_capacity 0 in
    let tb = kmalloc 512 ta.1 in
    let p' = cache_init p tb.0 cache_hashsize cache_capacity 1 in
    if a.0 == 0
    then (word - 512, c, p, [], a.1)
    else if b.0 == 0
    then (word - 512, c, p, a.0 ∷ [], b.1)
    else if not (c'.1 == 0)
    then (word - 512, c'.0, p, b.0 ∷ a.0 ∷ [], ta.1)
    else if not (p'.1 == 0)
    then (word - 512, c'.0, p'.0, b.0 ∷ a.0 ∷ [], tb.1)
    else (0, c'.0, p'.0, [], tb.1)

unfoldable pub cache_is_full : Cache → Bool
cache_is_full c = c.c_size == c.c_capacity

-- `__intHash`.
abbrev pub int_hash : (i hashsize : ℕ) → ℕ
int_hash i hashsize = i % hashsize

-- The three conditions of `pcache_look_up`.
abbrev pub is_page : (ppn inode : ℕ) → VfsPage → Bool
is_page ppn inode page =
    page.p_location == ppn && (not (is_invalid page.p_state) && page.a_host == inode)

-- The first page of a bucket that meets them, 0 if there is none.
unfoldable pub search_bucket : (ℕ → VfsPage) → (ppn inode : ℕ) → List ℕ → ℕ
search_bucket pages ppn inode [] = 0
search_bucket pages ppn inode (p ∷ ps) =
    if is_page ppn inode (pages p) then p else search_bucket pages ppn inode ps

module _ {D : Type 0} where
  -- The page that is found becomes the last in the order of use.
  unfoldable pub pcache_look_up : (ppn inode : ℕ) → Pages D → Pages D × ℕ
  unfolding search_bucket
  pcache_look_up ppn inode s =
      let c = s.cache in
      let p = search_bucket s.pages ppn inode (c.c_hashtable (int_hash ppn c.c_tablesize)) in
      if p == 0
      then (s, 0)
      else (record s { cache = record c { c_lru = unlink p c.c_lru ++ p ∷ [] } }, p)

  -- The page leaves the cache, and its memory is given back.
  unfoldable pub drop_page : ℕ → Pages D → Pages D
  drop_page p s =
      let c = s.cache in
      record s {
        cache = record c {
          c_hashtable = λ h. unlink p (c.c_hashtable h);
          c_lru = unlink p c.c_lru;
          c_size = (c.c_size + word - 1) % word;
        };
        freed = p ∷ (if (s.pages p).p_data == 0 then s.freed else (s.pages p).p_data ∷ s.freed);
      }

  unfoldable pub insert_page : ℕ → Pages D → Pages D
  insert_page p s =
      let c = s.cache in
      let hash = int_hash (s.pages p).p_location c.c_tablesize in
      record s {
        cache = record c {
          c_hashtable = update c.c_hashtable hash (p ∷ c.c_hashtable hash);
          c_lru = c.c_lru ++ p ∷ [];
          c_size = (c.c_size + 1) % word;
        };
      }

-- The write-back of the file system: its answer, the new status and the disk.
module _ {D : Type 0} (writepage : VfsPage → D → ℕ × PageStatus × D) where
  unfoldable pub written_back : ℕ → Pages D → Pages D
  written_back p s =
      let r = writepage (s.pages p) s.disk in
      record s { pages = update s.pages p (record (s.pages p) { p_state = r.1 }); disk = r.2 }

  unfoldable pub pcache_del : ℕ → Pages D → Pages D × ℕ
  unfolding drop_page written_back
  pcache_del p s =
      if is_invalid (s.pages p).p_state
      then (drop_page p s, 0)
      else if (writepage (s.pages p) s.disk).0 == 0
      then (drop_page p (written_back p s), 0)
      else (written_back p s, e_io)

  -- `none`: the head of an empty list is taken for a page.
  unfoldable pub make_room : Pages D → Option (Pages D × ℕ)
  unfolding pcache_del
  make_room s = elim s.cache.c_lru [ [] ↦ none | victim ∷ rest ↦ some (pcache_del victim s) ]

  unfoldable pub pcache_add : ℕ → Pages D → Option (Pages D × ℕ)
  unfolding cache_is_full make_room insert_page
  pcache_add p s =
      if cache_is_full s.cache
      then (do
        (s', err) ← make_room s
        if err == 0 then some (insert_page p s', 0) else some (s', err))
      else some (insert_page p s, 0)
