-- ===== src/Vfs/Cache/Coherent.antt =====
-- The hash table, the order of use and the size of the page cache agree.
use ninix.Ring.Nodes.{unlink, count, length-unlink, count-unlink_if, count-snoc, count-used}
use ninix.Vfs.Cache.{VfsPage, PageStatus, Pages, int_hash, drop_page, insert_page, written_back}
use ninix.Base.{
  ◌==◌, if◌then◌else◌, length, length-append, word, ℕ, ◌+◌, ◌≤◌, ◌<◌, ◌≡◌, ◌∙◌, ◌≢◌, [], ◌∷◌, ◌++◌,
  arith,
}

pub record Coherent {D : Type 0} (s : Pages D) : Type 0 where
  pub some_room : 0 < s.cache.c_capacity
  pub small : s.cache.c_capacity < word
  pub size : s.cache.c_size ≡ length s.cache.c_lru
  pub bound : length s.cache.c_lru ≤ s.cache.c_capacity
  pub once : (p : ℕ) → count p s.cache.c_lru < 2
  pub nonnull : count 0 s.cache.c_lru ≡ 0
  pub placed :
      (p h : ℕ)
      → count p (s.cache.c_hashtable h) ≡ (
          if int_hash (s.pages p).p_location s.cache.c_tablesize == h
          then count p s.cache.c_lru
          else 0)

module _ {D : Type 0} (s : Pages D) (v : Coherent s) (p : ℕ) where
  pub drop_page-Coherent :
      count p s.cache.c_lru ≡ 1
      → Coherent (drop_page p s) × (length (drop_page p s).cache.c_lru + 1 ≡ length s.cache.c_lru)
  unfolding drop_page
  drop_page-Coherent h =
      let l = length-unlink p s.cache.c_lru in
      (
        record {
          some_room = v.some_room;
          small = v.small;
          size = omega (arith, v.size, v.small, v.bound);
          bound = omega (arith, v.bound);
          once = λ q. ground (arith, v.once q, count-unlink_if p q s.cache.c_lru);
          nonnull = ground (arith, v.nonnull, count-unlink_if p 0 s.cache.c_lru);
          placed = λ q k. ground (
            arith,
            v.placed q k,
            count-unlink_if p q s.cache.c_lru,
            count-unlink_if p q (s.cache.c_hashtable k),
          );
        },
        omega arith,
      )

  pub insert_page-Coherent :
      p ≢ 0
      → count p s.cache.c_lru ≡ 0
      → length s.cache.c_lru < s.cache.c_capacity
      → Coherent (insert_page p s) × (count p (insert_page p s).cache.c_lru ≡ 1)
  unfolding insert_page count
  insert_page-Coherent nz h room =
      let l = length-append s.cache.c_lru (p ∷ []) in
      (
        record {
          some_room = v.some_room;
          small = v.small;
          size = omega (arith, v.size, v.small);
          bound = omega arith;
          once = λ q. ground (arith, v.once q, count-snoc p q s.cache.c_lru);
          nonnull = ground (arith, v.nonnull, count-snoc p 0 s.cache.c_lru);
          placed = λ q k. ground (arith, v.placed q k, count-snoc p q s.cache.c_lru);
        },
        ground (arith, count-snoc p p s.cache.c_lru),
      )

  -- The order of use when `p` is used.
  pub used-Coherent :
      count p s.cache.c_lru ≡ 1
      → Coherent (record s { cache = record s.cache { c_lru = unlink p s.cache.c_lru ++ p ∷ [] } })
  used-Coherent h =
      let l = length-unlink p s.cache.c_lru in
      let l' = length-append (unlink p s.cache.c_lru) (p ∷ []) in
      let same : (q : ℕ) → count q (unlink p s.cache.c_lru ++ p ∷ []) ≡ count q s.cache.c_lru =
        λ q. count-used p q s.cache.c_lru h in
      record {
        some_room = v.some_room;
        small = v.small;
        size = omega (arith, v.size);
        bound = omega (arith, v.bound);
        once = λ q. rw (same q) (v.once q);
        nonnull = same 0 ∙ v.nonnull;
        placed = λ q k. rw (same q) (v.placed q k);
      }

  pub written_back-Coherent :
      (writepage : VfsPage → D → ℕ × PageStatus × D) → Coherent (written_back writepage p s)
  unfolding written_back
  written_back-Coherent writepage = record {
    some_room = v.some_room;
    small = v.small;
    size = v.size;
    bound = v.bound;
    once = v.once;
    nonnull = v.nonnull;
    placed = λ q k. ground (arith, v.placed q k);
  }
