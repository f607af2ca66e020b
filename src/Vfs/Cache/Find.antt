-- ===== src/Vfs/Cache/Find.antt =====
-- What a look-up in the page cache finds.
use ninix.Ring.Nodes.{unlink, count}
use ninix.Vfs.Cache.{VfsPage, Pages, int_hash, is_page, search_bucket, pcache_look_up}
use ninix.Vfs.Cache.Coherent.{Coherent, used-Coherent}
use ninix.Base.{
  ◌==◌, Bool-cases, ℕ, ◌<◌, ◌≡◌, refl, ap, ◌∙◌, ◌≢◌, inl, inr, true, false, List, [], ◌∷◌, ◌++◌,
  arith, ℕ_discrete,
}

-- The answer `r` of a look-up: the state behind it and the page, 0 for none.
pub data LookedUp {D : Type 0} (s : Pages D) (ppn inode : ℕ) (r : Pages D × ℕ) : Type 0 where
  hit :
      r.1 ≢ 0
      → count r.1 s.cache.c_lru ≡ 1
      → is_page ppn inode (s.pages r.1) ≡ true
      → r.0 ≡ record s { cache = record s.cache { c_lru = unlink r.1 s.cache.c_lru ++ r.1 ∷ [] } }
      → LookedUp s ppn inode r
  miss :
      r ≡ (s, 0)
      → ((q : ℕ) → count q s.cache.c_lru ≡ 1 → is_page ppn inode (s.pages q) ≡ false)
      → LookedUp s ppn inode r

data Searched (pages : ℕ → VfsPage) (ppn inode : ℕ) (xs : List ℕ) (r : ℕ) : Type 0 where
  found :
      r ≢ 0 → 0 < count r xs → is_page ppn inode (pages r) ≡ true → Searched pages ppn inode xs r
  absent :
      r ≡ 0
      → ((q : ℕ) → 0 < count q xs → is_page ppn inode (pages q) ≡ false)
      → Searched pages ppn inode xs r

search_further :
    (pages : ℕ → VfsPage) (ppn inode x : ℕ) (xs : List ℕ) {r : ℕ}
    → is_page ppn inode (pages x) ≡ false
    → Searched pages ppn inode xs r
    → Searched pages ppn inode (x ∷ xs) r
unfolding count
search_further pages ppn inode x xs e (found a b c) = found a (omega arith) c
search_further pages ppn inode x xs e (absent a b) = absent a (λ q l. elim (ℕ_discrete q x) [
  | yes y ↦ ap (λ r. is_page ppn inode (pages r)) y ∙ e
  | no n ↦ b q (ground arith)
])

search_bucket_lem :
    (pages : ℕ → VfsPage) (ppn inode : ℕ) (xs : List ℕ)
    → count 0 xs ≡ 0
    → Searched pages ppn inode xs (search_bucket pages ppn inode xs)
unfolding search_bucket count
search_bucket_lem pages ppn inode [] h = absent refl (λ q l. absurd (omega arith))
search_bucket_lem pages ppn inode (x ∷ xs) h = elim (Bool-cases (is_page ppn inode (pages x))) [
  | inl e ↦ rw e (found (λ z. ground arith) (ground arith) e)
  | inr e ↦
      rw e (
        search_further pages ppn inode x xs e (search_bucket_lem pages ppn inode xs (ground arith)))
]

module _ {D : Type 0} (s : Pages D) (v : Coherent s) where
  -- In a coherent cache `pcache_look_up` answers a cached, valid page of the inode at the place if there
  -- is one, and this page becomes the last in the order of use and nothing else changes; else it answers
  -- 0 and changes nothing at all.
  -- The cache stays coherent.
  pub pcache_look_up-LookedUp :
      (ppn inode : ℕ) → let r = pcache_look_up ppn inode s in Coherent r.0 × LookedUp s ppn inode r
  unfolding pcache_look_up
  pcache_look_up-LookedUp ppn inode =
      let k = int_hash ppn s.cache.c_tablesize in
      let r =
        search_bucket_lem s.pages ppn inode (s.cache.c_hashtable k)
          (ground (arith, v.placed 0 k, v.nonnull)) in
      elim r [
        | found a b e ↦
            let p = search_bucket s.pages ppn inode (s.cache.c_hashtable k) in
            let t : (p == 0) ≡ false = ground arith in
            let one : count p s.cache.c_lru ≡ 1 = ground (arith, v.placed p k, v.once p) in
            rw t (used-Coherent s v p one, hit a one e refl)
        | absent a b ↦
            let t : (search_bucket s.pages ppn inode (s.cache.c_hashtable k) == 0) ≡ true =
              ground arith in
            rw t (v, miss refl (λ q one. not_here k q refl one (b q)))
      ]
    where
      not_here :
          (k q : ℕ)
          → k ≡ int_hash ppn s.cache.c_tablesize
          → count q s.cache.c_lru ≡ 1
          → (0 < count q (s.cache.c_hashtable k) → is_page ppn inode (s.pages q) ≡ false)
          → is_page ppn inode (s.pages q) ≡ false
      not_here k q e one b = elim (Bool-cases (is_page ppn inode (s.pages q))) [
        | inl t ↦
            let loc : (s.pages q).p_location ≡ ppn = ground arith in
            let same : (int_hash (s.pages q).p_location s.cache.c_tablesize == k) ≡ true =
              rw (loc, e) (ground arith) in
            let l : count q (s.cache.c_hashtable k) ≡ 1 = v.placed q k ∙ rw same one in
            b (omega arith)
        | inr t ↦ t
      ]
