-- ===== src/Vfs/Cache/Replace.antt =====
-- Which page gives way to a new one in the page cache.
use ninix.Ring.Nodes.{unlink, count, count-unlink_if, unlink-absent}
use ninix.Vfs.Cache.{
  VfsPage, PageStatus, Pages, drop_page, insert_page, written_back, is_invalid, pcache_del,
  pcache_add, make_room, cache_is_full, e_io,
}
use ninix.Vfs.Cache.Coherent.{
  Coherent, drop_page-Coherent, insert_page-Coherent, written_back-Coherent,
}
use ninix.Base.{
  ◌==◌, if◌then◌else◌, Bool-cases, length, ℕ, ◌<◌, ◌≡◌, refl, sym, ap, subst, ◌∙◌, ◌≢◌, inl, inr,
  true, false, Option, none, some, List, [], ◌∷◌, ◌++◌, arith,
}

-- A page that may leave the cache: it is not valid and the disk stays, or the file system has written it
-- back without an error, which leads to the disk `d'`.
pub data GivenUp {D : Type 0} (write : VfsPage → D → ℕ × PageStatus × D) (page : VfsPage) (d d' : D)
    : Type 0 where
  unwritten : is_invalid page.p_state ≡ true → d' ≡ d → GivenUp write page d d'
  written :
      is_invalid page.p_state ≡ false
      → (write page d).0 ≡ 0
      → d' ≡ (write page d).2
      → GivenUp write page d d'

-- What `pcache_add` of page `p` did, with the answer `err`. A page that is not valid is given up as it is;
-- of a valid one `write` is what the file system does to write it back.
pub data Added {D : Type 0} (write : VfsPage → D → ℕ × PageStatus × D) (s s' : Pages D) (p err : ℕ)
    : Type 0 where
  kept :
      err ≡ 0
      → length s.cache.c_lru < s.cache.c_capacity
      → s'.cache.c_lru ≡ s.cache.c_lru ++ p ∷ []
      → s'.freed ≡ s.freed
      → s'.disk ≡ s.disk
      → Added write s s' p err
  replaced :
      (victim : ℕ) (rest : List ℕ)
      → err ≡ 0
      → length s.cache.c_lru ≡ s.cache.c_capacity
      → s.cache.c_lru ≡ victim ∷ rest
      → s'.cache.c_lru ≡ rest ++ p ∷ []
      → 0 < count victim s'.freed
      → s'.a_cache ≡ s.a_cache
      → GivenUp write (s.pages victim) s.disk s'.disk
      → Added write s s' p err
  refused :
      (victim : ℕ) (rest : List ℕ)
      → err ≡ e_io
      → length s.cache.c_lru ≡ s.cache.c_capacity
      → s'.cache ≡ s.cache
      → s'.freed ≡ s.freed
      → s.cache.c_lru ≡ victim ∷ rest
      → is_invalid (s.pages victim).p_state ≡ false
      → (write (s.pages victim) s.disk).0 ≢ 0
      → s'.disk ≡ (write (s.pages victim) s.disk).2
      → Added write s s' p err

first_goes :
    (victim : ℕ) (rest : List ℕ)
    → count victim (victim ∷ rest) < 2
    → unlink victim (victim ∷ rest) ≡ rest
unfolding unlink count
first_goes victim rest h =
    let self : (victim == victim) ≡ true = ground arith in
    rw self (unlink-absent victim rest (ground arith))

first_counts : (victim : ℕ) (rest : List ℕ) → 0 < count victim (victim ∷ rest)
unfolding count
first_counts victim rest = ground arith

drop_page_rest :
    {D : Type 0} (t : Pages D) (p : ℕ)
    → let u = drop_page p t in
      (u.cache.c_lru ≡ unlink p t.cache.c_lru)
      × (u.cache.c_capacity ≡ t.cache.c_capacity)
      × (0 < count p u.freed)
      × (u.a_cache ≡ t.a_cache)
      × (u.disk ≡ t.disk)
unfolding drop_page
drop_page_rest t p = (refl, refl, first_counts p _, refl, refl)

insert_page_rest :
    {D : Type 0} (t : Pages D) (p : ℕ)
    → let u = insert_page p t in
      (u.cache.c_lru ≡ t.cache.c_lru ++ p ∷ [])
      × (u.freed ≡ t.freed)
      × (u.a_cache ≡ t.a_cache)
      × (u.disk ≡ t.disk)
unfolding insert_page
insert_page_rest t p = (refl, refl, refl, refl)

-- A new page in the place of the first one.
evicted :
    {D : Type 0} (t : Pages D) (p victim : ℕ) (rest : List ℕ)
    → Coherent t
    → t.cache.c_lru ≡ victim ∷ rest
    → p ≢ 0
    → count p t.cache.c_lru ≡ 0
    → let u = insert_page p (drop_page victim t) in
      Coherent u
      × (u.cache.c_lru ≡ rest ++ p ∷ [])
      × (0 < count victim u.freed)
      × (u.a_cache ≡ t.a_cache)
      × (u.disk ≡ t.disk)
evicted t p victim rest v e nz new =
    let few : count victim (victim ∷ rest) < 2 = rw (← e) (v.once victim) in
    let one : count victim t.cache.c_lru ≡ 1 = rw e (omega (arith, first_counts victim rest)) in
    let (v', l) = drop_page-Coherent t v victim one in
    let (lru, cap, freed, lists, disk) = drop_page_rest t victim in
    let (lru', freed', lists', disk') = insert_page_rest (drop_page victim t) p in
    let (w, _) =
      insert_page-Coherent (drop_page victim t) v' p nz
        (rw lru (count-unlink_if victim p t.cache.c_lru ∙ ground arith))
        (omega (arith, v.bound, cap)) in
    (
      w,
      lru' ∙ ap (λ (xs : List ℕ). xs ++ p ∷ []) (lru ∙ rw e (first_goes victim rest few)),
      rw freed' freed,
      lists' ∙ lists,
      disk' ∙ disk,
    )

module _ {D : Type 0} (writepage : VfsPage → D → ℕ × PageStatus × D) (s : Pages D) (v : Coherent s)
    (p : ℕ) where
  first_room :
      (victim : ℕ) (rest : List ℕ)
      → s.cache.c_lru ≡ victim ∷ rest
      → make_room writepage s ≡ some (pcache_del writepage victim s)
  unfolding make_room
  first_room victim rest e =
      subst
        (λ (xs : List ℕ).
          (elim xs as (λ _. Option (Pages D × ℕ)) [
            | [] ↦ none
            | q ∷ _ ↦ some (pcache_del writepage q s)
          ])
          ≡ some (pcache_del writepage victim s))
        (sym e) refl

  add_full :
      (victim : ℕ) (rest : List ℕ)
      → cache_is_full s.cache ≡ true
      → s.cache.c_lru ≡ victim ∷ rest
      → pcache_add writepage p s ≡ (
          let r = pcache_del writepage victim s in
          if r.1 == 0 then some (insert_page p r.0, 0) else some (r.0, r.1))
  unfolding pcache_add
  add_full victim rest f e = rw (f, first_room victim rest e) refl

  is_full : cache_is_full s.cache ≡ true → length s.cache.c_lru ≡ s.cache.c_capacity
  unfolding cache_is_full
  is_full f = ground (arith, v.size)

  has_room : cache_is_full s.cache ≡ false → length s.cache.c_lru < s.cache.c_capacity
  unfolding cache_is_full
  has_room f = ground (arith, v.size, v.bound)

  add_free : cache_is_full s.cache ≡ false → pcache_add writepage p s ≡ some (insert_page p s, 0)
  unfolding pcache_add
  add_free f = rw f refl

  written_back_rest :
      (victim : ℕ)
      → let t = written_back writepage victim s in
        (t.cache ≡ s.cache)
        × (t.freed ≡ s.freed)
        × (t.a_cache ≡ s.a_cache)
        × (t.disk ≡ (writepage (s.pages victim) s.disk).2)
  unfolding written_back
  written_back_rest victim = (refl, refl, refl, refl)

  -- What becomes of the first page of a full cache.
  full-Added :
      (victim : ℕ) (rest : List ℕ)
      → cache_is_full s.cache ≡ true
      → s.cache.c_lru ≡ victim ∷ rest
      → p ≢ 0
      → count p s.cache.c_lru ≡ 0
      → (s' : Pages D) × (err : ℕ) × (pcache_add writepage p s ≡ some (s', err))
        × Coherent s'
        × Added writepage s s' p err
  unfolding pcache_del
  full-Added victim rest f e nz new =
      let cap : length s.cache.c_lru ≡ s.cache.c_capacity = is_full f in
      elim (Bool-cases (is_invalid (s.pages victim).p_state)) [
        | inl i ↦
            let (w, lru, freed, lists, disk) = evicted s p victim rest v e nz new in
            (
              insert_page p (drop_page victim s),
              0,
              add_full victim rest f e ∙ rw i refl,
              w,
              replaced victim rest refl cap e lru freed lists (unwritten i disk),
            )
        | inr i ↦
            let t = written_back writepage victim s in
            let (c, g, l, d) = written_back_rest victim in
            let w' = written_back-Coherent s v victim writepage in
            elim (Bool-cases ((writepage (s.pages victim) s.disk).0 == 0)) [
              | inl j ↦
                  let (w, lru, freed, lists, disk) =
                    evicted t p victim rest w' (rw c e) nz (rw c new) in
                  (
                    insert_page p (drop_page victim t),
                    0,
                    add_full victim rest f e ∙ rw (i, j) refl,
                    w,
                    replaced victim rest refl cap e lru freed (lists ∙ l)
                        (written i (ground arith) (disk ∙ d)),
                  )
              | inr j ↦ (
                t,
                e_io,
                add_full victim rest f e ∙ rw (i, j) refl,
                w',
                refused victim rest refl cap c g e i (λ z. ground arith) d,
              )
            ]
      ]

  -- `pcache_add` of a page with an address other than 0 that is not in a coherent cache returns and
  -- leaves the cache coherent. With room the page comes last. In a full cache the page that was used least
  -- recently is freed for it, though it stays on the list of its inode, if it is not valid or the file
  -- system has written it back; where the write-back of the valid page fails, nothing is added or freed
  -- and the answer is an error.
  pub pcache_add-Added :
      p ≢ 0
      → count p s.cache.c_lru ≡ 0
      → (s' : Pages D) × (err : ℕ) × (pcache_add writepage p s ≡ some (s', err))
        × Coherent s'
        × Added writepage s s' p err
  pcache_add-Added nz new = elim (Bool-cases (cache_is_full s.cache)) [
    | inl f ↦ full s.cache.c_lru refl f
    | inr f ↦
        let (lru, freed, lists, disk) = insert_page_rest s p in
        (
          insert_page p s,
          0,
          add_free f,
          (insert_page-Coherent s v p nz new (has_room f)).0,
          kept refl (has_room f) lru freed disk,
        )
  ]
    where
      full :
          (xs : List ℕ)
          → s.cache.c_lru ≡ xs
          → cache_is_full s.cache ≡ true
          → (s' : Pages D) × (err : ℕ) × (pcache_add writepage p s ≡ some (s', err))
            × Coherent s'
            × Added writepage s s' p err
      full [] e f = absurd (omega (arith, ap length e, is_full f, v.some_room))
      full (victim ∷ rest) e f = full-Added victim rest f e nz new
