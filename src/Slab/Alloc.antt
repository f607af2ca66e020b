-- ===== src/Slab/Alloc.antt =====
-- `slab_alloc` of kernel/mm/myslab.c.
use ninix.Buddy.Alloc.{alloc_block}
use ninix.Slab.{Slab, format_slabpage, kmem_addr, page_shift, put_cache, put_head, put_slabp}
use ninix.Base.{
  ltb, leb, ◌==◌, if◌then◌else◌, word, ℕ, ◌+◌, ◌-◌, ◌%◌, ◌^◌, Bool, not, ◌&&◌, Option, none, some,
  List, [], ◌∷◌, ◌++◌, ◌>>=◌,
}

-- `end_ptr + cache->size - (void*)s_head >= 1 << PAGE_SHIFT`, a signed comparison.
abbrev pub fills_page : (base end size : ℕ) → Bool
fills_page base end size =
    let d = (end + size + word - base) % word in leb (2 ^ page_shift) d && ltb d (2 ^ 31)

-- The next object behind `end_ptr`. A page that is on the list `partial` stays there, where the C
-- would link its node into two lists.
unfoldable pub bump : (i page : ℕ) → Slab → Slab × ℕ
unfolding kmem_addr
bump i page s =
    let c = s.caches i in
    let h = s.heads page in
    let end = (h.end_ptr + c.size) % word in
    let h' = record h { end_ptr = end; nr_objs = (h.nr_objs + 1) % word } in
    if fills_page (kmem_addr page) end c.size
    then (
      put_cache i (record c { full = c.full ++ page ∷ [] })
          (put_head page (record h' { is_full = 1 }) s),
      h.end_ptr,
    )
    else (put_head page h' s, h.end_ptr)

-- The first object of the free list of a page.
unfoldable pub pop_object : (page : ℕ) → Slab → Slab × ℕ
pop_object page s =
    let object = (s.buddy.pages page).slabp in
    let h = s.heads page in
    (
      put_slabp page (s.words object)
          (put_head page (record h { nr_objs = (h.nr_objs + 1) % word }) s),
      object,
    )

-- From the current page. The last answer is that of a function that ends without `return`.
unfoldable pub alloc_from : (i page : ℕ) → Slab → Slab × Option ℕ
unfolding bump pop_object
alloc_from i page s =
    if not ((s.buddy.pages page).slabp == 0)
    then (let r = pop_object page s in (r.0, some r.1))
    else if (s.heads page).is_full == 0
    then (let r = bump i page s in (r.0, some r.1))
    else (s, none)

-- The first page of the list `partial` becomes the current one. `list_del` leaves its node with poisoned
-- pointers, where the model has it on no list: a later `slab_free` of such a page would go through them.
-- Once a cache has a current page it keeps one, and pages come to `partial` only then, so that no run
-- from `init_slab` gets here.
unfoldable pub alloc_partial : (i page : ℕ) → List ℕ → Slab → Slab × Option ℕ
unfolding pop_object
alloc_partial i page rest s =
    let s' = put_cache i (record (s.caches i) { cpu_page = some page; partial = rest }) s in
    if not ((s'.buddy.pages page).slabp == 0)
    then (let r = pop_object page s' in (r.0, some r.1))
    else (s', none)

-- A new page of the buddy allocator; `none`: the machine stops, since there is no memory.
unfoldable pub alloc_fresh : (i : ℕ) → Slab → Option (Slab × Option ℕ)
alloc_fresh i s = do
  (b, found) ← alloc_block 0 s.buddy
  elim found [
    | none ↦ none
    | some page ↦
        let r = bump i page (format_slabpage i page (record s { buddy = b })) in
        some (r.0, some r.1)
  ]

-- The current page, if any, comes first, then the list `partial`.
unfoldable pub alloc_in :
    (cpu_page : Option ℕ) (partial : List ℕ) (i : ℕ) → Slab → Option (Slab × Option ℕ)
alloc_in (some page) partial i s = some (alloc_from i page s)
alloc_in none (page ∷ rest) i s = some (alloc_partial i page rest s)
alloc_in none [] i s = alloc_fresh i s

-- Where the function ends without `return`, the inner answer is `none`.
unfoldable pub slab_alloc : (i : ℕ) → Slab → Option (Slab × Option ℕ)
unfolding alloc_in
slab_alloc i s = alloc_in (s.caches i).cpu_page (s.caches i).partial i s
