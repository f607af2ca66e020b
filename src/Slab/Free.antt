-- ===== src/Slab/Free.antt =====
-- `slab_free` of kernel/mm/myslab.c.
use ninix.Ring.Nodes.{unlink, count}
use ninix.Buddy.Free.{free_block}
use ninix.Slab.{KmemCache, Slab, kernel_entry, page_shift, put_cache, put_head, put_slabp}
use ninix.Base.{
  ◌==◌, if◌then◌else◌, update, word, ℕ, ◌+◌, ◌-◌, ◌/◌, ◌%◌, ◌^◌, bit_or, Bool, not, ◌&&◌, Option,
  none, some, [], ◌∷◌, ◌++◌, ◌>>=◌,
}

-- The object joins the free list of its page.
unfoldable pub push_object : (page object : ℕ) → Slab → Slab
push_object page object s =
    let h = s.heads page in
    put_head page
      (record { end_ptr = h.end_ptr; nr_objs = (h.nr_objs + word - 1) % word; is_full = 0 })
      (put_slabp page object
        (record s { words = update s.words object (s.buddy.pages page).slabp }))

-- A page is on one of the lists of its cache, or its node is an empty list of its own.
abbrev pub is_listed : (page : ℕ) → KmemCache → Bool
is_listed page c = not (count page c.partial + count page c.full == 0)

abbrev pub unlist : (page : ℕ) → KmemCache → KmemCache
unlist page c = record c { partial = unlink page c.partial; full = unlink page c.full }

-- What becomes of the page behind that.
unfoldable pub settle : (i page : ℕ) → (iffull : Bool) → Slab → Option Slab
settle i page iffull s =
    let c = s.caches i in
    if (s.heads page).nr_objs == 0
    then (do
      b ← free_block page 0 s.buddy
      some (put_cache i (unlist page c) (record s { buddy = b })))
    else if not (is_listed page c)
    then some s
    else if iffull
    then (let c' = unlist page c in
        some (put_cache i (record c' { partial = c'.partial ++ page ∷ [] }) s))
    else some s

-- `none`: the loop behind the error message, or a fault in the buddy allocator. `object` is the
-- address without the bit of the kernel.
unfoldable pub slab_free : (i object : ℕ) → Slab → Option Slab
unfolding push_object settle
slab_free i object s =
    let page = object / 2 ^ page_shift in
    let h = s.heads page in
    let iffull = (s.buddy.pages page).slabp == 0 && not (h.is_full == 0) in
    if h.nr_objs == 0
    then none
    else settle i page iffull (push_object page (bit_or object kernel_entry) s)
