-- ===== src/Slab/Kmalloc.antt =====
-- `kmalloc` and `kfree` of kernel/mm/myslab.c.
use ninix.Buddy.Alloc.{alloc_pages}
use ninix.Buddy.Free.{free_pages}
use ninix.Slab.{KmemCache, Slab, buddy_slab, kernel_entry, page_shift}
use ninix.Slab.Alloc.{slab_alloc}
use ninix.Slab.Free.{slab_free}
use ninix.Base.{
  ltb, leb, ◌==◌, if◌then◌else◌, word, ℕ, zero, suc, ◌+◌, ◌-◌, ◌*◌, ◌/◌, ◌%◌, ◌^◌, bit_or, not,
  ◌&&◌, Option, none, some, ◌>>=◌,
}

-- The loop of `get_slab`: `num` is the best size so far and `index` its cache.
unfoldable pub best_slab : (rounds i size num index : ℕ) → (ℕ → KmemCache) → ℕ
best_slab zero i size num index caches = index
best_slab (suc rounds) i size num index caches =
    let objsize = (caches i).objsize in
    let fits = leb size objsize && leb objsize num in
    best_slab rounds (i + 1) size (if fits then objsize else num) (if fits then i else index) caches

unfoldable pub get_slab : (size : ℕ) → Slab → ℕ
unfolding best_slab
get_slab size s = best_slab page_shift 0 size (2 ^ (page_shift - 1)) page_shift s.caches

unfoldable pub kmalloc : (size : ℕ) → Slab → Option (Slab × Option ℕ)
unfolding get_slab slab_alloc
kmalloc size s =
    if size == 0
    then some (s, some 0)
    else if ltb (s.caches (page_shift - 1)).objsize size
    then (do
      (b, a) ← alloc_pages ((size + 4095) % word / 2 ^ page_shift) s.buddy
      some (record s { buddy = b }, some (bit_or a kernel_entry)))
    else (let index = get_slab size s in
        if leb page_shift index then none else do
          (s', a) ← slab_alloc index s
          elim a [ none ↦ some (s', none) | some p ↦ some (s', some (bit_or p kernel_entry)) ])

unfoldable pub kfree : (obj : ℕ) → Slab → Option Slab
unfolding slab_free
kfree obj s =
    let a = obj % 2 ^ 31 in
    let page = a / 2 ^ page_shift in
    if not ((s.buddy.pages page).flag == buddy_slab)
    then (do
      b ← free_pages (a / 2 ^ page_shift * 2 ^ page_shift) (s.buddy.pages page).bplevel s.buddy
      some (record s { buddy = b }))
    else slab_free (s.buddy.pages page).virtual a s
