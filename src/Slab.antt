-- ===== src/Slab.antt =====
-- The slab allocator of kernel/mm/myslab.c and include/zjunix/slab.h, on top of the buddy allocator. A
-- cache is named by its index in `kmalloc_caches`, a page by its number.
pub mod Alloc
pub mod Free
pub mod Kmalloc
pub mod Classes
pub mod Objects
pub mod Freeing
pub mod Fresh
mod Examples
use ninix.Buddy.{Page, Buddy, set_flag}
use ninix.Base.{
  ltb, ◌==◌, if◌then◌else◌, update, word, ℕ, zero, suc, ◌+◌, ◌*◌, ◌/◌, ◌%◌, ◌^◌, bit_or, Option,
  none, some, List, [],
}

abbrev pub page_shift : ℕ
page_shift = 12

abbrev pub kernel_entry : ℕ
kernel_entry = 2 ^ 31

abbrev pub buddy_slab : ℕ
buddy_slab = 2 ^ 29

-- `struct slab_head`, at the start of every page of a slab; it takes 12 bytes.
pub record SlabHead : Type 0 where
  pub end_ptr : ℕ
  pub nr_objs : ℕ
  pub is_full : ℕ

-- `struct kmem_cache`; the page of `cpu` is `none` for a null pointer.
pub record KmemCache : Type 0 where
  pub size : ℕ
  pub objsize : ℕ
  pub offset : ℕ
  pub partial : List ℕ
  pub full : List ℕ
  pub cpu_page : Option ℕ

-- `heads` has the head of every page, and `words` the words that link the free objects of a page.
pub record Slab : Type 0 where
  pub buddy : Buddy
  pub caches : ℕ → KmemCache
  pub heads : ℕ → SlabHead
  pub words : ℕ → ℕ

abbrev pub put_cache : ℕ → KmemCache → Slab → Slab
put_cache i c s = record s { caches = update s.caches i c }

abbrev pub put_head : ℕ → SlabHead → Slab → Slab
put_head p h s = record s { heads = update s.heads p h }

abbrev pub put_slabp : ℕ → ℕ → Slab → Slab
put_slabp p a s = record s {
  buddy = record s.buddy {
    pages = update s.buddy.pages p (record (s.buddy.pages p) { slabp = a });
  };
}

-- `KMEM_ADDR`.
unfoldable pub kmem_addr : ℕ → ℕ
kmem_addr page = bit_or (page * 2 ^ page_shift % word) kernel_entry

-- `size_kmem_cache`.
unfoldable pub size_kmem_cache : ℕ → ℕ
size_kmem_cache i =
    if i == 0
    then 96
    else if i == 1
    then 192
    else if ltb i 10
    then 2 ^ (i + 1)
    else if i == 10
    then 1536
    else 2048

-- `objsize &= ~(SIZE_INT - 1)` clears two bits, and a pointer has four bytes.
unfoldable pub init_each_slab : (i size : ℕ) → Slab → Slab
init_each_slab i size s =
    let objsize = (size + 3) % word / 4 * 4 in
    put_cache i
      (record {
        size = (objsize + 4) % word;
        objsize = objsize;
        offset = (objsize + 4) % word;
        partial = [];
        full = [];
        cpu_page = none;
      })
      s

unfoldable pub init_caches : (rounds i : ℕ) → Slab → Slab
unfolding init_each_slab size_kmem_cache
init_caches zero i s = s
init_caches (suc rounds) i s = init_caches rounds (i + 1) (init_each_slab i (size_kmem_cache i) s)

unfoldable pub init_slab : Slab → Slab
unfolding init_caches
init_slab s = init_caches page_shift 0 s

unfoldable pub format_slabpage : (i page : ℕ) → Slab → Slab
unfolding kmem_addr
format_slabpage i page s =
    let b = set_flag page buddy_slab s.buddy in
    let s₁ = put_cache i (record (s.caches i) { cpu_page = some page }) (record s { buddy = b }) in
    let s₂ = record s₁ {
      buddy = record b {
        pages = update b.pages page (record (b.pages page) { virtual = i; slabp = 0 });
      };
    } in
    put_head page (record { end_ptr = (kmem_addr page + 12) % word; nr_objs = 0; is_full = 0 }) s₂
