-- ===== src/Buddy.antt =====
-- The buddy allocator of kernel/mm/mybuddy.c and include/zjunix/buddy.h. A `struct page` is named by its
-- number, the distance from the array `pages` as a word. A free list is the list of the pages on it,
-- first to last; `none` stands for a head that was never initialised, whose pointers are null. Where the
-- C would go through such a pointer, the answer is `none`.
pub mod Alloc
pub mod Free
mod Examples
use ninix.Lock.{Lock}
use ninix.Base.{update, ℕ, ◌+◌, ◌-◌, ◌%◌, ◌^◌, Option, none, some, List, ◌∷◌}

abbrev pub buddy_reserved : ℕ
buddy_reserved = 2 ^ 31

abbrev pub buddy_allocated : ℕ
buddy_allocated = 2 ^ 30

abbrev pub buddy_free : ℕ
buddy_free = 0

abbrev pub buddy_max_order : ℕ
buddy_max_order = 4

-- `struct page`, less the node of its list.
pub record Page : Type 0 where
  pub flag : ℕ
  pub reference : ℕ
  pub virtual : ℕ
  pub bplevel : ℕ
  pub slabp : ℕ

pub record FreeList : Type 0 where
  pub nr_free : ℕ
  pub free_head : Option (List ℕ)

-- `pages` and `struct buddy_sys`; `lists` is the memory from the array `freelist` on.
pub record Buddy : Type 0 where
  pub pages : ℕ → Page
  pub start_page : ℕ
  pub buddy_start_pfn : ℕ
  pub buddy_end_pfn : ℕ
  pub lock : Lock
  pub lists : ℕ → FreeList

-- `set_level` and `set_flag`.
abbrev pub set_level : ℕ → ℕ → Buddy → Buddy
set_level p lval b = record b { pages = update b.pages p (record (b.pages p) { bplevel = lval }) }

abbrev pub set_flag : ℕ → ℕ → Buddy → Buddy
set_flag p val b = record b { pages = update b.pages p (record (b.pages p) { flag = val }) }

-- `page + k` and `page - k`.
abbrev pub forward : ℕ → ℕ → ℕ
forward p k = (p + k) % 2 ^ 32

abbrev pub backward : ℕ → ℕ → ℕ
backward p k = (p + 2 ^ 32 - k) % 2 ^ 32

-- `list_add(&page->list, &freelist[c].free_head)` and `nr_free++`.
unfoldable pub put_block : ℕ → ℕ → Buddy → Option Buddy
put_block p c b = elim (b.lists c).free_head [
  | none ↦ none
  | some ps ↦ some (record b {
    lists =
        update b.lists c
          (record { nr_free = ((b.lists c).nr_free + 1) % 2 ^ 32; free_head = some (p ∷ ps) });
  })
]
