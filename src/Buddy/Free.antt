-- ===== src/Buddy/Free.antt =====
-- `__free_pages`, `free_pages` and `init_buddy`.
pub mod Start
use ninix.Ring.Nodes.{unlink}
use ninix.Lock.{Lock, init_lock, lockup, unlock}
use ninix.Bootmm.{Bootmm, page_shift, page_align}
use ninix.Buddy.{
  Page, FreeList, Buddy, set_level, set_flag, forward, backward, put_block, buddy_reserved,
  buddy_free, buddy_max_order,
}
use ninix.Utils.{pow}
use ninix.Base.{
  ltb, leb, ◌==◌, if◌then◌else◌, update, ℕ, zero, suc, ◌+◌, ◌-◌, ◌*◌, ◌/◌, ◌%◌, ◌^◌, Bool, not,
  ◌&&◌, Option, none, some, [], ◌>>=◌,
}

-- -1 as a level.
abbrev pub no_level : ℕ
no_level = 2 ^ 32 - 1

-- `is_same_level`, which the callers give a page number for the level.
unfoldable pub is_same_level : Buddy → (page lval : ℕ) → Bool
is_same_level b page lval = (b.pages page).bplevel == lval

-- `list_del_init(&page->list)` and `freelist[order].nr_free--`.
unfoldable pub take_friend : (page order : ℕ) → Buddy → Buddy
take_friend page order b =
    let b' : Buddy = record b {
      lists = λ c. record (b.lists c) {
        free_head = elim (b.lists c).free_head [ none ↦ none | some ps ↦ some (unlink page ps) ];
      };
    } in
    record b' {
      lists =
          update b'.lists order (record (b'.lists order) {
            nr_free = ((b'.lists order).nr_free + 2 ^ 32 - 1) % 2 ^ 32;
          });
    }

-- The end of a round: the block, as far as it is merged, goes to a free list.
unfoldable pub file_block : (page order : ℕ) → Buddy → Option Buddy
file_block page order b = do
  b' ← put_block page order (set_flag page buddy_free (set_level page order b))
  some (record b' { lock = unlock b'.lock })

-- The part of a round that looks at the second friend; `none` inside says that the loop is left.
unfoldable pub second_friend :
    (friend2 page page_id order : ℕ) → Buddy → Option (Option (Buddy × ℕ))
unfolding is_same_level take_friend file_block
second_friend friend2 page page_id order b =
    if is_same_level b friend2 page_id
    then (if not ((b.pages friend2).flag == buddy_free) then some none else (do
      b' ← file_block page (order + 1) (set_level friend2 no_level (take_friend friend2 order b))
      some (some (b', order + 1))))
    else (do b' ← file_block page order b; some (some (b', order)))

-- `while (order < BUDDY_MAX_ORDER)`; each round that goes on raises the order.
unfoldable pub free_loop : (rounds page page_id order : ℕ) → Buddy → Option Buddy
unfolding second_friend
free_loop zero page page_id order b = some b
free_loop (suc n) page page_id order b =
    let friend1_id = backward page_id (pow 2 order) in
    let friend2_id = forward page_id (pow 2 order) in
    let friend1 = forward page (backward friend1_id page_id) in
    let friend2 = forward page (backward friend2_id page_id) in
    if leb buddy_max_order order
    then some b
    else if not (is_same_level b friend1 page_id) && not (is_same_level b friend2 page_id)
    then some b
    else if is_same_level b friend1 page_id
    then (let b₁ = set_level page no_level (take_friend friend1 order b) in
        let next = second_friend friend2 friend1 friend1_id (order + 1) b₁ in
        if not ((b.pages friend1).flag == buddy_free) then some b else (do
          r ← next
          elim r [ none ↦ some b₁ | some (b₂, order₂) ↦ free_loop n friend1 friend1_id order₂ b₂ ]))
    else (do
      r ← second_friend friend2 page page_id order b
      elim r [ none ↦ some b | some (b₂, order₂) ↦ free_loop n page page_id order₂ b₂ ])

unfoldable pub free_block : (page order : ℕ) → Buddy → Option Buddy
unfolding free_loop
free_block page order b =
    free_loop buddy_max_order page (backward page b.start_page) order
      (record b { lock = lockup b.lock })

unfoldable pub free_pages : (addr order : ℕ) → Buddy → Option Buddy
unfolding free_block
free_pages addr order b = free_block (addr / 2 ^ page_shift) order b

-- `init_pages`, with the rounds left.
unfoldable pub init_pages : (rounds i : ℕ) → (ℕ → Page) → ℕ → Page
init_pages zero i pages = pages
init_pages (suc n) i pages = init_pages n (i + 1) (
    update pages i (record {
      flag = buddy_reserved;
      reference = 1;
      bplevel = 0;
      slabp = 0;
      virtual = 2 ^ 32 - 1;
    }))

-- The loop over the free lists, which leaves out the last one.
unfoldable pub init_lists : (rounds i : ℕ) → (ℕ → FreeList) → ℕ → FreeList
init_lists zero i lists = lists
init_lists (suc n) i lists =
    init_lists n (i + 1) (update lists i (record { nr_free = 0; free_head = some [] }))

-- The last page of all areas in the table of the boot-time allocator.
unfoldable pub kernel_end_pfn : (rounds i last : ℕ) → Bootmm → ℕ
kernel_end_pfn zero i last mm = last
kernel_end_pfn (suc n) i last mm =
    let end_pfn = (mm.info i).end / 2 ^ page_shift in
    kernel_end_pfn n (i + 1) (if ltb last end_pfn then end_pfn else last) mm

-- `x & ~((1 << BUDDY_MAX_ORDER) - 1)`.
abbrev pub whole_blocks : ℕ → ℕ
whole_blocks x = x / 2 ^ buddy_max_order * 2 ^ buddy_max_order

-- `for (i = …; i < buddy_end_pfn; ++i) __free_pages(pages + i, 0);`.
unfoldable pub free_all : (rounds i : ℕ) → Buddy → Option Buddy
unfolding free_block
free_all zero i b = some b
free_all (suc n) i b = do b' ← free_block i 0 b; free_all n (i + 1) b'

-- `init_buddy` behind the allocation of the page structures; `mm` is the boot-time allocator after it.
unfoldable pub init_buddy : Bootmm → Buddy → Option Buddy
unfolding init_pages init_lists kernel_end_pfn free_all
init_buddy mm b =
    let last = kernel_end_pfn mm.cnt_infos 0 0 mm in
    let start = whole_blocks ((last + 2 ^ buddy_max_order - 1) % 2 ^ 32) in
    let end = whole_blocks mm.max_pfn in
    free_all (end - start) start (record {
      pages = init_pages mm.max_pfn 0 b.pages;
      start_page = start;
      buddy_start_pfn = start;
      buddy_end_pfn = end;
      lock = init_lock b.lock;
      lists = init_lists buddy_max_order 0 b.lists;
    })
