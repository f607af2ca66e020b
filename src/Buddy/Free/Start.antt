-- ===== src/Buddy/Free/Start.antt =====
-- What `init_buddy` leaves on the free lists.
use ninix.Lock.{init_lock, lockup, spin-lockup}
use ninix.Bootmm.{Bootmm}
use ninix.Buddy.{Page, FreeList, Buddy, forward, backward}
use ninix.Buddy.Alloc.{search_level, alloc_block}
use ninix.Buddy.Free.{
  is_same_level, free_loop, free_block, init_pages, init_lists, kernel_end_pfn, whole_blocks,
  free_all, init_buddy,
}
use ninix.Utils.{pow}
use ninix.Base.{
  ltb, leb, ◌==◌, if◌then◌else◌, Bool-cases, update, ℕ, zero, suc, ◌+◌, ◌-◌, ◌%◌, ◌^◌, ◌≤◌, ◌<◌,
  ◌≡◌, refl, ap, ◌∙◌, inl, inr, ◌&&◌, none, some, [], arith,
}

-- A page as `init_pages` leaves it.
abbrev first_state : Page
first_state = record { flag = 2 ^ 31; reference = 1; bplevel = 0; slabp = 0; virtual = 2 ^ 32 - 1 }

init_pages_lem :
    (n i : ℕ) (pages : ℕ → Page) (j : ℕ)
    → init_pages n i pages j ≡ (if leb i j && ltb j (i + n) then first_state else pages j)
unfolding init_pages
init_pages_lem zero i pages j = ground arith
init_pages_lem (suc n) i pages j =
    ground (arith, init_pages_lem n (i + 1) (update pages i first_state) j)

-- The pages below `top` are as at first, and the memory behind them is empty.
record Fresh (b : Buddy) (top : ℕ) : Type 0 where
  small : top < 2 ^ 32
  levels : (j : ℕ) → (if leb j top then (b.pages j).bplevel else 0) ≡ 0
  flags : (j : ℕ) → (if ltb j top then (b.pages j).flag else 2 ^ 31) ≡ 2 ^ 31
  start : (0 < b.start_page) × (b.start_page ≤ top)

one : pow 2 0 ≡ 1
unfolding pow
one = refl

-- A page that is given back first finds no friend and changes nothing, but takes the lock.
free_block-Fresh :
    (b : Buddy) (top i : ℕ)
    → Fresh b top
    → b.start_page ≤ i
    → i < top
    → free_block i 0 b ≡ some (record b { lock = lockup b.lock })
unfolding free_block free_loop is_same_level
free_block-Fresh b top i f lo hi =
    let id : backward i b.start_page ≡ i - b.start_page = omega (arith, f.small) in
    let b₁ : Buddy = record b { lock = lockup b.lock } in
    let e₁ : forward i (backward (backward (i - b.start_page) 1) (i - b.start_page)) ≡ i - 1 =
      omega (arith, f.small, f.start) in
    let e₂ : forward i (backward (forward (i - b.start_page) 1) (i - b.start_page)) ≡ i + 1 =
      omega (arith, f.small) in
    let l₁ : (b.pages (i - 1)).bplevel ≡ 0 = ground (arith, f.levels (i - 1)) in
    let l₂ : (b.pages (i + 1)).bplevel ≡ 0 = ground (arith, f.levels (i + 1)) in
    let g₁ : (b.pages (i - 1)).flag ≡ 2 ^ 31 = ground (arith, f.flags (i - 1), f.start) in
    rw (one, id)
      (rw (e₁, e₂)
        (rw (l₁, l₂)
          (elim (Bool-cases (0 == i - b.start_page)) [
            | inl z ↦ rw z (rw g₁ (refl {a = some b₁}))
            | inr z ↦ rw z (refl {a = some b₁})
          ])))

free_all-Fresh :
    (n i top : ℕ) (b : Buddy)
    → Fresh b top
    → b.start_page ≤ i
    → i + n ≤ top
    → (b' : Buddy) × (free_all n i b ≡ some b')
      × (b'.lists ≡ b.lists)
      × (b'.lock.interrupts ≡ b.lock.interrupts)
unfolding free_all
free_all-Fresh zero i top b f lo hi = (b, refl, refl, refl)
free_all-Fresh (suc n) i top b f lo hi =
    let b₁ : Buddy = record b { lock = lockup b.lock } in
    let f₁ : Fresh b₁ top = record {
      small = f.small;
      levels = f.levels;
      flags = f.flags;
      start = f.start;
    } in
    let (b', e, same, ie) = free_all-Fresh n (i + 1) top b₁ f₁ (omega arith) (omega arith) in
    (b', rw (free_block-Fresh b top i f lo (omega arith)) e, same, ie ∙ (spin-lockup b.lock).1)

init_lists_lem :
    (n i : ℕ) (lists : ℕ → FreeList) (j : ℕ)
    → init_lists n i lists j
      ≡ (if leb i j && ltb j (i + n) then record { nr_free = 0; free_head = some [] } else lists j)
unfolding init_lists
init_lists_lem zero i lists j = ground arith
init_lists_lem (suc n) i lists j = ground (
  arith,
  init_lists_lem n (i + 1) (update lists i (record { nr_free = 0; free_head = some [] })) j,
)

-- With the lists of `init_buddy` the search comes to the last list.
search_level-none :
    (n clevel level : ℕ) (b : Buddy) (lists : ℕ → FreeList)
    → n + clevel ≡ 5
    → clevel ≤ 4
    → b.lists ≡ init_lists 4 0 lists
    → (lists 4).free_head ≡ none
    → search_level n clevel level b ≡ none
unfolding search_level
search_level-none zero clevel level b lists e le same null = absurd (omega arith)
search_level-none (suc n) clevel level b lists e le same null =
    let here = ap (λ (l : ℕ → FreeList). l clevel) same ∙ init_lists_lem 4 0 lists clevel in
    elim (Bool-cases (ltb clevel 4)) [
      | inl below ↦
          let h : (b.lists clevel).free_head ≡ some [] = rw here (ground arith) in
          rw (h, search_level)
            (search_level-none n (clevel + 1) level b lists (omega arith) (ground arith) same null)
      | inr last ↦
          let four : clevel ≡ 4 = ground arith in
          let h : (b.lists clevel).free_head ≡ none = rw here (rw four (ground (arith, null))) in
          rw (h, search_level) refl
    ]

-- `init_buddy` gives no page back: behind it no free list has a page, and where the head of the last
-- list, which it leaves out, has null pointers, `__alloc_pages` of any level from 0 to 4 goes through
-- a null pointer. That is so when an area in the table of the boot-time allocator ends behind the
-- first page and 16 pages before the end of memory, and the level behind the page structures reads 0.
pub init_buddy-idle :
    (mm : Bootmm) (b : Buddy) (level : ℕ)
    → 0 < kernel_end_pfn mm.cnt_infos 0 0 mm
    → kernel_end_pfn mm.cnt_infos 0 0 mm + 16 ≤ mm.max_pfn
    → mm.max_pfn < 2 ^ 32
    → (b.pages mm.max_pfn).bplevel ≡ 0
    → (b.lists 4).free_head ≡ none
    → level ≤ 4
    → (b' : Buddy) × (init_buddy mm b ≡ some b')
      × (b'.lists ≡ init_lists 4 0 b.lists)
      × (alloc_block level b' ≡ none)
unfolding init_buddy alloc_block
init_buddy-idle mm b level pos room small behind null le =
    let last = kernel_end_pfn mm.cnt_infos 0 0 mm in
    let start = whole_blocks ((last + 2 ^ 4 - 1) % 2 ^ 32) in
    let end = whole_blocks mm.max_pfn in
    let b₁ : Buddy = record {
      pages = init_pages mm.max_pfn 0 b.pages;
      start_page = start;
      buddy_start_pfn = start;
      buddy_end_pfn = end;
      lock = init_lock b.lock;
      lists = init_lists 4 0 b.lists;
    } in
    let f : Fresh b₁ mm.max_pfn = record {
      small = small;
      levels = λ j. ground (arith, init_pages_lem mm.max_pfn 0 b.pages j, behind);
      flags = λ j. ground (arith, init_pages_lem mm.max_pfn 0 b.pages j);
      start = (omega arith, omega arith);
    } in
    let (b', e, same, _) =
      free_all-Fresh (end - start) start mm.max_pfn b₁ f (omega arith) (omega arith) in
    (
      b',
      e,
      same,
      search_level-none (5 - level) level level (record b' { lock = lockup b'.lock }) b.lists
          (omega arith) le same null,
    )
