-- ===== src/Buddy/Alloc.antt =====
-- `__alloc_pages` and `alloc_pages`.
pub mod Split
pub mod Take
pub mod Conserve
use ninix.Lock.{Lock, lockup, unlock}
use ninix.Buddy.{
  FreeList, Buddy, set_level, set_flag, forward, put_block, buddy_allocated, buddy_free,
  buddy_max_order,
}
use ninix.Utils.{pow}
use ninix.Base.{
  ltb, ◌==◌, if◌then◌else◌, update, ℕ, zero, suc, ◌+◌, ◌-◌, ◌*◌, ◌/◌, ◌%◌, ◌^◌, Option, none, some,
  List, [], ◌∷◌, ◌>>=◌,
}

-- `while (clevel > level)`, with the rounds left: the upper half of the block goes to the free list of
-- its level.
unfoldable pub split_block : (rounds page clevel size : ℕ) → Buddy → Option Buddy
split_block zero page clevel size b = some b
split_block (suc n) page clevel size b = do
  let buddy_page = forward page (size / 2)
  b' ← put_block buddy_page (clevel - 1) b
  split_block n page (clevel - 1) (size / 2)
      (set_level buddy_page (clevel - 1) (set_flag buddy_page buddy_free b'))

-- The first page of a list is taken off, which is on no other list.
unfoldable pub take_block : (level clevel page : ℕ) → List ℕ → Buddy → Option Buddy
unfolding split_block
take_block level clevel page rest b =
    let off : Buddy = record b {
      lists = update b.lists clevel (record {
        nr_free = ((b.lists clevel).nr_free + 2 ^ 32 - 1) % 2 ^ 32;
        free_head = some rest;
      });
    } in
    split_block (clevel - level) page clevel (pow 2 clevel)
      (set_flag page buddy_allocated (set_level page level off))

-- The search from `clevel` on, with the rounds left; the page is `none` if there is no block.
unfoldable pub search_level : (rounds clevel level : ℕ) → Buddy → Option (Buddy × Option ℕ)
unfolding take_block
search_level zero clevel level b = some (record b { lock = unlock b.lock }, none)
search_level (suc n) clevel level b =
    let rest = search_level n (clevel + 1) level b in
    elim (b.lists clevel).free_head [
      | none ↦ none
      | some [] ↦ rest
      | some (page ∷ ps) ↦ do
        b' ← take_block level clevel page ps b
        some (record b' { lock = unlock b'.lock }, some page)
    ]

unfoldable pub alloc_block : ℕ → Buddy → Option (Buddy × Option ℕ)
unfolding search_level
alloc_block level b =
    search_level (buddy_max_order + 1 - level) level level (record b { lock = lockup b.lock })

-- `while (1 << level < order) level++;`, with the fuel left.
unfoldable pub level_for : (fuel level order : ℕ) → ℕ
level_for zero level order = level
level_for (suc n) level order =
    let rest = level_for n (level + 1) order in if ltb (2 ^ level) order then rest else level

-- The address of the pages, 0 for none. The argument is a number of pages below 2 ^ 31.
unfoldable pub alloc_pages : ℕ → Buddy → Option (Buddy × ℕ)
unfolding level_for alloc_block
alloc_pages order b =
    let found = alloc_block (level_for 31 0 order) b in
    if order == 0 then some (b, 0) else do
      (b', page) ← found
      elim page [ none ↦ some (b', 0) | some p ↦ some (b', p * 2 ^ 12 % 2 ^ 32) ]
