-- ===== src/Ring.antt =====
-- The intrusive, circular, doubly linked lists of include/zjunix/list.h, over an explicit memory of
-- `struct list_head`: two fields at every address. Reads and writes are in the order of the C.
pub mod Chain
pub mod Nodes
pub mod Edit
pub mod Effects
mod Examples
use mathlib.Core.Option
use ninix.Base.{
  ◌==◌, if◌then◌else◌, update, ℕ, zero, suc, Bool, Option, none, some, List, [], ◌∷◌, map,
}

pub record Links : Type 0 where
  pub prev : ℕ → ℕ
  pub next : ℕ → ℕ

abbrev pub poison1 : ℕ
poison1 = 0x10101010

abbrev pub poison2 : ℕ
poison2 = 0x20202020

abbrev pub set_prev : Links → ℕ → ℕ → Links
set_prev m a v = record { prev = update m.prev a v; next = m.next }

abbrev pub set_next : Links → ℕ → ℕ → Links
set_next m a v = record { prev = m.prev; next = update m.next a v }

unfoldable pub init_list_head : ℕ → Links → Links
init_list_head list m = set_next (set_prev m list list) list list

-- `__list_add` and `__list_del`.
unfoldable pub link_between : (new prev next : ℕ) → Links → Links
link_between new prev next m =
    set_prev (set_next (set_prev (set_next m new next) new prev) prev new) next new

unfoldable pub unlink_between : (prev next : ℕ) → Links → Links
unlink_between prev next m = set_prev (set_next m prev next) next prev

unfoldable pub list_add : (new head : ℕ) → Links → Links
list_add new head m = link_between new head (m.next head) m

unfoldable pub list_add_tail : (new head : ℕ) → Links → Links
list_add_tail new head m = link_between new (m.prev head) head m

unfoldable pub list_del : ℕ → Links → Links
list_del entry m =
    set_next (set_prev (unlink_between (m.prev entry) (m.next entry) m) entry poison1) entry poison2

unfoldable pub list_del_init : ℕ → Links → Links
list_del_init entry m = init_list_head entry (unlink_between (m.prev entry) (m.next entry) m)

unfoldable pub list_move : (entry head : ℕ) → Links → Links
list_move entry head m = list_add entry head (unlink_between (m.prev entry) (m.next entry) m)

unfoldable pub list_move_tail : (entry head : ℕ) → Links → Links
list_move_tail entry head m =
    list_add_tail entry head (unlink_between (m.prev entry) (m.next entry) m)

unfoldable pub list_empty : ℕ → Links → Bool
list_empty head m = m.next head == head

-- `list_for_each`: the positions that the loop visits from `pos` on, `none` if it has not come back
-- to the head after `fuel` rounds.
unfoldable pub for_each : ℕ → (pos head : ℕ) → Links → Option (List ℕ)
for_each zero pos head m = none
for_each (suc fuel) pos head m =
    let rest = for_each fuel (m.next pos) head m in
    if pos == head then some [] else Option.map (λ xs. pos ∷ xs) rest

abbrev pub list_for_each : ℕ → ℕ → Links → Option (List ℕ)
list_for_each fuel head m = for_each fuel (m.next head) head m
