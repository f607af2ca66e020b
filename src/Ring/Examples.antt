-- ===== src/Ring/Examples.antt =====
-- The theorems on lists at concrete memories.
use ninix.Ring.{Links, init_list_head, list_add, list_add_tail, list_move_tail, list_for_each}
use ninix.Ring.Chain.{Ring}
use ninix.Ring.Effects.{
  init_list_head-Ring, list_add-Ring, list_add_tail-Ring, list_move_tail-Ring, list_for_each_lem,
}
use ninix.Base.{◌≡◌, refl, some, [], ◌∷◌, arith}

abbrev null : Links
null = record { prev = λ a. 0; next = λ a. 0 }

-- The list 1 without a node, with 2, and with 2 and 3.
abbrev none_in : Links
none_in = init_list_head 1 null

abbrev one_in : Links
one_in = list_add 2 1 none_in

abbrev two_in : Links
two_in = list_add_tail 3 1 one_in

one_in-Ring : Ring one_in 1 (2 ∷ [])
one_in-Ring = list_add-Ring none_in 2 1 [] (init_list_head-Ring null 1) refl

two_in-Ring : Ring two_in 1 (2 ∷ 3 ∷ [])
two_in-Ring = list_add_tail-Ring one_in 3 1 (2 ∷ []) one_in-Ring refl

list_move_tail_example : Ring (list_move_tail 2 1 two_in) 1 (3 ∷ 2 ∷ [])
list_move_tail_example = list_move_tail-Ring two_in 1 [] 2 (3 ∷ []) two_in-Ring

list_for_each_example : list_for_each 3 1 two_in ≡ some (2 ∷ 3 ∷ [])
list_for_each_example = list_for_each_lem 3 two_in 1 (2 ∷ 3 ∷ []) two_in-Ring (omega arith)
