-- ===== src/Sched/Bitmap.antt =====
-- The bitmap of a priority array and its cached least member.
pub mod Least
pub mod Marks
use ninix.Sched.State.{PrioArray, max_prio, bitmap_size}
use ninix.Base.{
  ltb, leb, ◌==◌, if◌then◌else◌, update, ℕ, zero, suc, ◌+◌, ◌-◌, ◌*◌, ◌/◌, ◌%◌, ◌^◌, bit_and,
  bit_or, Bool, ◌||◌, Option, none, some,
}

-- `bitmap[priority / 8] |= 1 << (priority & 7)`, stored in a byte.
unfoldable pub set_bit_map : ℕ → PrioArray → PrioArray
set_bit_map priority a = record a {
  bitmap =
      update a.bitmap (priority / 8)
        (bit_or (a.bitmap (priority / 8)) (2 ^ bit_and priority 7) % 256);
}

-- `bitmap[priority / 8] &= ~(1 << (priority & 7))`.
unfoldable pub clear_bit_map : ℕ → PrioArray → PrioArray
clear_bit_map priority a = record a {
  bitmap =
      update a.bitmap (priority / 8)
        (bit_and (a.bitmap (priority / 8)) (2 ^ 32 - 1 - 2 ^ bit_and priority 7) % 256);
}

-- `for (…; index < BITMAP_SIZE; index++) if (bitmap[index] != 0) break;` with the rounds left.
unfoldable pub find_byte : ℕ → ℕ → (ℕ → ℕ) → ℕ
find_byte zero index m = index
find_byte (suc n) index m =
    let rest = find_byte n (index + 1) m in if m index == 0 then rest else index

-- `while (off < 8)`: the number of the lowest bit, `none` when the loop ends without one.
unfoldable pub find_off : ℕ → ℕ → ℕ → Option ℕ
find_off zero off byte = none
find_off (suc n) off byte =
    let rest = find_off n (off + 1) byte in if bit_and byte (2 ^ off) == 0 then rest else some off

-- The new least member after the old one is gone.
unfoldable pub rescan : ℕ → PrioArray → PrioArray
rescan priority a =
    let index = find_byte (bitmap_size - priority / 8) (priority / 8) a.bitmap in
    if index == bitmap_size
    then record a { highest_prio = max_prio }
    else elim (find_off 8 0 (a.bitmap index)) [
      | none ↦ a
      | some off ↦ record a { highest_prio = index * 8 + off }
    ]

-- The `int` argument is given by its 32 bits, so `priority < 0` reads `2 ^ 31 ≤ priority`.
unfoldable pub update_highest_pro : PrioArray → ℕ → Bool → PrioArray
unfolding rescan
update_highest_pro a priority is_enqueue =
    if leb max_prio priority || leb (2 ^ 31) priority
    then a
    else if ltb a.highest_prio priority
    then a
    else if is_enqueue
    then (if ltb priority a.highest_prio then record a { highest_prio = priority } else a)
    else if a.highest_prio == priority
    then rescan priority a
    else a
