-- ===== src/Sched/Priority.antt =====
-- Priorities, time slices and sleep averages. All are `unsigned long`, of 32 bits on this machine.
pub mod Bounds
use ninix.Sched.State.{
  Task, max_prio, max_rt_prio, max_sleep_avg, min_timeslice, max_timeslice, min_rt_timeslice,
  max_rt_timeslice,
}
use ninix.Base.{
  ltb, leb, if◌then◌else◌, ℕ, ◌+◌, ◌-◌, ◌*◌, ◌/◌, ◌%◌, ◌^◌, min, Bool, true, false, not, ◌&&◌, ◌||◌,
}

unfoldable pub is_rt_task : Task → Bool
is_rt_task p = if ltb max_rt_prio p.static_prio then false else true

-- The bonus from -2 to 2, as the 32 bits of an `int`. Past the last test `bonus` was never written
-- to: it holds `junk`.
unfoldable pub get_bonus : ℕ → Task → ℕ
get_bonus junk p =
    if leb p.sleep_avg (max_sleep_avg / 5)
    then 2 ^ 32 - 2
    else if ltb (max_sleep_avg / 5) p.sleep_avg && leb p.sleep_avg (max_sleep_avg / 5 * 2)
    then 2 ^ 32 - 1
    else if ltb (max_sleep_avg / 5 * 2) p.sleep_avg && leb p.sleep_avg (max_sleep_avg / 5 * 3)
    then 0
    else if ltb (max_sleep_avg / 5 * 3) p.sleep_avg && leb p.sleep_avg (max_sleep_avg / 5 * 4)
    then 1
    else if ltb (max_sleep_avg / 5 * 4) p.sleep_avg && leb p.sleep_avg max_sleep_avg
    then 2
    else junk

-- The signed comparisons of `prio`, on its 32 bits.
abbrev is_negative : ℕ → Bool
is_negative prio = leb (2 ^ 31) prio

unfoldable pub cap_prio : ℕ → ℕ
cap_prio prio = if leb max_prio prio && not (is_negative prio) then max_prio - 1 else prio

unfoldable pub floor_prio : ℕ → ℕ
floor_prio prio = if leb prio max_rt_prio || is_negative prio then max_rt_prio + 1 else prio

unfoldable pub dynamic_prio : ℕ → Task → ℕ
unfolding is_rt_task get_bonus cap_prio floor_prio
dynamic_prio junk p =
    if is_rt_task p
    then p.rt_priority
    else floor_prio (cap_prio ((p.static_prio + 2 ^ 32 - get_bonus junk p + 2) % 2 ^ 32))

-- `basic_timeslice` less its call of `pc_kill`.
unfoldable pub slice_of : Task → ℕ
unfolding is_rt_task
slice_of p =
    if is_rt_task p
    then (let slice = (max_prio + 2 ^ 32 - p.rt_priority) * 20 % 2 ^ 32 in
        if ltb slice min_rt_timeslice
        then min_rt_timeslice
        else if ltb max_rt_timeslice slice
        then max_rt_timeslice
        else slice)
    else (let slice = (max_prio + 2 ^ 32 - p.prio) * 5 % 2 ^ 32 in
        if ltb slice min_timeslice
        then min_timeslice
        else if ltb max_timeslice slice
        then max_timeslice
        else slice)

-- `recalc_task_prio`, on the task that it is given.
unfoldable pub recalc_task_prio : ℕ → Task → ℕ → Task
unfolding is_rt_task dynamic_prio
recalc_task_prio junk p now =
    let slept = min ((now + 2 ^ 32 - p.timestamp) % 2 ^ 32) max_sleep_avg in
    let q : Task =
      if ltb 0 slept
      then record p { sleep_avg = min ((p.sleep_avg + slept) % 2 ^ 32) max_sleep_avg }
      else p in
    if is_rt_task q then q else record q { prio = dynamic_prio junk q }
