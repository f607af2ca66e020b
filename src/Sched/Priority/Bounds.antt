-- ===== src/Sched/Priority/Bounds.antt =====
-- What the priorities and the slices come to.
use ninix.Sched.State.{Task}
use ninix.Sched.Priority.{is_rt_task, get_bonus, dynamic_prio, slice_of, recalc_task_prio}
use ninix.Base.{ltb, if◌then◌else◌, ℕ, ◌+◌, ◌-◌, ◌/◌, ◌^◌, ◌≤◌, ◌<◌, min, max, ◌≡◌, arith}

-- The bonus, counted from 0 to 4.
abbrev pub fifth : ℕ → ℕ
fifth sleep = (sleep - 1) / 1111

bonus_lem :
    (junk : ℕ) (t : Task)
    → t.sleep_avg ≤ 5555
    → get_bonus junk t ≡ (
        if ltb (fifth t.sleep_avg) 2 then 2 ^ 32 - 2 + fifth t.sleep_avg else fifth t.sleep_avg - 2)
unfolding get_bonus
bonus_lem junk t h = ground arith

-- The priority of a normal task is its static one, moved by -2 to +2 for the fifth of the range
-- that its sleep average lies in, and kept from 50 to 63.
pub dynamic_prio-normal :
    (junk : ℕ) (t : Task)
    → 49 < t.static_prio
    → t.static_prio < 64
    → t.sleep_avg ≤ 5555
    → dynamic_prio junk t ≡ max 50 (min 63 (t.static_prio + 4 - fifth t.sleep_avg))
unfolding dynamic_prio
dynamic_prio-normal junk t lo hi h = ground (arith, bonus_lem junk t h)

-- Whatever the static priority and the sleep average are, the priority of a normal task names one
-- of the queues for normal tasks.
pub dynamic_prio_bounds :
    (junk : ℕ) (t : Task)
    → 49 < t.static_prio
    → (50 ≤ dynamic_prio junk t) × (dynamic_prio junk t ≤ 63)
unfolding dynamic_prio
dynamic_prio_bounds junk t lo = ground arith

-- Of two normal tasks with one static priority, the one that slept longer is not behind.
pub dynamic_prio_antitone :
    (junk : ℕ) (t u : Task)
    → 49 < t.static_prio
    → t.static_prio < 64
    → u.static_prio ≡ t.static_prio
    → t.sleep_avg ≤ u.sleep_avg
    → u.sleep_avg ≤ 5555
    → dynamic_prio junk u ≤ dynamic_prio junk t
dynamic_prio_antitone junk t u lo hi e h top = omega (
  arith,
  dynamic_prio-normal junk t lo hi (omega arith),
  dynamic_prio-normal junk u (omega arith) (omega arith) top,
)

-- A slice is 500 to 1200 ticks for a real-time task and 1 to 150 for a normal one.
pub slice_of_bounds :
    (t : Task)
    → ((if is_rt_task t then 500 else 1) ≤ slice_of t)
      × (slice_of t ≤ (if is_rt_task t then 1200 else 150))
unfolding slice_of
slice_of_bounds t = ground arith

-- A sleep average of 5555 at most does not fall in `recalc_task_prio`, and stays within 5555; the
-- static priority stays; the priority of a normal task is from 50 to 63 after it, and that of a
-- real-time task stays.
pub recalc_task_prio_lem :
    (junk : ℕ) (t : Task) (now : ℕ)
    → t.sleep_avg ≤ 5555
    → let u = recalc_task_prio junk t now in
      (t.sleep_avg ≤ u.sleep_avg)
      × (u.sleep_avg ≤ 5555)
      × (u.static_prio ≡ t.static_prio)
      × ((if is_rt_task t then t.prio else 50) ≤ u.prio)
      × (u.prio ≤ (if is_rt_task t then t.prio else 63))
unfolding recalc_task_prio dynamic_prio
recalc_task_prio_lem junk t now h =
    (ground arith, ground arith, ground arith, ground arith, ground arith)
