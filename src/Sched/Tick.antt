-- ===== src/Sched/Tick.antt =====
-- `scheduler_tick`, the handler of the clock interrupt.
pub mod Expire
pub mod Last
use ninix.Pid.{idle_pid}
use ninix.Sched.State.{
  Task, Policy, Context, Sched, put_task, max_starve_count, starvation_limit, sched_rr,
  sched_normal, sched_fifo,
}
use ninix.Sched.Priority.{is_rt_task, dynamic_prio, slice_of}
use ninix.Sched.Queue.{enqueue_task, dequeue_task, requeue_task}
use ninix.Sched.Run.{schedule}
use ninix.Sched.Exit.{pc_kill}
use ninix.Base.{
  ltb, leb, ◌==◌, if◌then◌else◌, ℕ, ◌+◌, ◌-◌, ◌%◌, ◌^◌, Bool, true, false, ◌&&◌, Option, none, some,
  ◌>>=◌,
}

-- The slice of a task; a starving real-time task is killed on the way.
unfoldable pub basic_timeslice : (ℕ → ℕ) → Sched → ℕ → Option (Sched × ℕ)
basic_timeslice wide s p =
    let t = s.tasks p in
    if is_rt_task t && leb max_starve_count t.starve_count
    then (do (s', res) ← pc_kill wide s t.pid; some (s', slice_of t))
    else some (s, slice_of t)

-- `p->time_slice = basic_timeslice(p)`.
unfoldable pub refill : (ℕ → ℕ) → Sched → ℕ → Option Sched
unfolding basic_timeslice
refill wide s p = do
  (s', slice) ← basic_timeslice wide s p
  some (put_task s' p (record (s'.tasks p) { time_slice = slice }))

abbrev pub is_rr : Policy → Bool
is_rr sched_rr = true
is_rr sched_normal = false
is_rr sched_fifo = false

abbrev pub in_array : Option ℕ → ℕ → Bool
in_array none i = false
in_array (some j) i = j == i

-- The priority that the running task competes with.
abbrev pub effective_prio : Task → ℕ
effective_prio t = if is_rt_task t then t.rt_priority else t.prio

-- A round-robin task whose slice has run out.
unfoldable pub end_of_round : (ℕ → ℕ) → Sched → ℕ → Option Sched
unfolding refill
end_of_round wide s p = do
  s₁ ← refill wide s p
  if ltb starvation_limit ((s₁.timestamp_last_tick + 2 ^ 32 - (s₁.tasks p).time_slice) % 2 ^ 32)
      then (do
        s₂ ← refill wide (dequeue_task s₁ p s₁.active) p
        some (enqueue_task s₂ p s₂.expired))
      else (do s₂ ← refill wide s₁ p; some (requeue_task s₂ p s₂.active))

-- A normal task whose slice has run out.
unfoldable pub expire : (ℕ → ℕ) → ℕ → Sched → ℕ → Option Sched
unfolding refill
expire wide junk s p = do
  let s₁ = dequeue_task s p s.active
  let s₂ = put_task s₁ p (record (s₁.tasks p) { prio = dynamic_prio junk (s₁.tasks p) })
  s₃ ← refill wide s₂ p
  some (enqueue_task s₃ p s₃.expired)

-- `clock` is the time that the handler reads, `now` the one that `schedule` reads.
unfoldable pub scheduler_tick :
    (ℕ → ℕ) → (junk clock now : ℕ) → Sched → Context → Option (Sched × Context)
unfolding end_of_round expire
scheduler_tick wide junk clock now s pt =
    let p = s.current_task in
    let t = s.tasks p in
    let s₁ = record s { timestamp_last_tick = clock } in
    let s₂ = put_task s₁ p (record t { time_slice = (t.time_slice + 2 ^ 32 - 1) % 2 ^ 32 }) in
    let used_up = (s₂.tasks p).time_slice == 0 in
    if t.pid == idle_pid
    then schedule junk now s₁ pt
    else if in_array t.array s.expired
    then schedule junk now s₁ pt
    else if ltb (s.arrays s.active).highest_prio (effective_prio t)
    then schedule junk now s₁ pt
    else if is_rt_task t
    then (if is_rr t.policy
        then (if used_up
            then (do s₃ ← end_of_round wide s₂ p; schedule junk now s₃ pt)
            else some (s₂, pt))
        else some (s₁, pt))
    else if used_up
    then (do s₃ ← expire wide junk s₂ p; schedule junk now s₃ pt)
    else some (s₂, pt)
