-- ===== src/Sched/Run.antt =====
-- The choice of the next task: `schedule`, `find_next_task` and `scheduler_tick`. A null pointer, or
-- a list head that is taken for a task, is `none`.
pub mod Choice
pub mod Switch
use ninix.Sched.State.{
  Task, Policy, Context, PrioArray, Sched, put_task, put_array, max_prio, max_sleep_avg,
  starvation_limit, sched_rr, max_starve_count,
}
use ninix.Sched.Priority.{is_rt_task, dynamic_prio, slice_of, recalc_task_prio}
use ninix.Sched.Queue.{enqueue_task, dequeue_task, requeue_task}
use ninix.Base.{
  ltb, ◌==◌, if◌then◌else◌, ℕ, ◌+◌, ◌-◌, ◌*◌, ◌/◌, ◌%◌, ◌^◌, bit_or, ◌&&◌, Option, none, some, List,
  [], ◌∷◌,
}

-- The two halves of the cycle counter, cut to one word.
unfoldable pub sched_clock : ℕ → ℕ → ℕ
sched_clock ticks_high ticks_low = bit_or (ticks_high * 2 ^ 12 % 2 ^ 32) (ticks_low / 2 ^ 20)

unfoldable pub copy_context : Context → Context
copy_context src = record {
  epc = src.epc;
  at = src.at;
  v0 = src.v0;
  v1 = src.v1;
  a0 = src.a0;
  a1 = src.a1;
  a2 = src.a2;
  a3 = src.a3;
  t0 = src.t0;
  t1 = src.t1;
  t2 = src.t2;
  t3 = src.t3;
  t4 = src.t4;
  t5 = src.t5;
  t6 = src.t6;
  t7 = src.t7;
  s0 = src.s0;
  s1 = src.s1;
  s2 = src.s2;
  s3 = src.s3;
  s4 = src.s4;
  s5 = src.s5;
  s6 = src.s6;
  s7 = src.s7;
  t8 = src.t8;
  t9 = src.t9;
  hi = src.hi;
  lo = src.lo;
  gp = src.gp;
  sp = src.sp;
  fp = src.fp;
  ra = src.ra;
}

-- An empty active array gives way to the expired one.
unfoldable pub exchange : Sched → Sched
exchange s =
    if (s.arrays s.active).nr_active == 0
    then record s { active = s.expired; expired = s.active }
    else s

-- `list_entry(pos->next, …)`: the first task; on an empty queue the head itself.
unfoldable pub first_task : List ℕ → Option ℕ
first_task [] = none
first_task (p ∷ ps) = some p

abbrev pub not_null : ℕ → Option ℕ
not_null p = if p == 0 then none else some p

-- The test of `schedule`, which lets queue 0 out.
unfoldable pub next_task : Sched → Option ℕ
unfolding first_task
next_task s =
    let a = s.arrays s.active in
    if ltb a.highest_prio max_prio && ltb 0 a.highest_prio
    then first_task (a.queue a.highest_prio)
    else not_null s.idle

unfoldable pub run_time : Task → ℕ → ℕ
run_time prev now =
    if ltb ((now + 2 ^ 32 - prev.timestamp) % 2 ^ 32) max_sleep_avg
    then (now + 2 ^ 32 - prev.timestamp) % 2 ^ 32
    else max_sleep_avg

unfoldable pub charge : Task → ℕ → ℕ → Task
charge prev spent now = record prev {
  sleep_avg = if ltb prev.sleep_avg spent then 0 else prev.sleep_avg - spent;
  timestamp = now;
}

-- The switch, which saves and loads the registers of the interrupted code.
unfoldable pub switch_to : Sched → ℕ → ℕ → Context → Sched × Context
unfolding copy_context
switch_to s next now pt =
    if s.current_task == next
    then (s, pt)
    else (let s₁ =
          put_task s s.current_task
            (record (s.tasks s.current_task) { context = copy_context pt }) in
        let s₂ = put_task s₁ next (record (s₁.tasks next) { timestamp = now }) in
        (record s₂ { current_task = next }, copy_context (s₂.tasks next).context))

-- `schedule` from the choice of `next` on.
unfoldable pub go_on : ℕ → ℕ → Sched → (prev spent next : ℕ) → Context → Sched × Context
go_on junk now s prev spent next pt =
    let s₁ = put_task s next (recalc_task_prio junk (s.tasks next) now) in
    switch_to (put_task s₁ prev (charge (s₁.tasks prev) spent now)) next now pt

unfoldable pub schedule : ℕ → ℕ → Sched → Context → Option (Sched × Context)
schedule junk now s pt =
    let prev = s.current_task in
    let spent = run_time (s.tasks prev) now in
    elim (next_task (exchange s)) [
      | none ↦ none
      | some next ↦ some (go_on junk now (exchange s) prev spent next pt)
    ]

-- The exchange of the arrays in `find_next_task`, which is counted.
unfoldable pub exchange_counted : Sched → Sched
exchange_counted s =
    if (s.arrays s.active).nr_active == 0
    then record s {
      active = s.expired;
      expired = s.active;
      array_exchange_count = (s.array_exchange_count + 1) % 2 ^ 32;
    }
    else s

-- The choice of `find_next_task`, where queue 0 counts; `s` is the state after the exchange, which
-- changes neither `idle` nor `nr_running`.
unfoldable pub find_head : Sched → Option ℕ
unfolding first_task
find_head s =
    let a = s.arrays s.active in
    if ltb a.highest_prio max_prio
    then first_task (a.queue a.highest_prio)
    else if a.highest_prio == max_prio
    then not_null s.idle
    else if s.nr_running == 0
    then not_null s.idle
    else none

-- The task that goes on, with its new priority and the time.
unfoldable pub resume : ℕ → ℕ → Sched → ℕ → Sched
resume junk now s p =
    put_task s p (record (recalc_task_prio junk (s.tasks p) now) { timestamp = now })

-- The task that `pc_exit` goes on with. `now` was never written to.
unfoldable pub find_next_task : ℕ → ℕ → Sched → Option (Sched × ℕ)
find_next_task junk now s = elim (find_head (exchange_counted s)) [
  | none ↦ none
  | some p ↦ some (resume junk now (exchange_counted s) p, p)
]
