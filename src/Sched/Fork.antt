-- ===== src/Sched/Fork.antt =====
-- `fork`, `do_fork` and the scheduling data of a new task.
pub mod Share
pub mod Start
pub mod Child
use ninix.Pid.{pid_alloc, pid_free}
use ninix.Sched.State.{
  Task, Context, Sched, put_task, max_prio, max_rt_prio, max_sleep_avg, child_penalty,
  parent_penalty, uninit, running, sched_normal, sched_fifo, sched_rr,
}
use ninix.Sched.Priority.{is_rt_task, dynamic_prio}
use ninix.Sched.Queue.{activate_task, add_task_in_processes}
use ninix.Sched.Tick.{refill}
use ninix.Base.{
  ltb, leb, ◌==◌, if◌then◌else◌, ℕ, ◌+◌, ◌-◌, ◌*◌, ◌/◌, ◌%◌, ◌^◌, min, true, false, not, ◌&&◌,
  Option, none, some, ◌>>=◌,
}

-- -1 as an `int`.
abbrev pub minus_one : ℕ
minus_one = 2 ^ 32 - 1

-- Priorities and policy of `p`, a child of `parent`, at the static priority `prio`.
unfoldable pub inherit : Task → Task → ℕ → Task
inherit parent p prio =
    if leb prio max_rt_prio
    then record p {
      state = running;
      static_prio = prio;
      rt_priority = prio;
      prio = prio;
      sleep_avg = parent.sleep_avg;
      policy = if ltb (max_rt_prio / 2) prio && leb prio max_rt_prio then sched_rr else sched_fifo;
      array = none;
    }
    else record p {
      state = running;
      static_prio = prio;
      prio = prio;
      rt_priority = prio;
      sleep_avg = parent.sleep_avg;
      policy = sched_normal;
      array = none;
    }

-- Parent and child share what is left of the slice.
unfoldable pub share_slice : Sched → ℕ → Sched
share_slice s p =
    let slice = (s.tasks s.current_task).time_slice in
    let s₁ = put_task s p (record (s.tasks p) { time_slice = (slice + 1) % 2 ^ 32 / 2 }) in
    put_task s₁ s.current_task (record (s₁.tasks s.current_task) { time_slice = slice / 2 })

-- The first process gets a slice of its own.
unfoldable pub first_slice : (ℕ → ℕ) → Sched → ℕ → Option Sched
unfolding share_slice
first_slice wide s p = if (s.tasks p).pid == 1 then refill wide s p else some (share_slice s p)

-- A parent without a tick left gets one.
unfoldable pub keep_tick : Sched → Sched
keep_tick s =
    let c = s.tasks s.current_task in
    if c.time_slice == 0 then put_task s s.current_task (record c { time_slice = 1 }) else s

-- The static priority of the child, where -1 asks for the parent's.
unfoldable pub chosen_prio : Task → ℕ → ℕ
chosen_prio parent set_prio = if set_prio == minus_one then parent.static_prio else set_prio

-- `p->timestamp = sched_clock()`.
unfoldable pub stamp : ℕ → ℕ → Sched → Sched
stamp p clock s = put_task s p (record (s.tasks p) { timestamp = clock })

unfoldable pub sched_fork : (ℕ → ℕ) → Sched → (p set_prio clock : ℕ) → Option Sched
unfolding inherit first_slice keep_tick chosen_prio stamp
sched_fork wide s p set_prio clock = do
  let parent = s.tasks s.current_task
  s₂ ← first_slice wide (put_task s p (inherit parent (s.tasks p) (chosen_prio parent set_prio))) p
  some (stamp p clock (keep_tick s₂))

-- `penalty / 100 * sleep_avg`, capped. The division comes first, and the test below 0 never passes.
unfoldable pub penalise : ℕ → Task → Task
penalise penalty t = record t {
  sleep_avg = min (penalty / 100 * t.sleep_avg % 2 ^ 32) max_sleep_avg;
}

-- The child as `wake_up_new_task` puts it on its queue.
unfoldable pub woken : ℕ → Task → Task
unfolding penalise
woken junk child =
    let t = penalise child_penalty child in
    if is_rt_task t then t else record t { prio = dynamic_prio junk t }

unfoldable pub wake_up_new_task : ℕ → Sched → ℕ → Sched
unfolding penalise woken
wake_up_new_task junk s p =
    let s₁ = activate_task (put_task s p (woken junk (s.tasks p))) p in
    put_task s₁ s₁.current_task (penalise parent_penalty (s₁.tasks s₁.current_task))

-- The registers of a task that has not run: `kernel_memset` and what is written after it.
unfoldable pub fresh_context : (entry sp gp argc args : ℕ) → Context
fresh_context entry sp gp argc args = record {
  epc = entry;
  at = 0;
  v0 = 0;
  v1 = 0;
  a0 = argc;
  a1 = args;
  a2 = 0;
  a3 = 0;
  t0 = 0;
  t1 = 0;
  t2 = 0;
  t3 = 0;
  t4 = 0;
  t5 = 0;
  t6 = 0;
  t7 = 0;
  s0 = 0;
  s1 = 0;
  s2 = 0;
  s3 = 0;
  s4 = 0;
  s5 = 0;
  s6 = 0;
  s7 = 0;
  t8 = 0;
  t9 = 0;
  hi = 0;
  lo = 0;
  gp = gp;
  sp = sp;
  fp = 0;
  ra = 0;
}

-- What the caller and the machine supply: the address that `kmalloc` returned, 0 for none, the
-- clock, the global pointer, and the entry with its arguments.
pub record Request : Type 0 where
  pub fresh : ℕ
  pub clock : ℕ
  pub gp : ℕ
  pub entry : ℕ
  pub argc : ℕ
  pub args : ℕ
  pub set_prio : ℕ

-- The new task as `do_fork` fills it in, and on the list of processes.
unfoldable pub new_task : Sched → Request → ℕ → Sched
unfolding fresh_context
new_task s r new_pid =
    let p = r.fresh in
    add_task_in_processes
      (put_task (record s { interrupts = false }) p
        (record (s.tasks p) {
          pid = new_pid;
          asid = new_pid;
          parent = (s.tasks s.current_task).pid;
          state = uninit;
          context = fresh_context r.entry (p + 4096) r.gp r.argc r.args;
        }))
      p

-- The part of `do_fork` behind the two allocations.
unfoldable pub start_task : (ℕ → ℕ) → ℕ → Sched → Request → ℕ → Option (Sched × ℕ)
unfolding new_task
start_task wide junk s r new_pid = do
  let p = r.fresh
  s₂ ← sched_fork wide (new_task s r new_pid) p r.set_prio r.clock
  let s₃ = wake_up_new_task junk s₂ p
  some (record s₃ { interrupts = true }, (s₃.tasks p).pid)

-- The answer is the number of the child, 0 for a failure. `new_pid < 0` on an unsigned number is
-- never true, so a failed `pid_alloc` is not noticed.
unfoldable pub do_fork : (ℕ → ℕ) → ℕ → Sched → Request → Option (Sched × ℕ)
unfolding start_task
do_fork wide junk s r =
    if not (ltb r.set_prio max_prio) && not (r.set_prio == minus_one)
    then some (s, 0)
    else (let (pids, new_pid) = pid_alloc s.pids in
        let s₁ = record s { pids = pids } in
        if r.fresh == 0
        then some (record s₁ { pids = (pid_free wide pids new_pid).0 }, 0)
        else start_task wide junk s₁ r new_pid)

-- The four test programs.
pub data Program : Type 0 where
  runprog1 runprog2 runprog3 runprog4 : Program

-- The entry that `fork` chooses, `none` where it refuses.
unfoldable pub program_for : ℕ → Option Program
program_for set_prio =
    if not (ltb 0 set_prio && ltb set_prio max_prio) && not (set_prio == minus_one)
    then none
    else if ltb 0 set_prio && leb set_prio (max_rt_prio / 2)
    then some runprog2
    else if ltb (max_rt_prio / 2) set_prio && leb set_prio max_rt_prio
    then some runprog1
    else if ltb max_rt_prio set_prio && not (set_prio == minus_one)
    then some runprog3
    else if set_prio == minus_one
    then some runprog4
    else none

unfoldable pub fork : (ℕ → ℕ) → ℕ → (Program → ℕ) → Sched → Request → Option (Sched × ℕ)
unfolding program_for
fork wide junk address s r = elim (program_for r.set_prio) [
  | none ↦ some (s, 0)
  | some prog ↦ do_fork wide junk s (record r { entry = address prog; argc = 0; args = 0 })
]
