-- ===== src/Sched/Exit/Kill.antt =====
-- What `pc_kill` refuses, and what it does to a task that it finds.
use ninix.Ring.Nodes.{unlink}
use ninix.Pid.{pid_check, pid_free}
use ninix.Sched.State.{Sched, put_task, terminal}
use ninix.Sched.Queue.{queue_of, dequeue_task, remove_task_from_processes, delete_task}
use ninix.Sched.Queue.Index.{Indexed}
use ninix.Sched.Queue.Moves.{Sane, Absent, Queued, dequeue_task-Indexed}
use ninix.Sched.Exit.{find_in_processes, kill_task, pc_kill}
use ninix.Base.{
  leb, ◌==◌, if◌then◌else◌, Bool-cases, ℕ, ◌+◌, ◌-◌, ◌%◌, ◌^◌, ◌≡◌, refl, ◌∙◌, ◌≢◌, inl, inr, Bool,
  true, false, ◌||◌, some, arith,
}

-- The numbers that `pc_kill` does not touch: out of range, the idle and the first process, the
-- running one, and those not in use.
abbrev pub is_protected : Sched → ℕ → Bool
is_protected s pid =
    leb 256 pid
    || ((pid == 0)
        || ((pid == 1) || ((pid == (s.tasks s.current_task).pid) || pid_check s.pids.pidmap pid)))

-- `pc_kill` answers 1 and changes nothing for a number out of range, for 0 and 1, for the number of
-- the running task and for one that is not in use.
pub pc_kill-refused :
    (wide : ℕ → ℕ) (s : Sched) (pid : ℕ)
    → is_protected s pid ≡ true
    → pc_kill wide s pid ≡ some (s, 1)
unfolding pc_kill
pc_kill-refused wide s pid h = elim (Bool-cases (leb 256 pid)) [
  | inl a ↦ rw a refl
  | inr a ↦ rw a (elim (Bool-cases (pid == 0)) [
    | inl b ↦ rw b refl
    | inr b ↦ rw b (elim (Bool-cases (pid == 1)) [
      | inl c ↦ rw c refl
      | inr c ↦ rw c (elim (Bool-cases (pid == (s.tasks s.current_task).pid)) [
        | inl d ↦ rw d refl
        | inr d ↦ let e : pid_check s.pids.pidmap pid ≡ true = ground arith in rw (d, e) refl
      ])
    ])
  ])
]

-- Past the guards.
pc_kill-found :
    (wide : ℕ → ℕ) (s : Sched) (pid : ℕ)
    → is_protected s pid ≡ false
    → pc_kill wide s pid ≡ (
        if find_in_processes s pid == 0
        then some (record s { interrupts = false }, 0)
        else kill_task wide (record s { interrupts = false }) pid (find_in_processes s pid))
unfolding pc_kill find_in_processes
pc_kill-found wide s pid h =
    let a : leb 256 pid ≡ false = ground arith in
    let b : (pid == 0) ≡ false = ground arith in
    let c : (pid == 1) ≡ false = ground arith in
    let d : (pid == (s.tasks s.current_task).pid) ≡ false = ground arith in
    let e : pid_check s.pids.pidmap pid ≡ false = ground arith in rw (a, b, c, d, e) refl

-- Where no process has the number, `pc_kill` answers 0 for success and leaves the interrupts off.
pub pc_kill-missing :
    (wide : ℕ → ℕ) (s : Sched) (pid : ℕ)
    → is_protected s pid ≡ false
    → find_in_processes s pid ≡ 0
    → pc_kill wide s pid ≡ some (record s { interrupts = false }, 0)
pc_kill-missing wide s pid h none_there =
    let e : (find_in_processes s pid == 0) ≡ true = ground arith in
    pc_kill-found wide s pid h ∙ rw e refl

-- Task `p` with the number `pid` is gone from `s`.
pub record Killed (s : Sched) (p pid : ℕ) (wide : ℕ → ℕ) (s' : Sched) : Type 0 where
  pub indexed : Indexed (s'.arrays 0) × Indexed (s'.arrays 1)
  pub absent : Absent (s'.arrays 0) p × Absent (s'.arrays 1) p
  pub processes : s'.processes ≡ unlink p s.processes
  pub counts :
      (s'.nr_process ≡ (s.nr_process + 2 ^ 32 - 1) % 2 ^ 32)
      × (s'.nr_running ≡ (s.nr_running + 2 ^ 32 - 1) % 2 ^ 32)
  pub pids : s'.pids ≡ (pid_free wide s.pids pid).0
  pub current_task : s'.current_task ≡ s.current_task

-- The state behind `delete_task`.
unfoldable pub removed : Sched → ℕ → ℕ → Sched
unfolding remove_task_from_processes
removed s p i =
    let d = dequeue_task s p i in
    remove_task_from_processes (record d { nr_running = (d.nr_running + 2 ^ 32 - 1) % 2 ^ 32 }) p

pub delete_task-removed :
    (s : Sched) (p i : ℕ) → (s.tasks p).array ≡ some i → delete_task s p ≡ some (removed s p i)
unfolding delete_task removed
delete_task-removed s p i e = rw (e, delete_task) refl

pub rest-removed :
    (s : Sched) (p i : ℕ)
    → let s' = removed s p i in
      (s'.processes ≡ unlink p s.processes)
      × (s'.nr_process ≡ (s.nr_process + 2 ^ 32 - 1) % 2 ^ 32)
      × (s'.nr_running ≡ (s.nr_running + 2 ^ 32 - 1) % 2 ^ 32)
      × (s'.pids ≡ s.pids)
      × (s'.current_task ≡ s.current_task)
      × (s'.arrays ≡ (dequeue_task s p i).arrays)
unfolding removed remove_task_from_processes dequeue_task
rest-removed s p i = (refl, refl, refl, refl, refl, refl)

-- The task marked as ended is queued as before.
unfoldable pub marked : Sched → ℕ → Sched
marked s p = put_task s p (record (s.tasks p) { state = terminal })

pub marked-Queued : (s : Sched) (p i : ℕ) → Queued s p i → Queued (marked s p) p i
unfolding marked queue_of
marked-Queued s p i q =
    let f : (p == p) ≡ true = ground arith in
    record {
      which = q.which;
      field = rw f q.field;
      level = rw f q.level;
      small = rw f q.small;
      placed = rw f q.placed;
      once = q.once;
    }

-- `pc_kill` of a number in use from 2 to 255, other than that of the running task, whose task is queued
-- once, on the queue of its priority, with the index of both arrays right: it answers 0, the task is on no
-- queue and not on the list of processes any more, the index of both arrays stays right, and the number
-- has gone through `pid_free`.
pub pc_kill-Killed :
    (wide : ℕ → ℕ) (s : Sched) (pid i : ℕ)
    → is_protected s pid ≡ false
    → find_in_processes s pid ≢ 0
    → Sane s
    → Queued s (find_in_processes s pid) i
    → (s' : Sched) × (pc_kill wide s pid ≡ some (s', 0))
      × (s'.interrupts ≡ true)
      × Killed s (find_in_processes s pid) pid wide s'
unfolding kill_task marked
pc_kill-Killed wide s pid i h there v q =
    let p = find_in_processes s pid in
    let t = record s { interrupts = false } in
    let v' : Sane (marked t p) = record { indexed = v.indexed; room = v.room } in
    let q' : Queued (marked t p) p i = marked-Queued t p i (record {
      which = q.which;
      field = q.field;
      level = q.level;
      small = q.small;
      placed = q.placed;
      once = q.once;
    }) in
    let u = removed (marked t p) p i in
    let r = rest-removed (marked t p) p i in
    let e : (find_in_processes s pid == 0) ≡ false = ground arith in
    let (x₀, a₀, _) = dequeue_task-Indexed (marked t p) p i 0 v' q' (omega arith) in
    let (x₁, a₁, _) = dequeue_task-Indexed (marked t p) p i 1 v' q' (omega arith) in
    (
      record u { pids = (pid_free wide u.pids pid).0; interrupts = true },
      pc_kill-found wide s pid h ∙ rw e (rw (delete_task-removed (marked t p) p i q'.field) refl),
      refl,
      record {
        indexed = rw (r.5) (x₀, x₁);
        absent = rw (r.5) (a₀, a₁);
        processes = r.0;
        counts = (r.1, r.2);
        pids = rw (r.3) refl;
        current_task = r.4;
      },
    )
