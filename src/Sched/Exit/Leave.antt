-- ===== src/Sched/Exit/Leave.antt =====
-- `pc_exit`: the running task ends, and another one goes on.
use ninix.Ring.Nodes.{unlink}
use ninix.Pid.{pid_free}
use ninix.Sched.State.{Task, PrioArray, Sched}
use ninix.Sched.Priority.{recalc_task_prio}
use ninix.Sched.Queue.{dequeue_task, remove_task_from_processes}
use ninix.Sched.Queue.Index.{Indexed}
use ninix.Sched.Queue.Moves.{Sane, Absent, Queued, dequeue_task-Indexed}
use ninix.Sched.Run.{exchange, exchange_counted, find_head, resume, find_next_task}
use ninix.Sched.Run.Choice.{turn_of, First, highest-First}
use ninix.Sched.Exit.{pc_exit}
use ninix.Sched.Exit.Kill.{removed, marked, delete_task-removed, rest-removed, marked-Queued}
use ninix.Base.{
  ltb, ◌==◌, Bool-cases, ℕ, ◌<◌, ◌≡◌, refl, sym, ap, subst, ◌∙◌, inl, inr, true, false, some, List,
  ◌∷◌, arith, ℕ_discrete,
}

same-exchange_counted :
    (s : Sched)
    → ((exchange_counted s).arrays ≡ s.arrays)
      × ((exchange_counted s).active ≡ (exchange s).active)
      × ((exchange_counted s).tasks ≡ s.tasks)
      × ((exchange_counted s).processes ≡ s.processes)
      × ((exchange_counted s).pids ≡ s.pids)
unfolding exchange_counted exchange
same-exchange_counted s = elim (Bool-cases ((s.arrays s.active).nr_active == 0)) [
  | inl e ↦ rw e (refl, refl, refl, refl, refl)
  | inr e ↦ rw e (refl, refl, refl, refl, refl)
]

arrays-exchange : (s : Sched) → (exchange s).arrays ≡ s.arrays
unfolding exchange
arrays-exchange s = ground arith

find_head-head :
    (s : Sched) (k p : ℕ) (ps : List ℕ)
    → (s.arrays s.active).highest_prio ≡ k
    → k < 64
    → (s.arrays s.active).queue k ≡ p ∷ ps
    → find_head s ≡ some p
unfolding find_head
find_head-head s k p ps e lt h =
    let below : ltb k 64 ≡ true = ground arith in rw e (rw below (rw h refl))

-- The array that both exchanges lead to.
turn-exchange_counted :
    (s : Sched) → (exchange_counted s).arrays (exchange_counted s).active ≡ turn_of s
turn-exchange_counted s =
    let (a, b, _, _, _) = same-exchange_counted s in
    rw (a, b) (ap (λ (f : ℕ → PrioArray). f (exchange s).active) (sym (arrays-exchange s)))

find_next_task-head :
    (junk now : ℕ) (s : Sched) (k p : ℕ) (ps : List ℕ)
    → Indexed (turn_of s)
    → First (turn_of s) k p ps
    → find_next_task junk now s ≡ some (resume junk now (exchange_counted s) p, p)
unfolding find_next_task
find_next_task-head junk now s k p ps v f =
    let t = turn-exchange_counted s in
    let h : find_head (exchange_counted s) ≡ some p =
      find_head-head (exchange_counted s) k p ps
        (ap (λ (a : PrioArray). a.highest_prio) t ∙ highest-First (turn_of s) k p ps v f) f.small
        (ap (λ (a : PrioArray). a.queue k) t ∙ f.front) in
    rw (h, find_next_task) refl

rest-resume :
    (junk now : ℕ) (s : Sched) (p : ℕ)
    → let s' = resume junk now s p in
      (s'.arrays ≡ s.arrays) × (s'.processes ≡ s.processes) × (s'.pids ≡ s.pids)
unfolding resume
rest-resume junk now s p = (refl, refl, refl)

pid-recalc_task_prio : (junk : ℕ) (t : Task) (now : ℕ) → (recalc_task_prio junk t now).pid ≡ t.pid
unfolding recalc_task_prio
pid-recalc_task_prio junk t now = ground arith

-- A second look at the priority leaves the number of a task.
pid-resume :
    (junk now : ℕ) (s : Sched) (p q : ℕ) → ((resume junk now s p).tasks q).pid ≡ (s.tasks q).pid
unfolding resume
pid-resume junk now s p q = elim (ℕ_discrete p q) [
  | yes e ↦
      let self : (p == p) ≡ true = ground arith in
      subst (λ r. ((resume junk now s p).tasks r).pid ≡ (s.tasks r).pid) e
        (rw self (pid-recalc_task_prio junk (s.tasks p) now))
  | no ne ↦ let apart : (p == q) ≡ false = ground arith in rw apart refl
]

turn_of-Indexed :
    (s : Sched)
    → ((j : ℕ) → j < 2 → Indexed (s.arrays j))
    → s.active < 2
    → s.expired < 2
    → Indexed (turn_of s)
unfolding exchange
turn_of-Indexed s v a x = elim (Bool-cases ((s.arrays s.active).nr_active == 0)) [
  | inl e ↦ rw (e, turn_of) (v s.expired x)
  | inr e ↦ rw (e, turn_of) (v s.active a)
]

marked-Sane : (s : Sched) (p : ℕ) → Sane s → Sane (marked s p)
unfolding marked
marked-Sane s p v = record { indexed = v.indexed; room = v.room }

-- The state behind the deletion of the running task.
abbrev pub without_current : Sched → ℕ → Sched
without_current s i = removed (marked s s.current_task) s.current_task i

rest-without_current :
    (s : Sched) (i : ℕ)
    → let u = without_current s i in
      (u.active ≡ s.active)
      × (u.expired ≡ s.expired)
      × ((u.tasks s.current_task).pid ≡ (s.tasks s.current_task).pid)
unfolding removed marked remove_task_from_processes dequeue_task
rest-without_current s i =
    let self : (s.current_task == s.current_task) ≡ true = ground arith in
    (refl, refl, rw self refl)

-- The running task `q` with its number is gone, and `p` runs.
pub record Exited (s : Sched) (p : ℕ) (wide : ℕ → ℕ) (s' : Sched) : Type 0 where
  pub current_task : s'.current_task ≡ p
  pub absent : Absent (s'.arrays 0) s.current_task × Absent (s'.arrays 1) s.current_task
  pub indexed : Indexed (s'.arrays 0) × Indexed (s'.arrays 1)
  pub processes : s'.processes ≡ unlink s.current_task s.processes
  pub pids : s'.pids ≡ (pid_free wide s.pids (s.tasks s.current_task).pid).0

-- `pc_exit` of a task that is queued once, on the queue of its priority, where some task is queued
-- besides it in the array that is chosen from: the one at the head of the first queue goes on; the
-- task that ended is on no queue and not on the list of processes, the index of both arrays stays
-- right, and its number has gone through `pid_free`.
pub pc_exit-Exited :
    (wide : ℕ → ℕ) (junk now : ℕ) (s : Sched) (i k p : ℕ) (ps : List ℕ)
    → Sane s
    → Queued s s.current_task i
    → s.active < 2
    → s.expired < 2
    → First (turn_of (without_current s i)) k p ps
    → (s' : Sched) × (pc_exit wide junk now s ≡ some s') × Exited s p wide s'
unfolding pc_exit marked
pc_exit-Exited wide junk now s i k p ps v q a x f =
    let cur = s.current_task in
    let m = marked s cur in
    let u = without_current s i in
    let v' : Sane m = marked-Sane s cur v in
    let q' = marked-Queued s cur i q in
    let r = rest-removed m cur i in
    let (ea, ex, et) = rest-without_current s i in
    let gone = λ (j : ℕ) (h : j < 2). dequeue_task-Indexed m cur i j v' q' h in
    let (c₀, _, c₂, c₃, c₄) = same-exchange_counted u in
    let z = resume junk now (exchange_counted u) p in
    let (z₀, z₁, z₂) = rest-resume junk now (exchange_counted u) p in
    let es = z₀ ∙ c₀ ∙ r.5 in
    let turn = turn_of-Indexed u (λ j h. rw (r.5) (gone j h).0) (rw ea a) (rw ex x) in
    let num : (z.tasks cur).pid ≡ (s.tasks cur).pid =
      pid-resume junk now (exchange_counted u) p cur ∙ rw c₂ et in
    let (x₀, a₀, _) = gone 0 (omega arith) in
    let (x₁, a₁, _) = gone 1 (omega arith) in
    (
      record z { pids = (pid_free wide z.pids (z.tasks cur).pid).0; current_task = p },
      rw (delete_task-removed m cur i q'.field)
          (rw (find_next_task-head junk now u k p ps turn f) refl),
      record {
        current_task = refl;
        absent = rw es (a₀, a₁);
        indexed = rw es (x₀, x₁);
        processes = z₁ ∙ c₃ ∙ r.0;
        pids = rw (z₂ ∙ c₄ ∙ r.3, num) refl;
      },
    )
