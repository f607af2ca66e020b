-- ===== src/Sched/Fork/Child.antt =====
-- `do_fork` from the request to the running child.
use ninix.Pid.{pid_alloc, pid_free}
use ninix.Sched.State.{PrioArray, Sched}
use ninix.Sched.Queue.{queue_of, put_tail, add_task_in_processes}
use ninix.Sched.Fork.{
  wake_up_new_task, new_task, fresh_context, Request, start_task, do_fork, minus_one,
}
use ninix.Sched.Fork.Share.{sched_fork-Forked}
use ninix.Sched.Fork.Start.{wake_up_new_task-Awake}
use ninix.Base.{
  ltb, ◌==◌, if◌then◌else◌, Bool-cases, ℕ, ◌+◌, ◌/◌, ◌%◌, ◌^◌, ◌<◌, ◌≡◌, refl, subst, ◌∙◌, ◌≢◌, ◌⊎◌,
  inl, inr, true, false, not, ◌&&◌, ◌||◌, some, [], ◌∷◌, ◌++◌, arith,
}

-- The child stands at `p` in `s'` with the number `pid`: last of the processes, last on its queue,
-- known as a child of the running task.
pub record Born (s : Sched) (r : Request) (pid : ℕ) (s' : Sched) : Type 0 where
  pub number : (s'.tasks r.fresh).pid ≡ pid
  pub parent : (s'.tasks r.fresh).parent ≡ (s.tasks s.current_task).pid
  pub entry : (s'.tasks r.fresh).context ≡ fresh_context r.entry (r.fresh + 4096) r.gp r.argc r.args
  pub rested : (s'.tasks r.fresh).sleep_avg ≡ 0
  pub slice : (s'.tasks r.fresh).time_slice ≡ ((s.tasks s.current_task).time_slice + 1) / 2
  pub queued :
      s'.arrays s.active ≡ put_tail r.fresh (queue_of (s'.tasks r.fresh)) (s.arrays s.active)
  pub processes : s'.processes ≡ s.processes ++ r.fresh ∷ []
  pub counts :
      (s'.nr_process ≡ (s.nr_process + 1) % 2 ^ 32) × (s'.nr_running ≡ (s.nr_running + 1) % 2 ^ 32)
  pub pids : s'.pids ≡ s.pids

new_task_lem :
    (s : Sched) (r : Request) (pid : ℕ)
    → r.fresh ≢ s.current_task
    → let t = new_task s r pid in
      ((t.tasks r.fresh).pid ≡ pid)
      × ((t.tasks r.fresh).parent ≡ (s.tasks s.current_task).pid)
      × ((t.tasks r.fresh).context ≡ fresh_context r.entry (r.fresh + 4096) r.gp r.argc r.args)
      × (t.tasks s.current_task ≡ s.tasks s.current_task)
unfolding new_task add_task_in_processes
new_task_lem s r pid ne =
    let e : (r.fresh == s.current_task) ≡ false = ground arith in
    let f : (r.fresh == r.fresh) ≡ true = ground arith in
    (rw f refl, rw f refl, rw f refl, rw e refl)

rest-new_task :
    (s : Sched) (r : Request) (pid : ℕ)
    → let t = new_task s r pid in
      (t.current_task ≡ s.current_task)
      × (t.processes ≡ s.processes ++ r.fresh ∷ [])
      × (t.nr_process ≡ (s.nr_process + 1) % 2 ^ 32)
      × (t.nr_running ≡ s.nr_running)
      × (t.pids ≡ s.pids)
      × (t.active ≡ s.active)
      × (t.arrays ≡ s.arrays)
unfolding new_task add_task_in_processes
rest-new_task s r pid = (refl, refl, refl, refl, refl, refl, refl)

at_arrays :
    {i j : ℕ} {a b : ℕ → PrioArray}
    → i ≡ j
    → a ≡ b
    → (P : ℕ → (ℕ → PrioArray) → Type 0) → P i a
    → P j b
at_arrays {i} {j} {a} {b} e f P h = subst (P j) f (subst (λ k. P k a) e h)

start_task-Born :
    (wide : ℕ → ℕ) (junk : ℕ) (s : Sched) (r : Request) (pid : ℕ)
    → r.fresh ≢ s.current_task
    → pid ≢ 1
    → (s.tasks s.current_task).time_slice + 1 < 2 ^ 32
    → (s' : Sched) × (start_task wide junk s r pid ≡ some (s', pid)) × Born s r pid s'
unfolding start_task
start_task-Born wide junk s r pid ne first small =
    let (n, pa, cx, cur) = new_task_lem s r pid ne in
    let q = rest-new_task s r pid in
    let t = new_task s r pid in
    let (u, e, f) =
      sched_fork-Forked wide t r.fresh r.set_prio r.clock (rw (q.0) ne) (rw n first)
        (rw (q.0, cur) small) in
    let w = wake_up_new_task-Awake junk u r.fresh (rw (f.rest.current_task, q.0) ne) in
    let s' = wake_up_new_task junk u r.fresh in
    let num : (s'.tasks r.fresh).pid ≡ pid = w.number.0 ∙ f.number.0 ∙ n in
    (
      record s' { interrupts = true },
      rw (e, num) refl,
      record {
        number = num;
        parent = w.number.1 ∙ f.number.1 ∙ pa;
        entry = w.context ∙ f.context ∙ cx;
        rested = w.rested;
        slice = w.slice ∙ f.child ∙ rw (q.0, cur) refl;
        queued =
            at_arrays (f.rest.active ∙ q.5) (f.rest.arrays ∙ q.6)
              (λ i a. s'.arrays i ≡ put_tail r.fresh (queue_of (s'.tasks r.fresh)) (a i)) w.queued;
        processes = w.processes ∙ f.rest.processes ∙ q.1;
        counts =
            (w.nr_process ∙ f.rest.nr_process ∙ q.2, w.running ∙ rw (f.rest.nr_running, q.3) refl);
        pids = w.pids ∙ f.rest.pids ∙ q.4;
      },
    )

-- A request with a priority below 64 or -1, memory for the task and a number other than 1 from
-- `pid_alloc` succeeds: the answer is that number, and the child is on the list of processes and on
-- its queue of the active array, with the registers to start at the entry, the larger half of the
-- slice of its parent and no sleep average. That holds also where the number is the -1 of a failed
-- `pid_alloc`.
pub do_fork-Born :
    (wide : ℕ → ℕ) (junk : ℕ) (s : Sched) (r : Request)
    → (ltb r.set_prio 64 || (r.set_prio == minus_one)) ≡ true
    → r.fresh ≢ 0
    → r.fresh ≢ s.current_task
    → (pid_alloc s.pids).1 ≢ 1
    → (s.tasks s.current_task).time_slice + 1 < 2 ^ 32
    → (s' : Sched) × (do_fork wide junk s r ≡ some (s', (pid_alloc s.pids).1))
      × Born (record s { pids = (pid_alloc s.pids).0 }) r (pid_alloc s.pids).1 s'
unfolding do_fork
do_fork-Born wide junk s r valid room ne first small =
    let ok : (not (ltb r.set_prio 64) && not (r.set_prio == minus_one)) ≡ false = ground arith in
    let got : (r.fresh == 0) ≡ false = ground arith in
    rw (ok, got) (start_task-Born wide junk _ r _ ne first small)

-- `do_fork` answers 0 where the priority is neither below 64 nor -1, or where there is no memory for
-- the task. The tasks, the queues and the processes are as they were. In the first case the numbers
-- are so too; in the second the number that was handed out has gone through `pid_free`.
pub do_fork-refused :
    (wide : ℕ → ℕ) (junk : ℕ) (s : Sched) (r : Request)
    → ((ltb r.set_prio 64 || (r.set_prio == minus_one)) ≡ false) ⊎ (r.fresh ≡ 0)
    → (s' : Sched) × (do_fork wide junk s r ≡ some (s', 0))
      × (s'.tasks ≡ s.tasks)
      × (s'.arrays ≡ s.arrays)
      × (s'.processes ≡ s.processes)
      × (s'.pids ≡ (
          if ltb r.set_prio 64 || (r.set_prio == minus_one)
          then (pid_free wide (pid_alloc s.pids).0 (pid_alloc s.pids).1).0
          else s.pids))
unfolding do_fork
do_fork-refused wide junk s r why =
    elim (Bool-cases (ltb r.set_prio 64 || (r.set_prio == minus_one))) [
      | inl ok ↦
          let e : (not (ltb r.set_prio 64) && not (r.set_prio == minus_one)) ≡ false =
            ground arith in
          let none_left : (r.fresh == 0) ≡ true = ground arith in
          rw (e, none_left, ok) (_, refl, refl, refl, refl, refl)
      | inr bad ↦
          let e : (not (ltb r.set_prio 64) && not (r.set_prio == minus_one)) ≡ true =
            ground arith in
          rw (e, bad) (s, refl, refl, refl, refl, refl)
    ]
