-- ===== src/Sched/Fork/Start.antt =====
-- A new task and its first place on a queue: `wake_up_new_task`.
use ninix.Sched.State.{Task, Sched, put_task}
use ninix.Sched.Priority.{is_rt_task}
use ninix.Sched.Queue.{queue_of, put_tail, enqueue_task, activate_task}
use ninix.Sched.Queue.Joins.{arrays-enqueue_task}
use ninix.Sched.Fork.{penalise, woken, wake_up_new_task}
use ninix.Base.{
  ◌==◌, Bool-cases, ℕ, ◌+◌, ◌%◌, ◌^◌, ◌≡◌, refl, ◌∙◌, ◌≢◌, inl, inr, true, false, Option, some,
  arith,
}

-- The child `p` is awake: queued last in the active array, with an empty sleep average.
pub record Awake (s : Sched) (p : ℕ) (s' : Sched) : Type 0 where
  pub rested : (s'.tasks p).sleep_avg ≡ 0
  pub field : (s'.tasks p).array ≡ some s.active
  pub queued : s'.arrays s.active ≡ put_tail p (queue_of (s'.tasks p)) (s.arrays s.active)
  pub slice : (s'.tasks p).time_slice ≡ (s.tasks p).time_slice
  pub number : ((s'.tasks p).pid ≡ (s.tasks p).pid) × ((s'.tasks p).parent ≡ (s.tasks p).parent)
  pub context : (s'.tasks p).context ≡ (s.tasks p).context
  pub running : s'.nr_running ≡ (s.nr_running + 1) % 2 ^ 32
  pub processes : s'.processes ≡ s.processes
  pub nr_process : s'.nr_process ≡ s.nr_process
  pub pids : s'.pids ≡ s.pids

woken_lem :
    (junk : ℕ) (t : Task)
    → let u = woken junk t in
      (u.sleep_avg ≡ 0)
      × (u.time_slice ≡ t.time_slice)
      × (u.pid ≡ t.pid)
      × (u.parent ≡ t.parent)
      × (u.context ≡ t.context)
unfolding woken penalise
woken_lem junk t = elim (Bool-cases (is_rt_task (penalise 60 t))) [
  | inl e ↦ rw e (ground arith, refl, refl, refl, refl)
  | inr e ↦ rw e (ground arith, refl, refl, refl, refl)
]

queue_of-array : (t : Task) (o : Option ℕ) → queue_of (record t { array = o }) ≡ queue_of t
unfolding queue_of
queue_of-array t o = refl

task-wake_up_new_task :
    (junk : ℕ) (s : Sched) (p : ℕ)
    → p ≢ s.current_task
    → (wake_up_new_task junk s p).tasks p
      ≡ record (woken junk (s.tasks p)) { array = some s.active }
unfolding wake_up_new_task activate_task enqueue_task
task-wake_up_new_task junk s p ne =
    let e : (s.current_task == p) ≡ false = ground arith in
    let f : (p == p) ≡ true = ground arith in rw (e, f) refl

arrays-wake_up_new_task :
    (junk : ℕ) (s : Sched) (p : ℕ)
    → (wake_up_new_task junk s p).arrays s.active
      ≡ put_tail p (queue_of (woken junk (s.tasks p))) (s.arrays s.active)
unfolding wake_up_new_task activate_task
arrays-wake_up_new_task junk s p =
    let f : (p == p) ≡ true = ground arith in
    (arrays-enqueue_task (put_task s p (woken junk (s.tasks p))) p s.active).0 ∙ rw f refl

rest-wake_up_new_task :
    (junk : ℕ) (s : Sched) (p : ℕ)
    → let s' = wake_up_new_task junk s p in
      (s'.nr_running ≡ (s.nr_running + 1) % 2 ^ 32)
      × (s'.processes ≡ s.processes)
      × (s'.nr_process ≡ s.nr_process)
      × (s'.pids ≡ s.pids)
unfolding wake_up_new_task activate_task enqueue_task
rest-wake_up_new_task junk s p = (refl, refl, refl, refl)

-- `wake_up_new_task` puts the child last on its queue of the active array; its sleep average is 0
-- whatever the parent's was.
pub wake_up_new_task-Awake :
    (junk : ℕ) (s : Sched) (p : ℕ) → p ≢ s.current_task → Awake s p (wake_up_new_task junk s p)
wake_up_new_task-Awake junk s p ne =
    let w = woken_lem junk (s.tasks p) in
    let e = task-wake_up_new_task junk s p ne in
    let r = rest-wake_up_new_task junk s p in
    record {
      rested = rw e w.0;
      field = rw e refl;
      queued =
          rw (e, queue_of-array (woken junk (s.tasks p)) (some s.active))
            (arrays-wake_up_new_task junk s p);
      slice = rw e w.1;
      number = rw e (w.2, w.3);
      context = rw e w.4;
      running = r.0;
      processes = r.1;
      nr_process = r.2;
      pids = r.3;
    }
