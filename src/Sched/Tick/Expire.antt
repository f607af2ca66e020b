-- ===== src/Sched/Tick/Expire.antt =====
-- A normal task at the end of its slice.
use ninix.Ring.Nodes.{unlink, count, length-unlink, count-unlink}
use ninix.Sched.State.{Task, Sched, put_task}
use ninix.Sched.Priority.{is_rt_task, dynamic_prio, slice_of}
use ninix.Sched.Priority.Bounds.{dynamic_prio_bounds, slice_of_bounds}
use ninix.Sched.Queue.{queue_of, dequeue_task, enqueue_task}
use ninix.Sched.Queue.Index.{Indexed, total}
use ninix.Sched.Queue.Moves.{Sane, Absent, Queued, queue-dequeue_task, dequeue_task-Indexed}
use ninix.Sched.Queue.Joins.{enqueue_task-Indexed}
use ninix.Sched.Tick.{basic_timeslice, refill, expire}
use ninix.Base.{
  ◌==◌, length, ℕ, zero, suc, ◌≤◌, ◌<◌, ◌≡◌, refl, ap, ◌∙◌, ◌≢◌, true, false, Option, none, some,
  List, arith, ◌>>=◌,
}

total_le :
    (n p : ℕ) (q q' : ℕ → List ℕ) → ((k : ℕ) → q' k ≡ unlink p (q k)) → total n q' ≤ total n q
unfolding total
total_le zero p q q' e = omega arith
total_le (suc n) p q q' e =
    let t = total_le n p q q' e in
    let l : length (q' n) ≤ length (q n) = rw (e n) (omega (arith, length-unlink p (q n))) in
    omega arith

-- Taking a task off leaves the room that there was.
dequeue_task-Sane : (s : Sched) (p i : ℕ) → Sane s → Queued s p i → Sane (dequeue_task s p i)
dequeue_task-Sane s p i v q = record {
  indexed = λ j lt. (dequeue_task-Indexed s p i j v q lt).0;
  room = λ j lt. omega (
    arith,
    (dequeue_task-Indexed s p i j v q lt).0.count,
    (v.indexed j lt).count,
    v.room j lt,
    total_le 64 p (s.arrays j).queue ((dequeue_task s p i).arrays j).queue
        (queue-dequeue_task s p i j),
  );
}

-- The task with the priority and the slice that it goes on with.
renewed : ℕ → Task → Task
renewed junk t =
    let off : Task = record t { array = none } in
    let u : Task = record off { prio = dynamic_prio junk off } in
    record u { time_slice = slice_of u }

renewed_lem :
    (junk : ℕ) (t : Task)
    → 49 < t.static_prio
    → let u = renewed junk t in
      (50 ≤ u.prio)
      × (u.prio ≤ 63)
      × (1 ≤ u.time_slice)
      × (u.time_slice ≤ 150)
      × (queue_of u ≡ u.prio)
unfolding renewed is_rt_task queue_of
renewed_lem junk t lo =
    let off : Task = record t { array = none } in
    let u : Task = record off { prio = dynamic_prio junk off } in
    let b = slice_of_bounds u in
    let p = dynamic_prio_bounds junk off lo in
    (p.0, p.1, ground (arith, b.0), ground (arith, b.1), ground arith)

task-dequeue_task :
    (s : Sched) (p i : ℕ) → (dequeue_task s p i).tasks p ≡ record (s.tasks p) { array = none }
unfolding dequeue_task
task-dequeue_task s p i = let f : (p == p) ≡ true = ground arith in rw f refl

refill-normal :
    (wide : ℕ → ℕ) (s : Sched) (p : ℕ)
    → is_rt_task (s.tasks p) ≡ false
    → refill wide s p
      ≡ some (put_task s p (record (s.tasks p) { time_slice = slice_of (s.tasks p) }))
unfolding refill basic_timeslice
refill-normal wide s p normal = rw normal refl

-- `expire` up to the enqueueing, in its two steps.
reset_prio : ℕ → Sched → ℕ → Sched
reset_prio junk s p =
    let d = dequeue_task s p s.active in
    put_task d p (record (d.tasks p) { prio = dynamic_prio junk (d.tasks p) })

between : ℕ → Sched → ℕ → Sched
between junk s p =
    let t = reset_prio junk s p in
    put_task t p (record (t.tasks p) { time_slice = slice_of (t.tasks p) })

task-reset_prio :
    (junk : ℕ) (s : Sched) (p : ℕ)
    → let off : Task = record (s.tasks p) { array = none } in
      (reset_prio junk s p).tasks p ≡ record off { prio = dynamic_prio junk off }
unfolding reset_prio
task-reset_prio junk s p =
    let f : (p == p) ≡ true = ground arith in
    rw f
      (ap (λ (t : Task). record t { prio = dynamic_prio junk t }) (task-dequeue_task s p s.active))

task-between :
    (junk : ℕ) (s : Sched) (p : ℕ) → (between junk s p).tasks p ≡ renewed junk (s.tasks p)
unfolding between renewed
task-between junk s p =
    let f : (p == p) ≡ true = ground arith in
    rw f (ap (λ (t : Task). record t { time_slice = slice_of t }) (task-reset_prio junk s p))

rest-between :
    (junk : ℕ) (s : Sched) (p : ℕ)
    → ((between junk s p).arrays ≡ (dequeue_task s p s.active).arrays)
      × ((between junk s p).expired ≡ s.expired)
unfolding between reset_prio dequeue_task
rest-between junk s p = (refl, refl)

expire-between :
    (wide : ℕ → ℕ) (junk : ℕ) (s : Sched) (p : ℕ)
    → 49 < (s.tasks p).static_prio
    → expire wide junk s p ≡ some (enqueue_task (between junk s p) p s.expired)
unfolding expire between reset_prio is_rt_task
expire-between wide junk s p lo =
    let normal : is_rt_task ((reset_prio junk s p).tasks p) ≡ false =
      rw (task-reset_prio junk s p) (ground arith) in
    ap (λ (o : Option Sched). o >>= λ s'. some (enqueue_task s' p s'.expired))
      (refill-normal wide (reset_prio junk s p) p normal)
    ∙ rw ((rest-between junk s p).1) refl

between-Sane :
    (junk : ℕ) (s : Sched) (p : ℕ) → Sane s → Queued s p s.active → Sane (between junk s p)
unfolding between reset_prio
between-Sane junk s p v q =
    let d = dequeue_task-Sane s p s.active v q in record { indexed = d.indexed; room = d.room }

task-enqueue_task :
    (s : Sched) (p i : ℕ) → (enqueue_task s p i).tasks p ≡ record (s.tasks p) { array = some i }
unfolding enqueue_task
task-enqueue_task s p i = let f : (p == p) ≡ true = ground arith in rw f refl

between-Absent : (junk : ℕ) (s : Sched) (p j : ℕ) → Absent ((between junk s p).arrays j) p
between-Absent junk s p j k =
    rw ((rest-between junk s p).0, queue-dequeue_task s p s.active j k)
      (count-unlink p ((s.arrays j).queue k))

-- Where task `p` stands after its slice: on one queue of the expired array, the one its new priority
-- names, with a new slice.
pub record Expired (s : Sched) (p : ℕ) (s' : Sched) : Type 0 where
  pub field : (s'.tasks p).array ≡ some s.expired
  pub prio : (50 ≤ (s'.tasks p).prio) × ((s'.tasks p).prio ≤ 63)
  pub slice : (1 ≤ (s'.tasks p).time_slice) × ((s'.tasks p).time_slice ≤ 150)
  pub indexed : Indexed (s'.arrays 0) × Indexed (s'.arrays 1)
  pub here : count p ((s'.arrays s.expired).queue (s'.tasks p).prio) ≡ 1
  pub away : (m : ℕ) → count p ((s'.arrays s.active).queue m) ≡ 0

-- When the slice of a normal task ends that is queued once in the active array, on the queue of its
-- priority, `expire` moves it to the other array: there it stands on the queue of its new priority,
-- from 50 to 63, with a new slice of 1 to 150 ticks, and the index of both arrays stays right.
pub expire-Expired :
    (wide : ℕ → ℕ) (junk : ℕ) (s : Sched) (p : ℕ)
    → 49 < (s.tasks p).static_prio
    → Sane s
    → Queued s p s.active
    → s.expired < 2
    → s.active ≢ s.expired
    → (s' : Sched) × (expire wide junk s p ≡ some s') × Expired s p s'
expire-Expired wide junk s p lo v q small apart =
    let t = between junk s p in
    let e = task-between junk s p in
    let f = task-enqueue_task t p s.expired in
    let l = renewed_lem junk (s.tasks p) lo in
    let on : queue_of (t.tasks p) ≡ (renewed junk (s.tasks p)).prio = rw e l.4 in
    let joined = λ (j m : ℕ) (lt : j < 2).
      enqueue_task-Indexed t p s.expired j m (between-Sane junk s p v q) small
        (rw on (omega (arith, l.1))) (between-Absent junk s p) lt in
    (
      enqueue_task t p s.expired,
      expire-between wide junk s p lo,
      record {
        field = rw f refl;
        prio = rw (f, e) (l.0, l.1);
        slice = rw (f, e) (l.2, l.3);
        indexed = ((joined 0 0 (omega arith)).0, (joined 1 0 (omega arith)).0);
        here =
            let g : (s.expired == s.expired) ≡ true = ground arith in
            let k : (queue_of (t.tasks p) == (renewed junk (s.tasks p)).prio) ≡ true =
              ground (arith, on) in
            rw (f, e) ((joined s.expired (renewed junk (s.tasks p)).prio small).2 ∙ rw (g, k) refl);
        away = λ m.
            let g : (s.expired == s.active) ≡ false = ground arith in
            (joined s.active m q.which).2 ∙ rw g refl;
      },
    )
