-- ===== src/Sched/Tick/Last.antt =====
-- `scheduler_tick` at the last tick of a normal task.
use ninix.Sched.State.{Task, Context, Sched, put_task}
use ninix.Sched.Priority.{is_rt_task}
use ninix.Sched.Queue.{queue_of}
use ninix.Sched.Queue.Moves.{Sane, Queued}
use ninix.Sched.Run.{schedule}
use ninix.Sched.Tick.{expire, scheduler_tick}
use ninix.Sched.Tick.Expire.{Expired, expire-Expired}
use ninix.Base.{
  ltb, ◌==◌, ℕ, ◌+◌, ◌-◌, ◌%◌, ◌^◌, ◌≤◌, ◌<◌, ◌≡◌, refl, sym, ap, subst, ◌∙◌, ◌≢◌, true, false,
  Option, some, arith, ◌>>=◌,
}

-- The state with the time of the tick and one tick less for the running task.
ticked : Sched → (clock : ℕ) → Sched
ticked s clock =
    let t = s.tasks s.current_task in
    put_task (record s { timestamp_last_tick = clock }) s.current_task
      (record t { time_slice = (t.time_slice + 2 ^ 32 - 1) % 2 ^ 32 })

ticked-Queued :
    (s : Sched) (clock i : ℕ) → Queued s s.current_task i → Queued (ticked s clock) s.current_task i
unfolding ticked queue_of
ticked-Queued s clock i q =
    let f : (s.current_task == s.current_task) ≡ true = ground arith in
    record {
      which = q.which;
      field = rw f q.field;
      level = rw f q.level;
      small = rw f q.small;
      placed = rw f q.placed;
      once = q.once;
    }

ticked-Sane : (s : Sched) (clock : ℕ) → Sane s → Sane (ticked s clock)
unfolding ticked
ticked-Sane s clock v = record { indexed = v.indexed; room = v.room }

rest-ticked :
    (s : Sched) (clock : ℕ)
    → ((ticked s clock).active ≡ s.active)
      × ((ticked s clock).expired ≡ s.expired)
      × (((ticked s clock).tasks s.current_task).static_prio ≡ (s.tasks s.current_task).static_prio)
unfolding ticked
rest-ticked s clock =
    let f : (s.current_task == s.current_task) ≡ true = ground arith in (refl, refl, rw f refl)

is_rt_task-normal : (t : Task) → 49 < t.static_prio → is_rt_task t ≡ false
unfolding is_rt_task
is_rt_task-normal t lo = ground arith

-- What the handler does when it comes to the end of the slice.
scheduler_tick-expire :
    (wide : ℕ → ℕ) (junk clock now : ℕ) (s : Sched) (pt : Context)
    → (s.tasks s.current_task).pid ≢ 0
    → (s.tasks s.current_task).array ≡ some s.active
    → s.active ≢ s.expired
    → 49 < (s.tasks s.current_task).static_prio
    → (s.tasks s.current_task).prio ≤ (s.arrays s.active).highest_prio
    → (s.tasks s.current_task).time_slice ≡ 1
    → scheduler_tick wide junk clock now s pt
      ≡ (expire wide junk (ticked s clock) s.current_task >>= λ s'. schedule junk now s' pt)
unfolding scheduler_tick ticked
scheduler_tick-expire wide junk clock now s pt live queued apart normal first last =
    let rt : is_rt_task (s.tasks s.current_task) ≡ false = is_rt_task-normal _ normal in
    let a : ((s.tasks s.current_task).pid == 0) ≡ false = ground arith in
    let b : (s.active == s.expired) ≡ false = ground arith in
    let c : ltb (s.arrays s.active).highest_prio (s.tasks s.current_task).prio ≡ false =
      ground arith in
    let f : (s.current_task == s.current_task) ≡ true = ground arith in
    rw rt (rw a (rw c (simp queued (rw b (rw f (rw last refl))))))

Expired-ticked :
    (s : Sched) (clock : ℕ) (s' : Sched)
    → Expired (ticked s clock) s.current_task s'
    → Expired s s.current_task s'
unfolding ticked
Expired-ticked s clock s' e = record {
  field = e.field;
  prio = e.prio;
  slice = e.slice;
  indexed = e.indexed;
  here = e.here;
  away = e.away;
}

-- At the last tick of a normal task that runs, is queued once in the active array on the queue of its
-- priority, and has no task before it there, `scheduler_tick` moves it to the expired array and calls
-- `schedule`: it stands on the queue of its new priority, from 50 to 63, with a new slice of 1 to 150
-- ticks, and the index of both arrays stays right.
pub scheduler_tick-Expired :
    (wide : ℕ → ℕ) (junk clock now : ℕ) (s : Sched) (pt : Context)
    → (s.tasks s.current_task).pid ≢ 0
    → 49 < (s.tasks s.current_task).static_prio
    → (s.tasks s.current_task).prio ≤ (s.arrays s.active).highest_prio
    → (s.tasks s.current_task).time_slice ≡ 1
    → Sane s
    → Queued s s.current_task s.active
    → s.expired < 2
    → s.active ≢ s.expired
    → (s' : Sched) × (scheduler_tick wide junk clock now s pt ≡ schedule junk now s' pt)
      × Expired s s.current_task s'
scheduler_tick-Expired wide junk clock now s pt live normal first last v q small apart =
    let (a, x, n) = rest-ticked s clock in
    let q' : Queued (ticked s clock) s.current_task (ticked s clock).active =
      subst (λ i. Queued (ticked s clock) s.current_task i) (sym a)
        (ticked-Queued s clock s.active q) in
    let (s', e, out) =
      expire-Expired wide junk (ticked s clock) s.current_task (rw n normal) (ticked-Sane s clock v)
        q' (rw x small) (rw (a, x) apart) in
    (
      s',
      scheduler_tick-expire wide junk clock now s pt live q.field apart normal first last
          ∙ ap (λ (o : Option Sched). o >>= λ t. schedule junk now t pt) e,
      Expired-ticked s clock s' out,
    )
