-- ===== src/Sched/Run/Choice.antt =====
-- Which task `schedule` goes on with.
use ninix.Sched.State.{Context, PrioArray, Sched}
use ninix.Sched.Queue.Index.{Indexed}
use ninix.Sched.Run.{exchange, next_task, run_time, go_on, switch_to, schedule}
use ninix.Base.{
  ◌==◌, Bool-cases, ℕ, ◌<◌, ◌≡◌, refl, ◌∙◌, ◌⊎◌, inl, inr, none, some, List, [], ◌∷◌, arith,
}

-- The array that `schedule` chooses from.
abbrev pub turn_of : Sched → PrioArray
turn_of s = (exchange s).arrays (exchange s).active

-- Queue `k` holds tasks, and no queue before it does.
pub record First (a : PrioArray) (k : ℕ) (p : ℕ) (ps : List ℕ) : Type 0 where
  pub small : k < 64
  pub front : a.queue k ≡ p ∷ ps
  pub before : (i : ℕ) → i < k → a.queue i ≡ []

-- An index names the first queue with a task on it.
pub highest-First :
    (a : PrioArray) (k p : ℕ) (ps : List ℕ) → Indexed a → First a k p ps → a.highest_prio ≡ k
highest-First a k p ps v f = ground (
  arith,
  v.marks k,
  v.marks a.highest_prio,
  v.least.below k,
  v.least.there,
  f.before a.highest_prio,
)

-- Without any task it says 64.
highest_none :
    (a : PrioArray) → Indexed a → ((i : ℕ) → i < 64 → a.queue i ≡ []) → a.highest_prio ≡ 64
highest_none a v e =
    ground (arith, v.marks a.highest_prio, v.least.bound, v.least.there, e a.highest_prio)

-- The switch moves the current task and no queue.
switch_to_lem :
    (s : Sched) (next now : ℕ) (pt : Context)
    → let r = switch_to s next now pt in
      (r.0.current_task ≡ next) × (r.0.arrays ≡ s.arrays) × (r.0.active ≡ s.active)
unfolding switch_to
switch_to_lem s next now pt = elim (Bool-cases (s.current_task == next)) [
  | inl e ↦ rw e (ground arith, refl, refl)
  | inr e ↦ rw e (refl, refl, refl)
]

go_on_lem :
    (junk now : ℕ) (s : Sched) (prev spent next : ℕ) (pt : Context)
    → let r = go_on junk now s prev spent next pt in
      (r.0.current_task ≡ next) × (r.0.arrays ≡ s.arrays) × (r.0.active ≡ s.active)
unfolding go_on
go_on_lem junk now s prev spent next pt = switch_to_lem _ next now pt

exchange-arrays : (s : Sched) → (exchange s).arrays ≡ s.arrays
unfolding exchange
exchange-arrays s = ground arith

next_task-First :
    (s : Sched) (k p : ℕ) (ps : List ℕ)
    → Indexed (s.arrays s.active)
    → First (s.arrays s.active) k p ps
    → 0 < k
    → next_task s ≡ some p
unfolding next_task
next_task-First s k p ps v f pos =
    ground (arith, highest-First (s.arrays s.active) k p ps v f, f.small, f.front)

-- Where the index of the array that it chooses from is right, the active array or, behind an empty one,
-- the expired one: `schedule` returns and goes on with the task at the head of the first queue of this
-- array that holds one, unless that is queue 0. No queue changes.
pub schedule-First :
    (junk now : ℕ) (s : Sched) (pt : Context) (k p : ℕ) (ps : List ℕ)
    → Indexed (turn_of s)
    → First (turn_of s) k p ps
    → 0 < k
    → (r : Sched × Context) × (schedule junk now s pt ≡ some r)
      × (r.0.current_task ≡ p)
      × (r.0.arrays ≡ s.arrays)
unfolding schedule
schedule-First junk now s pt k p ps v f pos =
    let e = next_task-First (exchange s) k p ps v f pos in
    let l =
      go_on_lem junk now (exchange s) s.current_task (run_time (s.tasks s.current_task) now) p pt in
    (
      go_on junk now (exchange s) s.current_task (run_time (s.tasks s.current_task) now) p pt,
      rw (e, schedule),
      l.0,
      l.1 ∙ exchange-arrays s,
    )

next_task_idle :
    (s : Sched)
    → ((s.arrays s.active).highest_prio ≡ 0) ⊎ ((s.arrays s.active).highest_prio ≡ 64)
    → s.idle ≡ 0
    → next_task s ≡ none
unfolding next_task
next_task_idle s h e = ground arith

exchange-idle : (s : Sched) → (exchange s).idle ≡ s.idle
unfolding exchange
exchange-idle s = ground arith

-- With a null pointer `idle`, `schedule` goes through that pointer when the array it chooses from
-- has no task on any queue, and also when a task waits on queue 0.
pub schedule-idle :
    (junk now : ℕ) (s : Sched) (pt : Context)
    → Indexed (turn_of s)
    → ((p : ℕ) × (ps : List ℕ) × First (turn_of s) 0 p ps)
      ⊎ ((i : ℕ) → i < 64 → (turn_of s).queue i ≡ [])
    → s.idle ≡ 0
    → schedule junk now s pt ≡ none
unfolding schedule
schedule-idle junk now s pt v w e =
    rw (next_task_idle (exchange s) at_end (exchange-idle s ∙ e), schedule)
  where
    at_end :
        let a = (exchange s).arrays (exchange s).active in
        (a.highest_prio ≡ 0) ⊎ (a.highest_prio ≡ 64)
    at_end = elim w [
      | inl (p, ps, f) ↦ inl (highest-First _ 0 p ps v f)
      | inr empty ↦ inr (highest_none _ v empty)
    ]
