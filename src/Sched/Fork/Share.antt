-- ===== src/Sched/Fork/Share.antt =====
-- What `sched_fork` gives a child, and what the parent keeps.
use ninix.Sched.State.{Task, Sched, put_task}
use ninix.Sched.Fork.{
  inherit, share_slice, keep_tick, chosen_prio, first_slice, stamp, sched_fork, minus_one,
}
use ninix.Base.{
  leb, ◌==◌, if◌then◌else◌, Bool-cases, ℕ, ◌+◌, ◌/◌, ◌%◌, ◌^◌, ◌<◌, max, ◌≡◌, refl, sym, ap, subst,
  ◌∙◌, ◌≢◌, inl, inr, true, false, Option, some, arith, ◌>>=◌,
}

-- Everything but the tasks is as it was.
pub record SameRest (s s' : Sched) : Type 0 where
  pub arrays : s'.arrays ≡ s.arrays
  pub active : s'.active ≡ s.active
  pub processes : s'.processes ≡ s.processes
  pub nr_process : s'.nr_process ≡ s.nr_process
  pub nr_running : s'.nr_running ≡ s.nr_running
  pub current_task : s'.current_task ≡ s.current_task
  pub pids : s'.pids ≡ s.pids

pub SameRest-put_task : (s : Sched) (p : ℕ) (t : Task) → SameRest s (put_task s p t)
SameRest-put_task s p t = record {
  arrays = refl;
  active = refl;
  processes = refl;
  nr_process = refl;
  nr_running = refl;
  current_task = refl;
  pids = refl;
}

pub SameRest-self : (s : Sched) → SameRest s s
SameRest-self s = record {
  arrays = refl;
  active = refl;
  processes = refl;
  nr_process = refl;
  nr_running = refl;
  current_task = refl;
  pids = refl;
}

pub SameRest-trans : {s t u : Sched} → SameRest s t → SameRest t u → SameRest s u
SameRest-trans a b = record {
  arrays = b.arrays ∙ a.arrays;
  active = b.active ∙ a.active;
  processes = b.processes ∙ a.processes;
  nr_process = b.nr_process ∙ a.nr_process;
  nr_running = b.nr_running ∙ a.nr_running;
  current_task = b.current_task ∙ a.current_task;
  pids = b.pids ∙ a.pids;
}

-- The parent's slice is cut in two, the larger half for the child, and the parent keeps a tick at
-- least; the child stands at the priority asked for, or at that of the parent.
pub record Forked (s : Sched) (p set_prio clock : ℕ) (s' : Sched) : Type 0 where
  pub child : (s'.tasks p).time_slice ≡ ((s.tasks s.current_task).time_slice + 1) / 2
  pub parent :
      (s'.tasks s.current_task).time_slice ≡ max 1 ((s.tasks s.current_task).time_slice / 2)
  pub level :
      (s'.tasks p).static_prio
      ≡ (if set_prio == minus_one then (s.tasks s.current_task).static_prio else set_prio)
  pub levels :
      ((s'.tasks p).prio ≡ (s'.tasks p).static_prio)
      × ((s'.tasks p).rt_priority ≡ (s'.tasks p).static_prio)
  pub number : ((s'.tasks p).pid ≡ (s.tasks p).pid) × ((s'.tasks p).parent ≡ (s.tasks p).parent)
  pub context : (s'.tasks p).context ≡ (s.tasks p).context
  pub stamp : (s'.tasks p).timestamp ≡ clock
  pub rest : SameRest s s'

inherit_lem :
    (parent p : Task) (prio : ℕ)
    → let q = inherit parent p prio in
      (q.static_prio ≡ prio)
      × (q.prio ≡ prio)
      × (q.rt_priority ≡ prio)
      × (q.pid ≡ p.pid)
      × (q.parent ≡ p.parent)
      × (q.context ≡ p.context)
unfolding inherit
inherit_lem parent p prio = elim (Bool-cases (leb prio 49)) [
  | inl e ↦ rw e (refl, refl, refl, refl, refl, refl)
  | inr e ↦ rw e (refl, refl, refl, refl, refl, refl)
]

share_slice_lem :
    (s : Sched) (p : ℕ)
    → p ≢ s.current_task
    → let c = s.tasks s.current_task in
      let s' = share_slice s p in
      (s'.tasks p ≡ record (s.tasks p) { time_slice = (c.time_slice + 1) % 2 ^ 32 / 2 })
      × (s'.tasks s.current_task ≡ record c { time_slice = c.time_slice / 2 })
      × SameRest s s'
unfolding share_slice
share_slice_lem s p ne =
    let e : (s.current_task == p) ≡ false = ground arith in
    let e' : (p == s.current_task) ≡ false = ground arith in
    let f : (p == p) ≡ true = ground arith in
    let f' : (s.current_task == s.current_task) ≡ true = ground arith in
    (rw (e, f), rw (e', f'), SameRest-trans (SameRest-put_task s _ _) (SameRest-put_task _ _ _))

keep_tick_lem :
    (s : Sched) (p : ℕ)
    → p ≢ s.current_task
    → let c = s.tasks s.current_task in
      let s' = keep_tick s in
      (s'.tasks p ≡ s.tasks p)
      × ((s'.tasks s.current_task).time_slice ≡ max 1 c.time_slice)
      × SameRest s s'
unfolding keep_tick
keep_tick_lem s p ne =
    let e : (s.current_task == p) ≡ false = ground arith in
    let f' : (s.current_task == s.current_task) ≡ true = ground arith in
    elim (Bool-cases ((s.tasks s.current_task).time_slice == 0)) [
      | inl z ↦ rw z (rw e, rw f' (ground arith), SameRest-put_task s _ _)
      | inr z ↦ rw z (refl, ground arith, SameRest-self s)
    ]

-- The steps of `sched_fork` for such a child.
halved : Sched → (p set_prio : ℕ) → Sched
unfolding inherit chosen_prio share_slice keep_tick
halved s p set_prio =
    let parent = s.tasks s.current_task in
    keep_tick
      (share_slice (put_task s p (inherit parent (s.tasks p) (chosen_prio parent set_prio))) p)

halved_lem :
    (s : Sched) (p set_prio : ℕ)
    → p ≢ s.current_task
    → let c = s.tasks s.current_task in
      ((halved s p set_prio).tasks p ≡ record (inherit c (s.tasks p) (chosen_prio c set_prio)) {
        time_slice = (c.time_slice + 1) % 2 ^ 32 / 2;
      })
      × (((halved s p set_prio).tasks s.current_task).time_slice ≡ max 1 (c.time_slice / 2))
      × SameRest s (halved s p set_prio)
unfolding halved
halved_lem s p set_prio ne =
    let c = s.tasks s.current_task in
    let s₁ = put_task s p (inherit c (s.tasks p) (chosen_prio c set_prio)) in
    let e : (p == s.current_task) ≡ false = ground arith in
    let f : (p == p) ≡ true = ground arith in
    let (a, b, r) = share_slice_lem s₁ p ne in
    let (a', b', r') = keep_tick_lem (share_slice s₁ p) p (λ h. ne (h ∙ r.current_task)) in
    let t = keep_tick (share_slice s₁ p) in
    let b'' : (t.tasks s.current_task).time_slice
        ≡ max 1 ((share_slice s₁ p).tasks s.current_task).time_slice =
      subst (λ i. (t.tasks i).time_slice ≡ max 1 ((share_slice s₁ p).tasks i).time_slice)
        r.current_task b' in
    (
      a' ∙ a ∙ rw (f, e) refl,
      b'' ∙ rw b (rw e refl),
      SameRest-trans (SameRest-put_task s p _) (SameRest-trans r r'),
    )

sched_fork-halved :
    (wide : ℕ → ℕ) (s : Sched) (p set_prio clock : ℕ)
    → (s.tasks p).pid ≢ 1
    → sched_fork wide s p set_prio clock ≡ some (stamp p clock (halved s p set_prio))
unfolding sched_fork first_slice halved
sched_fork-halved wide s p set_prio clock first =
    let c = s.tasks s.current_task in
    let i = inherit_lem c (s.tasks p) (chosen_prio c set_prio) in
    let s₁ = put_task s p (inherit c (s.tasks p) (chosen_prio c set_prio)) in
    let f : (p == p) ≡ true = ground arith in
    let other : ((s₁.tasks p).pid == 1) ≡ false = rw f (ground (arith, i.3)) in
    let e : first_slice wide s₁ p ≡ some (share_slice s₁ p) = rw (other, first_slice) refl in
    ap (λ (o : Option Sched). o >>= λ s₂. some (stamp p clock (keep_tick s₂))) e

-- For a child other than the first process, `sched_fork` comes to an end: the child gets the larger
-- half of the slice of its parent, the parent keeps the smaller one or one tick, the child has the
-- priority asked for or its parent's, and nothing but the two tasks changes.
pub sched_fork-Forked :
    (wide : ℕ → ℕ) (s : Sched) (p set_prio clock : ℕ)
    → p ≢ s.current_task
    → (s.tasks p).pid ≢ 1
    → (s.tasks s.current_task).time_slice + 1 < 2 ^ 32
    → (s' : Sched) × (sched_fork wide s p set_prio clock ≡ some s') × Forked s p set_prio clock s'
unfolding stamp chosen_prio
sched_fork-Forked wide s p set_prio clock ne first small =
    let c = s.tasks s.current_task in
    let i = inherit_lem c (s.tasks p) (chosen_prio c set_prio) in
    let f : (p == p) ≡ true = ground arith in
    let e : (p == s.current_task) ≡ false = ground arith in
    let (a, b, r) = halved_lem s p set_prio ne in
    (
      stamp p clock (halved s p set_prio),
      sched_fork-halved wide s p set_prio clock first,
      record {
        child = rw (f, a) (omega arith);
        parent = rw e b;
        level = rw (f, a) i.0;
        levels = rw (f, a) (i.1 ∙ sym i.0, i.2 ∙ sym i.0);
        number = rw (f, a) (i.3, i.4);
        context = rw (f, a) i.5;
        stamp = rw f refl;
        rest = SameRest-trans r (SameRest-put_task _ p _);
      },
    )
