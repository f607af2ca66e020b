-- ===== src/Sched/Run/Switch.antt =====
-- The registers over a switch and back.
use ninix.Sched.State.{Context, Sched}
use ninix.Sched.Run.{copy_context, switch_to}
use ninix.Base.{◌==◌, ℕ, ◌≡◌, refl, ◌∙◌, ◌≢◌, true, false, arith}

copy_context_same : (c : Context) → copy_context c ≡ c
unfolding copy_context
copy_context_same c = refl

-- One switch: the old task keeps the registers of the interrupted code, and those of the new one
-- are loaded.
switch_to_once :
    (s : Sched) (b now : ℕ) (pt : Context)
    → s.current_task ≢ b
    → ((switch_to s b now pt).0.current_task ≡ b)
      × (((switch_to s b now pt).0.tasks s.current_task).context ≡ pt)
      × ((switch_to s b now pt).1 ≡ (s.tasks b).context)
unfolding switch_to copy_context
switch_to_once s b now pt ne =
    let away : (s.current_task == b) ≡ false = ground arith in
    let back : (b == s.current_task) ≡ false = ground arith in
    let self : (s.current_task == s.current_task) ≡ true = ground arith in
    let self' : (b == b) ≡ true = ground arith in rw away (refl, rw (back, self), rw self')

-- A task that is switched away from gets the registers that it had when it is switched back to, in any
-- state that comes of it in which another task runs and nobody has written to the registers that were
-- saved for the first one.
pub switch_to_back :
    (s : Sched) (b now : ℕ) (pt : Context) (later : Sched) (now' : ℕ) (pt' : Context)
    → s.current_task ≢ b
    → later.current_task ≢ s.current_task
    → (later.tasks s.current_task).context ≡ ((switch_to s b now pt).0.tasks s.current_task).context
    → ((switch_to later s.current_task now' pt').1 ≡ pt)
      × ((switch_to later s.current_task now' pt').0.current_task ≡ s.current_task)
switch_to_back s b now pt later now' pt' ne other kept =
    let (_, saved, _) = switch_to_once s b now pt ne in
    let (cur', _, loaded) = switch_to_once later s.current_task now' pt' other in
    (loaded ∙ kept ∙ saved, cur')
