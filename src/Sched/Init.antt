-- ===== src/Sched/Init.antt =====
-- The start of the scheduler: `init_pc` and what it calls, less the registration of the handler.
pub mod Started
use ninix.Pid.{idle_pid, init_pid}
use ninix.Sched.State.{
  Task, PrioArray, Sched, put_task, put_array, max_prio, bitmap_size, uninit, ready, running,
  sched_normal,
}
use ninix.Base.{update, ℕ, zero, suc, ◌+◌, none, List, []}

-- The two loops of `init_prio_array`, with the rounds left.
unfoldable pub clear_bitmap : (rounds i : ℕ) → (ℕ → ℕ) → ℕ → ℕ
clear_bitmap zero i m = m
clear_bitmap (suc n) i m = clear_bitmap n (i + 1) (update m i 0)

unfoldable pub clear_queues : (rounds i : ℕ) → (ℕ → List ℕ) → ℕ → List ℕ
clear_queues zero i q = q
clear_queues (suc n) i q = clear_queues n (i + 1) (update q i [])

unfoldable pub init_prio_array : PrioArray → PrioArray
unfolding clear_bitmap clear_queues
init_prio_array a = record {
  nr_active = 0;
  highest_prio = max_prio;
  bitmap = clear_bitmap bitmap_size 0 a.bitmap;
  queue = clear_queues max_prio 0 a.queue;
}

unfoldable pub init_pc_list : Sched → Sched
unfolding init_prio_array
init_pc_list s =
    let s₁ = put_array (record s { processes = [] }) 0 (init_prio_array (s.arrays 0)) in
    let s₂ = put_array s₁ 1 (init_prio_array (s₁.arrays 1)) in record s₂ { active = 0; expired = 1 }

unfoldable pub init_idle : Task → Task
init_idle idle = record idle {
  pid = idle_pid;
  parent = idle_pid;
  asid = idle_pid;
  static_prio = max_prio;
  prio = max_prio;
  sleep_avg = 0;
  policy = sched_normal;
  array = none;
  timestamp = 0;
  time_slice = 0;
  state = ready;
}

-- `idle` is the address below the stack. The local pointer hides the global one, which stays as it
-- was.
unfoldable pub init_pc : Sched → ℕ → Sched
unfolding init_pc_list init_idle
init_pc s idle =
    let s₁ = init_pc_list s in
    let s₂ = record s₁ { pids = init_pid s₁.pids } in
    let s₃ = put_task s₂ idle (init_idle (s₂.tasks idle)) in
    let s₄ = record s₃ { current_task = idle } in
    put_task s₄ idle (record (s₄.tasks idle) { state = running })
