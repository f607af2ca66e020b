-- ===== src/Sched/Examples/Running.antt =====
-- The theorems on the running, forking and ending of tasks at concrete states.
use ninix.Pid.{pid_check, pid_alloc}
use ninix.Sched.State.{Context, Sched, put_task}
use ninix.Sched.Bitmap.{set_bit_map, update_highest_pro}
use ninix.Sched.Queue.{queue_of, enqueue_task}
use ninix.Sched.Queue.Moves.{Sane, Queued}
use ninix.Sched.Queue.Joins.{queue-enqueue_task}
use ninix.Sched.Run.{exchange, schedule, switch_to}
use ninix.Sched.Run.Choice.{turn_of, First, schedule-First}
use ninix.Sched.Run.Switch.{switch_to_back}
use ninix.Sched.Tick.{scheduler_tick}
use ninix.Sched.Tick.Expire.{Expired}
use ninix.Sched.Tick.Last.{scheduler_tick-Expired}
use ninix.Sched.Fork.{Request, do_fork}
use ninix.Sched.Fork.Child.{Born, do_fork-Born}
use ninix.Sched.Init.{init_pc}
use ninix.Sched.Init.Started.{Started, init_pc-Started}
use ninix.Sched.Examples.{zeros, quiet, waiting, waiting-Sane, waiting-Queued}
use ninix.Base.{ℕ, ◌≤◌, ◌<◌, ◌≡◌, refl, ◌∙◌, ◌≢◌, some, [], arith}

-- What `1 << n` is for a large `n` plays no part.
abbrev wide : ℕ → ℕ
wide n = 0

same_turn : turn_of waiting ≡ waiting.arrays 0
unfolding exchange enqueue_task set_bit_map update_highest_pro queue_of
same_turn = refl

waiting-First : First (waiting.arrays 0) 55 5 []
unfolding queue_of
waiting-First = record {
  small = omega arith;
  front = queue-enqueue_task quiet 5 0 0 55;
  before = λ i h. queue-enqueue_task quiet 5 0 0 i ∙ ground arith;
}

schedule_example :
    (r : Sched × Context) × (schedule 0 100 waiting zeros ≡ some r)
    × (r.0.current_task ≡ 5)
    × (r.0.arrays ≡ waiting.arrays)
schedule_example =
    schedule-First 0 100 waiting zeros 55 5 [] (rw same_turn (waiting-Sane.indexed 0 (omega arith)))
      (rw same_turn waiting-First) (omega arith)

abbrev at_four : Context
at_four = record zeros { epc = 4 }

-- Task 5 has run for a while behind the switch to it.
abbrev five_ran : Sched
five_ran =
    let s = (switch_to quiet 5 100 at_four).0 in
    put_task s 5 (record (s.tasks 5) { time_slice = 1; sleep_avg = 9 })

five_ran-current : five_ran.current_task ≢ quiet.current_task
unfolding switch_to
five_ran-current e = omega arith

five_ran_kept : (five_ran.tasks 7).context ≡ ((switch_to quiet 5 100 at_four).0.tasks 7).context
unfolding switch_to
five_ran_kept = refl

switch_example :
    ((switch_to five_ran 7 200 zeros).1 ≡ at_four)
    × ((switch_to five_ran 7 200 zeros).0.current_task ≡ 7)
switch_example =
    switch_to_back quiet 5 100 at_four five_ran 200 zeros (λ e. omega arith) five_ran-current
      five_ran_kept

-- Task 5 runs, and this is the last tick of its slice.
abbrev last_tick : Sched
last_tick = record (put_task waiting 5 (record (waiting.tasks 5) { time_slice = 1 })) {
  current_task = 5;
}

last_tick-Sane : Sane last_tick
last_tick-Sane = record { indexed = waiting-Sane.indexed; room = waiting-Sane.room }

last_tick-Queued : Queued last_tick 5 0
unfolding enqueue_task queue_of
last_tick-Queued = record {
  which = omega arith;
  field = refl;
  level = refl;
  small = omega arith;
  placed = waiting-Queued.placed;
  once = waiting-Queued.once;
}

five_normal : 49 < (waiting.tasks 5).static_prio
unfolding enqueue_task
five_normal = omega arith

five_alive : (waiting.tasks 5).pid ≢ 0
unfolding enqueue_task
five_alive e = omega arith

none_before_five : (waiting.tasks 5).prio ≤ (waiting.arrays 0).highest_prio
unfolding enqueue_task set_bit_map update_highest_pro queue_of
none_before_five = omega arith

tick_example :
    (s' : Sched) × (scheduler_tick wide 0 400 401 last_tick zeros ≡ schedule 0 401 s' zeros)
    × Expired last_tick 5 s'
unfolding enqueue_task
tick_example =
    scheduler_tick-Expired wide 0 400 401 last_tick zeros five_alive five_normal none_before_five
      refl last_tick-Sane last_tick-Queued (omega arith) (λ e. omega arith)

abbrev request : Request
request = record {
  fresh = 6;
  clock = 300;
  gp = 0;
  entry = 0x80001000;
  argc = 0;
  args = 0;
  set_prio = 60;
}

next_number : (pid_alloc quiet.pids).1 ≢ 1
unfolding pid_alloc pid_check
next_number e = omega arith

do_fork_example :
    (s' : Sched) × (do_fork wide 0 quiet request ≡ some (s', (pid_alloc quiet.pids).1))
    × Born (record quiet { pids = (pid_alloc quiet.pids).0 }) request (pid_alloc quiet.pids).1 s'
do_fork_example =
    do_fork-Born wide 0 quiet request refl (λ e. omega arith) (λ e. omega arith) next_number
      (omega arith)

init_pc_example : Started quiet 1000 (init_pc quiet 1000)
init_pc_example = init_pc-Started quiet 1000 (λ j i. omega arith)
