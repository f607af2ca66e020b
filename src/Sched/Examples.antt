-- ===== src/Sched/Examples.antt =====
-- The states of the scheduler at which its theorems are tried.
pub mod Leaving
pub mod Queues
pub mod Running
use ninix.Ring.Nodes.{count}
use ninix.Pid.{Pids}
use ninix.Sched.State.{Task, Context, PrioArray, Sched, ready, sched_normal}
use ninix.Sched.Bitmap.{set_bit_map, update_highest_pro}
use ninix.Sched.Queue.{enqueue_task, queue_of}
use ninix.Sched.Queue.Index.{Indexed, OnQueue}
use ninix.Sched.Queue.Moves.{Sane, Absent, Queued}
use ninix.Sched.Queue.Joins.{arrays-enqueue_task, enqueue_task-Indexed}
use ninix.Sched.Init.Started.{empty-Indexed, below_two}
use ninix.Base.{
  ◌==◌, if◌then◌else◌, ℕ, ◌+◌, ◌^◌, ◌<◌, ◌≡◌, refl, ◌∙◌, ◌≢◌, true, ◌&&◌, none, some, [], ◌∷◌,
  arith,
}

abbrev pub zeros : Context
zeros = record {
  epc = 0;
  at = 0;
  v0 = 0;
  v1 = 0;
  a0 = 0;
  a1 = 0;
  a2 = 0;
  a3 = 0;
  t0 = 0;
  t1 = 0;
  t2 = 0;
  t3 = 0;
  t4 = 0;
  t5 = 0;
  t6 = 0;
  t7 = 0;
  s0 = 0;
  s1 = 0;
  s2 = 0;
  s3 = 0;
  s4 = 0;
  s5 = 0;
  s6 = 0;
  s7 = 0;
  t8 = 0;
  t9 = 0;
  hi = 0;
  lo = 0;
  gp = 0;
  sp = 0;
  fp = 0;
  ra = 0;
}

-- A normal task at priority 55, whose number is its address.
abbrev pub normal : ℕ → Task
normal p = record {
  pid = p;
  parent = 0;
  asid = p;
  state = ready;
  context = zeros;
  static_prio = 55;
  prio = 55;
  rt_priority = 55;
  sleep_avg = 1000;
  policy = sched_normal;
  starve_count = 0;
  array = none;
  timestamp = 0;
  time_slice = 9;
}

abbrev pub empty_array : PrioArray
empty_array = record { nr_active = 0; highest_prio = 64; bitmap = λ i. 0; queue = λ k. [] }

-- Task 7 runs, nothing is queued, and the numbers 0 to 7 are in use.
abbrev pub quiet : Sched
quiet = record {
  tasks = normal;
  arrays = λ i. empty_array;
  active = 0;
  expired = 1;
  processes = 5 ∷ 7 ∷ [];
  nr_process = 2;
  nr_running = 1;
  current_task = 7;
  idle = 0;
  timestamp_last_tick = 0;
  array_exchange_count = 0;
  interrupts = true;
  pids = record { pidmap = λ i. if i == 0 then 255 else 0; next_pid = 8 };
}

pub quiet-Sane : Sane quiet
quiet-Sane = record {
  indexed = λ i h. empty-Indexed _ _ (λ j. omega arith) (λ j l. refl) (λ k l. refl);
  room = λ i h. omega arith;
}

pub quiet-Absent : (p j : ℕ) → Absent (quiet.arrays j) p
unfolding count
quiet-Absent p j k = refl

-- Task 5 is queued in the active array.
abbrev pub waiting : Sched
waiting = enqueue_task quiet 5 0

pub at_55 : queue_of (quiet.tasks 5) < 64
unfolding queue_of
at_55 = omega arith

joined :
    (j m : ℕ)
    → j < 2
    → Indexed (waiting.arrays j)
      × ((waiting.tasks 5).array ≡ some 0)
      × (count 5 ((waiting.arrays j).queue m)
          ≡ (if (0 == j) && (queue_of (quiet.tasks 5) == m) then 1 else 0))
joined j m h = enqueue_task-Indexed quiet 5 0 j m quiet-Sane (omega arith) at_55 (quiet-Absent 5) h

room_left : (waiting.arrays 0).nr_active + 1 < 2 ^ 32
unfolding enqueue_task set_bit_map update_highest_pro queue_of
room_left = omega arith

pub waiting-Sane : Sane waiting
unfolding enqueue_task
waiting-Sane = record {
  indexed = λ j h. (joined j 0 h).0;
  room = below_two (λ j. (waiting.arrays j).nr_active + 1 < 2 ^ 32) room_left (omega arith);
}

on_queue : OnQueue (waiting.arrays 0) 5 55
unfolding queue_of
on_queue = record {
  here = (joined 0 55 (omega arith)).2;
  elsewhere = λ m ne. (joined 0 m (omega arith)).2 ∙ ground arith;
}

nowhere_else : (j : ℕ) → 0 ≢ j → Absent (waiting.arrays j) 5
nowhere_else j ne = rw ((arrays-enqueue_task quiet 5 0).1 j ne) (quiet-Absent 5 j)

pub waiting-Queued : Queued waiting 5 0
unfolding enqueue_task queue_of
waiting-Queued = record {
  which = omega arith;
  field = refl;
  level = refl;
  small = omega arith;
  placed = on_queue;
  once = nowhere_else;
}
