-- ===== src/Sched/State.antt =====
-- Tasks, priority arrays and the global state of pc.c.
use ninix.Pid.{Pids}
use ninix.Base.{update, ℕ, ◌+◌, ◌/◌, Bool, Option, List}

abbrev pub max_prio : ℕ
max_prio = 64

abbrev pub max_rt_prio : ℕ
max_rt_prio = 49

abbrev pub max_sleep_avg : ℕ
max_sleep_avg = 5555

abbrev pub starvation_limit : ℕ
starvation_limit = max_sleep_avg

abbrev pub bitmap_size : ℕ
bitmap_size = (max_prio + 7) / 8

abbrev pub min_timeslice : ℕ
min_timeslice = 1

abbrev pub max_timeslice : ℕ
max_timeslice = 150

abbrev pub min_rt_timeslice : ℕ
min_rt_timeslice = 500

abbrev pub max_rt_timeslice : ℕ
max_rt_timeslice = 1200

abbrev pub max_starve_count : ℕ
max_starve_count = 3

abbrev pub child_penalty : ℕ
child_penalty = 60

abbrev pub parent_penalty : ℕ
parent_penalty = 100

pub data TaskState : Type 0 where
  uninit ready running waiting terminal : TaskState

pub data Policy : Type 0 where
  sched_normal sched_fifo sched_rr : Policy

-- `struct regs_context`.
pub record Context : Type 0 where
  pub epc : ℕ
  pub at : ℕ
  pub v0 : ℕ
  pub v1 : ℕ
  pub a0 : ℕ
  pub a1 : ℕ
  pub a2 : ℕ
  pub a3 : ℕ
  pub t0 : ℕ
  pub t1 : ℕ
  pub t2 : ℕ
  pub t3 : ℕ
  pub t4 : ℕ
  pub t5 : ℕ
  pub t6 : ℕ
  pub t7 : ℕ
  pub s0 : ℕ
  pub s1 : ℕ
  pub s2 : ℕ
  pub s3 : ℕ
  pub s4 : ℕ
  pub s5 : ℕ
  pub s6 : ℕ
  pub s7 : ℕ
  pub t8 : ℕ
  pub t9 : ℕ
  pub hi : ℕ
  pub lo : ℕ
  pub gp : ℕ
  pub sp : ℕ
  pub fp : ℕ
  pub ra : ℕ

-- `struct task_struct`, less the name, the address space and the files, which the scheduler only
-- sets to 0. `array` is the number of the priority array that the task is queued in.
pub record Task : Type 0 where
  pub pid : ℕ
  pub parent : ℕ
  pub asid : ℕ
  pub state : TaskState
  pub context : Context
  pub static_prio : ℕ
  pub prio : ℕ
  pub rt_priority : ℕ
  pub sleep_avg : ℕ
  pub policy : Policy
  pub starve_count : ℕ
  pub array : Option ℕ
  pub timestamp : ℕ
  pub time_slice : ℕ

pub record PrioArray : Type 0 where
  pub nr_active : ℕ
  pub highest_prio : ℕ
  pub bitmap : ℕ → ℕ
  pub queue : ℕ → List ℕ

-- The globals. `arrays` is indexed by 0 and 1, and `active` and `expired` are such indices.
pub record Sched : Type 0 where
  pub tasks : ℕ → Task
  pub arrays : ℕ → PrioArray
  pub active : ℕ
  pub expired : ℕ
  pub processes : List ℕ
  pub nr_process : ℕ
  pub nr_running : ℕ
  pub current_task : ℕ
  pub idle : ℕ
  pub timestamp_last_tick : ℕ
  pub array_exchange_count : ℕ
  pub interrupts : Bool
  pub pids : Pids

-- `p->… = …` and `array->… = …`, on the state.
abbrev pub put_task : Sched → ℕ → Task → Sched
put_task s p t = record s { tasks = update s.tasks p t }

abbrev pub put_array : Sched → ℕ → PrioArray → Sched
put_array s i a = record s { arrays = update s.arrays i a }
