-- ===== src/Sched/Queue.antt =====
-- Tasks put on the queues of a priority array and taken off them.
pub mod Index
pub mod Moves
pub mod Joins
pub mod Stale
use ninix.Ring.Nodes.{unlink}
use ninix.Sched.State.{Task, PrioArray, Sched, put_task, put_array}
use ninix.Sched.Bitmap.{set_bit_map, clear_bit_map, update_highest_pro}
use ninix.Sched.Priority.{is_rt_task}
use ninix.Base.{
  if◌then◌else◌, update, ℕ, ◌+◌, ◌-◌, ◌%◌, ◌^◌, Bool, true, false, Option, none, some, List, [],
  ◌∷◌, ◌++◌,
}

-- The queue that a task belongs on.
unfoldable pub queue_of : Task → ℕ
unfolding is_rt_task
queue_of t = if is_rt_task t then t.rt_priority else t.prio

abbrev pub is_nil {ℓ} : {A : Type ℓ} → List A → Bool
is_nil [] = true
is_nil (x ∷ xs) = false

-- The tail and the head insertion, with the bitmap and the count, on the array.
unfoldable pub put_tail : ℕ → ℕ → PrioArray → PrioArray
put_tail p k a =
    let b = record a { queue = update a.queue k (a.queue k ++ p ∷ []) } in
    let c = update_highest_pro (set_bit_map k b) k true in
    record c { nr_active = (c.nr_active + 1) % 2 ^ 32 }

unfoldable pub put_head : ℕ → ℕ → PrioArray → PrioArray
put_head p k a =
    let b = record a { queue = update a.queue k (p ∷ a.queue k) } in
    let c = update_highest_pro (set_bit_map k b) k true in
    record c { nr_active = (c.nr_active + 1) % 2 ^ 32 }

-- Every list of an array without `p`.
unfoldable pub unlink_queues : ℕ → PrioArray → PrioArray
unlink_queues p a = record a { queue = λ k. unlink p (a.queue k) }

-- `if (list_empty(&(array->queue[p->prio])))` and what follows it.
unfoldable pub unmark : ℕ → ℕ → PrioArray → PrioArray
unmark prio k a =
    if is_nil (a.queue prio) then update_highest_pro (clear_bit_map k a) k false else a

unfoldable pub enqueue_task : Sched → ℕ → ℕ → Sched
unfolding queue_of put_tail
enqueue_task s p i =
    let t = s.tasks p in
    put_task (put_array s i (put_tail p (queue_of t) (s.arrays i))) p (record t { array = some i })

unfoldable pub enqueue_task_head : Sched → ℕ → ℕ → Sched
unfolding queue_of put_head
enqueue_task_head s p i =
    let t = s.tasks p in
    put_task (put_array s i (put_head p (queue_of t) (s.arrays i))) p (record t { array = some i })

-- `list_move_tail` to the queue of the task in array `i`.
unfoldable pub requeue_task : Sched → ℕ → ℕ → Sched
unfolding queue_of unlink_queues
requeue_task s p i =
    let k = queue_of (s.tasks p) in
    let s' = record s { arrays = λ j. unlink_queues p (s.arrays j) } in
    let a = s'.arrays i in
    put_array s' i (record a { queue = update a.queue k (a.queue k ++ p ∷ []) })

unfoldable pub dequeue_task : Sched → ℕ → ℕ → Sched
unfolding queue_of unlink_queues unmark
dequeue_task s p i =
    let t = s.tasks p in
    let a = s.arrays i in
    let s₁ = put_array s i (record a { nr_active = (a.nr_active + 2 ^ 32 - 1) % 2 ^ 32 }) in
    let s₂ = record s₁ { arrays = λ j. unlink_queues p (s₁.arrays j) } in
    let s₃ = put_task s₂ p (record t { array = none }) in
    put_array s₃ i (unmark t.prio (queue_of t) (s₃.arrays i))

unfoldable pub activate_task : Sched → ℕ → Sched
unfolding enqueue_task
activate_task s p =
    let s' = enqueue_task s p s.active in record s' { nr_running = (s'.nr_running + 1) % 2 ^ 32 }

unfoldable pub add_task_in_processes : Sched → ℕ → Sched
add_task_in_processes s p = record s {
  processes = s.processes ++ p ∷ [];
  nr_process = (s.nr_process + 1) % 2 ^ 32;
}

unfoldable pub remove_task_from_processes : Sched → ℕ → Sched
remove_task_from_processes s p = record s {
  processes = unlink p s.processes;
  nr_process = (s.nr_process + 2 ^ 32 - 1) % 2 ^ 32;
}

-- `none`: the task is in no array, and `dequeue_task` goes through a null pointer.
unfoldable pub delete_task : Sched → ℕ → Option Sched
unfolding dequeue_task remove_task_from_processes
delete_task s p = elim (s.tasks p).array [
  | none ↦ none
  | some i ↦
      let s' = dequeue_task s p i in
      some (
        remove_task_from_processes
          (record s' { nr_running = (s'.nr_running + 2 ^ 32 - 1) % 2 ^ 32 }) p)
]
