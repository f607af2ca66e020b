-- ===== src/Sched/Queue/Joins.antt =====
-- A task that joins an array, and the round trip through the queues.
use ninix.Ring.Nodes.{count, count-append}
use ninix.Sched.State.{PrioArray, Sched}
use ninix.Sched.Bitmap.{set_bit_map}
use ninix.Sched.Bitmap.Marks.{update_highest_pro_rest, set_bit_map_rest}
use ninix.Sched.Queue.{queue_of, put_tail, enqueue_task}
use ninix.Sched.Queue.Index.{Indexed, put_tail-Indexed}
use ninix.Sched.Queue.Moves.{Sane, Absent, ==_self}
use ninix.Base.{
  ◌==◌, if◌then◌else◌, update, ℕ, ◌<◌, ◌≡◌, subst, ◌∙◌, ◌≢◌, true, false, ◌&&◌, some, [], ◌∷◌, ◌++◌,
  arith, ℕ_discrete,
}

pub arrays-enqueue_task :
    (s : Sched) (p i : ℕ)
    → ((enqueue_task s p i).arrays i ≡ put_tail p (queue_of (s.tasks p)) (s.arrays i))
      × ((j : ℕ) → i ≢ j → (enqueue_task s p i).arrays j ≡ s.arrays j)
unfolding enqueue_task
arrays-enqueue_task s p i =
    (rw (==_self i), λ j ne. let e : (i == j) ≡ false = ground arith in rw e)

array-enqueue_task : (s : Sched) (p i : ℕ) → ((enqueue_task s p i).tasks p).array ≡ some i
unfolding enqueue_task
array-enqueue_task s p i = rw (==_self p)

queue-put_tail :
    (p k : ℕ) (a : PrioArray) → (put_tail p k a).queue ≡ update a.queue k (a.queue k ++ p ∷ [])
unfolding put_tail
queue-put_tail p k a =
    let b : PrioArray = record a { queue = update a.queue k (a.queue k ++ p ∷ []) } in
    (update_highest_pro_rest (set_bit_map k b) k true).0 ∙ (set_bit_map_rest b k).0

-- The task is last on its queue, and no other queue changed.
pub queue-enqueue_task :
    (s : Sched) (p i j m : ℕ)
    → ((enqueue_task s p i).arrays j).queue m ≡ (
        if (i == j) && (queue_of (s.tasks p) == m)
        then (s.arrays j).queue m ++ p ∷ []
        else (s.arrays j).queue m)
queue-enqueue_task s p i j m = elim (ℕ_discrete i j) [
  | yes e ↦
      let e' : (i == j) ≡ true = ground arith in
      rw (← e) (
        rw ((arrays-enqueue_task s p i).0)
          (rw (queue-put_tail p (queue_of (s.tasks p)) (s.arrays i)) (ground arith)))
  | no e ↦ let e' : (i == j) ≡ false = ground arith in rw ((arrays-enqueue_task s p i).1 j e, e')
]

-- `enqueue_task` of a task that is on no queue: the index of either array stays right, the task is
-- queued in array `i` on the queue of its priority, once, and nowhere else.
pub enqueue_task-Indexed :
    (s : Sched) (p i j m : ℕ)
    → Sane s
    → i < 2
    → queue_of (s.tasks p) < 64
    → ((j : ℕ) → Absent (s.arrays j) p)
    → j < 2
    → Indexed ((enqueue_task s p i).arrays j)
      × (((enqueue_task s p i).tasks p).array ≡ some i)
      × (count p (((enqueue_task s p i).arrays j).queue m)
          ≡ (if (i == j) && (queue_of (s.tasks p) == m) then 1 else 0))
unfolding count
enqueue_task-Indexed s p i j m v which small absent h = (
  elim (ℕ_discrete i j) [
    | yes e ↦
        subst (λ j'. Indexed ((enqueue_task s p i).arrays j')) e
          (rw ((arrays-enqueue_task s p i).0)
            (put_tail-Indexed (s.arrays i) p _ (v.indexed i which) small (v.room i which)))
    | no e ↦ rw ((arrays-enqueue_task s p i).1 j e) (v.indexed j h)
  ],
  array-enqueue_task s p i,
  rw (queue-enqueue_task s p i j m)
      (ground (arith, absent j m, count-append p ((s.arrays j).queue m) (p ∷ []))),
)
