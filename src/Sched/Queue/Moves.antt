-- ===== src/Sched/Queue/Moves.antt =====
-- A task that moves between the arrays of the scheduler.
use ninix.Ring.Nodes.{unlink, count, unlink-absent, count-unlink}
use ninix.Sched.State.{PrioArray, Sched}
use ninix.Sched.Bitmap.{clear_bit_map}
use ninix.Sched.Bitmap.Marks.{update_highest_pro_rest, clear_bit_map_rest}
use ninix.Sched.Queue.{queue_of, unlink_queues, unmark, is_nil, dequeue_task}
use ninix.Sched.Queue.Index.{Indexed, OnQueue, unmark-Indexed, taken_off}
use ninix.Base.{
  ◌==◌, Bool-cases, ℕ, ◌+◌, ◌^◌, ◌<◌, ◌≡◌, sym, ap, subst, fun_ext, ◌∙◌, ◌≢◌, inl, inr, true, false,
  none, some, List, arith, ℕ_discrete,
}

-- Both arrays are indexed, and their counts have room.
pub record Sane (s : Sched) : Type 0 where
  pub indexed : (i : ℕ) → i < 2 → Indexed (s.arrays i)
  pub room : (i : ℕ) → i < 2 → (s.arrays i).nr_active + 1 < 2 ^ 32

-- `p` is on no queue of an array.
abbrev pub Absent : PrioArray → ℕ → Type 0
Absent a p = (k : ℕ) → count p (a.queue k) ≡ 0

-- `p` is queued once, in array `i`, on the queue that its priority names.
pub record Queued (s : Sched) (p i : ℕ) : Type 0 where
  pub which : i < 2
  pub field : (s.tasks p).array ≡ some i
  pub level : (s.tasks p).prio ≡ queue_of (s.tasks p)
  pub small : queue_of (s.tasks p) < 64
  pub placed : OnQueue (s.arrays i) p (queue_of (s.tasks p))
  pub once : (j : ℕ) → i ≢ j → Absent (s.arrays j) p

unlink_queues-Absent : (p : ℕ) (a : PrioArray) → Absent a p → unlink_queues p a ≡ a
unfolding unlink_queues
unlink_queues-Absent p a h =
    ap (λ (q : ℕ → List ℕ). record a { queue = q })
      (fun_ext (λ k. unlink-absent p (a.queue k) (h k)))

pub ==_self : (i : ℕ) → (i == i) ≡ true
==_self i = ground arith

-- The arrays after `dequeue_task`.
pub arrays-dequeue_task :
    (s : Sched) (p i : ℕ)
    → ((dequeue_task s p i).arrays i
        ≡ unmark (s.tasks p).prio (queue_of (s.tasks p)) (taken_off p (s.arrays i)))
      × ((j : ℕ) → i ≢ j → (dequeue_task s p i).arrays j ≡ unlink_queues p (s.arrays j))
unfolding dequeue_task
arrays-dequeue_task s p i =
    (rw (==_self i), λ j ne. let e : (i == j) ≡ false = ground arith in rw e)

unmark-queue : (prio k : ℕ) (a : PrioArray) → (unmark prio k a).queue ≡ a.queue
unfolding unmark
unmark-queue prio k a = elim (Bool-cases (is_nil (a.queue prio))) [
  | inl e ↦
      rw e ((update_highest_pro_rest (clear_bit_map k a) k false).0 ∙ (clear_bit_map_rest a k).0)
  | inr e ↦ rw e
]

array-dequeue_task : (s : Sched) (p i : ℕ) → ((dequeue_task s p i).tasks p).array ≡ none
unfolding dequeue_task
array-dequeue_task s p i = rw (==_self p)

-- Every queue is the old one without the task.
pub queue-dequeue_task :
    (s : Sched) (p i j k : ℕ)
    → ((dequeue_task s p i).arrays j).queue k ≡ unlink p ((s.arrays j).queue k)
unfolding unlink_queues
queue-dequeue_task s p i j k = elim (ℕ_discrete i j) [
  | yes e ↦
      subst (λ j'. ((dequeue_task s p i).arrays j').queue k ≡ unlink p ((s.arrays j').queue k)) e
        (rw ((arrays-dequeue_task s p i).0) (
          ap (λ (f : ℕ → List ℕ). f k)
            (unmark-queue (s.tasks p).prio (queue_of (s.tasks p)) (taken_off p (s.arrays i)))))
  | no e ↦ ap (λ (a : PrioArray). a.queue k) ((arrays-dequeue_task s p i).1 j e)
]

at_level :
    {prio k : ℕ} (a : PrioArray) → prio ≡ k → Indexed (unmark k k a) → Indexed (unmark prio k a)
at_level {k} a e h = subst (λ m. Indexed (unmark m k a)) (sym e) h

-- `dequeue_task` of a task that is queued once, in array `i` and on the queue of its priority: the
-- index of either array stays right, the task is on no queue of it, and its own record says so.
pub dequeue_task-Indexed :
    (s : Sched) (p i j : ℕ)
    → Sane s
    → Queued s p i
    → j < 2
    → Indexed ((dequeue_task s p i).arrays j)
      × Absent ((dequeue_task s p i).arrays j) p
      × (((dequeue_task s p i).tasks p).array ≡ none)
dequeue_task-Indexed s p i j v q h = (
  elim (ℕ_discrete i j) [
    | yes e ↦ subst (λ j'. Indexed ((dequeue_task s p i).arrays j')) e here
    | no e ↦
        rw ((arrays-dequeue_task s p i).1 j e)
          (rw (unlink_queues-Absent p (s.arrays j) (q.once j e)) (v.indexed j h))
  ],
  λ k. rw (queue-dequeue_task s p i j k) (count-unlink p ((s.arrays j).queue k)),
  array-dequeue_task s p i,
)
  where
    here : Indexed ((dequeue_task s p i).arrays i)
    here = rw ((arrays-dequeue_task s p i).0) (
        at_level _ q.level (
          unmark-Indexed (s.arrays i) p (queue_of (s.tasks p)) (v.indexed i q.which) q.small
            (omega (arith, v.room i q.which)) q.placed))
