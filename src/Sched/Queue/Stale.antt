-- ===== src/Sched/Queue/Stale.antt =====
-- What happens when the priority of a task changes while it is queued, as `schedule` does it.
use ninix.Ring.Nodes.{unlink}
use ninix.Bits.Map.{bit_at}
use ninix.Sched.State.{PrioArray, Sched}
use ninix.Sched.Bitmap.Marks.{clear_bit_map-Marked}
use ninix.Sched.Queue.{queue_of, unmark, unlink_queues, is_nil, dequeue_task}
use ninix.Sched.Queue.Index.{Indexed, taken_off}
use ninix.Sched.Queue.Moves.{arrays-dequeue_task, queue-dequeue_task}
use ninix.Base.{Bool-cases, ℕ, ◌<◌, ◌≡◌, sym, ap, ◌∙◌, ◌≢◌, inl, inr, [], ◌∷◌, arith}

unmark_other :
    (a : PrioArray) (p j k : ℕ)
    → Indexed a
    → j < 64
    → j ≢ k
    → bit_at (unmark j j (taken_off p a)).bitmap k ≡ bit_at a.bitmap k
unfolding unmark unlink_queues
unmark_other a p j k v lt ne = elim (Bool-cases (is_nil (unlink p (a.queue j)))) [
  | inl e ↦
      let m = clear_bit_map-Marked (taken_off p a) j v.least lt in rw e (ground (arith, m.marks k))
  | inr e ↦ rw e
]

-- A task that is alone on queue `k`, and whose priority has come to name another queue: after
-- `dequeue_task` queue `k` is empty but still marked, so the array is indexed wrongly.
pub dequeue_task_stale :
    (s : Sched) (p i k : ℕ)
    → Indexed (s.arrays i)
    → queue_of (s.tasks p) ≡ (s.tasks p).prio
    → (s.arrays i).queue k ≡ p ∷ []
    → (s.tasks p).prio < 64
    → k < 64
    → (s.tasks p).prio ≢ k
    → (((dequeue_task s p i).arrays i).queue k ≡ [])
      × (bit_at ((dequeue_task s p i).arrays i).bitmap k ≡ 1)
      × ¬ (Indexed ((dequeue_task s p i).arrays i))
unfolding unlink
dequeue_task_stale s p i k v level alone lt lt' ne =
    (gone, marked, λ w. one_ne_zero (sym marked ∙ w.marks k lt' ∙ rw gone))
  where
    one_ne_zero : ◌≢◌ {A = ℕ} 1 0
    one_ne_zero e = omega arith

    gone : ((dequeue_task s p i).arrays i).queue k ≡ []
    gone = queue-dequeue_task s p i i k ∙ rw alone (ground arith)

    marked : bit_at ((dequeue_task s p i).arrays i).bitmap k ≡ 1
    marked =
        ap (λ (a : PrioArray). bit_at a.bitmap k) (arrays-dequeue_task s p i).0
        ∙ ap (λ q. bit_at (unmark (s.tasks p).prio q (taken_off p (s.arrays i))).bitmap k) level
        ∙ unmark_other (s.arrays i) p (s.tasks p).prio k v lt ne
        ∙ v.marks k lt'
        ∙ rw alone
