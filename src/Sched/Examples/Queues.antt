-- ===== src/Sched/Examples/Queues.antt =====
-- The theorems on bitmaps, queues and priorities at concrete states.
use ninix.Ring.Nodes.{count}
use ninix.Bits.Map.{bit_at}
use ninix.Sched.State.{Sched, put_task}
use ninix.Sched.Queue.{queue_of, enqueue_task, dequeue_task}
use ninix.Sched.Queue.Index.{Indexed}
use ninix.Sched.Queue.Moves.{Absent, dequeue_task-Indexed}
use ninix.Sched.Queue.Joins.{enqueue_task-Indexed, queue-enqueue_task}
use ninix.Sched.Queue.Stale.{dequeue_task_stale}
use ninix.Sched.Examples.{
  quiet, quiet-Sane, quiet-Absent, at_55, waiting, waiting-Sane, waiting-Queued,
}
use ninix.Base.{◌==◌, if◌then◌else◌, ◌≡◌, refl, ◌&&◌, none, some, [], ◌∷◌, arith}

enqueue_example :
    Indexed ((enqueue_task quiet 5 0).arrays 0)
    × (((enqueue_task quiet 5 0).tasks 5).array ≡ some 0)
    × (count 5 (((enqueue_task quiet 5 0).arrays 0).queue 55)
        ≡ (if (0 == 0) && (queue_of (quiet.tasks 5) == 55) then 1 else 0))
enqueue_example =
    enqueue_task-Indexed quiet 5 0 0 55 quiet-Sane (omega arith) at_55 (quiet-Absent 5)
      (omega arith)

dequeue_example :
    Indexed ((dequeue_task waiting 5 0).arrays 0)
    × Absent ((dequeue_task waiting 5 0).arrays 0) 5
    × (((dequeue_task waiting 5 0).tasks 5).array ≡ none)
dequeue_example = dequeue_task-Indexed waiting 5 0 0 waiting-Sane waiting-Queued (omega arith)

-- Task 5 was queued at 55, and then its priority went to 53.
abbrev moved : Sched
moved = put_task waiting 5 (record (waiting.tasks 5) { prio = 53 })

level : queue_of (moved.tasks 5) ≡ (moved.tasks 5).prio
unfolding queue_of enqueue_task
level = refl

alone : (moved.arrays 0).queue 55 ≡ 5 ∷ []
unfolding queue_of
alone = queue-enqueue_task quiet 5 0 0 55

stale_example :
    (((dequeue_task moved 5 0).arrays 0).queue 55 ≡ [])
    × (bit_at ((dequeue_task moved 5 0).arrays 0).bitmap 55 ≡ 1)
    × ¬ (Indexed ((dequeue_task moved 5 0).arrays 0))
stale_example =
    dequeue_task_stale moved 5 0 55 (waiting-Sane.indexed 0 (omega arith)) level alone (omega arith)
      (omega arith) (λ e. omega arith)
