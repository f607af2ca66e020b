-- ===== src/Sched/Examples/Leaving.antt =====
-- The theorems on `pc_kill` and `pc_exit` at concrete states.
use ninix.Ring.Nodes.{unlink, count, count-append}
use ninix.Pid.{pid_check}
use ninix.Sched.State.{Sched, PrioArray}
use ninix.Sched.Bitmap.{clear_bit_map, find_byte, set_bit_map, update_highest_pro}
use ninix.Sched.Queue.{queue_of, enqueue_task, dequeue_task}
use ninix.Sched.Queue.Index.{Indexed}
use ninix.Sched.Queue.Moves.{Sane, Queued, Absent, queue-dequeue_task}
use ninix.Sched.Queue.Joins.{queue-enqueue_task, enqueue_task-Indexed}
use ninix.Sched.Run.{exchange}
use ninix.Sched.Run.Choice.{turn_of, First}
use ninix.Sched.Exit.{find_in_processes, pc_kill, pc_exit}
use ninix.Sched.Exit.Kill.{is_protected, Killed, pc_kill-Killed, removed, marked, rest-removed}
use ninix.Sched.Exit.Leave.{without_current, Exited, pc_exit-Exited}
use ninix.Sched.Init.Started.{below_two}
use ninix.Sched.Examples.{quiet, waiting, waiting-Sane, waiting-Queued}
use ninix.Base.{
  ◌==◌, if◌then◌else◌, ℕ, ◌+◌, ◌^◌, ◌<◌, ◌≡◌, refl, ap, ◌∙◌, ◌≢◌, true, false, some, [], ◌∷◌, arith,
}

-- What `1 << n` is for a large `n` plays no part.
abbrev wide : ℕ → ℕ
wide n = 0

five_in_use : is_protected waiting 5 ≡ false
unfolding pid_check enqueue_task
five_in_use = refl

five_there : find_in_processes waiting 5 ≡ 5
unfolding find_in_processes enqueue_task
five_there = refl

kill_example :
    (s' : Sched) × (pc_kill wide waiting 5 ≡ some (s', 0))
    × (s'.interrupts ≡ true)
    × Killed waiting (find_in_processes waiting 5) 5 wide s'
kill_example =
    pc_kill-Killed wide waiting 5 0 five_in_use (λ e. omega (arith, five_there)) waiting-Sane
      (rw five_there waiting-Queued)

-- Task 5 runs and is queued as before; task 6 waits in the expired array.
abbrev two_left : Sched
two_left = record (enqueue_task waiting 6 1) { current_task = 5 }

six_at : queue_of (waiting.tasks 6) ≡ 55
unfolding queue_of enqueue_task
six_at = refl

six_off : (j : ℕ) → Absent (waiting.arrays j) 6
unfolding count
six_off j k = rw (queue-enqueue_task quiet 5 0 j k) (ground arith)

two_left-Indexed : (j : ℕ) → j < 2 → Indexed (two_left.arrays j)
two_left-Indexed j h =
    (enqueue_task-Indexed waiting 6 1 j 0 waiting-Sane (omega arith) (rw six_at (omega arith))
      six_off h).0

two_left-room : (j : ℕ) → j < 2 → (two_left.arrays j).nr_active + 1 < 2 ^ 32
unfolding enqueue_task set_bit_map update_highest_pro queue_of
two_left-room =
    below_two (λ j. (two_left.arrays j).nr_active + 1 < 2 ^ 32) (omega arith) (omega arith)

two_left-Sane : Sane two_left
two_left-Sane = record { indexed = two_left-Indexed; room = two_left-room }

five_once : (j : ℕ) → 0 ≢ j → Absent (two_left.arrays j) 5
unfolding count
five_once j ne k = rw (queue-enqueue_task waiting 6 1 j k) (
    ground
      (arith, waiting-Queued.once j ne k, count-append 5 ((waiting.arrays j).queue k) (6 ∷ [])))

two_left-Queued : Queued two_left 5 0
unfolding enqueue_task queue_of
two_left-Queued = record {
  which = omega arith;
  field = refl;
  level = refl;
  small = omega arith;
  placed = waiting-Queued.placed;
  once = five_once;
}

expired_turn : turn_of (without_current two_left 0) ≡ (without_current two_left 0).arrays 1
unfolding exchange enqueue_task set_bit_map update_highest_pro queue_of removed marked dequeue_task
    unlink clear_bit_map find_byte
expired_turn = refl

six_waits :
    (k : ℕ) → ((without_current two_left 0).arrays 1).queue k ≡ (if 55 == k then 6 ∷ [] else [])
unfolding unlink marked
six_waits k =
    let r = rest-removed (marked two_left 5) 5 0 in
    ap (λ (f : ℕ → PrioArray). (f 1).queue k) (r.5)
    ∙ queue-dequeue_task (marked two_left 5) 5 0 1 k
    ∙ rw (queue-enqueue_task waiting 6 1 1 k)
        (rw (queue-enqueue_task quiet 5 0 1 k, six_at) (ground arith))

two_left-First : First ((without_current two_left 0).arrays 1) 55 6 []
two_left-First = record {
  small = omega arith;
  front = six_waits 55;
  before = λ i h. six_waits i ∙ ground arith;
}

exit_example : (s' : Sched) × (pc_exit wide 0 400 two_left ≡ some s') × Exited two_left 6 wide s'
unfolding enqueue_task
exit_example =
    pc_exit-Exited wide 0 400 two_left 0 55 6 [] two_left-Sane two_left-Queued (omega arith)
      (omega arith) (rw expired_turn two_left-First)
