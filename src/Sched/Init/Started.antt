-- ===== src/Sched/Init/Started.antt =====
-- The state that `init_pc` leaves behind.
use ninix.Bits.{bit_zero}
use ninix.Bits.Map.{bit_at}
use ninix.Pid.{init_pid}
use ninix.Sched.State.{PrioArray, Sched}
use ninix.Sched.Queue.Index.{Indexed, total}
use ninix.Sched.Queue.Moves.{Sane}
use ninix.Sched.Init.{clear_bitmap, clear_queues, init_prio_array, init_pc_list, init_idle, init_pc}
use ninix.Base.{
  ltb, leb, ◌==◌, if◌then◌else◌, update, length, ℕ, zero, suc, ◌+◌, ◌/◌, ◌%◌, ◌^◌, ◌<◌, ◌≡◌, refl,
  sym, ◌∙◌, true, ◌&&◌, List, [], arith,
}

clear_bitmap_lem :
    (n i : ℕ) (m : ℕ → ℕ) (j : ℕ)
    → clear_bitmap n i m j ≡ (if leb i j && ltb j (i + n) then 0 else m j)
unfolding clear_bitmap
clear_bitmap_lem zero i m j = ground arith
clear_bitmap_lem (suc n) i m j = ground (arith, clear_bitmap_lem n (i + 1) (update m i 0) j)

clear_queues_lem :
    (n i : ℕ) (q : ℕ → List ℕ) (j : ℕ)
    → clear_queues n i q j ≡ (if leb i j && ltb j (i + n) then [] else q j)
unfolding clear_queues
clear_queues_lem zero i q j = ground arith
clear_queues_lem (suc n) i q j = ground (arith, clear_queues_lem n (i + 1) (update q i []) j)

total_empty : (n : ℕ) (q : ℕ → List ℕ) → ((k : ℕ) → k < n → q k ≡ []) → total n q ≡ 0
unfolding total
total_empty zero q e = refl
total_empty (suc n) q e =
    let t = total_empty n q (λ k h. e k (omega arith)) in
    let l : length (q n) ≡ 0 = rw (e n (omega arith)) refl in omega arith

-- An array without a task and without a mark is indexed.
pub empty-Indexed :
    (m : ℕ → ℕ) (q : ℕ → List ℕ)
    → ((i : ℕ) → m i < 256)
    → ((i : ℕ) → i < 8 → m i ≡ 0)
    → ((k : ℕ) → k < 64 → q k ≡ [])
    → Indexed (record { nr_active = 0; highest_prio = 64; bitmap = m; queue = q })
empty-Indexed m q bytes zeros none_queued =
    let off : (i : ℕ) → i < 64 → bit_at m i ≡ 0 =
      λ i h. rw (zeros (i / 8) (omega arith)) (bit_zero (i % 8)) in
    record {
      least = record {
        bytes = bytes;
        bound = omega arith;
        below = off;
        there = λ h. absurd (omega arith);
      };
      marks = λ i h. rw (none_queued i h) (off i h);
      count = sym (total_empty 64 q none_queued);
    }

-- A fresh array is indexed, if its memory holds bytes.
init_prio_array-Indexed :
    (a : PrioArray) → ((i : ℕ) → a.bitmap i < 256) → Indexed (init_prio_array a)
unfolding init_prio_array
init_prio_array-Indexed a bytes =
    empty-Indexed _ _ (λ i. ground (arith, clear_bitmap_lem 8 0 a.bitmap i, bytes i))
      (λ i h. clear_bitmap_lem 8 0 a.bitmap i ∙ ground arith)
      (λ k h. clear_queues_lem 64 0 a.queue k ∙ ground arith)

-- The state of the scheduler at its start.
pub record Started (s : Sched) (idle : ℕ) (s' : Sched) : Type 0 where
  pub sane : Sane s'
  pub empty :
      ((k : ℕ) → (if ltb k 64 then (s'.arrays 0).queue k else []) ≡ [])
      × ((k : ℕ) → (if ltb k 64 then (s'.arrays 1).queue k else []) ≡ [])
  pub lists : (s'.processes ≡ []) × (s'.active ≡ 0) × (s'.expired ≡ 1)
  pub current_task : s'.current_task ≡ idle
  pub task : ((s'.tasks idle).pid ≡ 0) × ((s'.tasks idle).prio ≡ 64)
  pub pids : s'.pids ≡ init_pid s.pids
  pub idle_same : s'.idle ≡ s.idle

arrays-init_pc :
    (s : Sched) (idle : ℕ)
    → ((init_pc s idle).arrays 0 ≡ init_prio_array (s.arrays 0))
      × ((init_pc s idle).arrays 1 ≡ init_prio_array (s.arrays 1))
unfolding init_pc init_pc_list
arrays-init_pc s idle = (refl, refl)

pub below_two : (P : ℕ → Type 0) → P 0 → P 1 → (i : ℕ) → i < 2 → P i
below_two P a b zero h = a
below_two P a b (suc zero) h = b
below_two P a b (suc (suc i)) h = absurd (omega arith)

nr_active-init : (a : PrioArray) → (init_prio_array a).nr_active + 1 < 2 ^ 32
unfolding init_prio_array
nr_active-init a = omega arith

queue-init : (a : PrioArray) (k : ℕ) → (if ltb k 64 then (init_prio_array a).queue k else []) ≡ []
unfolding init_prio_array
queue-init a k = ground (arith, clear_queues_lem 64 0 a.queue k)

init_pc-Sane :
    (s : Sched) (idle : ℕ) → ((j i : ℕ) → (s.arrays j).bitmap i < 256) → Sane (init_pc s idle)
init_pc-Sane s idle bytes =
    let (e₀, e₁) = arrays-init_pc s idle in
    record {
      indexed =
          below_two (λ i. Indexed ((init_pc s idle).arrays i))
            (rw e₀ (init_prio_array-Indexed (s.arrays 0) (bytes 0)))
            (rw e₁ (init_prio_array-Indexed (s.arrays 1) (bytes 1)));
      room =
          below_two (λ i. ((init_pc s idle).arrays i).nr_active + 1 < 2 ^ 32)
            (rw e₀ (nr_active-init (s.arrays 0))) (rw e₁ (nr_active-init (s.arrays 1)));
    }

-- What `init_pc` leaves, from memory of any bytes: the scheduler is sane, no task is on the queues or on
-- the list of processes, the task at the given address runs as number 0 at priority 64, and the
-- numbers are as `init_pid` leaves them. The global pointer `idle` has not moved.
pub init_pc-Started :
    (s : Sched) (idle : ℕ)
    → ((j i : ℕ) → (s.arrays j).bitmap i < 256)
    → Started s idle (init_pc s idle)
unfolding init_pc init_pc_list init_idle
init_pc-Started s idle bytes =
    let (e₀, e₁) = arrays-init_pc s idle in
    let f : (idle == idle) ≡ true = ground arith in
    record {
      sane = init_pc-Sane s idle bytes;
      empty = (queue-init (s.arrays 0), queue-init (s.arrays 1));
      lists = (refl, refl, refl);
      current_task = refl;
      task = (rw f refl, rw f refl);
      pids = refl;
      idle_same = refl;
    }
