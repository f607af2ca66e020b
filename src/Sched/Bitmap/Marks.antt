-- ===== src/Sched/Bitmap/Marks.antt =====
-- A priority marked or unmarked, as `enqueue_task` and `dequeue_task` do it.
use ninix.Bits.Map.{bit_at, bit_at-set, bit_at-clear}
use ninix.Sched.State.{PrioArray}
use ninix.Sched.Bitmap.{set_bit_map, clear_bit_map, rescan, update_highest_pro}
use ninix.Sched.Bitmap.Least.{Least, rescan-Least}
use ninix.Base.{
  ◌==◌, if◌then◌else◌, Bool-cases, ℕ, ◌<◌, min, ◌≡◌, refl, sym, ap, subst, inl, inr, Bool, true,
  false, arith,
}

-- `b` is `a` with the mark of `p` set to `v`, and its least mark known.
pub record Marked (a : PrioArray) (p v : ℕ) (b : PrioArray) : Type 0 where
  pub least : Least b.bitmap b.highest_prio
  pub marks : (i : ℕ) → bit_at b.bitmap i ≡ (if p == i then v else bit_at a.bitmap i)
  pub rest : (b.nr_active ≡ a.nr_active) × (b.queue ≡ a.queue)

update_highest_pro-enqueue :
    (a : PrioArray) (p : ℕ)
    → p < 64
    → update_highest_pro a p true ≡ record a { highest_prio = min a.highest_prio p }
unfolding update_highest_pro
update_highest_pro-enqueue a p lt = ground arith

update_highest_pro-dequeue :
    (a : PrioArray) (p : ℕ)
    → p < 64
    → update_highest_pro a p false ≡ (if a.highest_prio == p then rescan p a else a)
unfolding update_highest_pro
update_highest_pro-dequeue a p lt = ground arith

module _ (a : PrioArray) (p : ℕ) (l : Least a.bitmap a.highest_prio) (lt : p < 64) where
  set-bytes : (i : ℕ) → (set_bit_map p a).bitmap i < 256
  unfolding set_bit_map
  set-bytes i = ground (arith, l.bytes i)

  clear-bytes : (i : ℕ) → (clear_bit_map p a).bitmap i < 256
  unfolding clear_bit_map
  clear-bytes i = ground (arith, l.bytes i)

  set-marks :
      (i : ℕ) → bit_at (set_bit_map p a).bitmap i ≡ (if p == i then 1 else bit_at a.bitmap i)
  unfolding set_bit_map
  set-marks i = bit_at-set a.bitmap p i

  clear-marks :
      (i : ℕ) → bit_at (clear_bit_map p a).bitmap i ≡ (if p == i then 0 else bit_at a.bitmap i)
  unfolding clear_bit_map
  clear-marks i = bit_at-clear a.bitmap p i

  set-rest :
      ((set_bit_map p a).nr_active ≡ a.nr_active)
      × ((set_bit_map p a).queue ≡ a.queue)
      × ((set_bit_map p a).highest_prio ≡ a.highest_prio)
  unfolding set_bit_map
  set-rest = (refl, refl, refl)

  clear-rest :
      ((clear_bit_map p a).nr_active ≡ a.nr_active)
      × ((clear_bit_map p a).queue ≡ a.queue)
      × ((clear_bit_map p a).highest_prio ≡ a.highest_prio)
  unfolding clear_bit_map
  clear-rest = (refl, refl, refl)

  -- `set_bit_map` and `update_highest_pro`, as `enqueue_task` calls them: one priority is marked, the
  -- marks of the others stay, and `highest_prio` is the least marked priority.
  pub set_bit_map-Marked : Marked a p 1 (update_highest_pro (set_bit_map p a) p true)
  set_bit_map-Marked = rw (update_highest_pro-enqueue (set_bit_map p a) p lt) (
      rw set-rest.2 (record {
        least = record {
          bytes = set-bytes;
          bound = ground (arith, l.bound);
          below = λ i h. ground (arith, set-marks i, l.below i);
          there = λ h. ground (arith, set-marks (min a.highest_prio p), l.there);
        };
        marks = set-marks;
        rest = (set-rest.0, set-rest.1);
      }))

  -- `clear_bit_map` and `update_highest_pro`, as `dequeue_task` calls them: one priority is unmarked,
  -- the marks of the others stay, and `highest_prio` is the least marked priority, 64 if there is none.
  pub clear_bit_map-Marked : Marked a p 0 (update_highest_pro (clear_bit_map p a) p false)
  clear_bit_map-Marked =
      rw (update_highest_pro-dequeue (clear_bit_map p a) p lt)
        (elim (Bool-cases (a.highest_prio == p)) [
          | inl e ↦
              let e' : ((clear_bit_map p a).highest_prio == p) ≡ true = rw clear-rest.2 e in
              let (q, f) =
                rescan-Least (clear_bit_map p a) p clear-bytes lt
                  (λ i h. ground (arith, clear-marks i, l.below i)) in
              rw e' (record {
                least =
                    subst (λ m. Least m (rescan p (clear_bit_map p a)).highest_prio)
                      (sym (ap (λ (b : PrioArray). b.bitmap) f)) q;
                marks = rw f clear-marks;
                rest = rw f (clear-rest.0, clear-rest.1);
              })
          | inr e ↦
              let e' : ((clear_bit_map p a).highest_prio == p) ≡ false = rw clear-rest.2 e in
              rw e' (record {
                least = rw clear-rest.2 (record {
                  bytes = clear-bytes;
                  bound = l.bound;
                  below = λ i h. ground (arith, clear-marks i, l.below i);
                  there = λ h. ground (arith, clear-marks a.highest_prio, l.there);
                });
                marks = clear-marks;
                rest = (clear-rest.0, clear-rest.1);
              })
        ])

-- The queues and the count are none of the bitmap's business.
pub update_highest_pro_rest :
    (a : PrioArray) (p : ℕ) (b : Bool)
    → ((update_highest_pro a p b).queue ≡ a.queue)
      × ((update_highest_pro a p b).nr_active ≡ a.nr_active)
unfolding update_highest_pro
update_highest_pro_rest a p b = ground arith

pub clear_bit_map_rest :
    (a : PrioArray) (p : ℕ)
    → ((clear_bit_map p a).queue ≡ a.queue) × ((clear_bit_map p a).nr_active ≡ a.nr_active)
unfolding clear_bit_map
clear_bit_map_rest a p = (refl, refl)

pub set_bit_map_rest :
    (a : PrioArray) (p : ℕ)
    → ((set_bit_map p a).queue ≡ a.queue) × ((set_bit_map p a).nr_active ≡ a.nr_active)
unfolding set_bit_map
set_bit_map_rest a p = (refl, refl)
