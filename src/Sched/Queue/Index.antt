-- ===== src/Sched/Queue/Index.antt =====
-- The bitmap, the cached minimum and the count of an array say what is on its queues.
use ninix.Ring.Nodes.{unlink, count, unlink-absent, length-unlink}
use ninix.Bits.Map.{bit_at}
use ninix.Sched.State.{PrioArray}
use ninix.Sched.Bitmap.{set_bit_map, update_highest_pro}
use ninix.Sched.Bitmap.Least.{Least}
use ninix.Sched.Bitmap.Marks.{set_bit_map-Marked, clear_bit_map-Marked}
use ninix.Sched.Queue.{is_nil, put_tail, put_head, unlink_queues, unmark}
use ninix.Base.{
  ltb, if◌then◌else◌, Bool-cases, update, length, length-append, ℕ, zero, suc, ◌+◌, ◌-◌, ◌%◌, ◌^◌,
  ◌<◌, ◌≡◌, refl, ◌≢◌, inl, inr, true, false, List, [], ◌∷◌, ◌++◌, arith,
}

-- The tasks on the first `n` queues.
unfoldable pub total : ℕ → (ℕ → List ℕ) → ℕ
total zero q = 0
total (suc n) q = length (q n) + total n q

pub record Indexed (a : PrioArray) : Type 0 where
  pub least : Least a.bitmap a.highest_prio
  pub marks : (i : ℕ) → i < 64 → bit_at a.bitmap i ≡ (if is_nil (a.queue i) then 0 else 1)
  pub count : a.nr_active ≡ total 64 a.queue

-- `p` is on queue `k`, once, and on no other.
pub record OnQueue (a : PrioArray) (p k : ℕ) : Type 0 where
  pub here : count p (a.queue k) ≡ 1
  pub elsewhere : (j : ℕ) → k ≢ j → count p (a.queue j) ≡ 0

total-update :
    (n k : ℕ) (q : ℕ → List ℕ) (xs : List ℕ)
    → total n (update q k xs) + (if ltb k n then length (q k) else 0)
      ≡ total n q + (if ltb k n then length xs else 0)
unfolding total
total-update zero k q xs = ground arith
total-update (suc n) k q xs = ground (arith, total-update n k q xs)

total-unlink :
    (n k p : ℕ) (q : ℕ → List ℕ)
    → count p (q k) ≡ 1
    → ((j : ℕ) → k ≢ j → count p (q j) ≡ 0)
    → total n (λ j. unlink p (q j)) + (if ltb k n then 1 else 0) ≡ total n q
unfolding total
total-unlink zero k p q h e = ground arith
total-unlink (suc n) k p q h e =
    ground (arith, total-unlink n k p q h e, length-unlink p (q n), e n)

is_nil-snoc : (xs : List ℕ) (p : ℕ) → is_nil (xs ++ p ∷ []) ≡ false
is_nil-snoc [] p = refl
is_nil-snoc (x ∷ xs) p = refl

-- One more task on queue `k`, which now is `xs`.
grown-Indexed :
    (a : PrioArray) (k : ℕ) (xs : List ℕ)
    → Indexed a
    → k < 64
    → a.nr_active + 1 < 2 ^ 32
    → is_nil xs ≡ false
    → length xs ≡ length (a.queue k) + 1
    → let c =
        update_highest_pro (set_bit_map k (record a { queue = update a.queue k xs })) k true in
      Indexed (record c { nr_active = (c.nr_active + 1) % 2 ^ 32 })
grown-Indexed a k xs v lt room some_task longer =
    let m = set_bit_map-Marked (record a { queue = update a.queue k xs }) k v.least lt in
    record {
      least = m.least;
      marks = λ i h. rw (m.rest.1) (ground (arith, m.marks i, v.marks i));
      count = rw (m.rest.0, m.rest.1) (ground (arith, total-update 64 k a.queue xs, v.count));
    }

-- A task added at the tail: the index stays right.
pub put_tail-Indexed :
    (a : PrioArray) (p k : ℕ)
    → Indexed a
    → k < 64
    → a.nr_active + 1 < 2 ^ 32
    → Indexed (put_tail p k a)
unfolding put_tail
put_tail-Indexed a p k v lt room =
    grown-Indexed a k (a.queue k ++ p ∷ []) v lt room (is_nil-snoc (a.queue k) p)
      (omega (arith, length-append (a.queue k) (p ∷ [])))

-- The head insertion of `enqueue_task_head` on a queue below 64, with room for the count: the bitmap,
-- the cached minimum and the count of the array stay right.
pub put_head-Indexed :
    (a : PrioArray) (p k : ℕ)
    → Indexed a
    → k < 64
    → a.nr_active + 1 < 2 ^ 32
    → Indexed (put_head p k a)
unfolding put_head
put_head-Indexed a p k v lt room = grown-Indexed a k (p ∷ a.queue k) v lt room refl (omega arith)

-- The array after `nr_active--` and `list_del_init`, before the bitmap is looked after.
abbrev pub taken_off : ℕ → PrioArray → PrioArray
taken_off p a = unlink_queues p (record a { nr_active = (a.nr_active + 2 ^ 32 - 1) % 2 ^ 32 })

not_nil : (p : ℕ) (xs : List ℕ) → count p xs ≡ 1 → is_nil xs ≡ false
unfolding count
not_nil p [] h = absurd (omega arith)
not_nil p (x ∷ xs) h = refl

-- A task taken off the queue that it is on: the index stays right.
pub unmark-Indexed :
    (a : PrioArray) (p k : ℕ)
    → Indexed a
    → k < 64
    → a.nr_active < 2 ^ 32
    → OnQueue a p k
    → Indexed (unmark k k (taken_off p a))
unfolding unmark unlink_queues
unmark-Indexed a p k v lt room o = elim (Bool-cases (is_nil (unlink p (a.queue k)))) [
  | inl e ↦
      let m = clear_bit_map-Marked (taken_off p a) k v.least lt in
      rw e (record {
        least = m.least;
        marks = λ i h.
            rw (m.rest.1)
              (ground (arith, m.marks i, v.marks i, o.elsewhere i, unlink-absent p (a.queue i)));
        count = rw (m.rest.0, m.rest.1) (ground (arith, fewer));
      })
  | inr e ↦ rw e (record {
    least = v.least;
    marks = λ i h.
        ground
          (arith, v.marks i, o.elsewhere i, unlink-absent p (a.queue i), not_nil p (a.queue k));
    count = ground (arith, fewer);
  })
]
  where
    fewer : total 64 (taken_off p a).queue + 1 ≡ a.nr_active
    fewer = ground (arith, total-unlink 64 k p a.queue o.here o.elsewhere, v.count)
