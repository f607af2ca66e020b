-- ===== src/Pid/Serial.antt =====
-- The numbers that a freshly booted system hands out.
use ninix.Bits.{bit_pow, bit_zero}
use ninix.Pid.{Pids, clear_bytes, init_pid, pid_check, pid_alloc, no_pid}
use ninix.Pid.Map.{pid_check-taken, pid_check-claim}
use ninix.Pid.Alloc.{pid_alloc_lem}
use ninix.Base.{
  ltb, leb, if◌then◌else◌, update, ℕ, zero, suc, ◌+◌, ◌/◌, ◌%◌, ◌≤◌, ◌<◌, ◌≡◌, refl, ap, inl, inr,
  true, ◌&&◌, List, [], ◌∷◌, arith,
}

-- The calls of `pid_alloc` in a row, their answers in order.
unfoldable pub alloc_many : ℕ → Pids → Pids × List ℕ
alloc_many zero s = (s, [])
alloc_many (suc n) s = let (t, p) = pid_alloc s in let (u, ps) = alloc_many n t in (u, p ∷ ps)

-- `i, i + 1, …`, `n` numbers in all.
abbrev pub from : ℕ → ℕ → List ℕ
from i zero = []
from i (suc n) = i ∷ from (i + 1) n

clear_bytes_lem :
    (n i : ℕ) (m : ℕ → ℕ) (j : ℕ)
    → clear_bytes n i m j ≡ (if leb i j && ltb j (i + n) then 0 else m j)
unfolding clear_bytes
clear_bytes_lem zero i m j = ground arith
clear_bytes_lem (suc n) i m j = ground (arith, clear_bytes_lem n (i + 1) (update m i 0) j)

-- `init_pid` takes 0, the idle process, and frees every other number of the map.
pub pid_check-init_pid :
    (s : Pids) (q : ℕ) → pid_check (init_pid s).pidmap q ≡ (ltb 0 q && ltb q 256)
unfolding init_pid
pid_check-init_pid s q = ground (
  arith,
  pid_check-taken (init_pid s).pidmap q,
  clear_bytes_lem 31 1 s.pidmap (q / 8),
  bit_pow 0 (q % 8),
  bit_zero (q % 8),
)

-- After `n` calls: the numbers up to `n` are taken.
record Serial (n : ℕ) (s : Pids) : Type 0 where
  free : (q : ℕ) → pid_check s.pidmap q ≡ (ltb n q && ltb q 256)
  next : s.next_pid ≡ (if ltb n 255 then n + 1 else 1)

Serial-init_pid : (s : Pids) → Serial 0 (init_pid s)
unfolding init_pid
Serial-init_pid s = record { free = pid_check-init_pid s; next = next }
  where
    next : (init_pid s).next_pid ≡ 1
    next = refl

Serial-pid_alloc :
    (n : ℕ) (s : Pids)
    → n < 255
    → Serial n s
    → Serial (n + 1) (pid_alloc s).0 × ((pid_alloc s).1 ≡ n + 1)
unfolding pid_alloc
Serial-pid_alloc n s lt v =
    let e : s.next_pid ≡ n + 1 = ground (arith, v.next) in
    let ok : pid_check s.pidmap s.next_pid ≡ true = ground (arith, v.free s.next_pid) in
    rw ok (
      record {
        free = λ q. ground (arith, pid_check-claim s.pidmap s.next_pid q, v.free q);
        next = ground arith;
      },
      e,
    )

alloc_many-from :
    (k n : ℕ) (s : Pids)
    → Serial n s
    → n + k ≤ 255
    → ((alloc_many k s).1 ≡ from (n + 1) k) × Serial (n + k) (alloc_many k s).0
unfolding alloc_many
alloc_many-from zero n s v h = let e : n + 0 ≡ n = omega arith in rw e (refl, v)
alloc_many-from (suc k) n s v h =
    let (v', e) = Serial-pid_alloc n s (omega arith) v in
    let (es, v'') = alloc_many-from k (n + 1) (pid_alloc s).0 v' (omega arith) in
    let e' : n + suc k ≡ n + 1 + k = omega arith in rw e' (ground (arith, e, es), v'')

-- After `init_pid`, whatever was in the map, the first `k` calls of `pid_alloc`, 255 at most, answer
-- 1 to `k` in order.
pub alloc_many-init_pid : (s : Pids) (k : ℕ) → k ≤ 255 → (alloc_many k (init_pid s)).1 ≡ from 1 k
alloc_many-init_pid s k h = (alloc_many-from k 0 (init_pid s) (Serial-init_pid s) (omega arith)).0

-- After `init_pid` and 255 calls of `pid_alloc` the next call answers -1.
pub pid_alloc-exhausted : (s : Pids) → (pid_alloc (alloc_many 255 (init_pid s)).0).1 ≡ no_pid
pid_alloc-exhausted s =
    full (alloc_many-from 255 0 (init_pid s) (Serial-init_pid s) (omega arith)).1
  where
    full : {t : Pids} → Serial 255 t → (pid_alloc t).1 ≡ no_pid
    full {t} v = elim (pid_alloc_lem t (ground (arith, v.next))) [
      | inl h ↦ absurd (ground (arith, h.was_free, h.in_range, v.free (pid_alloc t).1))
      | inr (e, _) ↦ ap (λ (r : Pids × ℕ). r.1) e
    ]
