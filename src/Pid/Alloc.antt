-- ===== src/Pid/Alloc.antt =====
-- `pid_alloc`: what it hands out, and when it fails.
use ninix.Pid.{Pids, pid_check, claim, scan, pid_alloc, no_pid}
use ninix.Pid.Map.{pid_check-claim, pid_check-lt}
use ninix.Base.{
  leb, ◌==◌, Bool-cases, ℕ, zero, suc, ◌+◌, ◌≤◌, ◌<◌, ◌≡◌, ◌⊎◌, inl, inr, true, false, not, ◌&&◌,
  arith,
}

-- `next_pid` never names the idle process nor leaves the map.
abbrev pub IsValid : Pids → Type 0
IsValid s = (1 ≤ s.next_pid) × (s.next_pid < 256)

-- From `s` the number `p`, which was free, was handed out, and no other number changed.
pub record Handed (s : Pids) (r : Pids × ℕ) : Type 0 where
  pub was_free : pid_check s.pidmap r.1 ≡ true
  pub in_range : (1 ≤ r.1) × (r.1 < 256)
  pub others : (q : ℕ) → pid_check r.0.pidmap q ≡ (pid_check s.pidmap q && not (r.1 == q))
  pub still : IsValid r.0

-- All numbers from `i` on are in use.
abbrev pub NoneFrom : ℕ → Pids → Type 0
NoneFrom i s = (q : ℕ) → (leb i q && pid_check s.pidmap q) ≡ false

handed :
    (s : Pids) (p next : ℕ)
    → pid_check s.pidmap p ≡ true
    → 1 ≤ p
    → (1 ≤ next) × (next < 256)
    → Handed s (record { pidmap = claim s.pidmap p; next_pid = next }, p)
handed s p next free pos ok = record {
  was_free = free;
  in_range = (pos, pid_check-lt s.pidmap p free);
  others = pid_check-claim s.pidmap p;
  still = ok;
}

none_from : (i : ℕ) (s : Pids) → pid_check s.pidmap i ≡ false → NoneFrom (i + 1) s → NoneFrom i s
none_from i s used rest q = ground (arith, rest q)

scan_lem :
    (n i : ℕ) (s : Pids)
    → i + n ≡ 255
    → 1 ≤ i
    → Handed s (scan n i s) ⊎ ((scan n i s ≡ (s, no_pid)) × NoneFrom i s)
unfolding scan
scan_lem zero i s e pos = elim (Bool-cases (pid_check s.pidmap i)) [
  | inl free ↦
      let last : (i == 255) ≡ true = ground arith in
      inl (rw (last, free) (handed s i 1 free pos (omega arith)))
  | inr used ↦
      let last : (i == 255) ≡ true = ground arith in
      inr (rw (last, used), none_from i s used (λ q. ground (arith, pid_check-lt s.pidmap q)))
]
scan_lem (suc n) i s e pos = elim (Bool-cases (pid_check s.pidmap i)) [
  | inl free ↦ inl (rw free (handed s i (i + 1) free pos (omega arith)))
  | inr used ↦ rw used (elim (scan_lem n (i + 1) s (omega arith) (omega arith)) [
    | inl h ↦ inl h
    | inr (e', rest) ↦ inr (e', none_from i s used rest)
  ])
]

-- With the cached number from 1 to 255, `pid_alloc` either hands out a number from 1 to 255 that was
-- free, takes it and changes nothing else; or it answers -1 and changes nothing, and then none of these numbers is free.
pub pid_alloc_lem :
    (s : Pids) → IsValid s → Handed s (pid_alloc s) ⊎ ((pid_alloc s ≡ (s, no_pid)) × NoneFrom 1 s)
unfolding pid_alloc
pid_alloc_lem s v = elim (Bool-cases (pid_check s.pidmap s.next_pid)) [
  | inl free ↦ inl (rw free (handed s s.next_pid _ free v.0 (ground arith)))
  | inr used ↦ rw used (scan_lem 254 1 s (omega arith) (omega arith))
]
