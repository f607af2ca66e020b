-- ===== src/Pid/Free.antt =====
-- `pid_free`: which number it gives back.
use native.Mathlib.Nat.{pow-suc}
use ninix.Bits.Byte.{bit-and_complement}
use ninix.Bits.{bit, bit_pow, bit_zero, bit_and_seven}
use ninix.Pid.{Pids, pid_check, pid_free, shift_one}
use ninix.Pid.Map.{taken, pid_check-taken}
use ninix.Base.{
  ltb, ◌==◌, if◌then◌else◌, Bool-cases, update, ℕ, zero, suc, ◌-◌, ◌/◌, ◌%◌, ◌^◌, ◌<◌, bit_and, ◌≡◌,
  refl, inl, inr, false, ◌&&◌, ◌||◌, arith,
}

pow_mod_eight : (n : ℕ) → 2 ^ suc (suc (suc n)) % 8 ≡ 0
pow_mod_eight n = omega (arith, pow-suc 2 n, pow-suc 2 (suc n), pow-suc 2 (suc (suc n)))

-- The mask that `pid_free` takes out of the byte.
low_mask :
    (wide : ℕ → ℕ) (pid : ℕ)
    → pid < 32
    → bit_and (shift_one wide pid) 7 ≡ (if ltb pid 3 then 2 ^ pid else 0)
unfolding shift_one
low_mask wide zero h = refl
low_mask wide (suc zero) h = refl
low_mask wide (suc (suc zero)) h = refl
low_mask wide (suc (suc (suc n))) h =
    ground (arith, bit_and_seven (2 ^ suc (suc (suc n))), pow_mod_eight n)

-- The bits of that mask.
bit-low_mask :
    (wide : ℕ → ℕ) (pid k : ℕ)
    → pid < 32
    → bit (bit_and (shift_one wide pid) 7) k ≡ (if ltb pid 3 && (pid == k) then 1 else 0)
bit-low_mask wide pid k h = rw (low_mask wide pid h) (elim (Bool-cases (ltb pid 3)) [
  | inl low ↦ rw low (bit_pow pid k)
  | inr high ↦ rw high (bit_zero k)
])

low_mask-lt : (wide : ℕ → ℕ) (pid : ℕ) → bit_and (shift_one wide pid) 7 < 2 ^ 32
low_mask-lt wide pid = omega (arith, bit_and_seven (shift_one wide pid))

taken_after :
    (wide : ℕ → ℕ) (m : ℕ → ℕ) (pid q : ℕ)
    → pid < 32
    → let b = bit_and (m (pid / 8)) (2 ^ 32 - 1 - bit_and (shift_one wide pid) 7) in
      taken (update m (pid / 8) b) q ≡ (if ltb pid 3 && (pid == q) then 0 else taken m q)
taken_after wide m pid q h = ground (
  arith,
  bit-and_complement (m (pid / 8)) (bit_and (shift_one wide pid) 7) (q % 8) (low_mask-lt wide pid),
  bit-low_mask wide pid (q % 8),
)

-- For a number below 32 that is in use, `pid_free` answers success and gives the number back only
-- if it is below 3; no other number changes.
pub pid_free_lem :
    (wide : ℕ → ℕ) (s : Pids) (pid : ℕ)
    → pid < 32
    → pid_check s.pidmap pid ≡ false
    → ((pid_free wide s pid).1 ≡ 0)
      × ((q : ℕ)
          → pid_check (pid_free wide s pid).0.pidmap q
            ≡ (pid_check s.pidmap q || ((pid == q) && ltb pid 3)))
unfolding pid_free
pid_free_lem wide s pid small used = rw used (
  refl,
  λ q. ground (
    arith,
    pid_check-taken (pid_free wide s pid).0.pidmap q,
    pid_check-taken s.pidmap q,
    taken_after wide s.pidmap pid q small,
    used,
  ),
)
