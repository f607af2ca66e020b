-- ===== src/Pid/Map.antt =====
-- What the bitmap says of each number, before and after a claim.
use ninix.Bits.Map.{bit_at, test_bit_at, bit_at-set}
use ninix.Pid.{pid_check, claim, pid_num}
use ninix.Base.{ltb, ◌==◌, if◌then◌else◌, ℕ, ◌<◌, ◌≡◌, true, not, ◌&&◌, arith}

-- The bit of a number in the map.
abbrev pub taken : (ℕ → ℕ) → ℕ → ℕ
taken = bit_at

pub pid_check-taken :
    (m : ℕ → ℕ) (pid : ℕ) → pid_check m pid ≡ (ltb pid pid_num && (taken m pid == 0))
unfolding pid_check
pid_check-taken m pid = ground (arith, test_bit_at m pid)

-- A claim takes that number and no other.
pub taken-claim :
    (m : ℕ → ℕ) (pid q : ℕ) → taken (claim m pid) q ≡ (if pid == q then 1 else taken m q)
unfolding claim
taken-claim m pid q = bit_at-set m pid q

pub pid_check-claim :
    (m : ℕ → ℕ) (pid q : ℕ) → pid_check (claim m pid) q ≡ (pid_check m q && not (pid == q))
pid_check-claim m pid q =
    ground (arith, pid_check-taken m q, pid_check-taken (claim m pid) q, taken-claim m pid q)

pub pid_check-lt : (m : ℕ → ℕ) (pid : ℕ) → pid_check m pid ≡ true → pid < 256
unfolding pid_check
pid_check-lt m pid h = ground arith
