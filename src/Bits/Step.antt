-- ===== src/Bits/Step.antt =====
-- `&` and `|` on the lowest binary digit: one equation each, free of the digit count by which the
-- native operations are explained.
use Prim.Native.Nat.{digits, bit_and-bitwise, bit_or-bitwise}
use ninix.Base.{ℕ, zero, suc, ◌+◌, ◌*◌, ◌/◌, ◌%◌, ◌≤◌, min, max, bit_and, bit_or, ◌≡◌, refl, arith}

-- A larger digit count changes nothing.
count_irrelevant :
    (z : ℕ → ℕ) (op : ℕ → ℕ → ℕ) (n m a b : ℕ)
    → a ≤ n
    → a ≤ m
    → digits z op n a b ≡ digits z op m a b
count_irrelevant z op zero zero a b p q = refl
count_irrelevant z op zero (suc m) zero b p q = refl
count_irrelevant z op zero (suc m) (suc a) b p q = absurd (omega arith)
count_irrelevant z op (suc n) zero zero b p q = refl
count_irrelevant z op (suc n) zero (suc a) b p q = absurd (omega arith)
count_irrelevant z op (suc n) (suc m) zero b p q = refl
count_irrelevant z op (suc n) (suc m) (suc a) b p q =
    omega (arith, count_irrelevant z op n m (suc a / 2) (b / 2) (omega arith) (omega arith))

pub bit_and_step : (a b : ℕ) → bit_and a b ≡ bit_and (a / 2) (b / 2) * 2 + min (a % 2) (b % 2)
bit_and_step zero b = omega (arith, bit_and-bitwise 0 b, bit_and-bitwise 0 (b / 2))
bit_and_step (suc a) b = omega (
  arith,
  bit_and-bitwise (suc a) b,
  bit_and-bitwise (suc a / 2) (b / 2),
  count_irrelevant (λ y. 0) min a (suc a / 2) (suc a / 2) (b / 2) (omega arith) (omega arith),
)

pub bit_or_step : (a b : ℕ) → bit_or a b ≡ bit_or (a / 2) (b / 2) * 2 + max (a % 2) (b % 2)
bit_or_step zero b = omega (arith, bit_or-bitwise 0 b, bit_or-bitwise 0 (b / 2))
bit_or_step (suc a) b = omega (
  arith,
  bit_or-bitwise (suc a) b,
  bit_or-bitwise (suc a / 2) (b / 2),
  count_irrelevant (λ y. y) max a (suc a / 2) (suc a / 2) (b / 2) (omega arith) (omega arith),
)

pub bit_or_zero : (b : ℕ) → bit_or 0 b ≡ b
bit_or_zero b = omega (arith, bit_or-bitwise 0 b)
