-- ===== src/Bits.antt =====
-- Single bits of a word: what `|`, `&` and `~` with a mask do to each of them.
mod Step
pub mod Byte
pub mod Map
use Step.{bit_and_step, bit_or_step, bit_or_zero}
use native.Mathlib.Nat.{pow-suc, pow-succ', one-le-pow, div-add-mod, div-div-eq-div-mul}
use ninix.Base.{
  ◌==◌, if◌then◌else◌, ℕ, zero, suc, ◌+◌, ◌-◌, ◌*◌, ◌/◌, ◌%◌, ◌^◌, ◌≤◌, ◌<◌, min, max, bit_and,
  bit_or, ◌≡◌, refl, ap, ◌∙◌, arith,
}

-- Bit `k` of `a`, 0 or 1.
unfoldable pub bit : ℕ → ℕ → ℕ
bit a zero = a % 2
bit a (suc k) = bit (a / 2) k

pub bit-le : (a k : ℕ) → bit a k ≤ 1
unfolding bit
bit-le a zero = omega arith
bit-le a (suc k) = bit-le (a / 2) k

pub bit_zero : (k : ℕ) → bit 0 k ≡ 0
unfolding bit
bit_zero zero = refl
bit_zero (suc k) = bit_zero k

pub bit-bit_or : (a b k : ℕ) → bit (bit_or a b) k ≡ max (bit a k) (bit b k)
unfolding bit
bit-bit_or a b zero = omega (arith, bit_or_step a b)
bit-bit_or a b (suc k) =
    let e : bit_or a b / 2 ≡ bit_or (a / 2) (b / 2) = omega (arith, bit_or_step a b) in
    rw e (bit-bit_or (a / 2) (b / 2) k)

pub bit-bit_and : (a b k : ℕ) → bit (bit_and a b) k ≡ min (bit a k) (bit b k)
unfolding bit
bit-bit_and a b zero = omega (arith, bit_and_step a b)
bit-bit_and a b (suc k) =
    let e : bit_and a b / 2 ≡ bit_and (a / 2) (b / 2) = omega (arith, bit_and_step a b) in
    rw e (bit-bit_and (a / 2) (b / 2) k)

half_pow : (i : ℕ) → 2 ^ suc i / 2 ≡ 2 ^ i
half_pow i = omega (arith, pow-suc 2 i)

-- The mask `1 << i`.
pub bit_pow : (i k : ℕ) → bit (2 ^ i) k ≡ (if i == k then 1 else 0)
unfolding bit
bit_pow zero zero = refl
bit_pow zero (suc k) = ground (arith, bit_zero k)
bit_pow (suc i) zero = ground (arith, pow-suc 2 i)
bit_pow (suc i) (suc k) = rw (half_pow i, bit_pow i k) (ground arith)

-- The complement over a width, `~a` as a word.
pub bit_complement : (w a k : ℕ) → a < 2 ^ w → k < w → bit (2 ^ w - 1 - a) k + bit a k ≡ 1
unfolding bit
bit_complement zero a k h lt = absurd (omega arith)
bit_complement (suc w) a zero h lt = omega (arith, pow-suc 2 w, one-le-pow w 2)
bit_complement (suc w) a (suc k) h lt =
    let e : (2 ^ suc w - 1 - a) / 2 ≡ 2 ^ w - 1 - a / 2 = omega (arith, pow-suc 2 w) in
    rw e (bit_complement w (a / 2) k (omega (arith, pow-suc 2 w)) (omega arith))

bit_and_zero : (k a : ℕ) → a < 2 ^ k → bit_and a 0 ≡ 0
bit_and_zero zero a h = let e : a ≡ 0 = omega arith in rw e
bit_and_zero (suc k) a h =
    omega (arith, bit_and_step a 0, bit_and_zero k (a / 2) (omega (arith, pow-suc 2 k)))

lt_two_pow : (a : ℕ) → a < 2 ^ a
lt_two_pow zero = omega arith
lt_two_pow (suc a) = omega (arith, lt_two_pow a, pow-suc 2 a)

-- `a & (1 << k)`, the usual test of bit `k`.
pub bit_and_pow : (a k : ℕ) → bit_and a (2 ^ k) ≡ bit a k * 2 ^ k
unfolding bit
bit_and_pow a zero = omega (arith, bit_and_step a 1, bit_and_zero (a / 2) (a / 2) (lt_two_pow _))
bit_and_pow a (suc k) = omega (
  arith,
  bit_and_step a (2 ^ suc k),
  pow-suc 2 k,
  ap (bit_and (a / 2)) (half_pow k),
  bit_and_pow (a / 2) k,
  ap (λ (t : ℕ). bit (a / 2) k * t) (pow-suc 2 k),
)

-- The digits of a remainder by `2 * m`, from the common quotient.
double_mod : (m a : ℕ) → (a % (2 * m) % 2 ≡ a % 2) × (a % (2 * m) / 2 ≡ a / 2 % m)
double_mod m a = omega (
  arith,
  div-add-mod a (2 * m),
  div-add-mod (a / 2) m,
  ap (λ (t : ℕ). m * t) (div-div-eq-div-mul a 2 m),
)

-- Cutting a value to `w` bits leaves the bits below `w`.
pub bit-mod : (w a k : ℕ) → k < w → bit (a % 2 ^ w) k ≡ bit a k
unfolding bit
bit-mod zero a k lt = absurd (omega arith)
bit-mod (suc w) a zero lt = rw (pow-succ' 2 w) (double_mod (2 ^ w) a).0
bit-mod (suc w) a (suc k) lt =
    rw (pow-succ' 2 w) (rw ((double_mod (2 ^ w) a).1) (bit-mod w (a / 2) k (omega arith)))

-- `a & 7`, the number of a bit in its byte.
pub bit_and_seven : (a : ℕ) → bit_and a 7 ≡ a % 8
bit_and_seven a = omega (
  arith,
  bit_and_step a 7,
  bit_and_step (a / 2) 3,
  bit_and_step (a / 2 / 2) 1,
  bit_and_zero (a / 2 / 2 / 2) (a / 2 / 2 / 2) (lt_two_pow _),
)

-- A word is 0 when its bits are.
pub eq_zero_of_bits : (w a : ℕ) → a < 2 ^ w → ((k : ℕ) → k < w → bit a k ≡ 0) → a ≡ 0
unfolding bit
eq_zero_of_bits zero a h z = omega arith
eq_zero_of_bits (suc w) a h z = omega (
  arith,
  z 0 (omega arith),
  eq_zero_of_bits w (a / 2) (omega (arith, pow-suc 2 w)) (λ k lt. z (suc k) (omega arith)),
)

-- `a | b << k` puts two numbers side by side, where the first has `k` digits at most.
pub bit_or_shifted : (k a b : ℕ) → a < 2 ^ k → bit_or a (b * 2 ^ k) ≡ a + b * 2 ^ k
bit_or_shifted zero a b h =
    let e : a ≡ 0 = omega arith in
    let e' : b * 2 ^ 0 ≡ b = omega arith in rw (e, e') (bit_or_zero b ∙ omega arith)
bit_or_shifted (suc k) a b h =
    let half : b * 2 ^ suc k / 2 ≡ b * 2 ^ k = rw (pow-suc 2 k) (omega arith) in
    let low : b * 2 ^ suc k % 2 ≡ 0 = rw (pow-suc 2 k) (omega arith) in
    let whole : b * 2 ^ suc k ≡ 2 * (b * 2 ^ k) = rw (pow-suc 2 k) (omega arith) in
    omega (
      arith,
      bit_or_step a (b * 2 ^ suc k),
      ap (bit_or (a / 2)) half,
      bit_or_shifted k (a / 2) b (omega (arith, pow-suc 2 k)),
    )
