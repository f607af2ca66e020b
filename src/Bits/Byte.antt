-- ===== src/Bits/Byte.antt =====
-- One bit of a byte, set, cleared and tested.
use native.Mathlib.Nat.{one-le-pow, pow-le-pow_right}
use ninix.Bits.{bit, bit-le, bit-bit_or, bit-bit_and, bit_pow, bit-mod, bit_and_pow, bit_complement}
use ninix.Base.{
  ◌==◌, if◌then◌else◌, ℕ, ◌-◌, ◌%◌, ◌^◌, ◌≤◌, ◌<◌, max, bit_and, bit_or, ◌≡◌, ◌∙◌, arith,
}

pub byte_test : (b k : ℕ) → (bit_and b (2 ^ k) == 0) ≡ (bit b k == 0)
byte_test b k = rw (bit_and_pow b k) (ground (arith, bit-le b k, one-le-pow k 2))

pub byte_or :
    (b i k : ℕ) → k < 8 → bit (bit_or b (2 ^ i) % 256) k ≡ max (bit b k) (if i == k then 1 else 0)
byte_or b i k lt = bit-mod 8 (bit_or b (2 ^ i)) k lt ∙ bit-bit_or b (2 ^ i) k ∙ rw (bit_pow i k)

-- `~mask` has a bit where `mask` has none.
pub bit-and_complement :
    (b mask k : ℕ)
    → mask < 2 ^ 32
    → k < 8
    → bit (bit_and b (2 ^ 32 - 1 - mask)) k ≡ (if bit mask k == 1 then 0 else bit b k)
bit-and_complement b mask k fits lt = ground (
  arith,
  bit-bit_and b (2 ^ 32 - 1 - mask) k,
  bit_complement 32 mask k fits,
  bit-le b k,
  bit-le mask k,
)

small_pow : (i : ℕ) → i < 8 → 2 ^ i < 2 ^ 32
small_pow i h =
    let e : 2 ^ i ≤ 2 ^ 7 = pow-le-pow_right {n = 2} (omega arith) {i = i} {j = 7} (omega arith) in
    omega arith

pub byte_and :
    (b i k : ℕ)
    → i < 8
    → k < 8
    → bit (bit_and b (2 ^ 32 - 1 - 2 ^ i) % 256) k ≡ (if i == k then 0 else bit b k)
byte_and b i k small lt =
    bit-mod 8 (bit_and b (2 ^ 32 - 1 - 2 ^ i)) k lt
    ∙ bit-and_complement b (2 ^ i) k (small_pow i small) lt
    ∙ ground (arith, bit_pow i k)
