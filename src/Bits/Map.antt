-- ===== src/Bits/Map.antt =====
-- A bitmap over bytes: number `i` has bit `i & 7` of byte `i >> 3`.
use ninix.Bits.Byte.{byte_or, byte_and, byte_test}
use ninix.Bits.{bit, bit-le, bit_and_seven}
use ninix.Base.{◌==◌, if◌then◌else◌, update, ℕ, ◌-◌, ◌/◌, ◌%◌, ◌^◌, bit_and, bit_or, ◌≡◌, arith}

abbrev pub bit_at : (ℕ → ℕ) → ℕ → ℕ
bit_at m i = bit (m (i / 8)) (i % 8)

-- `m[i >> 3] & (1 << (i & 7))` as a test.
pub test_bit_at :
    (m : ℕ → ℕ) (i : ℕ) → (bit_and (m (i / 8)) (2 ^ bit_and i 7) == 0) ≡ (bit_at m i == 0)
test_bit_at m i = rw (bit_and_seven i) (byte_test (m (i / 8)) (i % 8))

-- `m[i >> 3] |= 1 << (i & 7)`.
pub bit_at-set :
    (m : ℕ → ℕ) (i k : ℕ)
    → bit_at (update m (i / 8) (bit_or (m (i / 8)) (2 ^ bit_and i 7) % 256)) k
      ≡ (if i == k then 1 else bit_at m k)
bit_at-set m i k =
    ground (
      arith,
      bit_and_seven i,
      byte_or (m (i / 8)) (bit_and i 7) (k % 8),
      bit-le (m (i / 8)) (k % 8),
    )

-- `m[i >> 3] &= ~(1 << (i & 7))`.
pub bit_at-clear :
    (m : ℕ → ℕ) (i k : ℕ)
    → bit_at (update m (i / 8) (bit_and (m (i / 8)) (2 ^ 32 - 1 - 2 ^ bit_and i 7) % 256)) k
      ≡ (if i == k then 0 else bit_at m k)
bit_at-clear m i k =
    ground (
      arith,
      bit_and_seven i,
      byte_and (m (i / 8)) (bit_and i 7) (k % 8),
      bit-le (m (i / 8)) (k % 8),
    )
