-- ===== src/Clock/Day.antt =====
-- The time of day that the counter stands for.
use ninix.Bits.{bit_or_shifted}
use ninix.Clock.{low_part, seconds, write_time, get_time_string}
use ninix.Base.{
  ltb, leb, if◌then◌else◌, ℕ, ◌+◌, ◌*◌, ◌/◌, ◌%◌, ◌^◌, ◌≤◌, ◌<◌, ◌≡◌, subst, ◌&&◌, arith,
}

-- The halves of the counter, shifted by 8, in one word.
low_part_lem :
    (high low : ℕ) → low < 2 ^ 32 → low_part high low ≡ low / 2 ^ 8 + high % 2 ^ 8 * 2 ^ 24
unfolding low_part
low_part_lem high low h =
    let e : high * 2 ^ 24 % 2 ^ 32 ≡ high % 2 ^ 8 * 2 ^ 24 = omega arith in
    rw e (bit_or_shifted 24 (low / 2 ^ 8) (high % 2 ^ 8) (omega arith))

-- While the counter is below 2 ^ 40, three hours at 100 MHz, `seconds` is the number of whole seconds
-- that it stands for.
pub seconds_lem :
    (high low : ℕ) → high < 2 ^ 8 → low < 2 ^ 32 → seconds high low ≡ (high * 2 ^ 32 + low) / 10 ^ 8
unfolding seconds
seconds_lem high low h l = omega (arith, low_part_lem high low l)

-- One more in the ninth bit of the upper half stands for 2 ^ 40 cycles, which are 10995 seconds; below
-- 2 ^ 40 cycles `seconds` goes on by 56416.
pub seconds_jump :
    (high low : ℕ)
    → high < 2 ^ 8
    → low < 2 ^ 32
    → (seconds (high + 2 ^ 8) low ≡ (high * 2 ^ 32 + low) / 10 ^ 8 + 56416)
      × ((high + 2 ^ 8) * 2 ^ 32 / 10 ^ 8 ≤ high * 2 ^ 32 / 10 ^ 8 + 10996)
unfolding seconds
seconds_jump high low h l = (omega (arith, low_part_lem (high + 2 ^ 8) low l), omega arith)

-- The characters at `buf` show the second `s` of the day, and no other byte has changed.
pub record Shown (s buf : ℕ) (m m' : ℕ → ℕ) : Type 0 where
  pub hours : m' buf * 10 + m' (buf + 1) ≡ 11 * 48 + s / 3600 % 24
  pub minutes : m' (buf + 3) * 10 + m' (buf + 4) ≡ 11 * 48 + s / 60 % 60
  pub seconds : m' (buf + 6) * 10 + m' (buf + 7) ≡ 11 * 48 + s % 60
  pub colons : (m' (buf + 2) ≡ 58) × (m' (buf + 5) ≡ 58)
  pub digits :
      (m' (buf + 1) ≤ 57)
      × (48 ≤ m' (buf + 1))
      × (m' (buf + 4) ≤ 57)
      × (48 ≤ m' (buf + 4))
      × (m' (buf + 7) ≤ 57)
      × (48 ≤ m' (buf + 7))
  pub others : (i : ℕ) → (if leb buf i && ltb i (buf + 8) then m i else m' i) ≡ m i

write_time-Shown : (s buf : ℕ) (m : ℕ → ℕ) → Shown s buf m (write_time s buf m)
unfolding write_time
write_time-Shown s buf m = record {
  hours = ground arith;
  minutes = ground arith;
  seconds = ground arith;
  colons = (ground arith, ground arith);
  digits = (ground arith, ground arith, ground arith, ground arith, ground arith, ground arith);
  others = λ i. ground arith;
}

-- While the counter is below 2 ^ 40, `get_time_string` writes the time of day, as hours, minutes and
-- seconds, of the whole seconds that the counter stands for at 100 MHz, and changes no byte outside
-- of the eight.
pub get_time_string-Shown :
    (high low buf : ℕ) (m : ℕ → ℕ)
    → high < 2 ^ 8
    → low < 2 ^ 32
    → Shown ((high * 2 ^ 32 + low) / 10 ^ 8) buf m (get_time_string high low buf m)
unfolding get_time_string
get_time_string-Shown high low buf m h l =
    subst (λ s. Shown s buf m (write_time (seconds high low) buf m)) (seconds_lem high low h l)
      (write_time-Shown (seconds high low) buf m)
