-- ===== src/Clock.antt =====
-- The clock of kernel/time/time.c: the counter of cycles as a time of day. The handler and the reading
-- of the counter are assembly and output.
pub mod Day
mod Examples
use ninix.Base.{leb, if◌then◌else◌, update, ℕ, ◌+◌, ◌*◌, ◌/◌, ◌%◌, ◌^◌, bit_or, Option, none, some}

-- The fraction of a second, 100000000 / 256.
abbrev pub freq : ℕ
freq = 390625

-- `ticks_low` and `ticks_high` after the division by 256.
unfoldable pub low_part : (ticks_high ticks_low : ℕ) → ℕ
low_part ticks_high ticks_low = bit_or (ticks_low / 2 ^ 8) (ticks_high * 2 ^ 24 % 2 ^ 32)

unfoldable pub seconds : (ticks_high ticks_low : ℕ) → ℕ
unfolding low_part
seconds ticks_high ticks_low =
    let second = ticks_high / 2 ^ 8 % freq in
    let scaled = (second * 10995 % 2 ^ 32 + second * 45421 % 2 ^ 32 % freq) % 2 ^ 32 in
    (scaled + low_part ticks_high ticks_low / freq) % 2 ^ 32

-- A digit as a character.
abbrev pub digit : ℕ → ℕ
digit d = d + 48

-- The eight characters, at the address `buf`.
unfoldable pub write_time : (second buf : ℕ) → (ℕ → ℕ) → ℕ → ℕ
write_time second₀ buf m₀ =
    let minute₀ = second₀ / 60 in
    let hour = minute₀ / 60 % 24 in
    let second = second₀ % 60 in
    let minute = minute₀ % 60 in
    let m₁ = update m₀ buf (digit (hour / 10)) in
    let m₂ = update m₁ (buf + 1) (digit (hour % 10)) in
    let m₃ = update m₂ (buf + 2) 58 in
    let m₄ = update m₃ (buf + 3) (digit (minute / 10)) in
    let m₅ = update m₄ (buf + 4) (digit (minute % 10)) in
    let m₆ = update m₅ (buf + 5) 58 in
    let m₇ = update m₆ (buf + 6) (digit (second / 10)) in update m₇ (buf + 7) (digit (second % 10))

unfoldable pub get_time_string : (ticks_high ticks_low buf : ℕ) → (ℕ → ℕ) → ℕ → ℕ
unfolding seconds write_time
get_time_string ticks_high ticks_low buf m = write_time (seconds ticks_high ticks_low) buf m

-- With the zero behind them; the assertion that the buffer is long enough ends the system otherwise.
unfoldable pub get_time : (ticks_high ticks_low buf len : ℕ) → (ℕ → ℕ) → Option (ℕ → ℕ)
unfolding get_time_string
get_time ticks_high ticks_low buf len m =
    if leb 9 len
    then some (update (get_time_string ticks_high ticks_low buf m) (buf + 8) 0)
    else none
