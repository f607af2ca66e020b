-- ===== src/Clock/Examples.antt =====
-- The theorems on the clock at concrete counters.
use ninix.Clock.{get_time_string}
use ninix.Clock.Day.{Shown, get_time_string-Shown}
use ninix.Base.{◌+◌, ◌*◌, ◌/◌, ◌^◌, arith}

time_example : Shown ((3 * 2 ^ 32 + 5) / 10 ^ 8) 100 (λ i. 0) (get_time_string 3 5 100 (λ i. 0))
time_example = get_time_string-Shown 3 5 100 (λ i. 0) (omega arith) (omega arith)
