-- ===== src/Base/Words.antt =====
-- `unsigned int` is a native number below 2 ^ 32, with the wrap-around written out.
use Prim.Native.Nat.{ℕ, ◌%◌, ◌^◌}

abbrev pub word : ℕ
word = 2 ^ 32

abbrev pub u32 : ℕ → ℕ
u32 a = a % word
