-- ===== src/Pid.antt =====
-- The process numbers of kernel/pc/pid.c: a bitmap of 256 bits, and the number to try next.
-- `pidmap` is the memory from the array on, so that an index past its 32 bytes has a meaning too.
pub mod Map
pub mod Alloc
pub mod Free
pub mod Serial
mod Examples
use ninix.Base.{
  ltb, leb, ◌==◌, if◌then◌else◌, update, ℕ, zero, suc, ◌+◌, ◌-◌, ◌/◌, ◌%◌, ◌^◌, bit_and, bit_or,
  Bool, false, ◌&&◌, ◌||◌,
}

abbrev pub pid_num : ℕ
pid_num = 256

abbrev pub pid_bytes : ℕ
pid_bytes = (pid_num + 7) / 8

abbrev pub idle_pid : ℕ
idle_pid = 0

abbrev pub init_pid_number : ℕ
init_pid_number = 1

-- -1 as a `pid_t`, which is unsigned.
abbrev pub no_pid : ℕ
no_pid = 2 ^ 32 - 1

pub record Pids : Type 0 where
  pub pidmap : ℕ → ℕ
  pub next_pid : ℕ

-- `for (i = 1; i < PID_BYTES; i++) pidmap[i] = 0;` with the rounds left.
clear_bytes : ℕ → ℕ → (ℕ → ℕ) → ℕ → ℕ
clear_bytes zero i m = m
clear_bytes (suc n) i m = clear_bytes n (i + 1) (update m i 0)

unfoldable pub init_pid : Pids → Pids
unfolding clear_bytes
init_pid s = record {
  pidmap = update (clear_bytes (pid_bytes - 1) 1 s.pidmap) 0 1;
  next_pid = init_pid_number;
}

-- 1: the number can be handed out.
unfoldable pub pid_check : (ℕ → ℕ) → ℕ → Bool
pid_check m pid =
    if leb pid_num pid || ltb pid idle_pid
    then false
    else bit_and (m (pid / 8)) (2 ^ bit_and pid 7) == 0

-- `pidmap[pid >> 3] |= 1 << (pid & 7)`, stored in a byte.
unfoldable pub claim : (ℕ → ℕ) → ℕ → ℕ → ℕ
claim m pid = update m (pid / 8) (bit_or (m (pid / 8)) (2 ^ bit_and pid 7) % 256)

-- The loop over `i` and what follows it, with the rounds left; it ends at 255.
scan : ℕ → ℕ → Pids → Pids × ℕ
scan zero i s =
    if (i == pid_num - 1) && pid_check s.pidmap i
    then (record { pidmap = claim s.pidmap i; next_pid = 1 }, i)
    else (s, no_pid)
scan (suc n) i s =
    let rest = scan n (i + 1) s in
    if pid_check s.pidmap i
    then (record { pidmap = claim s.pidmap i; next_pid = i + 1 }, i)
    else rest

unfoldable pub pid_alloc : Pids → Pids × ℕ
unfolding scan
pid_alloc s =
    if pid_check s.pidmap s.next_pid
    then (
      record {
        pidmap = claim s.pidmap s.next_pid;
        next_pid = if ltb s.next_pid (pid_num - 1) then s.next_pid + 1 else 1;
      },
      s.next_pid,
    )
    else scan (pid_num - 2) 1 s

-- `1 << n` on an `int`. C leaves it open for 32 and more, so the machine's answer is `wide n`.
unfoldable pub shift_one : (ℕ → ℕ) → ℕ → ℕ
shift_one wide n = if ltb n 32 then 2 ^ n else wide n

-- `pidmap[pid>>3] &= (~(1<<pid&0x07))`: the shift binds tighter than `&`, so the mask is the three
-- low bits of `1 << pid`. The result is 0 for success.
unfoldable pub pid_free : (ℕ → ℕ) → Pids → ℕ → Pids × ℕ
unfolding shift_one
pid_free wide s pid = if pid_check s.pidmap pid then (s, 1) else (
  record s {
    pidmap =
        update s.pidmap (pid / 8)
          (bit_and (s.pidmap (pid / 8)) (2 ^ 32 - 1 - bit_and (shift_one wide pid) 7));
  },
  0,
)
