-- ===== src/Lock.antt =====
-- The spin lock of kernel/lock/lock.c on one processor, with the interrupt flag of its status register.
-- The list of waiting tasks is set up and never used.
use ninix.Base.{◌==◌, if◌then◌else◌, ℕ, ◌≡◌, Bool, true, false, arith}

pub record Lock : Type 0 where
  pub spin : ℕ
  pub interrupts : Bool

unfoldable pub init_lock : Lock → Lock
init_lock l = record l { spin = 0 }

-- `if (old_ie) enable_interrupts();`.
unfoldable pub restore : Bool → Lock → Lock
restore old_ie l = if old_ie then record l { interrupts = true } else l

-- A lock that is held is taken as well.
unfoldable pub lockup : Lock → Lock
unfolding restore
lockup l = restore l.interrupts (record { spin = 1; interrupts = false })

unfoldable pub unlock : Lock → Lock
unfolding restore
unlock l =
    restore l.interrupts (record { spin = if l.spin == 0 then l.spin else 0; interrupts = false })

pub spin-lockup : (l : Lock) → ((lockup l).spin ≡ 1) × ((lockup l).interrupts ≡ l.interrupts)
unfolding lockup
spin-lockup l = ground arith

pub spin-unlock : (l : Lock) → ((unlock l).spin ≡ 0) × ((unlock l).interrupts ≡ l.interrupts)
unfolding unlock
spin-unlock l = ground arith
