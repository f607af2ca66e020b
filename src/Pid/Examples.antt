-- ===== src/Pid/Examples.antt =====
-- The theorems on process numbers at concrete states.
use ninix.Pid.{Pids, init_pid, pid_check, pid_alloc, pid_free, no_pid}
use ninix.Pid.Alloc.{IsValid, Handed, NoneFrom, pid_alloc_lem}
use ninix.Pid.Free.{pid_free_lem}
use ninix.Pid.Serial.{alloc_many, alloc_many-init_pid}
use ninix.Base.{ltb, ◌==◌, if◌then◌else◌, ℕ, ◌≡◌, refl, ◌⊎◌, false, ◌&&◌, ◌||◌, [], ◌∷◌, arith}

-- The map with garbage in it, and after `init_pid`.
abbrev raw : Pids
raw = record { pidmap = λ i. 77; next_pid = 9 }

abbrev fresh : Pids
fresh = record { pidmap = λ i. if i == 0 then 1 else 0; next_pid = 1 }

fresh-IsValid : IsValid fresh
fresh-IsValid = (omega arith, omega arith)

pid_alloc_example :
    Handed fresh (pid_alloc fresh) ⊎ ((pid_alloc fresh ≡ (fresh, no_pid)) × NoneFrom 1 fresh)
pid_alloc_example = pid_alloc_lem fresh fresh-IsValid

alloc_many_example : (alloc_many 3 (init_pid raw)).1 ≡ 1 ∷ 2 ∷ 3 ∷ []
alloc_many_example = alloc_many-init_pid raw 3 (omega arith)

-- Number 5 is in use, and `pid_free` does not give it back.
abbrev five_used : Pids
five_used = record { pidmap = λ i. if i == 0 then 33 else 0; next_pid = 6 }

five-used : pid_check five_used.pidmap 5 ≡ false
unfolding pid_check
five-used = refl

pid_free_example :
    ((pid_free (λ n. 0) five_used 5).1 ≡ 0)
    × ((q : ℕ)
        → pid_check (pid_free (λ n. 0) five_used 5).0.pidmap q
          ≡ (pid_check five_used.pidmap q || ((5 == q) && ltb 5 3)))
pid_free_example = pid_free_lem (λ n. 0) five_used 5 (omega arith) five-used
