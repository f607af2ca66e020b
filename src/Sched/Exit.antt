-- ===== src/Sched/Exit.antt =====
-- `pc_kill`, `pc_exit` and the search for a task by its number.
pub mod Kill
pub mod Leave
use ninix.Pid.{pid_num, idle_pid, init_pid_number, pid_check, pid_free}
use ninix.Sched.State.{Task, Sched, put_task, terminal}
use ninix.Sched.Queue.{delete_task}
use ninix.Sched.Run.{find_next_task}
use ninix.Base.{leb, ◌==◌, if◌then◌else◌, ℕ, true, false, Option, some, List, [], ◌∷◌, ◌>>=◌}

-- `list_for_each` over the processes; 0 is NULL.
unfoldable pub search_processes : (ℕ → Task) → ℕ → List ℕ → ℕ
search_processes tasks pid [] = 0
search_processes tasks pid (p ∷ ps) =
    if (tasks p).pid == pid then p else search_processes tasks pid ps

unfoldable pub find_in_processes : Sched → ℕ → ℕ
unfolding search_processes
find_in_processes s pid =
    if pid == idle_pid then s.idle else search_processes s.tasks pid s.processes

-- Takes the task out and frees its number; the answer is 0 for success.
unfoldable pub kill_task : (ℕ → ℕ) → Sched → ℕ → ℕ → Option (Sched × ℕ)
kill_task wide s pid p = do
  s' ← delete_task (put_task s p (record (s.tasks p) { state = terminal })) p
  some (record s' { pids = (pid_free wide s'.pids pid).0; interrupts = true }, 0)

unfoldable pub pc_kill : (ℕ → ℕ) → Sched → ℕ → Option (Sched × ℕ)
unfolding find_in_processes kill_task
pc_kill wide s pid =
    if leb pid_num pid
    then some (s, 1)
    else if pid == idle_pid
    then some (s, 1)
    else if pid == init_pid_number
    then some (s, 1)
    else if pid == (s.tasks s.current_task).pid
    then some (s, 1)
    else if pid_check s.pids.pidmap pid
    then some (s, 1)
    else (let s' = record s { interrupts = false } in
        let p = find_in_processes s' pid in
        if p == 0 then some (s', 0) else kill_task wide s' pid p)

-- Up to `switch_ex`, which loads the registers of the new current task. `now` is the local of
-- `find_next_task` that nothing writes to.
unfoldable pub pc_exit : (ℕ → ℕ) → ℕ → ℕ → Sched → Option Sched
pc_exit wide junk now s = do
  let temp = s.current_task
  s₁ ← delete_task (put_task s temp (record (s.tasks temp) { state = terminal })) temp
  (s₂, next) ← find_next_task junk now s₁
  some (record s₂ { pids = (pid_free wide s₂.pids (s₂.tasks temp).pid).0; current_task = next })
