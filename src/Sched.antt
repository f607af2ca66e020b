-- ===== src/Sched.antt =====
-- The scheduler of kernel/pc/pc.c and include/zjunix/pc.h. A task is named by the address of its
-- `task_struct`, 0 for NULL. A run queue or process list is the list of the tasks on it, first to
-- last: what `Ring` shows of list.h is that its operations act so on linked nodes.
pub mod State
pub mod Bitmap
pub mod Priority
pub mod Queue
pub mod Run
pub mod Init
pub mod Exit
pub mod Tick
pub mod Fork
mod Examples
