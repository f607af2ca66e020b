-- ===== src/Lib.antt =====
-- Ninix, a small operating system for a 32-bit MIPS machine: its linked lists, process numbers,
-- scheduler, memory from boot to slab, caches of the file systems, editor, clock and utilities, with what
-- makes them correct.
--
-- The parts and how they interact. kernel/pc/pc.c keeps two arrays of 64 run queues with a bitmap
-- each (active and expired), the list of processes and the running task. `fork` and `do_fork` take a
-- number from kernel/pc/pid.c, fill in a task and queue it; the clock interrupt calls
-- `scheduler_tick`, which ends slices and calls `schedule`; `pc_kill` and `pc_exit` take a task off
-- and give its number back. Queues and process list are the rings of include/zjunix/list.h.
-- kernel/mm/mybootmm.c hands out whole pages at boot from a byte map, and notes areas in a table of
-- ten entries; kernel/mm/mybuddy.c starts from that table and hands out blocks of up to 16 pages under
-- the lock of kernel/lock/lock.c; kernel/mm/myslab.c cuts its pages into objects for `kmalloc`. The file
-- systems keep pages and directory entries in the caches of kernel/vfs/vfscache.c, through which
-- kernel/vfs/read_write.c reads and writes, and the editor kernel/vfs/vi.c opens, reads and writes a
-- file whole. utils/utils.c and kernel/time/time.c stand by themselves.
--
-- Which file models what.
--   Ring, include/zjunix/list.h: `Links` is the memory of all `struct list_head`, and each operation a
--     function on it that writes in the order of the C. Ring/Chain has the predicate `Ring`, the list
--     of the nodes behind a head; Ring/Edit and Ring/Effects have what the operations do to it. Ring/Nodes
--     has the lists of nodes that the other parts keep in place of rings.
--   Pid, kernel/pc/pid.c: `Pids` is the bitmap with the cached number. Pid/Map says what the bits
--     mean, Pid/Alloc, Pid/Serial and Pid/Free treat `pid_alloc`, a run of calls, and `pid_free`.
--   Sched, kernel/pc/pc.c and include/zjunix/pc.h: Sched/State is the state, a task named by its address
--     and a queue by the list of the tasks on it. Sched/Bitmap has `set_bit_map`, `clear_bit_map` and
--     `update_highest_pro`; Sched/Priority priorities and slices; Sched/Queue `enqueue_task`,
--     `dequeue_task` and their kin; Sched/Init `init_pc`; Sched/Run `schedule` and `find_next_task`;
--     Sched/Tick `scheduler_tick`; Sched/Fork `fork`, `do_fork`, `sched_fork` and `wake_up_new_task`;
--     Sched/Exit `pc_kill` and `pc_exit`. The modules below each of them hold its theorems.
--   Bootmm, kernel/mm/mybootmm.c and include/zjunix/bootmm.h: Bootmm/Find has `find_pages` and
--     `bootmm_alloc_pages`, Bootmm/Info the table of areas, Bootmm/Init `init_bootmm`.
--   Buddy, kernel/mm/mybuddy.c and include/zjunix/buddy.h: the free lists; Buddy/Alloc has
--     `__alloc_pages` (here `alloc_block`) and `alloc_pages`, Buddy/Free `__free_pages` (here
--     `free_block`), `free_pages` and `init_buddy`. Lock, kernel/lock/lock.c.
--   Slab, kernel/mm/myslab.c and include/zjunix/slab.h: Slab has the caches and the head of a page;
--     Slab/Alloc `slab_alloc`, Slab/Free `slab_free`, Slab/Kmalloc `get_slab`, `kmalloc` and `kfree`.
--     Slab/Objects says when a page is in good order, and the other modules have the theorems.
--   Vfs: Vfs/Cache, the cache of pages of kernel/vfs/vfscache.c, with Vfs/Cache/Coherent for what its
--     table, order of use and size agree on; Vfs/Dentry, its directory entries and hashes, with
--     `generic_check_filename` of kernel/vfs/open.c; Vfs/File, kernel/vfs/read_write.c over a record
--     `FileSystem` of what a file system does, with `general_find_page`; Vfs/File/Input has
--     `generic_file_read`, Vfs/File/Output `generic_file_write` and `generic_file_flush`, and the
--     other modules what a read of cached pages delivers. Vfs/Tree has the entries and the mounts, with
--     `d_alloc`, `do_lookup`, `follow_dotdot` and the `follow_mount` of kernel/vfs/mount.c; Vfs/Open the
--     look-up of paths, Vfs/Open/Files `vfs_open` and `vfs_close`, Vfs/Open/Walk the names of a path one
--     by one, and Vfs/Open/Ends that this ends.
--   Editor, kernel/vfs/vi.c and include/zjunix/vi.h: `Vi` is `struct victrl` with the screen. Editor has
--     `insert_key` and `delete_key`, which Editor/Text compares with lists; Editor/Lines the movement by
--     lines, Editor/Screen the drawing, Editor/Modes the keys of the three modes and the window, and
--     Editor/Session `load_file`, `vfs_save` and `vi` over a record `Files`.
--   Utils, utils/utils.c: memory, strings, `pow` and `is_bound`. Clock, kernel/time/time.c: the time of
--     day that a cycle counter stands for.
--   Base has the names that all modules share and the machine words; Bits the operations `&`, `|` and
--     `~` bit by bit, and bitmaps over bytes. A module named Examples tries theorems at concrete states.
--
-- Conventions. An `unsigned int` is a natural number with its wrap-around modulo 2 ^ 32 written out; an
-- `int` is given by its 32 bits. A call through a null pointer, or a list head taken for a task, makes
-- the answer `none`. What a C program may not rely on is an argument: `wide` for shifts of 32 and more,
-- `junk` for a variable that was never written to. The clock, the address of fresh memory, the answer
-- of `get_phymm_size` and the registers of the interrupted code are arguments too.
--
-- Bounds and fuel. Loops with a known count carry the rounds left. `list_for_each` takes fuel, of which
-- one more than there are nodes is enough. The search of `find_pages` takes one more than the end of
-- the range, and each round goes on by a page at least; a byte that is neither of the two marks makes
-- the C loop for ever, and the model answers `none`. The string routines take one round more than the
-- text has characters. `__free_pages` takes four rounds, since each raises the order, and `alloc_pages`
-- 31, the orders of a word. The loops of the editor go by the place in the buffer or the
-- rounds left, and `vi` ends with its list of keys. The loops over the pages of a file carry the
-- number of pages; the look-up of a path takes a round for each byte, and the way up over mounts one
-- more than there are mounts.
--
-- What is not modelled: printing and the test programs of pc.c, the assembly of the switch and of the
-- timer, the drivers, and so far the page tables, the mounting of file systems, FAT32, EXT2 and the user
-- shell. What the operations of a file system do, readpage to lookup, is a parameter.

pub mod Base
pub mod Bits
pub mod Bootmm
pub mod Buddy
pub mod Clock
pub mod Editor
pub mod Lock
pub mod Pid
pub mod Ring
pub mod Sched
pub mod Slab
pub mod Utils
pub mod Vfs
