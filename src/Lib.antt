-- ===== src/Lib.antt =====
-- NeuroSpark, a 32-bit kernel in C: models of its core parts and the theorems that make them
-- right.
--
-- The parts, and the files that model them:
--
-- PageCache - kernel/page_cache.c and its header, the write-back cache of 32 sectors with a clock
--   hand. `read`, `write`, `flush_all`, `init`, `get_stats` and `reset_stats` are the functions
--   `page_cache_...` of the source; `flush_line` and `pick_victim_line` are its helpers. The drive
--   (`disk_read_sector_uncached` and `disk_write_sector_uncached`) is the record
--   `Device.BlockDevice`; `Device.IsReliable` says of a drive that it takes every write and reads
--   it back. Coherence, Fill, Read, Write and Victim carry the proofs, Client states what a caller
--   may rely on, Loss what happens when the drive refuses a write: the source's `void` function
--   keeps that from its caller, the record's answer says it to the reader.
-- Task - kernel/task.h and kernel/task.c, the task table `os_tasks` as a function from slots, and
--   the trace calls.
-- Scheduler - kernel/scheduler.c and its header. The record `Sched` holds `os_tasks`,
--   `os_task_count`, `os_current_task`, `scheduler_ticks` and `sched_metrics`. Clock models the
--   timer tick and sleeping, Exit the end of a task, WaitQueue the wait queues and events, Ipc the
--   four channels. The scheduler's lock is held with interrupts off, so a locked stretch is one
--   step; a function is modelled up to its context switch. Reach closes the operations under any
--   order.
-- Pmm - kernel/pmm.c, the page bitmap and the slab caches. `Pages.used` reads the bitmap as a set
--   of pages; Stats has the scan for runs; Bits has the facts on binary digits. In Slab the first
--   words of the free objects are a function from addresses.
-- AiScheduler - kernel/ai_scheduler.c and its header, two rings of 64 jobs and the drain. The
--   runtime, kernel/ai_runtime.c, is a parameter: a state and the call `ai_runtime_infer`. The
--   pointers of a job are addresses in two memories, one for results and one for flags.
-- RemoteAuth - kernel/remote_auth.c and its header: the token and session, the audit ring (Audit)
--   and the transfers (Transfer). `tick` is an argument.
-- Pipeline - kernel/pipeline_graph.c and its header: the tables of nodes and edges. An edge takes
--   its ring from the model of kernel/pmm.c.
-- Neuro - kernel/neuromorphic/driver_core.c and its header: the simulated neurons. `excited` and
--   `decayed` are what a spike and a read do to a potential.
-- Vfs - kernel/vfs.c and its header. In Descriptors the record `State` holds `mounts`, `fd_table`
--   and `task_fd_map`, and `current` is the task that calls; the backends' own state is its field
--   `world`, and the pointer to a table of operations is an address that the parameter `backend`
--   resolves. Mounts resolves paths and holds what goes through a path, whole files too; Below
--   says of the texts which mounts a path lies below. Pipes and Ramdisk are two backends; World
--   joins them and adds `vfs_init` and `vfs_pipe`. The tables of TFS and ext2 are the parameter
--   `others`. A buffer is a function from indices and `none` is the null pointer; a path is the
--   list of its characters and is never null. Refs, Balance, Dup, Operations and Clone are about
--   reference counts, Calls about any order of calls, Valid, Kept, Entries, Content, Opening and
--   Session about the ramdisk, Files, Loops and RoundTrip about a whole file.
-- ModelManager - kernel/model_manager.c and its header: kinds and parameters of the two tasks'
--   neurons (Gains what they do to the simulation), the learning step of a spike (Spike) and the
--   stored settings (Manifest). The neurons of kernel/kernel.c, by pixel and number, are part of
--   the state.
-- Partition - kernel/partition.c and its header, the MBR and GPT scans, over a drive that is a
--   function from sectors to bytes. Reference reads the tables off the bytes, without the code.
--   The loop over a GPT's entries has the rounds that the header says.
-- Prelude - Boolean tests, arrays as functions from indices, lists, 32-bit counters, the integers,
--   and windows of a ring.
--
-- A C array is a function from all natural numbers, of which the code looks at the first few;
-- 32-bit counters wrap as `% 2 ^ 32` in `add32`, `sub32` and `inc32`; a signed number is an
-- element of ℤ. Where the source adds to an `int` of its caller, the sum wraps on 32 bits
-- (`wrap_int`), which C leaves undefined; the other sums of `int` stay small. An answer 0 or -1
-- that stands for a failure is `none` or `false`, or the number itself where the source's other
-- answers can be that number too: the page 0 of `pmm_alloc_page`, and the numbers that
-- `pipeline_add_node` and `pipeline_link` answer. A null pointer to where an answer belongs, which
-- the source refuses at once, is left out, but where its refusal changes a counter.
--
-- Loops are recursions on the number of rounds that the source's bound gives: 64 for the clock
-- hand, of which 33 suffice, 128 for the wait of a submitted job, of which one suffices, and the
-- sizes of the tables elsewhere. The loops of `vfs_read_file` and `vfs_write_file` have as many
-- rounds as bytes, since a round moves one at least. The loop of `wait_queue_wake_one` runs on the
-- queue's count. No fuel is added to the source's own bounds.
--
-- Not modelled: the blocking IPC calls and the assembly of the context switch, `create_task`, the
-- output of `pmm_print_map`, `slab_get_stats`; of kernel/vfs.c the file system TFS,
-- `vfs_list_mounts`, `vfs_mount_backend` and the calls on directories, modes, owners and symbolic
-- links, which only forward to a backend; and the other parts of the kernel: ext2, network,
-- drivers, window manager, shell, system calls and the AI runtime. `vfs_init` does not clear the
-- handles of TFS in the model. Two processors are not considered, since the kernel runs on one.
pub mod Prelude
pub mod PageCache
pub mod Task
pub mod Scheduler
pub mod Pmm
pub mod AiScheduler
pub mod RemoteAuth
pub mod Pipeline
pub mod Neuro
pub mod Vfs
pub mod ModelManager
pub mod Partition
