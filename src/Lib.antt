-- ===== src/Lib.antt =====
-- The core of PatchworkOS: the kernel's memory managers and page tables, its scheduler and locks, its
-- pipes and file tables, and the memory routines of its C library.
--
-- Parts and how they interact:
--   Base      shared names, Boolean tests, 64-bit words, loops, bits, maps and sums.
--   Str       src/stdlib/string.c. `memcpy`, `memmove` and `memset` work on a byte memory
--             (Str.Memory) by the 64-bit accesses and unrolled loops of the code; `strlen`, `strchr` and
--             `strrchr` (Str.Strings) on a string as the list of its characters; Str.Texts has the functions
--             that copy and compare texts in that memory, Str.Digits has `ulltoa` of src/stdlib/stdlib.c.
--   Ring      src/kernel/ring.h, a byte ring in that memory; its transfers call `memcpy`.
--   Pipe      src/kernel/pipe.c over the ring. A call is one attempt under the pipe's lock, which
--             ends or blocks; `Pipe.Stream` is the step relation over attempts, closings and the
--             users' own writes.
--   Pmm       src/kernel/pmm.c and pmm.h: the page stack that lives in the free pages (Pmm.Stack), the
--             bitmap of the pages below 1 MiB (Pmm.Bitmap), and the calls over both.
--   Heap      src/stdlib/stdlib.c (malloc, free) over src/stdlib/internal/heap.c, as built for the kernel.
--             The `next` chain is a list of blocks with their addresses.
--   Sched     src/kernel/sched.c over queue.h, thread.c and include/stdlib/sys/list.h. Threads,
--             processes, processors and blockers are numbers; `Kernel` maps them to their fields.
--             `sched_schedule` is the step of the timer interrupt on one processor.
--             Sched.Process is src/kernel/thread.c: how threads and processes are made and freed.
--   Pml       src/kernel/pml.c and pml.h, page tables of four levels whose tables come from `pmm_alloc`.
--             A table is known by its address in the higher half. Pml.Shape says that the tables form a
--             tree with no part of it free; Pml.Look is the address space that the tables show; Pml.Free
--             is pml_free.
--   Vmm       src/kernel/vmm.c and space.c: regions of an address space are allocated, mapped, unmapped
--             and protected through Pml, and vmm_find_free_region looks for a free one; a space is made by
--             space_init and taken away by space_cleanup.
--   Syscall   src/kernel/syscall.c: the checks of user addresses, and munmap and mprotect behind them.
--   Lock      src/kernel/lock.h, the ticket lock, with cli_push and cli_pop of trap.c, as a step relation
--             over any number of processors.
--   Links     include/stdlib/sys/list.h: the entries of lists in memory with their `prev` and `next`.
--   Vfs       src/kernel/vfs.c and vfs.h: reference counts of files (Vfs.Files), names and labels in
--             paths (Vfs.Names), canonical paths (Vfs.Canonical, Vfs.Parse), the list of volumes
--             (Vfs.Volumes); and src/kernel/vfs_context.c, the table of open files of a process
--             (Vfs.Table).
--   Node      include/stdlib/sys/node.h: lookup of a path in a tree of named nodes. Nodes are values.
--   Ramfs     src/kernel/ramfs.c, the files in memory: reads and seeks of an open file, and opening,
--             listing and the type of a path over Node, with dir_entry_push of vfs.h.
--   MsgQueue  src/kernel/dwm/msg_queue.c, the messages of a window, each with MSG_MAX_DATA bytes of data.
--
-- Numbers: machine words are natural numbers; where the code can wrap, add64, sub64 and mul64 of
-- Base.Words write the wrap-around out. Indices that stay below an array's bound are added plainly.
--
-- Fuel: a loop of Str runs on one round more than its byte count, which each round lowers. The search
-- of the bitmap has as many rounds as pages below its limit, and ends in fewer (the case `running` is
-- refuted). `vfs_make_canonical` takes one round for each name of its path, and one for a '/' in front.
-- The searches of Sched restart once for each waiting thread and once more; they are proved equal to a
-- structural search of the list of waiting threads. `ulltoa` takes at most 64 rounds, as each halves the
-- number; a text takes one round for each character and one more. vmm_find_free_region takes one round
-- for each region that it passes. node_traverse takes one for each name. The levels of pml_free count down
-- from 4. Mapping a page takes at most three tables, and the page stack may lose a page with each one that
-- it gives: six free pages for each page to map are enough, and eight where the page is allocated too.
-- All other loops are structural.
--
-- Concurrency: each modelled call is one step. Those of Pmm, Heap, Pipe, Vfs and MsgQueue hold
-- one lock from start to end; a blocking call is one attempt between two waits. The scheduler's calls
-- lock each queue alone: what processors do between two of these locks is not modelled. Outside Links, a
-- `list_t` is the sequence of its elements. Lock has the steps of all processors in any order, with each
-- atomic access as one step; Lock.Fair is about runs without end.
--
-- Not modelled: interrupts, SIMD and address space switches inside thread_load, the kernel's first
-- tables, the loading and mounting of the files in memory, a wait of a pipe's call that does not end
-- normally (it returns 0), the effects of a file's cleanup, log output, user-space builds of the heap,
-- device drivers, the bootloader, the drawing of the window system, the programs, and the vendored
-- lib/gnu-efi.
pub mod Base
pub mod Lock
pub mod Links
pub mod Str
pub mod Ring
pub mod Pmm
pub mod Pml
pub mod Vmm
pub mod Syscall
pub mod Heap
pub mod Sched
pub mod Vfs
pub mod Node
pub mod Ramfs
pub mod Pipe
pub mod MsgQueue
