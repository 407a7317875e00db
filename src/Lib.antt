-- ===== src/Lib.antt =====
-- Aegis is an operating system whose processes hold capabilities. Its kernel (kernel/) is written in C, with
-- the capability table in Rust. This library models parts of the kernel that keep state of their own:
--
--   Pipe   kernel/fs/pipe.c and pipe.h. The ring of a pipe, one round of a read and of a write at a time, as
--          they stand between two calls of the scheduler; the loops that block take what other tasks do while
--          the task sleeps as an argument. Wake-ups, SIGPIPE and the release of the page are effects.
--   Vma    kernel/mm/vma.c and vma.h. The sorted table of a process's mappings: insert with its merges, remove
--          and update_prot with their splits, the capacity, sharing and release of the table's page.
--   Pmm    kernel/mm/pmm.c and pmm.h. The bitmap of physical pages and the counts of their owners: start-up
--          from the memory map, allocation, sharing, release, the number of free pages.
--   Cap    kernel/cap/src/lib.rs and cap.h (Table, Kind), kernel/cap/cap_policy.c (Names, Policy, Load), the
--          tables that execve and spawn compute in kernel/syscall/sys_exec.c (Exec), and the calls of
--          kernel/syscall/sys_cap.c (Calls). A policy file's bytes become capabilities (Line, Parse, Text, Lines), a
--          directory's files a table of policies (Image, Found), and these the checks of an executed image
--          (Executed).
--   Cache  kernel/fs/ext2_cache.c. The block cache of ext2 over a device that may fail.
--   Ramfs  kernel/fs/ramfs.c and ramfs.h. The table of files in memory, their reads and writes.
--   Futex  kernel/syscall/futex.c and futex.h. The pool of waiters with FUTEX_WAIT and FUTEX_WAKE.
--   Ranges the free lists of addresses that Kva and Mmap have in common: best fit, splitting, merging.
--   Kva    kernel/mm/kva.c. Ranges of kernel addresses and the pages behind them.
--   Mmap   kernel/syscall/sys_memory.c. brk, mmap, munmap and mprotect (System) with the addresses that they
--          choose, over the table of ranges of Vma.
--   Tty    kernel/tty/tty.c. The line discipline: reads in both modes (Read), writes (Read), ioctl (Ioctl).
--   Vmm    kernel/mm/vmm.c. The user half of the page tables: lookup, mapping, unmapping, protection.
--   Waitq  kernel/sched/waitq.c and waitq.h. Queues of waiting tasks, linked through their callers' entries.
--   Base   what these share: lists measured by native numbers, Boolean tests, machine integers.
--
-- The parts meet as in the kernel: exec and spawn read the policies that the start-up loaded and fill a
-- table of capabilities, which the calls check. Mmap enters what it maps into the table of Vma, and Kva and
-- Mmap share Ranges. Vmm takes the pages for its tables from Pmm. Pipe, Vma and Ramfs take a page from an
-- allocator, which is an argument.
--
-- How the code corresponds. A C struct is a record, an array a list or, where only single cells are read and
-- written, a function from the index. A function that changes its argument returns the new state. A negative
-- errno is a constructor with the number, a null pointer `none`. uint32_t and uint64_t arithmetic that can wrap
-- is written with `u32` and `u64`. Spinlocks are left out: a function that holds one from its first to its last
-- access is one step. `panic_halt` is a result of its own.
--
-- Loops. A loop over an array is recursion over the slots. The rounds of Pmm's region loops, of the copy
-- loop of Ramfs and of the policy parser are counted by fuel: the number of pages, the number of bytes to
-- copy, the length of the text plus one. It is enough since each round takes a page, a byte or a letter at
-- least; the parser returns `none` if it ever ran out, and the entries of it below say that it does not. The
-- loops over pages in Kva and Mmap are recursion on the number of pages, rounded up; the loop that copies a
-- file into a mapping takes at least a byte a round. The walk of Vmm, written out level by level in the
-- code, is recursion on the level. The rounds of waitq_wake_all are counted too: `Waitq.wake_all` returns
-- `none` if there are more than its caller allows, and one round is enough for fewer than 64 waiters.
--
-- What is left out: drivers, the kernel half of the page tables, the scheduler but for its wait queues, the
-- network, the file systems on disk but for their cache, and the programs of user/. What the modelled code
-- calls there is a parameter: the allocator's page, the files of the policy directory, `user_ptr_valid`, the
-- device's successes. Kva and Mmap take the page tables as records of operations, `Kva.PageOps` and
-- `Mmap.UserPages`, which Vmm does not fill yet. Messages are not modelled.
pub mod Base
pub mod Kva
pub mod Pipe
pub mod Mmap
pub mod Tty
pub mod Vma
pub mod Vmm
pub mod Waitq
pub mod Pmm
pub mod Cap
pub mod Cache
pub mod Ramfs
pub mod Ranges
pub mod Futex
