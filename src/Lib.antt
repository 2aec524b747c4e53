-- ===== src/Lib.antt =====
-- A verification of parts of the kernel under src/sys: a small Unix-like kernel for one RISC-V hart,
-- with threads, pipes, a file system over a block cache, and user processes.
--
-- The parts, and how they interact. A user program enters through src/sys/syscall.c, whose calls work
-- on the descriptor table of the process (src/sys/process.h). A descriptor names an I/O object of
-- src/sys/io.c: a reference count and a table of endpoint functions, which devices, files, pipes, memory
-- and seekable objects fill. Files go through the block cache (src/sys/cache.c) to a block device.
-- Threads (src/sys/thread.c) wait on conditions, which pipes, locks, alarms (src/sys/timer.c) and
-- interrupt handlers broadcast; the interrupt controller is driven by src/sys/plic.c. Pages of physical
-- memory come from src/sys/memory.c.
--
-- The files, and what they model:
--   Base      The shared vocabulary: native numbers with Boolean tests, lists measured by them, the
--             error numbers of src/sys/error.h, and the result `Ret` of a call: a value, an error number,
--             or a crash, which is a failed assertion, a panic or an access through NULL.
--   Cache     src/sys/cache.c: `find`, `evict`, `load_block` and `get_block` are the parts of
--             cache_get_block in the order of the code, `release_block` is cache_release_block, `flush`
--             is cache_flush. The entries are a list, oldest first; an entry is known by the address of
--             its allocation, which is a parameter. The block device is a parameter with the laws of
--             `Bdev`. Cache.View says which contents a cache stands for.
--   Io        src/sys/io.c, the calls through an endpoint table, and reference counts. The endpoint's
--             functions are fields of a record. The loops of iofill and iowrite run on fuel, one unit for
--             each byte asked for, which is enough because each round but the last moves a byte.
--   Memio     src/sys/io.c, the memory I/O object, with memcpy of src/sys/string.c.
--   Seekio    src/sys/io.c, the seekable I/O object. Positions are 64-bit words, and the subtraction
--             that may wrap is written so. The backing endpoint is a parameter.
--   Pipe      src/sys/io.c, pipes: the start of a call of pipe_read or pipe_write, a round of its loop, and
--             pipe_close are steps. A call takes the lock of the pipe and keeps it up to its end, also
--             while it waits; an interleaving is a sequence of steps of threads. The positions are size_t
--             and wrap.
--   Timer     src/sys/timer.c: the list of alarms, alarm_sleep with its loop, the timer interrupt. The sie
--             register is given by its bits, and csrs_sie and csrc_sie take the masks that the code gives.
--   Pages     src/sys/memory.c, the allocator of physical pages, a list of chunks.
--   Threads   src/sys/thread.c: states, the ready list, the wait lists, the switch (Threads), locks and
--             exit (Threads.Locks), spawn, join and reclaim (Threads.Life), the runs of the kernel
--             (Threads.Reach). The lists are queues; Threads.Links has them as the code does, with head,
--             tail and list_next, and relates the two. A function that turns interrupts off is one step
--             up to the switch; what a thread does after it is switched to again is a step of its own,
--             so that every interleaving that the switches allow is a sequence of calls.
--   Fds       src/sys/syscall.c and src/sys/process.c: the descriptor table, allocate_fd, sysclose,
--             sysiodup and syspipe, with the reference counts of the objects, which wrap, and
--             with a flag for each object that says that its close has run.
--   Plic      src/sys/plic.c, all functions. A register of enable bits is given by its bits.
--   Strings   src/sys/string.c: comparison, search, strtoul, and the formatting of numbers and texts.
--             The digits of format_int run on fuel, the 40 bytes of its buffer, and what would be a write
--             outside the buffer is `none`.
--   Exec      The functions of the file system, which change the store and may fail: what has been changed
--             before an error stays changed.
--   Ktfs      src/sys/ktfs.c. Ktfs.Store is what it uses of the cache, as an interface with laws, and
--             Ktfs.Store.OverCache fills it by the functions of the cache. Ktfs.Codec has the packed
--             structures, Ktfs.Inodes the inodes and the bitmap, Ktfs.Blocks the map from a part of a file
--             to its block, growing and freeing, Ktfs.Files the calls on an open file and ktfs_mount, and
--             Ktfs.Names ktfs_open, ktfs_create and ktfs_delete. fs_lock makes each call one step. The loops
--             over the bytes of a request have fuel for a round for each byte and one more; the search for
--             a free inode has 65537 rounds, after which its 16-bit counter has been at each number.
--   Vm        src/sys/memory.c, the page tables: map_page and the entries (Vm), ranges of pages, the fault
--             handler, reset and discard (Vm.Spaces), clone_active_mspace (Vm.Clone), the checks of user
--             pointers (Vm.Check), and memory_init (Vm.Init). Tables are known by their addresses, and
--             `satp` is a part of the state.
--             The loop of validate_vstr has a round for each address up to the last one.
--   Device    src/sys/device.c. A driver's open function is a parameter.
-- In each of these a child module Tests has runs at concrete inputs, and the other children have the
-- theorems.
--
-- Not modelled: processes, the program loader, the dispatch of system calls and interrupts, the kernel heap,
-- and the parser of format strings, which no file models; the drivers of src/sys/dev, whose other side is
-- the emulator; assembler, start-up code, consoles and test programs; the programs under src/usr and the
-- tools under src/util. Interrupts are taken between steps, as the code that turns them off makes sure.
-- condition_wait and thread_spawn set the state of a thread just before they turn interrupts off; a handler
-- taken there while in the kernel does not switch threads and only broadcasts conditions, in none of whose
-- lists the thread stands, so that it counts as a step before the call (Threads.Interrupts). The lock around the cache makes
-- its functions single steps.
--
pub mod Base
pub mod Exec
pub mod Cache
pub mod Io
pub mod Memio
pub mod Seekio
pub mod Pipe
pub mod Timer
pub mod Pages
pub mod Threads
pub mod Fds
pub mod Plic
pub mod Strings
pub mod Ktfs
pub mod Vm
pub mod Device
