-- ===== src/Lib.antt =====
-- AVX-LA, a small Unix kernel for LoongArch64 in C. This library models the kernel's core, function
-- by function, with the properties that make it correct.
--
-- The parts and how they interact. The page allocator (kernel/kalloc.c) gives pages to all others.
-- Spin locks (kernel/spinlock.c, kernel/intr.c) make the code between acquire and release one step
-- of one CPU; sleep locks (kernel/sleeplock.c) put a process to sleep instead. The process table
-- (kernel/proc.c) starts, ends, wakes and waits for processes. Pipes (kernel/pipe.c) sleep and wake
-- on it. The buffer cache (kernel/bio.c) stands between the disk's driver and the FAT32 file system
-- (kernel/fat32.c); the table of open files (kernel/file.c) stands in front of files and pipes.
-- Each process has page tables (kernel/vm.c), which take their pages from the page allocator, a
-- list of memory areas (kernel/vma.c), descriptors that name open files (kernel/sysfile.c) and
-- actions for signals (kernel/signal.c), which kernel/timer.c sends and kernel/proc.c marks.
-- kernel/futex.c keeps the threads that wait on an address. kernel/string.c and
-- kernel/ring_buffer.c are used throughout.
--
-- Which file models which part. Prelude: what the modules share, Boolean tests on native numbers,
-- lists, statements on index ranges, and Outcome, the result of kernel code that may panic.
--
-- Kalloc: kernel/kalloc.c. Kmem is kmem with the free pages as memory; kfree, kalloc, freerange,
-- kinit and freemem_amount keep their names. Kalloc.FreeList is the free list as a list of pages,
-- Kalloc.Range the start.
--
-- Lock: kernel/intr.c and kernel/spinlock.c. acquire and release are given whole, for one CPU, and
-- cut at each access to the lock (acquire_enter, test_and_set, record_holder, release_enter,
-- lock_release), which Lock.Mutex interleaves for any number of CPUs. Memory is sequentially
-- consistent.
--
-- Pipe: kernel/pipe.c. A step of pipewrite or piperead ends at a return or at a sleep. Pipe.Fifo is
-- the pipe as a queue, Pipe.Write and Pipe.Read the steps on it, Pipe.Runs any sequence of these.
--
-- Proc: kernel/proc.c, with its life cycle in Proc.Life: alloc_slot is allocproc from its label
-- found on, exit_begin and exit_finish are exit up to and from the point where it takes its
-- parent's lock, wait and wait4pid a round of these. In the steps of Proc.Life.Wakeups exit copies
-- its parent in a step of its own, before that lock. Pages, files and entries that are handed to
-- other parts are returned as lists. Proc.Fork is fork on the process table, the file table of File
-- and the cache of Fat.Ecache together; what uvmcopy and the code of the memory areas answer is an
-- argument.
--
-- Fat: kernel/fat32.c. Disk is the bytes of the sectors, behind the buffer cache; the volume and
-- its FAT are in Fat, chains of clusters in Fat.Chain, eread and the reading side of rw_clus in
-- Fat.Data, with either_copyout as an argument, ewrite and the writing side in Fat.Store, with
-- either_copyin, and skipelem in Fat.Path. Fat.LongName has the long entries that emake writes for
-- a name, and what enext makes of them, and Fat.FormatName has formatname. Fat.Ecache is the cache
-- of directory entries with its list in the order of use; a call of it is one step, and the names
-- in a directory that enext reads are not in it.
--
-- Vm: kernel/vm.c, with the macros of kernel/include/loongarch.h. Mem has the words of the page
-- tables, the bytes of the data and the allocator; walk, walkaddr, mappages, vmunmap and uvmcreate
-- keep their names, and walk_levels and next_table are the loop of walk and a round of it. Vm.Tree
-- says when the tables are a tree of pages of their own, Vm.Grow and Vm.Walk what walk does to it,
-- Vm.Map and the modules behind it what the rest does to the map from virtual pages to entries.
-- Vm.User has uvmalloc to freewalk and the copies between user and kernel memory, which go through
-- the user buffers of Vm.User.Buffer.
--
-- Futex: kernel/futex.c, the threads woken as a list; futex_wait is futexWait up to the point where
-- it gives up the processor, futex_wait_run the whole of it. Timer: kernel/timer.c, with kill and
-- wakeup of Proc. Signal: kernel/signal.c, the fields of struct proc that it uses in SigProc.
-- Sysfile: the descriptors of kernel/sysfile.c on the file table of File, with sys_fcntl in
-- Sysfile.Fcntl.
--
-- Vma: kernel/vma.c. What kalloc and the page tables answer is an argument.
--
-- String: kernel/string.c. Bio: kernel/bio.c and kernel/sleeplock.c; bget and bread_locked are
-- together bread, and the disk's driver is an argument. File: kernel/file.c. Ring:
-- kernel/ring_buffer.c, with copyout and copyin as arguments. User.Grep: user/grep.c, with read as
-- an argument. User.Print: printint of user/printf.c and atoi of user/ulib.c.
--
-- Bounds and fuel. Numbers are natural numbers, with the wrap of unsigned types written out where
-- the code can reach it. freerange has fuel for a round for each page below its end and one more,
-- which is enough (Kalloc.Range). The loops of etrunc and etruncate take their fuel as an argument,
-- one round more than the file has clusters is enough for a chain that ends. strlen and strchr take
-- theirs too. mappages has a round for each page of its range and vmunmap for each page; copyout,
-- copyin, eread and ewrite one for each byte and one more, since a round moves at least one byte;
-- freewalk one for each level. eput takes a round for each directory above the entry and one more;
-- grep one for each byte of the file and one more; printint 32, one for each bit. path_names takes
-- its fuel, one more than there are names is enough. The loop of acquire on a held lock does not
-- end without another CPU: acquire then gives out_of_fuel, and Lock.Mutex has its rounds as steps.
--
-- Not modelled: uvmcopy, uvminit, copyinstr and the kernel's own tables in kernel/vm.c, mmap and
-- exec; the disk side of emake and enext, generate_shortname and the rest of dirlookup in
-- kernel/fat32.c, and a write that allocates clusters; clone; the other system calls of
-- kernel/sysfile.c; system call entry, traps, devices, printing and assembly, which read and write
-- machine registers, and the TLB.
--
-- A module named Examples has the theorems at concrete inputs, and runs of the code.
pub mod Prelude
pub mod Kalloc
pub mod Lock
pub mod Pipe
pub mod Proc
pub mod Fat
pub mod Vm
pub mod Vma
pub mod String
pub mod Bio
pub mod File
pub mod Ring
pub mod Futex
pub mod Timer
pub mod Signal
pub mod Sysfile
pub mod User
