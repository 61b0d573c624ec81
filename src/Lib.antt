-- ===== src/Lib.antt =====
-- xv6 with demand paging and copy-on-write fork: a model of the kernel's memory management and
-- the proofs about it.
--
-- The program is a small x86 kernel. kalloc.c hands out 4096-byte pages and counts the references
-- to each, so that processes may share pages after a copy-on-write fork. vm.c builds two-level
-- page tables in such pages and, for every process but the first two, keeps a list of the pages
-- that are in RAM; when a process has 16 pages there, a page replacement scheme chosen at compile
-- time picks one to be written to the swap file. trap.c handles the page faults that bring pages
-- back or copy them.
--
-- Memory is one function from addresses to words (Kmem.mem), in which free pages hold the links
-- of the free list and page tables hold their entries, as in the kernel. A kernel pointer is a
-- number; `uint` arithmetic wraps at 2 ^ 32; a bit test, set or clear on a word is written by
-- division with the mask. panic, a null dereference and an access outside an array are ends of a
-- run of their own (Kernel.antt), and so is a loop that has used up its fuel, `stuck`.
--
-- Files. Common: shared names, lists, words. Kernel: runs and the address space (memlayout.h).
-- Kalloc: kalloc.c (kinit1, kinit2, freerange, kfree, kalloc, incrementRef, decrementRef, getRef,
-- kmemLock, kmemRelease). Vm: the page tables of vm.c (walkpgdir, mappages, setFlagsOnSwap,
-- is_PTE_A, PTE_A_off, clearpteu, uva2ka). Uvm: setupkvm, allocuvm, deallocuvm, freevm, copyuvm
-- and copyuvm_no_COW of vm.c; what the uninitialised pageFound of deallocuvm holds is an
-- argument. Trap: the copy-on-write case of the page fault (trap.c, T_PGFLT). Paging/Swap:
-- addPageToRam (in Paging), movePageToFile, moveToDisk, getPageFromFile, swapPages, deletePage,
-- over an interface of the swap file. FileTable: file.c (filealloc, filedup, fileclose). Pipe:
-- pipe.c, the ring and its calls, each from its start or its wake-up to its return or its sleep.
-- Paging: the list of pages in RAM and the replacement schemes of vm.c (removePageFromList,
-- addPageToList, choosePageToSwap, numOfOnes, nextAvOffset). Paging/Fork: init_meta_data and
-- deepCopyProc of proc.c, less the copy of the swap file. Paging/Tick: update_meta_data of trap.c
-- and switchQueueAQ of vm.c. Process: the process table of proc.c (allocproc, fork, exit, wait,
-- kill, sleep, wakeup, yield, a turn of scheduler), over an interface of what a process holds of
-- memory and files. Sleeplock: sleeplock.c, a call of acquiresleep being one turn of its loop.
-- Bcache: bio.c and iderw of memide.c, the cache of disk blocks as a circular list of 30 buffers;
-- its children follow the list (Ring), the searches (Find), bget (Get), brelse (Release), binit
-- (Init), bwrite (Disk) and bread (Read). Fs: the blocks and inodes of fs.c (balloc, bfree,
-- bzero, ialloc, iupdate, iget, idup, ilock, iunlock, iput, iunlockput, bmap, itrunc), over the
-- blocks as bread shows them, each block by what it holds: bytes of the bitmap, inodes, or words.
-- Path: skipelem and itoa of fs.c. Text: memmove and safestrcpy of string.c. Log: log.c, over its
-- own view of the cache, the blocks that are not on the disk yet; a crash leaves one of the disks
-- that the run has passed through. Grep: the matcher of grep.c.
--
-- Fuel. Every loop over a list of pages runs on 33 rounds, one more than pages_meta_data has
-- entries; the SCFIFO loop has 65, since each page loses its reference bit at most once;
-- switchQueueAQ has 65 too; freerange has a round for each page below its end and mappages one
-- for each page of its range. The searches of the block cache have 31 rounds, one more than there
-- are buffers, and the loops of balloc and ialloc one more than there are blocks and inodes. That
-- freerange, the walks of the page list and the SCFIFO loop do not run out is part of the
-- theorems about them, and so for switchQueueAQ, bget, bread and balloc; so it is for mappages
-- and for the loops of copyuvm and deallocuvm, which have two rounds more than there are pages.
--
-- Not modelled: the hardware drivers, the boot code, the other user programs, the system calls,
-- and of the file system the contents of files (readi, writei), directories, the walk along a
-- path and swap files. One CPU is followed at a time, so a lock is a flag that must be free when
-- it is taken. The reference counts of open files and of inodes in memory are numbers without a
-- bound: the tables of processes and files keep them far below the limit of an int. An int of
-- itoa is its sign and its magnitude; the least int, which cannot be negated, ends in the access
-- outside an array that it leads to.
pub mod Common
pub mod Kernel
pub mod Kalloc
pub mod Vm
pub mod Paging
pub mod Trap
pub mod Pipe
pub mod FileTable
pub mod Log
pub mod Grep
pub mod Process
pub mod Uvm
pub mod Sleeplock
pub mod Bcache
pub mod Fs
pub mod Path
pub mod Text
