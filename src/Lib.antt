-- ===== src/Lib.antt =====
-- The kernel of xv6 for RISC-V, with the threads that this repository adds to it (xv6-riscv/).
--
-- The parts that are modelled, from the bottom up, with the source each stands for:
--   Spinlock    kernel/spinlock.c      spin locks and disabled interrupts, on one and on several processors
--   Memory      kernel/riscv.h, kernel/memlayout.h   physical memory and pages
--   Kalloc      kernel/kalloc.c        the allocator of physical pages
--   Vm          kernel/vm.c            page tables, and the memory of a process
--   Usercopy    kernel/vm.c            copies between the kernel and the memory of a user
--   Sleeplock   kernel/sleeplock.c     sleep locks
--   Virtio      kernel/virtio_disk.c, kernel/virtio.h   the driver of the disk
--   Bio         kernel/bio.c           the buffer cache
--   Fs          kernel/fs.c            the blocks of files: bitmap, bmap, itrunc
--   Fileio      kernel/fs.c            the contents of files: readi, writei
--   Itable      kernel/fs.c            the table of inodes in memory
--   Path        kernel/fs.c            path names and the walk along them
--   File        kernel/file.c          the table of open files
--   Log         kernel/log.c           the redo log of the file system, crashes and recovery
--   Pipe        kernel/pipe.c          pipes
--   Console     kernel/console.c       the input of the console and its lines
--   Proc        kernel/proc.c, kernel/proc.h   processes, the scheduler, threads
--   Kstring     kernel/string.c        memory and string routines
--   Ulib        user/ulib.c            the same for user programs
--   Printf      user/printf.c          printed numbers
--   Grep        user/grep.c            the matcher of regular expressions
--   Shell       user/sh.c              the parser of the shell
--   Arraylist   user/arraylist.c       a growing array
--   Examples    the theorems at concrete inputs
-- All paths are below xv6-riscv/. A definition has the name of the C function that it models, and a
-- loop in it is a definition of its own, named after it.
--
-- How the parts meet: the allocator runs inside the critical sections of Spinlock; page tables lie
-- in the memory that it manages, and growing a process works on both; the log writes through the
-- buffer cache, of which it sees the blocks, their references and the order of the writes to the
-- disk; Fs works on the disk as the cache and the log show it, Itable calls Fs to truncate a file
-- and Path calls Itable for every name; the sleep locks of buffers and inodes are those of
-- Sleeplock; pipes and the log sleep and wake on the channels of Proc; what Printf prints Ulib
-- reads.
--
-- A function that panics, or that spins or sleeps for ever on its own, has the results `panic` and
-- `blocked` of `Run`. State is passed explicitly. What runs under one lock is one transition, where
-- the steps of several processors are not what is proved. Numbers are natural; where the source
-- computes on a machine word the wrap-around is written out. The exception is `noff`, an int that
-- counts nested calls of `push_off`: its overflow is undefined in C, and it is a number without a
-- bound here. Addresses of kernel objects are numbers, 0 for a null pointer, and an entry of a table
-- is its index. `end_op` is two transitions, since the log's lock is free during a commit.
--
-- Loops recur on a counter or on a list. `freerange` takes fuel: there are `phystop / pgsize`
-- pages, and one round more ends the loop. `mappages` takes fuel for the pages below MAXVA, past
-- which `walk` panics; `freewalk` for the three levels of the tree; `bget` for the buffers and one
-- more, the copies between kernel and user for the bytes asked for and one more, the parser of the
-- shell for the bytes of the line and one more, `free_chain` for the descriptors, the interrupt of
-- the disk for the values of its 16-bit counters, `namex` for the length of the path and one more,
-- `readi` and `writei` for the bytes asked for and one more, ^U for the bytes of the buffer. `strlen` and the routines of Ulib whose loops
-- end only at a certain byte take fuel as an argument.
--
-- What is an argument of the model: the linker's symbol `end` and the number of the processor; in
-- Proc what `kalloc`, the page table routines and copying to user memory return; in Pipe user
-- memory, as it is seen through the page table. The files, inodes and page tables that processes
-- give back are events in the order of the calls. In Fileio what a copy from or to user memory does
-- is an argument, how many bytes a copy from it that fails has put into the block, and whether the
-- transaction has room for one more block, without which `log_write` panics; in Path what `readi`
-- reads from a directory, in Arraylist what `malloc` returns, memory or a null pointer. In Usercopy the bytes of memory stand beside the page tables, since no page
-- that a user can reach is part of a table. In Virtio the device writes nothing while a function
-- runs. Not modelled: changes of directories, system calls, traps, the serial line and the
-- interrupt controller, program loading, start-up, the image builder, and the other user programs,
-- which are mostly input and output by system calls.
pub mod Common
pub mod Spinlock
pub mod Sleeplock
pub mod Memory
pub mod Kalloc
pub mod Vm
pub mod Bio
pub mod Fs
pub mod Fileio
pub mod Itable
pub mod Path
pub mod File
pub mod Log
pub mod Pipe
pub mod Console
pub mod Proc
pub mod Kstring
pub mod Ulib
pub mod Printf
pub mod Grep
pub mod Arraylist
pub mod Virtio
pub mod Usercopy
pub mod Shell
pub mod Examples
