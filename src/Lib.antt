-- ===== src/Lib.antt =====
-- Verification of the kernel of this repository: xv6 with a multi-level feedback queue scheduler,
-- clock page replacement with a swap table, a swap store on four simulated RAID disks, the buffer
-- cache, the log and the files of its file system, and pipes; and of the matcher of its grep.
--
-- The parts and their files:
-- - Prelude: shared lemmas. Prelude.Outcomes has the results of code that may call panic();
--   Prelude.Memory has byte buffers as functions of the offset, with memmove() and memset() as
--   `copy` and `fill`; Prelude.Loops has the two loops over a fixed table that the kernel uses
--   everywhere, a search that stops at the first hit (`find_first`) and a pass over all entries
--   (`for_each`).
-- - Proc: kernel/proc.h and kernel/proc.c, with the timer branch of usertrap() and clockintr() of
--   kernel/trap.c and the count of syscall() of kernel/syscall.c. Proc.State is struct proc,
--   Proc.Sleep is sleep(), wakeup() and kkill(), Proc.Mlfq the levels, Proc.Scheduler one pass of
--   scheduler(), and Proc.Lifecycle allocproc(), kfork(), kexit() and kwait().
-- - SwapDisk: kernel/swap_disk.c. SwapDisk.Queue is the request queue with the FCFS and SSTF
--   policies, SwapDisk.Raid the block mappings of the three modes, SwapDisk.Pages whole pages and
--   the settings.
-- - Frames: kernel/kalloc.c and get_frame() of kernel/vm.c. Frames.Swap is swapout() and swapin(),
--   Frames.Clock is clock_evict(), and Frames.Table the frame table and the free list.
-- - Vm: walkaddr(), ismapped(), uvmclear(), uvmunmap(), uvmdealloc(), mappages(), uvmalloc(),
--   uvmcopy() and vmfault() of kernel/vm.c, over tables of leaf entries. Vm.Unmap is about
--   uvmunmap(), Vm.Fault about vmfault().
-- - Strings: kernel/string.c.
-- - Bcache: kernel/bio.c, with struct buf of kernel/buf.h. The buffers are a function of the
--   index, the linked list is the list of the indices from the most recently used one on, and the
--   disk is a function of the block number with all its earlier states beside it. Bcache.View has
--   well-formed caches and the contents of a block, Bcache.Read bread(), Bcache.Release brelse(),
--   Bcache.Store bwrite(), Bcache.Copy the copy of one block onto another, and Bcache.Boot binit().
-- - Log: kernel/log.c. Log.Header and Log.Head are the header on the disk, Log.Install
--   install_trans(), Log.Recovery initlog(), Log.WriteLog and Log.Commit commit(), Log.Crash a
--   restart after each of the disks that commit() goes through, and Log.Reserve begin_op(),
--   log_write() and end_op() of several system calls, with Log.Emptied.
-- - Fs: kernel/fs.c, up to inodes. Fs is the free map and the block map, Fs.Content dinodes and the
--   contents of files. Fs.Bits, Fs.FreeMap: balloc(); Fs.Slots, Fs.Map, Fs.Bmap: the
--   blocks of a file and bmap(); Fs.Data, Fs.Reading: the bytes of a file and readi(); Fs.Writing,
--   Fs.Saving: writei(); Fs.RoundTrip: a read after a write; Fs.Dinode: iupdate();
--   Fs.Free: bfree(); Fs.Release, Fs.Freeing, Fs.Truncate: itrunc().
-- - Pipe: kernel/pipe.c. Pipe.Queue is the abstract queue of bytes, Pipe.Write and Pipe.Read the two
--   calls, and Pipe.Stream sequences of them.
-- - Grep: the matcher of user/grep.c. Grep.Meaning says what a pattern means.
-- A component's definitions stand in the file of its name, and what is proved of them in its
-- folder; the Tests files hold runs on small inputs.
--
-- The parts interact as in the code: clock_evict() calls swapout(), which calls swap_out_page();
-- the disk layer writes its statistics into the process table and reads a request's priority
-- there, the level of the calling process; clock_evict() reads the states and the levels of the
-- processes. The memory state therefore contains the disk state, and that the process table. The
-- log contains the buffer cache, whose pinned buffers hold a transaction until commit() has
-- installed it, and the cache the disk. Fs is over the contents of the blocks as bread() shows
-- them, so that a call of log_write() there is a change of a block and brelse() is nothing.
--
-- Conventions. A table is a function of the index, a pointer into it is its index, and a null
-- pointer is `none`. An `int` that is only counted up is a natural number, as its overflow is not
-- defined in C; `ticks` and `last_boost`, which are unsigned, wrap around at 2 ^ 32. A call of
-- panic() ends the run with `panic` and the name of the place. A page table is the table of its
-- leaf entries, that is what walk() finds; its three levels are not modelled, and walk() with
-- `alloc` set is the parameter `walk_alloc`. What the kernel's other layers return (kalloc() in
-- allocproc(), copyout() in kwait()) is an argument, and what other processes and CPUs do between
-- two steps is a parameter (`others`), of which nothing is assumed. The reference count of a
-- buffer is assumed not to reach 2^32. begin_op() and the calls on pipes run from one sleep to the
-- next. A log header with more than LOGBLOCKS entries, which the kernel never writes, would overrun
-- an array, and the model does not show that. virtio_disk_rw() moves whole blocks, and a crash comes
-- between two of them. copyin() and copyout() of pipes and files are parameters;
-- where they fail on the way, the bytes that they have moved stay moved.
--
-- Fuel: frametable_alloc() calls itself after an eviction and has fuel for it; one unit is enough,
-- since the eviction before that call does not return. strlen() has fuel for the length of its
-- string. The loops of readi() and writei() have a unit for each byte; every round moves at least
-- one, and the theorems on them show that no round is left undone. All other loops run over fixed
-- ranges.
--
-- Not modelled: locks, except that a second acquisition of framelock by one CPU stops the machine;
-- interleavings inside one call; the pages of page tables, with freewalk() and uvmfree(); copyin(),
-- copyout() and copyinstr(); the kernel's own page table; kinit() and freerange(); registers, files
-- and names of processes; printed output; the TLB. Of kernel/fs.c the inode table (iget(), iput()
-- and their callers), directories and paths; of kernel/pipe.c the files of a pipe. The other files
-- of kernel/ (the file table, the system calls on files, exec(), devices, start-up code) and the
-- programs of user/, but for the matcher of grep.c, are not modelled.
pub mod Prelude
pub mod Proc
pub mod SwapDisk
pub mod Frames
pub mod Vm
pub mod Strings
pub mod Bcache
pub mod Log
pub mod Pipe
pub mod Fs
pub mod Grep
