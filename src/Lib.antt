-- ===== src/Lib.antt =====
-- nk_os_team: the uCore kernel of the labs, in its last version, lab8.
--
-- The parts modelled, with the files that model them:
--   lab8/libs/list.h, the circular lists that all queues are made of: Links. Each `list_entry_t` has a
--     number as its address, and a store maps addresses to the fields `prev` and `next`. Address 0 is
--     the head of the list at hand, and the entry of object n has address n + 1. Links/Ring says
--     what it is to be a list, Links/Outside what a write leaves as it was, Links/Members what a
--     list with the entries of some objects is, the other objects linked to themselves.
--   lab8/kern/schedule/sched.c, the scheduler: Sched, for any scheduling class, a record of the
--     operations of `struct sched_class`. A process is its number.
--   lab8/kern/schedule/default_sched.c, round robin: Sched/RoundRobin, the class that the other
--     modules of Sched take. Sched/RoundRobin/Queue and Fifo are about the class alone,
--     Sched/Rotation, Fairness and Wakeup about the scheduler with it.
--   lab8/libs/skew_heap.h, heaps by links: Skew. Skew/Trees has the trees and merging as a relation,
--     Skew/Merge and Refine are about skew_heap_merge.
--   lab8/kern/schedule/default_sched_stride.c, the stride class over such a heap: Stride. Stride/Order is
--     about the comparison of strides, Stride/Round and Next about the operations.
--   The timers of sched.c: Timer, with its list of ticks in Timer/Deadlines. The timers call the
--     scheduler's wakeup_proc and its class's proc_tick.
--   lab8/kern/mm/default_pmm.c, the first-fit allocator of pages: Pmm. Pmm/Blocks has the blocks
--     that a state holds, in order, and first fit on them; Pmm/Alloc and FirstFit are about
--     default_alloc_pages, Pmm/Merge, Neighbours, Place and Free about default_free_pages and
--     default_init_memmap, Pmm/Tail about the loop that links a block behind all others.
--   lab8/kern/fs/sfs/bitmap.c, the map of free disk blocks: Bitmap. Bitmap/Words has the operations
--     on one word, Bitmap/Search the loops, Bitmap/Alloc and Create the operations on the map.
--   lab8/kern/fs/sfs/sfs_io.c, sfs_inode.c and sfs.h, the simple file system: Sfs, over a record of the
--     transfers of a device. Sfs has the blocks of the disk, Sfs/Blocks their allocation over Bitmap,
--     Sfs/Bmap the block map of an inode, Sfs/Io the reads and writes of a file and the changes of its
--     size. Sfs/Disk says what a device that works is, Sfs/Count and Alloc are about the number of free
--     blocks, Sfs/Files says what the blocks of a file and its bytes are, Sfs/Copy and Written what
--     a write leaves. Sfs/Io/Offsets, Pieces, Parts, Transfer, RoundTrip and Sizes are about
--     sfs_io_nolock, Sfs/Grow, Extend, Shrink and Resize about sfs_truncfile. Sfs/Dirs has the search of a
--     directory, and Sfs/Dirs/Find is about sfs_dirent_findino_nolock. The fuel of
--     sfs_io_nolock is spent by its loop over whole blocks.
--   lab8/kern/fs/file.c, the open files of a process: File, over a record of the calls of the vfs.
--     File/Calls has the calls by descriptor, File/Table what a table is between calls, File/Endings
--     how file_open can end, and File/Open, Close and Transfer are about the calls one by one. What
--     other threads do while file_open, file_read, file_write, file_fstat and file_fsync wait for the
--     vfs is a parameter.
--   lab8/kern/process/proc.c, the table of processes: Process, over the state of Sched. Process/Calls has
--     do_fork, do_wait, do_kill and do_exit, Process/Pids get_pid. Process/Pids/Walks and Unique
--     are about get_pid, Process/Lookup and Listed about the hash lists, Process/Family with Leave, Splice
--     and Adopt about the links between parents, children and siblings, Process/Fork, Reap and Exit
--     about do_fork, do_wait and do_exit.
--   lab8/kern/sync/wait.c and sem.c, the wait queues and semaphores: Sync, over the lists and
--     Sched's wakeup_proc. Sync/Counting is about up, Sync/Down about the first part of down.
--   lab8/kern/mm/vmm.c, the areas of virtual memory of a process: Vmm, over a record of the functions
--     on page tables. Vmm/Areas says what a sorted list of areas is, Vmm/Find, Insert, Access and Copy
--     are about find_vma, mm_map, user_mem_check and dup_mmap.
--   lab8/kern/fs/iobuf.c, the buffers of transfers: Buffers, over Bytes. Buffers/Moves is about moving bytes
--     by more than one call. Sfs/Calls reads and writes files through them.
--   lab8/libs/string.c, the functions on memory, and the lengths and the order of strings: Bytes.
-- The other files name the code by its path below lab8/. Prelude has the names and the
-- lemmas on tests and lists that all files share. A module Tests has runs on small inputs.
--
-- State is passed explicitly. `none` is a failed `assert` or a loop without fuel. Fuel is spent by
-- the loops that follow links: one unit a round. The theorems ask for fuel for one round more than
-- there are entries, and show that this is enough. `unsigned int` is a number below 2 ^ 32, with the
-- remainder written out where the source can wrap around.
--
-- Not modelled: interrupts are off in each operation, so that it is one step; the register switch of
-- switch_to and the messages of warn and cprintf have no part in the state. file_seek and file_getdirentry, the
-- cache of inodes and the mounting of the simple file system, the virtual file system,
-- monitors, the kernel heap, the page tables, the program loader, the system calls and the
-- drivers are not modelled. The results of kmalloc, setup_kstack, copy_mm and copy_files are
-- parameters of do_fork.
pub mod Prelude
pub mod Links
pub mod Sched
pub mod Timer
pub mod Pmm
pub mod Bitmap
pub mod File
pub mod Bytes
pub mod Buffers
pub mod Vmm
pub mod Process
pub mod Sync
pub mod Skew
pub mod Stride
pub mod Sfs
