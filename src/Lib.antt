-- ===== src/Lib.antt =====
-- The kernel of fizzos, a 32-bit operating system for the x86: the parts that the rest stands on, as
-- functions, and theorems about them.
--
-- A function of the kernel is a function of the same name here, from the state to an outcome
-- (Base/Outcomes): a result, a failed ASSERT or PANIC (`panic`), an access outside of what is modelled or
-- undefined behaviour (`fault`), waiting for another thread (`blocked`), or a loop that ran out of its
-- rounds (`out_of_fuel`). Numbers are natural numbers; a bit pattern of 32 bits is one below 2 ^ 32.
--
-- Base, with its children: what the others share, from the libraries, and lemmas on tests, lists and
--   outcomes.
-- Interrupt: kernel/interrupt.c, the interrupt flag, which most list operations clear and set back.
-- Dlist: lib/kernel/list.c. A memory is a map from addresses to list elements, with the head and the
--   tail of one list and the interrupt flag. Loops along the links take a number of rounds; one more
--   than the elements of the list is enough. Dlist/Represents says what it is for a memory to hold a
--   list of addresses; Chain, Run, Distinct and Bypass are lemmas on links; Push, Pop, Find, Delete,
--   Removal and Stale are the operations.
-- Bitmap: lib/kernel/bitmap.c. The bytes of a bitmap, those behind it, its size, and how often its lock
--   is held, which is all that one thread sees of the lock. Word is about bits of bytes and words, Bits
--   about set and reset, Scan and Search about the loops, Alloc about what a caller gets.
-- Ioqueue: device/ioqueue.c, the ring that the keyboard fills. Contents has the list of characters that
--   a ring holds and its invariant, Char the operations on a character. A call is one step, since it
--   holds the queue's lock. Each loop of getline has a round for each place of the ring.
-- Fizzlib: lib/fizzlib.c, numbers to text. 33 rounds are enough for a value of 32 bits in any radix
--   from 2.
-- Kmalloc: kernel/memory.c, kmalloc and kfree. A list of pages is a list of their addresses, and the
--   address that kernel/buddy.c gives is an argument. A page count below 2 ^ 21 is halved at most 20
--   times.
-- Sync: kernel/sync.c, mutexes, with thread_block and thread_unblock of kernel/kthread.c as far as they
--   move a thread. Threads take steps in any order; Invariant has what holds in each state they reach.
-- Fizzstr: lib/fizzstr.c. Memory is a map from addresses to bytes. Copy is about memcpy and memset, Texts
--   about strings. A loop that a terminating 0 ends takes a round for each byte and one more.
-- Keyboard: device/keyboard.c, the handler of scan codes, over Ioqueue; Typing is about what it does to
--   the ring.
-- Vma: kernel/vma.c, the areas of an address space as a list in order; Find is about the searches.
-- Disk: the numbers of partition_format in fs/fs.c and the places of inodes in fs/inode.c; Layout says
--   that they are apart and inside the partition.
-- Kthread: kernel/kthread.c, sys_exit, do_fork as far as the ready list, and the clock interrupt. Ready has what holds of the ready list,
--   Fifo the order in which threads get the processor.
-- Sema, Rwlock: the semaphores and reader-writer locks of kernel/sync.c. A section with interrupts off is
--   one step; a step that turns them on in between is several. Permits and Exclusion hold in every state
--   that threads reach.
-- Buddy: kernel/buddy.c. Pages are named by their index; Total counts the free pages of a pool and the free groups of a page, Split and
--   Alloc are about taking a group. There are 11 orders.
-- Ide: device/ide.c. A disk is a map from sector numbers to sectors; Transfer is about reads and writes,
--   Wait about busy_wait, Partitions about the scan. A transfer of n sectors has n + 1 rounds at most.
-- File: fs/file.c, file_read and the file numbers. Blocks says which sector holds a byte, Read that
--   file_read finds it. The loop has a round for each sector of the largest file, and one more.
-- Dir: the paths of fs/dir.c, and filp_openat of fs/file.c up to the file table. The search in a
--   directory is a parameter. Walk is about parse_path, Cwd about sys_getcwd and the way back, Open about
--   filp_openat. A round of parse_path takes a byte of the path at least.
-- Fs: sys_openat and sys_close of fs/fs.c, over File and Dir, with the file table of fs/file.c; Close is
--   about opening a file and closing it. The search of the table has a round for each of its 64 entries.
-- Paging: the page faults of kernel/memory.c with kernel/page.S, and the page tables in kernel/fork.c. View is
--   what processes see, Count how pages are counted, Fork the copy of the tables, Protect a write to a
--   shared page, Install a page that is not there, Store a write of the processor with its faults.
-- Inodes: fs/inode.c. Codec is about the 64 bytes of an inode on disk, Sync about writing one, Open about
--   the inodes in memory, Blocks about taking a block with the bitmap on disk.
-- FileWrite: file_write of fs/file.c, over Inodes. Alloc is what it relies on of block_bimap_alloc, Sectors
--   the numbers of a file's sectors, Round, Fill and Put the steps of a round, Rounds and Loop the loop, Finish
--   what follows it, Content the file that it leaves. The loop has a round for each of the 140 sectors of
--   the largest file, and one more.
-- Dentry: search_dentry and dir_write of fs/dir.c. Names is about the comparison of names and the search of
--   one sector, Search about names of 24 bytes, Write about the entry that dir_write leaves.
-- In File, FileWrite, Inodes and Dentry the disk answers each command in time. A sector above MAX_LBA
--   stops the kernel there as in Ide, but for the search of a directory, which only reads.
--
-- Not modelled: assembly, set-up of the processor and of devices, port input and output, the screen, and
-- what is above the system calls. The start of a program, spin locks and condition variables are not
-- modelled either.
pub mod Base
pub mod Interrupt
pub mod Dlist
pub mod Bitmap
pub mod Inodes
pub mod Ioqueue
pub mod File
pub mod Fs
pub mod FileWrite
pub mod Fizzlib
pub mod Kmalloc
pub mod Paging
pub mod Rwlock
pub mod Sema
pub mod Sync
pub mod Fizzstr
pub mod Keyboard
pub mod Dir
pub mod Dentry
pub mod Disk
pub mod Vma
pub mod Kthread
pub mod Buddy
pub mod Ide
