-- ===== src/Lib.antt =====
-- The Nachos operating system of the NTHU assignments.
--
-- The repository holds a whole copy of Nachos for each assignment. A part is modelled in the
-- assignment that writes it, and the other copies are left aside: virtual memory and loading from
-- MP2/NachOS-4.0_MP2, the scheduler and its lists from MP3/NachOS-4.0_MP3, and the file system
-- with its bitmap, directories, headers and files from MP4/NachOS-4.0_MP4. Pthread is a program of its own.
--
-- - LinkedList: code/lib/list.cc and list.h (MP3). List<T> is the record `LinkedList` of its items and
--   `numInList`; `append`, `prepend`, `remove_front`, `remove`, `apply` are List's operations, and
--   `insert` with the walk `link_sorted` is SortedList<T>::Insert. The free frames and the three ready
--   queues are such lists.
-- - AddrSpace: code/userprog/addrspace.cc and addrspace.h (MP2). FrameTable is the record of the free
--   frames and the main memory; `allocate`, `release`, `translate` are Allocate, Release, Translate.
--   AddrSpace.Paging has the processes that share the frame table, as a step relation; AddrSpace.Load
--   has AddrSpace::Load, with the bytes of the executable as a parameter.
-- - Scheduler: code/threads/thread.cc and scheduler.cc (MP3). Scheduler.Thread has Thread::setStatus,
--   OrderManager and the two comparisons; Scheduler.Queues has SystemQueue and Scheduler over a
--   kernel state in which a thread pointer is a number. The arithmetic of double is a parameter.
-- - Synch: code/threads/synch.cc and synch.h (MP3). `p_round` is one test of the loop of Semaphore::P, `v` is V, and
--   `own` and `let_go` are the parts of Lock's Acquire and Release around them; Synch.Locking has the threads
--   that use one lock, as a step relation.
-- - Bitmap: code/lib/bitmap.cc and code/filesys/pbitmap.cc (MP4), over words of 32 bits. Bitmap.Bits
--   has the bit operations of a word.
-- - Directory: code/filesys/directory.cc (MP4): the table of entries of a directory with `add`, `remove`,
--   `find`, `fetch_from` and `write_back`, as a map from names to sectors.
-- - SynchDisk: code/filesys/synchdisk.cc and code/machine/disk.cc (MP4): what a synchronous request leaves on
--   the disk.
-- - FileHeader: code/filesys/filehdr.cc and filehdr.h (MP4). A header is a tree: `FileHeader` holds
--   `Slots`, which keep dataSectors, startSector, children and the bits of map slot by slot. `allocate`
--   and `deallocate` work on the bitmap of free sectors, `byte_to_sector` walks the tree, and
--   FileHeader.Stored has `write_back` and `fetch_from` over the disk. The power of N_SECTORS that the
--   code computes in double is a parameter.
-- - OpenFile: code/filesys/openfile.cc (MP4): `read_at`, `write_at`, and `read`, `write`, `seek` at the current
--   position, over a header and a disk of bytes. OpenFile.Contents says what the contents of a file are.
-- - FileSystem: code/filesys/filesys.cc (MP4): `parse_path` and `traverse_path` are ParsePath and TraversePath,
--   `create_file_dir` is CreateFileDir, and `remove` is Remove. The words of the free map and the tables
--   of the directories are kept by the sector of their file's header, apart from the disk.
-- - Mult: code/machine/mipssim.cc (MP4): `mult` is Mult, the multiplication of the simulated machine, on words of
--   32 bits. Mult.Integers says which integer a word is.
-- - Machine: code/machine/mipssim.cc, mipssim.h, machine.cc, machine.h and translate.cc (MP4). `Machine` holds the
--   registers, the memory and the table or TLB; Machine.Decode has the tables and Decode, Machine.Translate
--   ReadMem, WriteMem and Translate, Machine.Execute what the cases of the switch of OneInstruction do, and
--   Machine.Step the switch itself as `execute_op`, OneInstruction and the loop of Run. An operation is
--   `done`, `trapped` with the machine that ExceptionHandler gets, or `aborted`. A register is a word, `int`
--   is two's complement that wraps around, and `char` has a sign, as on the hosts of the Makefiles; a TLB is
--   a list of its TLBSize entries, and the one division that C++ does not define aborts.
-- - TsQueue: Pthread/NTHU-OS-Pthreads/ts_queue.hpp: the ring buffer between the threads; an operation is
--   one step under the mutex, and `none` is a thread that waits.
-- - Controller: Pthread/NTHU-OS-Pthreads/consumer_controller.hpp: the alarm handler that starts and
--   cancels consumers; a run is a sequence of alarms.
-- - Base: tests, lists, counts and signed integers that the components share.
--
-- A failed ASSERT, a null pointer that is followed, and an access past the end of a buffer of a file's
-- bytes is `none`. Loops are recursion on the number of rounds. Three definitions take fuel, and the
-- results on them say that they return: the loop over the pages of a segment in AddrSpace.Load has
-- size + 1 rounds, `FileHeader.allocate` has 3 * sectors + 4 for its rounds and levels, and
-- FileHeader.Stored's `fetch_from` has N_SECTORS + 2 for each sector of the disk, as a chain of more
-- headers than that goes round in a circle. The rounds of `parse_path` are the path's length, as each
-- takes a delimiter off, and `mult` has the 32 of the code. A counter of a bitmap is a signed integer,
-- as it can pass below zero, and `mult` and Machine work on words with their wrap-around; the other
-- numbers of the code are not negative and far below 2 ^ 31, so they are natural numbers. The loop of Run,
-- which never ends, is taken for a number of instructions, and the results hold for each number. Time
-- only grows.
--
-- Not modelled: the clock, interrupts and devices of the simulated machine, its debugger, the context
-- switch, system calls, condition variables, the formatting of the disk and the table of open files,
-- the network, and the producers and consumers of Pthread.
pub mod Base
pub mod LinkedList
pub mod AddrSpace
pub mod Bitmap
pub mod Directory
pub mod Mult
pub mod Machine
pub mod SynchDisk
pub mod FileHeader
pub mod OpenFile
pub mod FileSystem
pub mod Scheduler
pub mod Synch
pub mod TsQueue
pub mod Controller
