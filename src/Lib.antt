-- ===== src/Lib.antt =====
-- DripOS, a 64-bit operating system kernel for several processors, in C. This library models
-- the parts of the kernel that keep and hand out its resources: physical pages, processor time,
-- sleep, the numbers of threads and processes, ranges of addresses, page tables, file
-- descriptors, pipes, the tree of the virtual file system, and the blocks of files on an echFS
-- device.
--
-- How the parts interact. The timer interrupt of a processor calls advance_time, which wakes
-- the threads whose sleep is over, and then schedule, which takes the running thread off the
-- processor and puts the next one on it. Both work on the table of threads under the lock
-- sched_lock, as do the calls that enter threads and processes into their tables and take
-- threads out. Everything that needs memory takes pages from the page allocator, under a lock
-- of its own. A process has a table of file descriptors and is created and copied with it; a
-- range map says which numbers of a space are taken. The page tables of an address space are
-- pages of the page allocator. A file on an echFS device is a chain of blocks in the allocation
-- table, found by its path in the main directory. Above the file systems is a tree of nodes,
-- whose paths vfs_open follows and extends; paths are cut and compared by the text functions of
-- klibc.
--
-- Files and source.
--
-- * Prelude and its modules: lists with native indices, tests, 64-bit words, steps that may
--   fail.
-- * Pmm (src/mm/pmm.c): the bitmap of used pages, pmm_alloc (`alloc`), pmm_unalloc (`unalloc`),
--   find_free_page and pmm_memory_setup (`memory_setup`). The bitmap is a function from byte
--   numbers to bytes.
-- * Thread (src/proc/process_management.h, src/proc/scheduler.h): thread_t as far as the models
--   read it, and the table of threads.
-- * SleepQueue (src/proc/sleep_queue.c): insert_to_queue, advance_time with one `tick` for each
--   round of its loop, sleep_ms and nanosleep.
-- * Scheduler (src/proc/scheduler.c): pick_task, and schedule as `leave`, `choose` (the loop at
--   repick_task) and `enter`.
-- * RangeMap (src/klibc/rangemap.c): rangemap_add_range, rangemap_find_free_area,
--   rangemap_mark_free and the lookups.
-- * FileTable (src/fs/fd.c, krealloc in src/klibc/stdlib.c): fd_new, fd_lookup, fd_remove,
--   fd_close, clone_fds and clear_fds, on a heap of tables by address.
-- * Text (src/klibc/string.c): strlen, strcpy, strcmp, strcat, memcpy, reverse, utoa, atou and
--   the functions on paths, on buffers whose end is known.
-- * Vmm (src/mm/vmm.c): the indices of an address, virt_to_phys, vmm_get_table and
--   vmm_ensure_table, and the mapping, remapping and unmapping of pages.
-- * Pipe (src/fs/pipe.c): create_pipe, lookup_pipe, pipe_read and pipe_write, with their work
--   on the buffer as `read_pipe` and `write_pipe`.
-- * Echfs (src/fs/filesystems/echfs.c): blocks and their cache, the allocation table,
--   allocate_blocks_for_file, reading and writing of ranges; Echfs/Directory: the main
--   directory, echfs_path_resolve, and echfs_read (`read_entry`) and echfs_write
--   (`write_entry`) once the entry is found.
-- * Vfs (src/fs/vfs/vfs.c): the tree of nodes, split_path_elements, get_node_from_path,
--   get_full_path, vfs_new_node and vfs_add_child; Vfs/Open: create_missing_nodes_from_path,
--   the mount points, and vfs_open, with the functions of the file systems as parameters.
-- * HashMap (src/klibc/hashmap.c, src/klibc/strhashmap.c, src/klibc/linked_list.h): the hash
--   maps of numbers and of texts, on elements in memory.
-- * Heap (src/klibc/stdlib.c): the pages of a block of the heap, as kmalloc lays them out and
--   kfree finds them.
-- * ProcessTable (src/proc/process_management.c, src/proc/scheduler.c): add_new_tid,
--   add_new_pid, add_to_process, start_thread, add_process, add_new_child_thread_no_stack_init
--   and kill_thread.
--
-- Conventions. A uint64_t is a natural number, and its arithmetic wraps where the source's can
-- (add64, sub64). A pointer to a thread or a process is its number. A failed assert, or a lock
-- that is taken while it is held, ends a run: the operation is `none`. The lock that a caller
-- holds throughout is left out, as is one that every operation takes and gives back. Nodes of
-- the tree and elements of maps are numbered in the order of their allocation.
--
-- Fuel and bounds. `choose` takes fuel for the picks of its loop, and as many as there are
-- slots in the table, and one more, are enough. `count_blocks` takes fuel for the blocks of a
-- chain, the search of a directory for its entries, and the search for a path for its names;
-- the theorems say how much is enough. A climb in the tree of nodes needs a round for each node
-- that is not younger than its start, and a search in a map one for each element there is. The
-- loops over lists and bitmaps are structural. No bound is put on the size of a table.
--
-- Left out. The switch of registers, floating point state and address space in schedule, the
-- copying of address spaces, the rest of the heap, the vectors and dynamic arrays of klibc,
-- reading and writing through file descriptors, the removal of nodes from the tree and the
-- change of subtrees, devfs, ipc and the system calls are not modelled; device drivers,
-- interrupt tables, processor start and the boot code are accesses to hardware.
pub mod Prelude
pub mod Pmm
pub mod Thread
pub mod SleepQueue
pub mod Scheduler
pub mod ProcessTable
pub mod RangeMap
pub mod FileTable
pub mod Text
pub mod Vmm
pub mod Pipe
pub mod Echfs
pub mod Vfs
pub mod HashMap
pub mod Heap
