-- ===== src/Lib.antt =====
-- FOS: the kernel's scheduler, its locks, its frames and page tables, its page file, its heap, its
-- page faults, and the choice and aging of pages in working sets.
--
-- The modelled configuration is the one with USE_KHEAP 1, which the course sets for the kernel heap
-- (inc/memlayout.h has it at 0 as handed out). One CPU is modelled. Pointers are natural numbers,
-- what they point to is a family indexed by them, and NULL is `none`, or 0 in the heap. A uint32
-- is a natural number below 2 ^ 32, and where the C code can wrap it, `% 2 ^ 32` is written out.
-- What C leaves undefined is the outcome `fault`, a failed assertion or a call of panic is `panic`,
-- and a switch away that does not come back is `leaves`.
--
-- Common: notation, Boolean tests, lists, and the outcomes of kernel code. Common/Ends is what
-- holds of an outcome: of what the code returns, or of the state in which it leaves its caller.
--
-- Mmu: inc/mmu.h and inc/types.h, rounding and the permission bits. ROUNDUP wraps in 32 bits.
--
-- Space: kern/mem/paging_helpers.c and inc/environment_definitions.h, the working set list of a
-- process and the permission bits of its page table entries. Space/Steady has rules for both.
-- Space/Aging is
-- update_WS_time_stamps of kern/cpu/sched.c.
--
-- Frames: kern/mem/memory_manager.c, kern/mem/paging_helpers.c, and what works on frames alone.
-- Frames/State is frames_info, the free list and the page table entries of all directories, with
-- the functions on frames; Frames/Table is single entries, with get_frame_info and
-- pt_set_page_permissions; Frames/Map is map_frame, unmap_frame, create_page_table, alloc_page and
-- the address functions of kern/mem/kheap.c. Frames/Boot is initialize_paging,
-- Frames/Tables del_page_table. Frames/Stack is create_user_kern_stack and
-- delete_user_kern_stack of kern/proc/user_environment.c, and Frames/UserMem is allocate_user_mem
-- of kern/mem/chunk_operations.c, whose loop has a fuel: one more than there are pages is enough.
-- A frame is its number. The content of frames is not here, so that set_to_zero of alloc_page is
-- left out. The entry of a page stands at the slot of its directory and its address,
-- and counts where the directory has the table. kmalloc and kfree are the parameter `KernelHeap`,
-- since they are clients of these functions. Frames/Valid has the invariant, Frames/Bits the
-- single bits of entries, Frames/Refines the abstract memory manager, and the other files the
-- proofs about one operation each. Memories has the machines that the examples run on.
--
-- PageFile: kern/disk/pagefile_manager.c, on the frames. PageFile/State is the content of frames
-- and of the disk, the list of free disk frames, and the disk page directories: what a process has
-- there stands at its slot, with the kernel address of each directory and table, which is 0 where
-- there is none. PageFile/Pages is the functions on a page, PageFile/Tables those on page tables
-- and on a whole process. The disk driver (ide_read, ide_write) is not in the repository and is
-- the parameter `Ide`; kmalloc and kfree are the parameter `KernelHeap`. An access that faults in
-- the kernel is a `fault`. The loops go down lists or over a known number of entries, and need no
-- fuel. Valid has the invariant and Partition its part on disk frames; Kept, Freed, Calls and
-- Invariant the proofs that it is kept; Emptied those on the freeing of a process; Placed,
-- Contents and ReadBack those on the content of pages. Devices is a small disk.
--
-- Shares: kern/mem/shared_memory_manager.c, on the frames. The arrays of frames are apart from the
-- memory that holds them, with their lengths, and reading outside one is a `fault`. The lock is
-- whether this CPU holds it. A name is a number. Shares/Freeing is free_share; Paged, Found and
-- Freed have the proofs.
--
-- Conc: kern/conc/channel.c, kern/conc/sleeplock.c and kern/conc/ksemaphore.c, on the scheduler of
-- Sched. A kspinlock is whether this CPU holds it. A call that sleeps is two functions: up to the
-- switch to the scheduler (`sleep`, which ends in `leaves`), and from the switch back (`awake`,
-- resume_sleeplock, resume_ksemaphore). Conc/Exclusion and Conc/Conserved are step relations whose
-- steps are these calls and any change of the scheduler between them; the proofs are there and
-- in Woken, Asleep, Locked, Held and Counted.
--
-- Kheap: kern/mem/kheap.c. Kheap/State is kallocation_sizes, the break and the pages that are
-- present, with kheap_init, get_page and return_page. Kheap/Fit is find_customfit, Kheap/Alloc is
-- kmalloc and kfree, Kheap/Realloc is krealloc. The dynamic allocator (alloc_block, free_block,
-- realloc_block, get_block_size) comes from lib/, which the repository does not hold, and is the
-- parameter `BlockAllocator`. The two loops of find_customfit have the number of heap pages as
-- their fuel, and the outer loop one more: each round goes forward a page at least, so it is
-- enough on a well-formed heap. On any other heap a search that has not ended is a `fault`. The
-- proofs are under the operation they are about: Fit/Sound and Fit/Search, Alloc/Pages,
-- Alloc/Placed, Alloc/Freed, Alloc/Wrapped, Realloc/Shrunk, Realloc/Moved, and Kheap/Valid has the
-- invariant. memcpy is from lib/ too: its model faults at a page that is not present, and on
-- places that overlap, which memcpy leaves undefined.
--
-- Sched: kern/cpu/sched.c, kern/cpu/sched_helpers.c, and yield, sched, env_exit and
-- envid2env of kern/proc/user_environment.c. Sched/State is the process table, ProcessQueues and
-- its lock (kern/conc/kspinlock.c), one CPU's. Sched/Queues moves processes in and out of queues,
-- Sched/Select is the schedulers and the two halves of a round of fos_scheduler, Sched/Clock the
-- clock interrupt and the priority calls, Sched/Life running and exiting,
-- Sched/Setup sched_init, and pushcli and popcli of kern/cpu/cpu.c. A queue's
-- list begins with LIST_FIRST, where enqueue inserts; dequeue takes the last. The clock interrupt
-- of Sched calls update_WS_time_stamps of Space/Aging for the running process. Pick, Promotion,
-- Starvation, Exiting and Nesting have the proofs.
--
-- Fault: kern/trap/fault_handler.c. Fault/Optimal is get_optimal_num_faults, which takes the
-- memory for its copy of the references from kmalloc of Kheap/Alloc; Fault/Clock is the search of
-- CLOCK replacement for its victim, with the rounds that it may take as fuel: one more than the
-- working set is long is enough. Fault/Victim is the search for the LRU victim, and is_page_in_ws.
-- Fault/Process is the placement of a page and its replacement under LRU, on the frames, the
-- working set and the page file, Fault/Replace is CLOCK replacement and page_fault_handler, whose
-- fuel is how deep it calls itself: 2 is enough where the working set is not longer than its
-- bound. Fault/Release is env_page_ws_invalidate of kern/mem/working_set_manager.c and
-- free_user_mem of kern/mem/chunk_operations.c, with the pages of the range as its fuel, and one
-- more. Fault/Handler is fault_handler and table_fault_handler, with page_fault_handler as a
-- parameter. PageIn has the proofs about placement, Sized and Steady those about the size of the
-- working set, Depth those about the fuel, Apart and Released those about freeing, Refused those
-- about fault_handler, and Faults the examples.
--
-- Not modelled: the console, commands, traps and system calls, timer and interrupt controller,
-- boot and tests, which are input, output and set-up; the disk driver, which the repository does
-- not hold; the loading of programs; env_free, which panics as not implemented once it has freed
-- the page file, and with it sched_kill_env and sched_kill_all; modified CLOCK replacement, and
-- the stream of references that OPTIMAL records. The tables' own frames are not among the frames
-- of Frames, and the TLB is left out. The wait for blocked processes in fos_scheduler is no loop
-- here but the test `is_any_blocked`. kmalloc's return of NULL for a page that get_page refuses
-- has no counterpart, since get_page panics instead.
mod Common
pub mod Mmu
pub mod Space
pub mod Frames
pub mod PageFile
pub mod Shares
pub mod Conc
pub mod Kheap
pub mod Sched
pub mod Fault
