-- ===== src/Lib.antt =====
-- Spinix: a model of the kernel's page allocator, address spaces, scheduler, locks, block layer, buffer
-- cache and string functions.
--
-- The parts
--   Pmm (src/kernel/mm/pmm.c, src/include/mm/pmm.h) is the physical page allocator. pmm_init builds
--   three zones from the bootloader's memory map; pmm_alloc_page_zone, pmm_alloc_page,
--   pmm_alloc_page_flags, pmm_alloc_pages, pmm_free_page and pmm_free_pages take frames off the
--   zones' stacks and put them back.
--   Vmm (src/kernel/mm/vmm.c, src/include/mm/vmm.h) keeps the areas of each address space in a list by
--   address. vmm_alloc_region looks for room between them, vmm_map_region and vmm_unmap_region add and
--   remove areas, vmm_handle_page_fault maps the pages of lazy areas, vmm_split_region,
--   vmm_merge_regions and vmm_protect_region change areas, and vmm_fork_space copies them. The
--   structures come from pmm_alloc_page, the mappings go to mmu.c.
--   Sched (src/kernel/core/scheduler.c, src/include/core/scheduler.h, and switch_to_task of
--   src/kernel/arch/x86_64/switch.c) keeps the tasks in eight ready queues by priority, in a sleep list
--   and in a list of terminated tasks. schedule picks the next task; yield, block_task, nano_sleep_until
--   and terminate_task lead to it under the scheduler's counting lock; the timer tick wakes sleepers and
--   ages the tasks that wait.
--   Locks (src/kernel/core/mutex.c, src/kernel/core/spinlock.c, and their headers) has the mutex with
--   tickets, whose waiting threads block in the scheduler, and the spinlocks.
--   Blk (src/kernel/blk/blk.c, src/include/blk/blk.h) is the registry of block devices, and hands
--   requests to their drivers.
--   Cache (src/kernel/blk/bcache.c) keeps blocks in buffers: bread looks a block up in the hash chains,
--   or takes the least recently used free buffer and reads the block through blk_read; bwrite, bsync
--   and evictions write it back through blk_write.
--   Klibc (src/kernel/klibc/string.c) has the string and memory functions that all parts call.
--
-- The files
--   Base            the shared names: tests, lists, 64-bit sums (Base/Word), signed numbers (Base/Int),
--                   memory as a function (Base/Memory), linked lists in memory (Base/Chain, and
--                   doubly linked Base/Ring)
--   Pmm             pmm_zone_t, the static variables, pmm_addr_to_zone, the allocation and the release of
--                   single pages; alloc_page is pmm_alloc_page, and so on without the prefix
--   Pmm/Frames      the invariant: the links of each zone's stack lead through a list of frames
--   Pmm/Alloc       single pages against the lists of frames
--   Pmm/Fallback    the order of the zones in pmm_alloc_page
--   Pmm/Region      pmm_add_page_to_zone and pmm_add_region; Pmm/Region/Valid: they keep the invariant
--   Pmm/Boot        pmm_calculate_watermarks and pmm_init; Pmm/Boot/Map: the bootloader's memory map;
--                   Pmm/Boot/Entries and Pmm/Boot/Valid: the state that pmm_init leaves
--   Pmm/Pages       pmm_alloc_pages and pmm_free_pages; Pmm/Pages/Fragmented: a stack without a run
--   Pmm/Stats       the counters and queries
--   Vmm             the areas, the search for areas and for room, insertion and removal
--   Vmm/Regions     spaces and regions: vmm_init to vmm_free_region; Vmm/Faults: page faults, protection
--                   and copy on write; Vmm/Split: vmm_split_region and vmm_merge_regions; Vmm/Fork:
--                   vmm_fork_space
--   Vmm/Areas       the invariant: the areas of a space as an ordered list; Vmm/Insert: a new area in it
--   Vmm/Shortage    calls for which memory does not suffice
--   Vmm/Map, Vmm/Gaps, Vmm/Alloc, Vmm/Unmap   the theorems on regions
--   Vmm/Halves, Vmm/Halves/Region, Vmm/Joined, Vmm/Joined/Regions   splitting and merging, against how
--                   each address is mapped
--   Vmm/Copies      a space and its copy; Vmm/Copies/Pages: one area; Vmm/Copies/Forks: vmm_fork_space
--   Vmm/Resolve     page faults; Vmm/Guards: vmm_validate_range; Vmm/Astray: calls that go astray
--   Klibc           the functions of string.c; Klibc/Strings, Klibc/Compare, Klibc/Blocks: their theorems
--   Blk             the registry; Blk/Registry: its invariant
--   Blk/Io          blk_open to blk_ioctl; Blk/Opens, Blk/Guards: their theorems
--   Blk/Walk        the search by name, blk_for_each_device and the conversions of sectors
--   Blk/Total       that a call returns when the driver takes requests
--   Cache           struct buf, bcache, bcache_lookup, lru_move_front and bcache_evict
--   Cache/Calls     bread, brelse, bwrite, bpin, bunpin, bsync, bcache_invalidate and bcache_init
--   Cache/Ring      the LRU ring as a list; Cache/Index: the hash chains as an index; Cache/Index/Change
--                   and Cache/Index/Assign: a buffer leaves it and joins it
--   Cache/Valid     the invariant of the cache, and hits; Cache/Evict: evictions; Cache/Miss: misses
--   Sched           tcb_t, the static variables, the ready queues, time and aging
--   Sched/Switch    schedule, the counting lock and the calls that lead to a switch
--   Sched/Sleep     the sleep list and the timer tick; Sched/Create: new tasks, scheduler_init, queries
--   Sched/Lists     the links as lists; Sched/Queues, Sched/Queues/Remove: the invariant of the
--                   queues, and their operations
--   Sched/Quiet, Sched/Keeps   what accounting and schedule leave alone
--   Sched/Requeue, Sched/Choice   schedule against the lists; Sched/Block: yield and block_task;
--                   Sched/Turns: round robin
--   Sched/Sleepers, Sched/Nap   the ordered sleep list, going to sleep; Sched/Wake, Sched/Tick: waking up
--   Sched/Faults    calls that damage the queues
--   Locks           mutex_t and the steps of a thread; Locks/Spin: the spinlocks; Locks/Invariant,
--                   Locks/Moves, Locks/Safety: what holds of the mutex after any steps
--   Pmm/Tests, Vmm/Tests (and Vmm/Tests/Forks), Klibc/Tests, Blk/Tests, Cache/Tests, Sched/Tests,
--   Locks/Tests     the theorems on concrete states
--
-- The state
--   A C structure is a record, and a static variable a field of the state that each operation
--   takes and returns. A pointer is an address, NULL is 0, and memory is a function from addresses
--   to cells: 8-byte words for the frames of Pmm, bytes for Klibc, structures for the devices of
--   Blk. The buffers of Cache have the addresses 1 to 256, the head of its ring 257. The links
--   between the tasks of Sched are a function of the address of the structure; that a link written
--   through a pointer which is no task may overlap another field is not in the model. Sums and
--   differences of 64-bit numbers wrap (add64, sub64, mul64). An
--   operation is one step; only Locks has interleavings, as lists of steps, each of a thread. For
--   most operations this is what the lock of their file ensures. It is not for Cache, where
--   bcache_evict, bread, bsync and bcache_invalidate give bcache.lock up round the calls of the
--   drivers (bwrite does not take it), nor for vmm_fork_space, which gives vmm_lock up before it
--   destroys a child that has failed: what other threads do in that time is left out. The lock of
--   a buffer is part of its state, taken by bread and given back by brelse; a call of Cache that
--   would wait for it, or for a busy buffer, is `none`.
--   kmalloc's answers are arguments of bcache_init and create_kernel_task.
--   In Sched the readings of the time stamp counter and tsc_to_ns are arguments. A call that may
--   switch returns whether it has: what follows it in its callers runs when the task is resumed,
--   so the model leaves it out then. `none` stands for an access through NULL or the panic at
--   start.
--   What Vmm calls of pmm.c and mmu.c is a parameter: the record Machine of operations on the state
--   `W` of the frames and the page tables. That a frame for a new structure is not in use, that a page
--   which has been mapped is mapped, and for vmm_fork_space that calls succeed where there
--   are enough frames for what they take, are hypotheses.
--   A driver of Blk is a parameter: a record of callbacks over the driver's own state `W`. A
--   callback may change that state; it does not change the devices' fields.
--
-- Fuel
--   A loop that follows links or runs to a terminator takes fuel, and a result of `none`
--   (out_of_fuel in Pmm/Pages) says that it has run out. The theorems ask for more fuel than the
--   list has nodes (vmm_fork_space: twice as much, since two lists are walked), or the string bytes,
--   which is enough for the result. The counting loops need
--   none.
--
-- Not modelled
--   The other parts of the kernel: the heap, the page tables (mmu.c and paging.c), processes, the file
--   systems, system calls, processor support and the device drivers. The console is left out, and
--   with it the functions of pmm.c, vmm.c, bcache.c and scheduler.c that print. Of the scheduler the
--   registers that switch_to_task_asm saves and the idle loop are left out. Of string.c strdup,
--   atoll and strerror are left out. The bootloader is an argument: its responses, with what its
--   protocol documents of the memory map as hypotheses.

pub mod Base
pub mod Blk
pub mod Cache
pub mod Klibc
pub mod Locks
pub mod Pmm
pub mod Sched
pub mod Vmm
