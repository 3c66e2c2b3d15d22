-- ===== src/Lib.antt =====
-- A model of the kernel of ignium, a small capability microkernel for RISC-V (kernel/src): its
-- processes and their capability slots, page capabilities, shared memory, the service registry,
-- device claims, messages between processes, the scheduler, the page tables, the page
-- allocator, the kernel heap, the locks, and the parsers of programs and of the device tree.
--
-- How the parts interact. A system call (kernel/src/syscall.rs, `handle`) runs one of the
-- operations below for the calling process. The process table (process.rs) holds the capability
-- slots. A capability names a process, a shared page or a page; the registries of shm.rs and
-- pages.rs hold what it names. services.rs gives two processes a capability for each other,
-- device.rs maps a device for one process. Destroying a process revokes what it holds in both
-- registries and drops its services and device claims. All of them call the page allocator
-- (mem.rs) and the page tables (mmu.rs), which those operations take as the interface Memory;
-- Mmu and Buddy model them on their own. A call that blocks, or that ends a wait, calls the
-- scheduler (sched.rs), which chooses the thread that each core runs. The locks (sync.rs) block
-- and wake threads by it. The heap (heap.rs) takes its pages from the page allocator, as the
-- interface PageAllocator, which Heap/Pages fills with Buddy. At boot the device tree (fdt.rs)
-- gives the reserved intervals that the page allocator leaves out.
--
-- The files:
--   Base: lists, results, tests on numbers, chains and binary digits. Abi: machine words and
--     error codes (syscall.rs).
--   Memory: the interface of the allocator and of the page tables (mem.rs, mmu.rs), over a
--     store of its own.
--   Process: process.rs, its table and the operations on slots; Process/Caps: what each does
--     to the capability slots; Process/Table: the table's invariant.
--   Kernel: the state of all tables, and the type of an operation.
--   Pages, Shm, Services, Device: pages.rs, shm.rs, services.rs, device.rs, each operation
--     under its name in the source; Pages/Registry: the registry's invariant.
--   Lifecycle: create, cap_revoke and destroy of process.rs, which reach into the registries.
--   Ownership and its children: who owns a page; Moved: what a transfer has done; Reach: the
--     operations as a step relation; Exhaustion: the limit on page records.
--   Ipc: ipc.rs, its two queues and send, recv and purge_process; the calls to the scheduler
--     are recorded in the outcome; Ipc/Queues: searches in the queues; Ipc/Rendezvous,
--     Ipc/Waiting, Ipc/Listening, Ipc/Purge: who meets whom.
--   Sched: sched.rs, its state, the ready queues and pick_next; Sched/Donations, Switch,
--     Wakes, Preempt, Spawns, Kills: its other operations, by what they are for.
--   Sched/Queues, Picks, Inheritance, Kept: what the queues hold, which thread is chosen, and
--     what a donation changes; Sched/Running, Leaving, Manned, Blocking, Waking, Ticking,
--     Making, Idle, Migrating: each core has a thread; Sched/Steps: the operations as a step
--     relation; Sched/Bounds, Delivery, Faults: sizes, the order of wake and block, and two
--     faults.
--   Syscall: the dispatch of syscall.rs over a trap frame; Syscall/Frame: what becomes of the
--     registers; Syscall/Invariant: each call is a step of the kernel.
--   Mmu: mmu.rs, over a memory that is a function of a table's address and an index;
--     Mmu/Words: entries; Mmu/Tree: the tables form a tree; Mmu/Mapping: mapping and
--     unmapping change a partial map.
--   Buddy: how mem.rs builds its free lists around the reserved intervals (push, carve);
--     Buddy/Listed: the pages that stand in the free lists; Buddy/Carve: what becomes of the
--     pages of one interval; Buddy/Blocks: alloc and free; Buddy/Stale: what free leaves of a
--     block's mark; Buddy/Chains: the loop over a free list ends.
--   Fdt: fdt.rs, the header and the table of reserved intervals; Fdt/Bytes, Props, Walk: byte
--     strings, the properties, the loops of parse; Fdt/Merging, Reserved, Adding: what the
--     table covers; Fdt/Total, Local, Blob, Outcome, Board: how far a turn goes, the bytes
--     that are read, and the table that is returned.
--   Locks: sync.rs, the spin lock, and the mutex and the condition variable as steps;
--     Locks/Exclusion: the order of the steps and who has the mutex.
--   Heap: heap.rs, its state and the interface of the page allocator; Heap/Sweep, Alloc,
--     Blocks: the sweep, slots and large objects; Heap/Linked, Slots, Shape: chains in
--     memory, the slots of a page, and the shape of the heap; Heap/Giving, Sweeping, Swept,
--     Growing, Taking, Large: what each operation does to it; Heap/Pages: Buddy as its page
--     allocator.
--   Elf: the parser of elf.rs, where a read out of bounds or an addition that overflows is
--     the result panic; Elf/Sound: what an accepted file satisfies; Elf/Total: the parser
--     does not panic.
--   Tests and its children: a machine that counts pages, and runs on it.
--
-- Correspondence. A usize is a natural number. `Vec` and `VecDeque` are lists, the array of
-- slots is a function of the slot, a record's fields are the source's. A part of a function
-- that runs under one lock is a definition of its own: insert and retire are the locked parts
-- of creation and revocation. An operation is a function from the state to its result and the
-- state it leaves, on an error as well.
--
-- Bounds. The tables have at most MAX_PROCESSES = 32 processes, 64 page records and 16 shared
-- pages, eight slots each process; 64 threads, three priorities, four cores and 64 donations. A
-- free list is followed for page_count + 1 steps, which is enough for a list without a cycle;
-- in a cycle the code does not end. The walk over a device tree has one step more than its end,
-- and each token moves it on; the reserve map has one more than the size of the tree. The loops
-- over a chain of slab pages have fuel above the number of its pages; the link of a page's
-- slots has 257 steps, and no class has more than 255 slots. The other loops take no fuel: they
-- run over lists, levels and cores, pick_next takes as many rounds as its queue is long, and
-- carve recurs on the order.
--
-- Not modelled: interleavings of operations, other than of the locks (each runs alone, as a
-- system call does on one core with interrupts off), the TLB, the contents of memory, but for
-- the words that the page tables and the heap keep in it, the requests between cores and the
-- switch of registers, the kernel's own regions of the page tables and their release, the
-- mapping of a loaded program, the drivers, boot and the user programs.
pub mod Base
pub mod Abi
pub mod Memory
pub mod Process
pub mod Kernel
pub mod Ipc
pub mod Buddy
pub mod Fdt
pub mod Heap
pub mod Mmu
pub mod Elf
pub mod Sched
pub mod Syscall
pub mod Pages
pub mod Shm
pub mod Services
pub mod Device
pub mod Lifecycle
pub mod Locks
pub mod Ownership
mod Tests
