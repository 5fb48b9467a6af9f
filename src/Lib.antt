-- ===== src/Lib.antt =====
-- Osmium, a RISC-V kernel in Rust (src/): a model of its parts over explicit state, with the
-- theorems that make them correct.
--
-- * Machine (the default build profile, src/memlayout.rs): Outcome is the result of code that can
--   panic, with `spin` for a loop that has used up its fuel; arithmetic on usize is checked, as
--   in that profile; memory is a function from addresses to 64-bit words.
-- * Kalloc (src/kalloc.rs): the page allocator. Its free list lives in the pages themselves, so
--   the state holds the memory. The list in memory is related to a list of addresses
--   (Kalloc/Chain), each operation to one on that list (Kalloc/Pages), and boot to the set of
--   whole free pages (Kalloc/Seed). The loop of init has one round for each page below the top of
--   DRAM, which its theorem shows to be enough.
-- * Heap (src/heap.rs): the kernel heap. Heap/Spec is an independent description on lists of
--   blocks; Heap/Live says when a heap is valid for a list of live allocations; Heap/Alloc,
--   Heap/Dealloc and Heap/Free connect the walks of the list in memory to the description. The
--   walks run on fuel; more than heap_size / 32 rounds are enough, since every block has at least
--   32 bytes.
--
-- * Sched (src/proc.rs): the process table and the scheduler. Each critical section, from
--   push_off to pop_off or to the switch, is one step, and a spawn takes its pid in one before;
--   Sched/Inv has the invariant, Sched/Keep and Sched/Start show that every operation keeps it,
--   Sched/Pick is about the round-robin scan, Sched/Loop has the round of the loop, with the
--   memory in which it frees the tables of the zombies, and Sched/Round is about it, Sched/Pids
--   says which pids an operation leaves, Sched/Reach about all runs, Sched/Wake about waking,
--   exiting and joining, Sched/Files about the open files and Sched/Break about sbrk. The
--   register switch itself is assembly.
--
-- * Console (src/console.rs): the input ring buffer, related to a bounded queue. Printing is not
--   modelled.
--
-- * Fs (src/fs.rs): the file system, with the bytes of its built-in files.
--
-- * Spinlock (src/spinlock.rs): the nesting of sections with interrupts off, and the lock.
--
-- * Sync (src/sync.rs): the semaphore and the channel, on the scheduler. Sync/Laws has the steps
--   of senders and receivers as a relation, Sync/Reach what holds in every interleaving.
--
-- * Vm (src/vm.rs): the page tables over the page allocator, with the demand-mapped heap page of
--   src/proc.rs in Vm/Tables. Vm/Find is the abstract view, the entry behind a path of three
--   indices; Vm/Space says when the tables below a root are sound; Vm/Grow, Vm/Walk, Vm/Leaf,
--   Vm/Range and Vm/Translate follow a mapping from the new table to the whole range, Vm/Keep is
--   about writes that touch no table, and Vm/Demand about the page fault in the heap.
--
-- * Image (src/proc.rs): loading a program into a new address space, spawn_user, exec and fork;
--   Image/Laws is about fork. User (src/user.rs): the table of the programs, whose addresses are
--   the linker's.
--
-- * Timer (src/timer.rs): the tick counter and sleeping. Sbi (src/sbi.rs): the calls of the
--   firmware, which is an argument. Plic (src/plic.rs) and Uart (src/uart.rs): the interrupt
--   controller and the receive side of the serial port, over their registers.
--
-- * Syscall (src/syscall.rs): the two copies across the user boundary in Syscall, the calls in
--   Syscall/Calls and the dispatch in Syscall/Dispatch. A user address is read and written
--   through the table of the current process, on which the hart runs; Machine/Bytes has the bytes
--   of the words. Syscall/Pages, Syscall/Poke, Syscall/Copy and Syscall/CopyOut lead to the
--   theorems on the copies, which are about address spaces as Vm/Space and Syscall/Poke describe
--   them; Syscall/Replies and Syscall/Fread are about the calls. A loop over the pages of a range
--   has fuel for each page that the range can touch. A call that blocks has fuel for its sleeps,
--   and what the other threads do meanwhile is an argument.
--
-- * Trap (src/trap.rs): the saved registers, and in Trap/Handler the dispatch on the cause, which
--   joins the timer, the devices, the system calls and the page faults. What the hart's registers
--   and the devices say is an argument.
--
-- * Shell (src/shell.rs): the line editor, with a terminal in Shell/Line that interprets what it
--   echoes, the commands in Shell/Commands, and cat, whose fuel is a round for each chunk of 64
--   bytes.
--
-- Not modelled: the set-up of the devices, the boot code and self-tests in src/main.rs, the user
-- programs and the assembly, which only drive the parts above; the firmware; src/power.rs, which
-- only asks it to end the machine. Messages that the kernel prints about its own state are left
-- out.
--
-- The lock of each component is taken and released inside each call and one hart runs, so a call
-- is one step. Memory is read and written in aligned 64-bit words, and a byte is a part of one.
pub mod Console
pub mod Fs
pub mod Heap
pub mod Image
pub mod Kalloc
pub mod Machine
pub mod Plic
pub mod Prelude
pub mod Sbi
pub mod Sched
pub mod Shell
pub mod Spinlock
pub mod Sync
pub mod Syscall
pub mod Timer
pub mod Trap
pub mod Uart
pub mod User
pub mod Vm
