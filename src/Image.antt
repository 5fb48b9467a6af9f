-- ===== src/Image.antt =====
-- proc.rs, the address space of a user process: loading a program, spawning it, exec and fork. The
-- state is the scheduler and the physical memory. `kroot` is the kernel's table, `kstack` the stack
-- that a new thread gets, and the entry points are addresses.
pub mod Laws
mod Tests
use osmium.Prelude.{
  ℕ, zero, suc, ◌+◌, ◌-◌, ◌/◌, ◌%◌, ltb, ◌==◌, not, if◌then◌else◌, Option, none, some, List, [],
  ◌∷◌, min, bit_or,
}
use osmium.Machine.{Outcome, ok, ◌>>=◌, ◌>>◌, check, expect, add, sub, mul, page_size, usize_max}
use osmium.Machine.Bytes.{copy_bytes}
use osmium.Kalloc.{Kmem, alloc}
use osmium.Trap.{TrapFrame}
use osmium.Sched.{Process, Scheduler, FdEntry, spawn_with, with_current}
use osmium.Sched.Break.{attach_user_space, user_heap_base}
use osmium.Vm.{map_pages, pte_r, pte_w, pte_x, pte_u}
use osmium.Vm.Tables.{make_user_table, clone_user_table, free_user_table, switch_to}
use osmium.User.{Prog}

abbrev pub user_text : ℕ
user_text = 0x4000_0000

abbrev pub user_stack_top : ℕ
user_stack_top = 0x4100_0000

abbrev pub System : Type 0
System = Scheduler × Kmem

-- `len.div_ceil(PAGE_SIZE)`
abbrev pub div_ceil : ℕ → ℕ → ℕ
div_ceil a b = if a % b == 0 then a / b else a / b + 1

-- The loop of `load_user_image`, for the `n` pages from the `i`th on.
unfoldable pub load_pages : (n i : ℕ) → (table src len : ℕ) → Kmem → Outcome Kmem
load_pages zero i table src len k = ok k
load_pages (suc n) i table src len k = do
  (found, k1) ← alloc k
  page ← expect found
  off ← mul i page_size
  rest ← sub len off
  from ← add src off
  let k2 = record k1 { mem = copy_bytes (min rest page_size) from page k1.mem }
  va ← add user_text off
  k3 ← map_pages table va page page_size (bit_or (bit_or pte_r pte_x) pte_u) k2
  load_pages n (suc i) table src len k3

unfoldable pub load_user_image : (kroot : ℕ) → Prog → Kmem → Outcome (ℕ × Kmem)
load_user_image kroot (src, len) k = do
  check (ltb 0 len)
  (table, k1) ← make_user_table kroot k
  k2 ← load_pages (div_ceil len page_size) 0 table src len k1
  (found, k3) ← alloc k2
  stack ← expect found
  k4 ←
      map_pages table (user_stack_top - page_size) stack page_size
        (bit_or (bit_or pte_r pte_w) pte_u) k3
  ok (table, k4)

-- The addresses of the functions that a new thread starts with.
pub record Entries : Type 0 where
  pub thread_entry : ℕ
  pub user_thread_body : ℕ
  pub forkret_body : ℕ

unfoldable pub spawn_user :
    (e : Entries) → (kroot kstack : ℕ) → (name : List ℕ) → Prog → System → Outcome (ℕ × System)
spawn_user e kroot kstack name prog (s, k) = do
  (table, k') ← load_user_image kroot prog k
  (pid, s') ←
      spawn_with e.thread_entry kroot kstack name e.user_thread_body
        (attach_user_space table user_text user_stack_top) s
  ok (pid, (s', k'))

-- The closure of `exec`: the table before, and the process on the new image.
unfoldable pub replace_image : ℕ → Process → (Option ℕ × ℕ) × Process
replace_image new_table p = (
  (p.user_table, p.kstack_top),
  record p {
    page_table = new_table;
    user_table = some new_table;
    user_entry = user_text;
    user_sp = user_stack_top;
    heap_base = user_heap_base;
    heap_brk = user_heap_base;
    fork_frame = none;
  },
)

-- How user mode is entered: the address of the first instruction, the stack, and the kernel stack.
abbrev pub Entering : Type 0
Entering = ℕ × ℕ × ℕ

-- `exec`, up to the entry into user mode, from which it does not come back.
unfoldable pub exec : (kernel_end kroot : ℕ) → Prog → System → Outcome (Entering × System)
exec kernel_end kroot prog (s, k) = do
  (new_table, k1) ← load_user_image kroot prog k
  (r, s') ← with_current (replace_image new_table) s
  (old_table, kstack_top) ← expect r
  satp ← switch_to new_table
  k2 ← elim old_table [ none ↦ ok k1 | some old ↦ free_user_table kernel_end old k1 ]
  ok ((user_text, user_stack_top, kstack_top), (s', k2))

-- The frame that a forked child starts with.
abbrev pub child_frame : TrapFrame → TrapFrame
child_frame frame = record frame { a0 = 0 }

-- The closure of `fork` that sets up the child.
unfoldable pub forked :
    (child_table : ℕ)
    → TrapFrame
    → (base brk : ℕ) → (fds : List (Option FdEntry)) → Process
    → Process
forked child_table frame base brk fds p =
    record (attach_user_space child_table frame.sepc frame.sp p) {
      heap_base = base;
      heap_brk = brk;
      fds = fds;
      fork_frame = some (child_frame frame);
    }

abbrev pub fork_name : List ℕ
fork_name = 117 ∷ 45 ∷ 102 ∷ 111 ∷ 114 ∷ 107 ∷ 45 ∷ 99 ∷ 104 ∷ 105 ∷ 108 ∷ 100 ∷ []

-- What `fork` reads of the parent.
abbrev pub Parent : Type 0
Parent = ℕ × ℕ × ℕ × List (Option FdEntry)

unfoldable pub fork : (e : Entries) → (kroot kstack : ℕ) → TrapFrame → System → Outcome (ℕ × System)
fork e kroot kstack frame (s, k) = do
  (r, s1) ← with_current {T = Parent} (λ p. ((p.page_table, p.heap_base, p.heap_brk, p.fds), p)) s
  elim r [
    | none ↦ ok (usize_max, (s1, k))
    | some parent ↦ do
      let (ptable, pbase, pbrk, pfds) = parent
      (child_table, k') ← clone_user_table kroot ptable k
      (pid, s2) ←
          spawn_with e.thread_entry kroot kstack fork_name e.forkret_body
            (forked child_table frame pbase pbrk pfds) s1
      ok (pid, (s2, k'))
  ]

-- What the first code of a child restores, and with what a user process starts.
unfoldable pub forkret_body : Scheduler → Outcome (TrapFrame × ℕ)
forkret_body s = do
  (r, s') ← with_current (λ p. ((p.fork_frame, p.kstack_top), p)) s
  (fork_frame, kstack_top) ← expect r
  frame ← expect fork_frame
  ok (frame, kstack_top)

unfoldable pub user_thread_body : Scheduler → Outcome Entering
user_thread_body s = do
  (r, s') ← with_current {T = Entering} (λ p. ((p.user_entry, p.user_sp, p.kstack_top), p)) s
  (entry, user_sp, kstack_top) ← expect r
  check (not (entry == 0))
  ok (entry, user_sp, kstack_top)
