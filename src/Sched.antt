-- ===== src/Sched.antt =====
-- proc.rs, processes and the round-robin scheduler. Each definition is the part of a function that
-- runs with interrupts off, from `push_off` to `pop_off` or to the switch, so it is one step of the
-- single hart. `switch_out` joins the thread's side of a switch to what the scheduler's loop does
-- when it is back. The kernel stack that a thread gets is its address.
pub mod Slots
pub mod Inv
pub mod Keep
pub mod Reach
pub mod Round
pub mod Loop
pub mod Pids
pub mod Start
pub mod Pick
pub mod Wake
pub mod Files
pub mod Break
pub mod Tests
use osmium.Prelude.{
  ℕ, zero, suc, ◌+◌, ◌*◌, ◌%◌, ◌^◌, Bool, true, false, not, ◌&&◌, ◌==◌, if◌then◌else◌, Option, none,
  some, List, [], ◌∷◌, ◌++◌, map, length, get_elem?, set, replicate, bit_and,
}
use osmium.Machine.{Outcome, ok, panic, spin, ◌>>=◌, ◌>>◌, check, expect, add, complement}
use osmium.Trap.{TrapFrame}

abbrev pub kstack_size : ℕ
kstack_size = 16 * 1024

abbrev pub max_fds : ℕ
max_fds = 8

pub record FdEntry : Type 0 where
  pub file_idx : ℕ
  pub offset : ℕ

pub record Context : Type 0 where
  pub ra : ℕ
  pub sp : ℕ
  pub s : List ℕ

abbrev pub zeroed : Context
zeroed = record { ra = 0; sp = 0; s = replicate 12 0 }

pub data State : Type 0 where
  runnable : State
  running : State
  sleeping : ℕ → State
  zombie : State

-- A name is the bytes of the string, and a function its address.
pub record Process : Type 0 where
  pub pid : ℕ
  pub name : List ℕ
  pub state : State
  pub context : Context
  pub entry : ℕ
  pub kstack_top : ℕ
  pub user_entry : ℕ
  pub user_sp : ℕ
  pub page_table : ℕ
  pub user_table : Option ℕ
  pub heap_base : ℕ
  pub heap_brk : ℕ
  pub fds : List (Option FdEntry)
  pub fork_frame : Option TrapFrame

abbrev pub Slots : Type 0
Slots = List (Option Process)

-- `Scheduler`, with the static `NEXT_PID`.
pub record Scheduler : Type 0 where
  pub procs : Slots
  pub current : Option ℕ
  pub next_slot : ℕ
  pub next_pid : ℕ

-- `state == ...`
abbrev pub is_runnable : State → Bool
is_runnable runnable = true
is_runnable _ = false

abbrev pub is_running : State → Bool
is_running running = true
is_running _ = false

abbrev pub is_zombie : State → Bool
is_zombie zombie = true
is_zombie _ = false

abbrev pub sleeps_on : ℕ → State → Bool
sleeps_on chan (sleeping c) = c == chan
sleeps_on chan _ = false

-- A process that `match` finds in its slot, with the stated kind of state.
abbrev pub holds : (State → Bool) → Option Process → Bool
holds test none = false
holds test (some p) = test p.state

-- The first slot that is `None` is filled, and where there is none the table grows.
pub place : Process → Slots → Slots
place p [] = some p ∷ []
place p (none ∷ slots) = some p ∷ slots
place p (some q ∷ slots) = some q ∷ place p slots

-- `NEXT_PID.fetch_add`, which takes place before the section with interrupts off.
unfoldable pub take_pid : Scheduler → ℕ × Scheduler
take_pid s = (s.next_pid, record s { next_pid = (s.next_pid + 1) % 2 ^ 64 })

-- The process that `spawn_with` builds; `thread_entry` is the address of that function and
-- `kernel_root` the kernel's table.
abbrev pub new_process :
    (thread_entry kernel_root stack_top pid : ℕ)
    → (name : List ℕ) → (entry : ℕ) → (Process → Process)
    → Process
new_process thread_entry kernel_root stack_top pid name entry configure =
    let proc = configure (record {
      pid = pid;
      name = name;
      state = runnable;
      context = zeroed;
      entry = entry;
      kstack_top = stack_top;
      user_entry = 0;
      user_sp = 0;
      page_table = kernel_root;
      user_table = none;
      heap_base = 0;
      heap_brk = 0;
      fds = replicate max_fds none;
      fork_frame = none;
    }) in
    record proc { context = record proc.context { ra = thread_entry; sp = stack_top } }

-- The section with interrupts off.
unfoldable pub publish : Process → Scheduler → Scheduler
publish proc s = record s { procs = place proc s.procs }

-- The two steps, where nothing comes between them.
pub spawn_with :
    (thread_entry kernel_root kstack : ℕ)
    → (name : List ℕ) → (entry : ℕ) → (Process → Process)
    → Scheduler
    → Outcome (ℕ × Scheduler)
spawn_with thread_entry kernel_root kstack name entry configure s = do
  top ← add kstack kstack_size
  let stack_top = bit_and top (complement 15)
  let (pid, s1) = take_pid s
  ok (pid, publish (new_process thread_entry kernel_root stack_top pid name entry configure) s1)

-- The process of the slot `cur`, where a slot must be there and filled.
pub process_at : Slots → ℕ → Outcome Process
process_at procs cur = do slot ← expect (get_elem? procs cur); expect slot

abbrev pub put : ℕ → Process → Scheduler → Scheduler
put i p s = record s { procs = set s.procs i (some p) }

-- The current process changes its state.
pub set_state : ℕ → State → Scheduler → Outcome Scheduler
set_state cur st s = do p ← process_at s.procs cur; ok (put cur (record p { state = st }) s)

-- `sched` up to the switch, and the scheduler's loop after it. What `sched` asserts and keeps of the
-- hart is in Spinlock, where `sched` has the assertion on the nesting of sections.
pub switch_out : Scheduler → Outcome Scheduler
switch_out s = do
  cur ← expect s.current
  p ← process_at s.procs cur
  check (not (is_running p.state))
  ok (record s { current = none })

pub yield_now : Scheduler → Outcome Scheduler
yield_now s = elim s.current [
  | none ↦ ok s
  | some cur ↦ do s' ← set_state cur runnable s; switch_out s'
]

pub on_tick_preempt : Scheduler → Outcome Scheduler
on_tick_preempt s = elim s.current [
  | none ↦ ok s
  | some cur ↦ do p ← process_at s.procs cur; if is_running p.state then yield_now s else ok s
]

pub sleep : ℕ → Scheduler → Outcome Scheduler
sleep chan s = do cur ← expect s.current; s' ← set_state cur (sleeping chan) s; switch_out s'

abbrev pub wake_slot : ℕ → Option Process → Option Process
wake_slot chan none = none
wake_slot chan (some p) = some (if sleeps_on chan p.state then record p { state = runnable } else p)

unfoldable pub wakeup : ℕ → Scheduler → Scheduler
wakeup chan s = record s { procs = map (wake_slot chan) s.procs }

abbrev pub exit_chan : ℕ
exit_chan = 0xdead_0001

pub exit : Scheduler → Outcome Scheduler
exit s = do cur ← expect s.current; s' ← set_state cur zombie s; switch_out (wakeup exit_chan s')

-- Whether `join` must wait: a process with the pid is there and not a zombie.
pub still_running : ℕ → Slots → Bool
still_running pid [] = false
still_running pid (none ∷ slots) = still_running pid slots
still_running pid (some p ∷ slots) =
    let rest = still_running pid slots in
    if (p.pid == pid) && not (is_zombie p.state) then true else rest

-- One round of the loop of `join`: it returns (true), or has slept and tests again (false).
pub join_round : ℕ → Scheduler → Outcome (Bool × Scheduler)
join_round pid s = elim (still_running pid s.procs) [
  | true ↦ do s' ← sleep exit_chan s; ok (false, s')
  | false ↦ ok (true, s)
]

unfoldable pub with_current :
    {T : Type 0} → (Process → T × Process) → Scheduler → Outcome (Option T × Scheduler)
with_current f s = elim s.current [
  | none ↦ ok (none, s)
  | some cur ↦ do
    slot ← expect (get_elem? s.procs cur)
    elim slot [ none ↦ ok (none, s) | some p ↦ let (r, p') = f p in ok (some r, put cur p' s) ]
]

-- `map_or(0, |p| p.pid)`
abbrev pub pid_of : Option Process → ℕ
pid_of none = 0
pid_of (some p) = p.pid

pub current_pid : Scheduler → Outcome ℕ
current_pid s = elim s.current [
  | none ↦ ok 0
  | some cur ↦ do slot ← expect (get_elem? s.procs cur); ok (pid_of slot)
]

pub process_list : Slots → List (ℕ × List ℕ × State)
process_list [] = []
process_list (none ∷ slots) = process_list slots
process_list (some p ∷ slots) = (p.pid, p.name, p.state) ∷ process_list slots

-- What the scheduler's pass over the zombies makes of a slot and of the table, and the private tables
-- that it frees, in order. The pass itself is in Sched/Loop.
abbrev pub reap_slot : Option Process → Option Process
reap_slot slot = if holds is_zombie slot then none else slot

abbrev pub table_of : Option Process → List ℕ
table_of none = []
table_of (some p) =
    if is_zombie p.state then elim p.user_table [ none ↦ [] | some t ↦ t ∷ [] ] else []

pub freed_tables : Slots → List ℕ
freed_tables [] = []
freed_tables (slot ∷ slots) = table_of slot ++ freed_tables slots

pub cleared : Scheduler → Scheduler
cleared s = record s { procs = map reap_slot s.procs }

-- The scan for the next runnable thread: `left` slots are still to be tried, from the `i`th on.
pub scan : (left i : ℕ) → (next_slot : ℕ) → Slots → Option ℕ
scan zero i next_slot procs = none
scan (suc left) i next_slot procs =
    let idx = (next_slot + i) % length procs in
    elim (get_elem? procs idx) [
      | some (some p) ↦ elim (is_runnable p.state) [
        | true ↦ some idx
        | false ↦ scan left (suc i) next_slot procs
      ]
      | _ ↦ scan left (suc i) next_slot procs
    ]

pub pick : Scheduler → Option ℕ
pick s = scan (length s.procs) 0 s.next_slot s.procs

-- The picked thread becomes the current one; the result is the table that it runs on.
pub dispatch : ℕ → Scheduler → Outcome (ℕ × Scheduler)
dispatch idx s = do
  s' ← set_state idx running (record s { next_slot = idx + 1; current = some idx })
  p ← process_at s'.procs idx
  ok (p.page_table, s')
