-- ===== src/Trap/Handler.antt =====
-- trap.rs, `kerneltrap`: what the kernel does about an interrupt or an exception. The registers that
-- the hart has set are arguments, and so is what the devices answer. A handler that takes the hart
-- from its thread runs on in the state that the others have made of it.
pub mod Laws
mod Tests
use osmium.Prelude.{
  ℕ, suc, ◌+◌, ◌*◌, ◌^◌, Bool, true, false, not, ◌&&◌, ◌||◌, ◌==◌, if◌then◌else◌, Option, none,
  some, List, length, bit_and,
}
use osmium.Machine.{Mem, Outcome, ok, panic, spin, ◌>>=◌, add, complement, uart0_irq}
use osmium.Machine.Bytes.{read_byte}
use osmium.Kalloc.{Kmem}
use osmium.Trap.{TrapFrame}
use osmium.Sched.{Scheduler, wakeup, on_tick_preempt}
use osmium.Sched.Break.{current_root}
use osmium.Vm.Tables.{service_page_fault}
use osmium.Timer.{on_tick, tick_chan}
use osmium.Plic.{claim, complete}
use osmium.Uart.{handle_interrupt}
use osmium.Syscall.{Kernel, access, unreadable}
use osmium.Syscall.Calls.{Platform}
use osmium.Syscall.Dispatch.{dispatch, sys_exit}

abbrev pub irq_s_timer : ℕ
irq_s_timer = 5

abbrev pub irq_s_external : ℕ
irq_s_external = 9

abbrev pub exc_breakpoint : ℕ
exc_breakpoint = 3

abbrev pub exc_ecall_user : ℕ
exc_ecall_user = 8

abbrev pub exc_load_page_fault : ℕ
exc_load_page_fault = 13

abbrev pub exc_store_page_fault : ℕ
exc_store_page_fault = 15

-- riscv.rs
abbrev pub sstatus_spp : ℕ
sstatus_spp = 2 ^ 8

abbrev pub scause_interrupt : ℕ
scause_interrupt = 2 ^ 63

-- What the hart and the devices have to say: the cause, the faulting address, the time, the answer of
-- the PLIC's claim register, and the other bits of the serial port's line status.
pub record Event : Type 0 where
  pub scause : ℕ
  pub stval : ℕ
  pub now : ℕ
  pub claimed : ℕ
  pub line : ℕ

-- The kernel's state with the registers of the PLIC and the bytes that the serial port holds.
pub record World : Type 0 where
  pub kernel : Kernel
  pub plic_regs : Mem
  pub fifo : List ℕ

abbrev pub with_kernel : World → Kernel → World
with_kernel w k = record w { kernel = k }

-- `instruction_len`, at a physical address: the low half of the instruction decides.
pub instruction_len : Mem → ℕ → ℕ
instruction_len m pa =
    let low_half = read_byte m pa + 256 * read_byte m (pa + 1) in
    if bit_and low_half 3 == 3 then 4 else 2

-- The thread goes on at once, or when the others have let it, if it was taken from the hart.
pub resumed : Platform → (before : Scheduler) → Kernel → Outcome Kernel
resumed p before k = elim k.sched.current [
  | some cur ↦ ok k
  | none ↦ elim before.current [ none ↦ ok k | some cur ↦ p.resume k ]
]

pub timer_interrupt : Platform → Event → Kernel → Outcome Kernel
timer_interrupt p ev k = do
  (ticks, when) ← on_tick ev.now k.ticks
  let awake = wakeup tick_chan k.sched
  sched ← on_tick_preempt awake
  resumed p awake (record k { ticks = ticks; sched = sched })

pub external_interrupt : Platform → Event → World → Outcome World
external_interrupt p ev w = elim (claim ev.claimed) [
  | none ↦ ok w
  | some irq ↦ elim (irq == uart0_irq) [
    | false ↦ ok (record w { plic_regs = complete irq w.plic_regs })
    | true ↦ do
      (fifo, input, sched) ←
          handle_interrupt (suc (length w.fifo)) ev.line p.input_chan
            (w.fifo, w.kernel.input, w.kernel.sched)
      ok (record {
        kernel = record w.kernel { input = input; sched = sched };
        plic_regs = complete irq w.plic_regs;
        fifo = fifo;
      })
  ]
]

-- A breakpoint: the program counter moves behind the instruction.
pub breakpoint : Platform → (from_user : Bool) → TrapFrame → Kernel → Outcome TrapFrame
breakpoint p from_user frame k = do
  pa ← elim from_user [
    | true ↦ do root ← current_root p.kroot k.sched; access unreadable root frame.sepc k.kmem
    | false ↦ ok frame.sepc
  ]
  sepc ← add frame.sepc (instruction_len k.kmem.mem pa)
  ok (record frame { sepc = sepc })

-- The other exceptions: a page fault of the user may be served; else the process dies, and where it
-- was the kernel's own, the kernel does.
pub fault :
    (code : ℕ)
    → (from_user : Bool) → Event
    → TrapFrame
    → Kernel
    → Outcome (Option TrapFrame × Kernel)
fault code false ev frame k = panic
fault code true ev frame k = do
  (served, sched, kmem) ←
      (if (code == exc_load_page_fault) || (code == exc_store_page_fault)
        then service_page_fault ev.stval (k.sched, k.kmem)
        else ok (false, k.sched, k.kmem))
  let k1 = record k { sched = sched; kmem = kmem }
  elim served [ true ↦ ok (some frame, k1) | false ↦ do (reply, k2) ← sys_exit k1; ok (none, k2) ]

pub exception :
    (naps : ℕ)
    → Platform
    → (code : ℕ) → (from_user : Bool) → Event
    → TrapFrame
    → Kernel
    → Outcome (Option TrapFrame × Kernel)
exception naps p code from_user ev frame k = elim (code == exc_breakpoint) [
  | true ↦ do next ← breakpoint p from_user frame k; ok (some next, k)
  | false ↦ elim (code == exc_ecall_user) [
    | true ↦ dispatch naps p frame k
    | false ↦ fault code from_user ev frame k
  ]
]

-- The frame that is restored, or none where the thread does not go on.
pub kerneltrap :
    (naps : ℕ) → Platform → Event → TrapFrame → World → Outcome (Option TrapFrame × World)
kerneltrap naps p ev frame w =
    let code = bit_and ev.scause (complement scause_interrupt) in
    let from_user = bit_and frame.sstatus sstatus_spp == 0 in
    elim (bit_and ev.scause scause_interrupt == 0) [
      | true ↦ do
        (next, k) ← exception naps p code from_user ev frame w.kernel
        ok (next, with_kernel w k)
      | false ↦ elim (code == irq_s_timer) [
        | true ↦ do k ← timer_interrupt p ev w.kernel; ok (some frame, with_kernel w k)
        | false ↦ elim (code == irq_s_external) [
          | true ↦ do w' ← external_interrupt p ev w; ok (some frame, w')
          | false ↦ panic
        ]
      ]
    ]
