-- ===== src/Trap/Handler/Laws.antt =====
-- A fault of a user process costs the process, not the kernel.
use osmium.Prelude.{
  ℕ, ◌^◌, ◌≤◌, ◌<◌, ◌≡◌, ◌≢◌, refl, ◌∙◌, ◌⊎◌, inl, inr, Bool, true, false, ◌||◌, ◌==◌, none, some,
  arith, Bool-cases, ne→==_false, bit_and,
}
use osmium.Prelude.Bits.{bit_and-low, bit_and-flag}
use osmium.Machine.{complement}
use osmium.Machine.Returns
use osmium.Machine.Returns.{Returns, returns}
use osmium.Trap.{TrapFrame}
use osmium.Sched.{Process, Scheduler, still_running}
use osmium.Sched.Slots.{At}
use osmium.Sched.Inv.{IsValid}
use osmium.Sched.Wake.{exit-wakes_joiners}
use osmium.Sched.Files.Cursor.{put-same}
use osmium.Vm.Laws.{service_page_fault-outside}
use osmium.Syscall.{Kernel}
use osmium.Syscall.Calls.{Platform}
use osmium.Syscall.Dispatch.{sys_exit}
use osmium.Trap.Handler.{
  Event, World, fault, exception, kerneltrap, scause_interrupt, sstatus_spp, exc_breakpoint,
  exc_ecall_user, exc_load_page_fault, exc_store_page_fault,
}

-- The current process of a sound scheduler.
pub record IsRunning (s : Scheduler) (cur : ℕ) (me : Process) : Type 0 where
  pub valid : IsValid s
  pub current : s.current ≡ some cur
  pub at : At s.procs cur me

-- The process is gone, and of the kernel only the scheduler has changed.
pub record Killed (me : Process) (k k' : Kernel) : Type 0 where
  pub valid : IsValid k'.sched
  pub dead : still_running me.pid k'.sched.procs ≡ false
  pub rest : k' ≡ record k { sched = k'.sched }

sys_exit-Killed :
    (k : Kernel) {cur : ℕ} {me : Process}
    → IsRunning k.sched cur me
    → Returns (λ r. Killed me k r.1) (sys_exit k)
unfolding sys_exit
sys_exit-Killed k {cur} {me} r =
    Returns.bind (exit-wakes_joiners cur me r.valid r.current r.at)
      λ s (v, dead, awake). returns (record { valid = v; dead = dead; rest = refl })

fault-Killed :
    (code : ℕ) (ev : Event) (frame : TrapFrame) (k : Kernel) {cur : ℕ} {me : Process}
    → IsRunning k.sched cur me
    → (ev.stval < me.heap_base) ⊎ (me.heap_brk ≤ ev.stval)
    → Returns (λ r. (r.0 ≡ none) × Killed me k r.1) (fault code true ev frame k)
unfolding fault
fault-Killed code ev frame k {cur} {me} r out =
    elim (Bool-cases ((code == exc_load_page_fault) || (code == exc_store_page_fault))) [
      | inl page ↦
          rw
            (
              page,
              service_page_fault-outside ev.stval k.sched k.kmem me r.current r.at out,
              put-same k.sched cur r.at,
              fault,
            )
            (Returns.bind (sys_exit-Killed k r) λ (reply, k') dead. returns (refl, dead))
      | inr other ↦
          rw (other, fault)
            (Returns.bind (sys_exit-Killed k r) λ (reply, k') dead. returns (refl, dead))
    ]

exception-fault :
    (naps : ℕ) (p : Platform) (code : ℕ) (user : Bool) (ev : Event) (frame : TrapFrame) (k : Kernel)
    → (code ≢ exc_breakpoint) × (code ≢ exc_ecall_user)
    → exception naps p code user ev frame k ≡ fault code user ev frame k
unfolding exception
exception-fault naps p code user ev frame k (no_break, no_call) =
    rw
      (ne→==_false code exc_breakpoint no_break, ne→==_false code exc_ecall_user no_call, exception)
      refl

-- On a sound scheduler with a current process, an exception in user mode that is neither a
-- breakpoint nor a system call, and whose faulting address lies outside the heap of the process,
-- never panics the kernel: the process is killed, nobody with its pid lives any more, the
-- scheduler stays sound, and nothing else of the kernel's state changes.
pub kerneltrap-kills :
    (naps : ℕ) (p : Platform) (ev : Event) (frame : TrapFrame) (w : World) {cur : ℕ} {me : Process}
    → IsRunning w.kernel.sched cur me
    → ev.scause < 2 ^ 63
    → (ev.scause ≢ exc_breakpoint) × (ev.scause ≢ exc_ecall_user)
    → bit_and frame.sstatus sstatus_spp ≡ 0
    → (ev.stval < me.heap_base) ⊎ (me.heap_brk ≤ ev.stval)
    → Returns
        (λ r. (r.0 ≡ none) × Killed me w.kernel r.1.kernel × (r.1.fifo ≡ w.fifo))
        (kerneltrap naps p ev frame w)
unfolding kerneltrap
kerneltrap-kills naps p ev frame w r small others user out =
    let code : bit_and ev.scause (complement scause_interrupt) ≡ ev.scause =
      bit_and-low 63 ev.scause ∙ omega arith in
    let trap : bit_and ev.scause scause_interrupt ≡ 0 = bit_and-flag 63 ev.scause ∙ omega arith in
    rw
      (trap, user, code, exception-fault naps p ev.scause true ev frame w.kernel others, kerneltrap)
      (Returns.bind (fault-Killed ev.scause ev frame w.kernel r out)
        λ (next, k) (is, dead). returns (is, dead, refl))
