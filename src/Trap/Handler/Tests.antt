-- ===== src/Trap/Handler/Tests.antt =====
-- A process that stores to an address of the kernel.
use osmium.Prelude.{◌≡◌, refl, inr, none, [], arith}
use osmium.Machine.Returns.{Returns}
use osmium.Trap.{TrapFrame}
use osmium.Sched.{running}
use osmium.Sched.Tests.{busy, busy-IsValid, thread}
use osmium.Syscall.Tests.{platform, one_process}
use osmium.Trap.Handler.{Event, World, kerneltrap}
use osmium.Trap.Handler.Laws.{IsRunning, Killed, kerneltrap-kills}

abbrev zeros : TrapFrame
zeros = record {
  ra = 0;
  sp = 0;
  gp = 0;
  tp = 0;
  t0 = 0;
  t1 = 0;
  t2 = 0;
  s0 = 0;
  s1 = 0;
  a0 = 0;
  a1 = 0;
  a2 = 0;
  a3 = 0;
  a4 = 0;
  a5 = 0;
  a6 = 0;
  a7 = 0;
  s2 = 0;
  s3 = 0;
  s4 = 0;
  s5 = 0;
  s6 = 0;
  s7 = 0;
  s8 = 0;
  s9 = 0;
  s10 = 0;
  s11 = 0;
  t3 = 0;
  t4 = 0;
  t5 = 0;
  t6 = 0;
  sepc = 0x4000_0010;
  sstatus = 0;
}

abbrev store_fault : Event
store_fault = record { scause = 15; stval = 0x8020_0000; now = 0; claimed = 0; line = 0 }

abbrev world : World
world = record { kernel = record one_process { sched = busy }; plic_regs = λ a. 0; fifo = [] }

busy-IsRunning : IsRunning busy 0 (thread 1 running)
busy-IsRunning = record { valid = busy-IsValid; current = refl; at = refl }

kerneltrap-kills_example :
    Returns
      (λ r. (r.0 ≡ none) × Killed (thread 1 running) world.kernel r.1.kernel × (r.1.fifo ≡ []))
      (kerneltrap 1 platform store_fault zeros world)
kerneltrap-kills_example =
    kerneltrap-kills 1 platform store_fault zeros world busy-IsRunning (omega arith)
      ((λ e. omega (arith, e)), (λ e. omega (arith, e))) refl (inr (omega arith))
