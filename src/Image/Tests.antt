-- ===== src/Image/Tests.antt =====
-- A process without user pages forks.
use osmium.Prelude.{ℕ, ◌≡◌, refl, arith}
use osmium.Machine.{ok, fill}
use osmium.Machine.Returns.{Returns}
use osmium.Kalloc.{Kmem, alloc}
use osmium.Sched.{Process, running}
use osmium.Sched.Slots.{At}
use osmium.Sched.Inv.{IsValid}
use osmium.Sched.Tests.{busy, busy-IsValid, thread}
use osmium.Trap.{TrapFrame}
use osmium.Vm.Tables.{clone_user_table, make_user_table, copy_entries}
use osmium.Image.{Entries, fork}
use osmium.Image.Laws.{IsChild, fork-IsChild}

-- The kernel's table at 200, where the test's threads have theirs, and one free page.
abbrev one_free : Kmem
one_free = record { mem = λ a. 0; head = 0x80c0_1000; free_pages = 1 }

abbrev cloned : Kmem
cloned = record {
  mem = copy_entries 512 0 0x80c0_1000 200 (fill (λ a. 0) 0x80c0_1000 4096 0);
  head = 0;
  free_pages = 0;
}

clone_run : clone_user_table 200 200 one_free ≡ ok (0x80c0_1000, cloned)
unfolding clone_user_table make_user_table copy_entries alloc
clone_run = refl

abbrev entries : Entries
entries = record { thread_entry = 100; user_thread_body = 104; forkret_body = 108 }

abbrev registers : TrapFrame
registers = record {
  ra = 0;
  sp = 0x4100_0000;
  gp = 0;
  tp = 0;
  t0 = 0;
  t1 = 0;
  t2 = 0;
  s0 = 0;
  s1 = 0;
  a0 = 5;
  a1 = 0;
  a2 = 0;
  a3 = 0;
  a4 = 0;
  a5 = 0;
  a6 = 0;
  a7 = 12;
  s2 = 0;
  s3 = 0;
  s4 = 0;
  s5 = 0;
  s6 = 0;
  s7 = 0;
  s8 = 0;
  s9 = 0;
  s10 = 0;
  s11 = 0;
  t3 = 0;
  t4 = 0;
  t5 = 0;
  t6 = 0;
  sepc = 0x4000_0014;
  sstatus = 0;
}

fork-IsChild_example :
    Returns
      (λ (pid, (s', k'')).
        (pid ≡ 3)
        × (k'' ≡ cloned)
        × IsValid s'
        × ((i : ℕ) (p : Process) → At busy.procs i p → At s'.procs i p)
        × (child : Process) × IsChild registers 0x80c0_1000 (thread 1 running) busy s' pid child)
      (fork entries 200 0x8100_0000 registers (busy, one_free))
fork-IsChild_example =
    fork-IsChild entries 200 0x8100_0000 registers busy one_free busy-IsValid refl refl clone_run
      (omega arith) (omega arith)
