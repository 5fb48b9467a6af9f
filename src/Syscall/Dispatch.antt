-- ===== src/Syscall/Dispatch.antt =====
-- syscall.rs, `dispatch`: the call that a7 names, with the result in a0 and the return address behind
-- the `ecall`.
use osmium.Prelude.{
  ℕ, zero, suc, ◌*◌, true, false, ◌==◌, if◌then◌else◌, Option, none, some, min, max,
}
use osmium.Machine.{Outcome, ok, spin, ◌>>=◌, add, usize_max}
use osmium.Trap.{TrapFrame}
use osmium.Sched.{yield_now, exit, join_round, current_pid}
use osmium.Sched.Break.{sbrk}
use osmium.Sched.Files.{fd_close}
use osmium.Timer.{Clock, sleep_ticks, tick_hz}
use osmium.Image.{fork, div_ceil}
use osmium.Syscall.{Kernel, err}
use osmium.Syscall.Calls.{
  Platform, Reply, value, gone, Effect, sys_write, sys_read, sys_uname, sys_open, sys_fread,
  sys_exec, sys_write_no, sys_exit_no, sys_yield_no, sys_getpid_no, sys_sleep_ms_no, sys_read_no,
  sys_uname_no, sys_open_no, sys_fread_no, sys_close_no, sys_sbrk_no, sys_fork_no, sys_wait_no,
  sys_exec_no,
}

-- `join`, for at most `naps` sleeps.
unfoldable pub join : (naps : ℕ) → Platform → (pid : ℕ) → Kernel → Outcome Kernel
join zero p pid k = spin
join (suc naps) p pid k = do
  (over, sched) ← join_round pid k.sched
  let k1 = record k { sched = sched }
  elim over [ true ↦ ok k1 | false ↦ do k2 ← p.resume k1; join naps p pid k2 ]

-- The clock of the kernel's state, and back.
abbrev pub split_clock : Kernel → Clock × Kernel
split_clock k = ((k.ticks, k.sched), k)

abbrev pub join_clock : Clock × Kernel → Kernel
join_clock (c, k) = record k { ticks = c.0; sched = c.1 }

abbrev pub resume_clock : Platform → Clock × Kernel → Outcome (Clock × Kernel)
resume_clock p w = do k ← p.resume (join_clock w); ok (split_clock k)

-- `saturating_mul`
abbrev pub saturating_mul : ℕ → ℕ → ℕ
saturating_mul a b = min (a * b) usize_max

unfoldable pub sleep_ms_ticks : ℕ → ℕ
sleep_ms_ticks a0 = max (div_ceil (saturating_mul a0 tick_hz) 1000) 1

pub sys_sleep_ms : (naps : ℕ) → Platform → (a0 : ℕ) → Kernel → Effect
sys_sleep_ms naps p a0 k = do
  w ← sleep_ticks naps (resume_clock p) (sleep_ms_ticks a0) (split_clock k)
  ok (0, join_clock w)

-- A call that returns.
abbrev pub replies : Effect → Outcome (Reply × Kernel)
replies m = do (n, k) ← m; ok (value n, k)

abbrev pub on_sched : Outcome (ℕ × osmium.Sched.Scheduler) → Kernel → Effect
on_sched m k = do (n, sched) ← m; ok (n, record k { sched = sched })

-- The calls of the other modules, as `dispatch` makes them.
unfoldable pub sys_exit : Kernel → Outcome (Reply × Kernel)
sys_exit k = do sched ← exit k.sched; ok (gone, record k { sched = sched })

pub sys_yield : Platform → Kernel → Effect
sys_yield p k = do sched ← yield_now k.sched; k' ← p.resume (record k { sched = sched }); ok (0, k')

pub sys_fork : Platform → TrapFrame → Kernel → Effect
sys_fork p frame k = do
  (pid, system) ← fork p.entries p.kroot (p.kstack k) frame (k.sched, k.kmem)
  let (sched, kmem) = system
  ok (pid, record k { sched = sched; kmem = kmem })

unfoldable pub sys_close : (fd : ℕ) → Kernel → Effect
sys_close fd k = do
  (was, sched) ← fd_close fd k.sched
  ok (if was then 0 else err, record k { sched = sched })

-- The `match` on a7, on the frame whose sepc has been advanced.
unfoldable pub call : (naps : ℕ) → Platform → TrapFrame → Kernel → Outcome (Reply × Kernel)
call naps p frame k =
    if frame.a7 == sys_write_no
    then replies (sys_write p frame.a0 frame.a1 k)
    else if frame.a7 == sys_exit_no
    then sys_exit k
    else if frame.a7 == sys_yield_no
    then replies (sys_yield p k)
    else if frame.a7 == sys_getpid_no
    then replies (do pid ← current_pid k.sched; ok (pid, k))
    else if frame.a7 == sys_read_no
    then replies (sys_read naps p frame.a0 frame.a1 k)
    else if frame.a7 == sys_uname_no
    then replies (sys_uname p frame.a0 frame.a1 k)
    else if frame.a7 == sys_open_no
    then replies (sys_open p frame.a0 frame.a1 k)
    else if frame.a7 == sys_fread_no
    then replies (sys_fread p frame.a0 frame.a1 frame.a2 k)
    else if frame.a7 == sys_sbrk_no
    then replies (on_sched (sbrk frame.a0 k.sched) k)
    else if frame.a7 == sys_fork_no
    then replies (sys_fork p frame k)
    else if frame.a7 == sys_wait_no
    then replies (do k' ← join naps p frame.a0 k; ok (0, k'))
    else if frame.a7 == sys_exec_no
    then sys_exec p frame.a0 frame.a1 k
    else if frame.a7 == sys_close_no
    then replies (sys_close frame.a0 k)
    else if frame.a7 == sys_sleep_ms_no
    then replies (sys_sleep_ms naps p frame.a0 k)
    else ok (value err, k)

-- The frame with which the caller goes on, or none if it does not.
unfoldable pub dispatch :
    (naps : ℕ) → Platform → TrapFrame → Kernel → Outcome (Option TrapFrame × Kernel)
dispatch naps p frame k = do
  sepc ← add frame.sepc 4
  let next = record frame { sepc = sepc }
  (reply, k') ← call naps p next k
  elim reply [ gone ↦ ok (none, k') | value n ↦ ok (some (record next { a0 = n }), k') ]
