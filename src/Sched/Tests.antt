-- ===== src/Sched/Tests.antt =====
-- A run of the scheduler from boot: two threads are spawned, and the first one is scheduled, gets a
-- table of its own and exits.
use osmium.Prelude.{
  ℕ, ◌+◌, ◌≤◌, ◌<◌, ◌≡◌, ◌≢◌, refl, ap, ◌∙◌, subst, zero, suc, ◌⊎◌, true, false, none, some, [],
  ◌∷◌, replicate, arith,
}
use osmium.Machine.{ok, usize_max, store, fill, page_size}
use osmium.Machine.Returns.{Returns, Returns-ok}
use osmium.Sched.{
  Process, Scheduler, State, runnable, running, sleeping, zombie, wakeup, with_current, switch_out,
  max_fds, spawn_with, place, take_pid, publish, freed_tables, scan, pick, dispatch, set_state,
  process_at, exit, exit_chan, still_running, sleeps_on, join_round, zeroed, put,
}
use osmium.Sched.Slots.{At, some-inj, none≢some}
use osmium.Sched.Inv.{IsValid, leave}
use osmium.Sched.Reach.{
  boot, start, take, land, Run, Reachable, booted, after, takes, lands, schedules, IsSound,
  Reachable-IsSound,
}
use osmium.Sched.Loop.{round, reap, reap_slots, reap_one, free_all}
use osmium.Kalloc.{Kmem, free, poison}
use osmium.Vm.{is_valid}
use osmium.Vm.Tables.{free_user_table}
use osmium.Sched.Keep.{Keeps, with_current-IsValid, exit-IsValid}
use osmium.Sched.Round.{Rounded, round-Rounded}
use osmium.Sched.Pick.{Picked, pick-Picked}
use osmium.Sched.Wake.{Lives, exit-wakes_joiners, join_round_lem}
use osmium.Sched.Break.{sbrk, sbrk_lem, user_heap_max}

-- `thread_entry` at 100, the kernel's table at 200, and the stack at 16 MiB into DRAM.
abbrev pub thread : ℕ → State → Process
thread pid st = record {
  pid = pid;
  name = 97 ∷ [];
  state = st;
  context = record zeroed { ra = 100; sp = 0x8100_4000 };
  entry = 300;
  kstack_top = 0x8100_4000;
  user_entry = 0;
  user_sp = 0;
  page_table = 200;
  user_table = none;
  heap_base = 0;
  heap_brk = 0;
  fds = replicate max_fds none;
  fork_frame = none;
}

abbrev one : Scheduler
one = record { procs = some (thread 1 runnable) ∷ []; current = none; next_slot = 0; next_pid = 2 }

abbrev two : Scheduler
two = record {
  procs = some (thread 1 runnable) ∷ some (thread 2 runnable) ∷ [];
  current = none;
  next_slot = 0;
  next_pid = 3;
}

abbrev pub busy : Scheduler
busy = record {
  procs = some (thread 1 running) ∷ some (thread 2 runnable) ∷ [];
  current = some 0;
  next_slot = 1;
  next_pid = 3;
}

spawn_one : spawn_with 100 200 0x8100_0000 (97 ∷ []) 300 (λ p. p) boot ≡ ok (1, one)
unfolding spawn_with take_pid publish place
spawn_one = refl

spawn_two : spawn_with 100 200 0x8100_0000 (97 ∷ []) 300 (λ p. p) one ≡ ok (2, two)
unfolding spawn_with take_pid publish place
spawn_two = refl

-- No table is freed, since nobody has died.
abbrev memory : Kmem
memory = record { mem = λ a. 0; head = 0; free_pages = 0 }

round_one :
    round 0x8020_0000 200 two memory
    ≡ ok (some (0x8000_0000_0000_0000, 0x8000_0000_0000_0000), busy, memory)
unfolding round reap reap_slots reap_one pick scan dispatch set_state process_at
    osmium.Vm.Tables.switch_to
round_one = refl

-- The second spawn takes its pid before the first process comes into the table.
abbrev two_run : Run
two_run = land (thread 2 runnable) (land (thread 1 runnable) (take (take start)))

two-Reachable : Reachable two_run
unfolding take_pid
two-Reachable =
    after
      (after (after (after booted takes) takes)
        (lands 100 200 0x8100_4000 1 (97 ∷ []) 300 (λ p. p) (λ p. (refl, refl)) refl))
      (lands 100 200 0x8100_4000 2 (97 ∷ []) 300 (λ p. p) (λ p. (refl, refl)) refl)

two-sched : two_run.sched ≡ two
unfolding take_pid publish place
two-sched = refl

abbrev busy_run : Run
busy_run = record two_run { sched = busy }

busy-Reachable : Reachable busy_run
busy-Reachable = after two-Reachable (
    schedules 0x8020_0000 200 memory memory (ap (λ s. s.current) two-sched)
      (ap (λ s. round 0x8020_0000 200 s memory) two-sched ∙ round_one))

Reachable-IsSound_example : IsSound busy_run
Reachable-IsSound_example = Reachable-IsSound busy-Reachable (omega arith)

two-IsValid : IsValid two
two-IsValid =
    let w = Reachable-IsSound two-Reachable (omega arith) in
    subst (λ s. IsValid s) two-sched w.valid

pub busy-IsValid : IsValid busy
busy-IsValid = let w = Reachable-IsSound busy-Reachable (omega arith) in w.valid

-- The first thread gets a private table, which is one empty page, and exits.
own_table : Process → Unit {0} × Process
own_table p = (tt, record p { user_table = some 0x8100_0000; page_table = 0x8100_0000 })

abbrev owner : State → Process
owner st = record (thread 1 st) { user_table = some 0x8100_0000; page_table = 0x8100_0000 }

abbrev mourning : Scheduler
mourning = record {
  procs = some (owner zombie) ∷ some (thread 2 runnable) ∷ [];
  current = none;
  next_slot = 1;
  next_pid = 3;
}

own_table_run : with_current own_table busy ≡ ok (some tt, put 0 (owner running) busy)
unfolding with_current own_table
own_table_run = refl

exit_run : exit (put 0 (owner running) busy) ≡ ok mourning
unfolding exit set_state switch_out wakeup process_at
exit_run = refl

own_table-Keeps : Keeps own_table
unfolding own_table
own_table-Keeps p = (refl, refl)

mourning-IsValid : IsValid mourning
mourning-IsValid =
    let v =
      Returns-ok (with_current-IsValid own_table own_table-Keeps busy-IsValid) own_table_run in
    Returns-ok (exit-IsValid v refl) exit_run

mourning-tables : (i : ℕ) (p : Process) → At mourning.procs i p → p.page_table ≢ 0
mourning-tables zero p a e = omega (arith, e, ap (λ q. q.page_table) (some-inj (some-inj a)))
mourning-tables (suc zero) p a e = omega (arith, e, ap (λ q. q.page_table) (some-inj (some-inj a)))
mourning-tables (suc (suc i)) p a e = absurd (none≢some a)

-- The page of the table is back on the free list.
abbrev freed : Kmem
freed = record {
  mem = store (fill (λ a. 0) 0x8100_0000 page_size poison) 0x8100_0000 0;
  head = 0x8100_0000;
  free_pages = 1;
}

frees : free_all 0x8020_0000 (freed_tables mourning.procs) memory ≡ ok freed
unfolding free_all freed_tables free_user_table free
frees = refl

round-Rounded_example :
    Returns
      (λ (r, s', k2). IsValid s' × (k2 ≡ freed) × Rounded 200 mourning (r, s'))
      (round 0x8020_0000 200 mourning memory)
round-Rounded_example =
    round-Rounded 0x8020_0000 200 memory mourning-IsValid refl frees (omega arith) mourning-tables

pick-Picked_example : Picked two.procs two.next_slot (pick two)
pick-Picked_example = pick-Picked two (omega arith)

exit-wakes_joiners_example :
    Returns
      (λ s'.
        IsValid s'
        × (still_running 1 s'.procs ≡ false)
        × ((i : ℕ) (q : Process) → At s'.procs i q → sleeps_on exit_chan q.state ≡ false))
      (exit busy)
exit-wakes_joiners_example = exit-wakes_joiners 0 (thread 1 running) busy-IsValid refl refl

join_round_lem_example :
    ((join_round 2 busy ≡ ok (true, busy)) × (¬ Lives 2 busy.procs))
    ⊎ ((join_round 2 busy ≡ ok (false, leave 0 (sleeping exit_chan) (thread 1 running) busy))
        × Lives 2 busy.procs)
join_round_lem_example = join_round_lem 2 0 (thread 1 running) refl refl

abbrev asleep : Scheduler
asleep = record {
  procs = some (thread 1 (sleeping 7)) ∷ some (thread 2 (sleeping 9)) ∷ [];
  current = none;
  next_slot = 0;
  next_pid = 3;
}

abbrev user : Process
user = record (thread 1 running) { heap_base = 0x5000_0000; heap_brk = 0x5000_2000 }

abbrev user_busy : Scheduler
user_busy = record busy { procs = some user ∷ [] }

sbrk_lem_example :
    ((0x5000_2000 + 4096 ≤ user_heap_max)
      × (0x5000_0000 ≤ 0x5000_2000 + 4096)
      × (0x5000_2000 < usize_max)
      × (sbrk 4096 user_busy
          ≡ ok (0x5000_2000, put 0 (record user { heap_brk = 0x5000_2000 + 4096 }) user_busy)))
    ⊎ ((user_heap_max < 0x5000_2000 + 4096)
        × (sbrk 4096 user_busy ≡ ok (usize_max, put 0 user user_busy)))
sbrk_lem_example = sbrk_lem 4096 user_busy user refl refl (omega arith) (omega arith)
