-- ===== src/Sync/Tests.antt =====
-- A channel with one slot, through which an item is on its way.
use osmium.Prelude.{ℕ, ◌≡◌, refl, none, some, List, [], ◌∷◌, arith, replicate}
use osmium.Machine.Returns.{Returns}
use osmium.Sched.{Process, Scheduler, running, zeroed, max_fds}
use osmium.Sync.{
  Semaphore, Channel, new_channel, wait_round, raise, send_reserve, send_push, send_publish,
  recv_reserve, recv_pop,
}
use osmium.Sync.Laws.{
  World, Reachable, started, after, reserves, pushes, publishes, claims, IsValid,
}
use osmium.Sync.Reach.{Reachable-order, recv_pop-Returns}

abbrev nobody : Scheduler
nobody = record { procs = []; current = none; next_slot = 0; next_pid = 1 }

-- A channel of capacity 1 with the given contents and counts.
abbrev channel : List ℕ → ℕ → ℕ → Channel ℕ
channel buf empty full = record {
  buf = buf;
  empty = record { count = empty };
  full = record { count = full };
}

abbrev claimed : World ℕ
claimed = record {
  chan = channel (9 ∷ []) 0 0;
  may_push = 0;
  has_pushed = 0;
  may_pop = 1;
  has_popped = 0;
  pushed = 9 ∷ [];
  popped = [];
}

claimed-Reachable : Reachable 1 claimed
unfolding new_channel send_reserve send_push send_publish recv_reserve wait_round raise
claimed-Reachable =
    after
      (after
        (after (after started (reserves 50 nobody nobody (channel [] 0 0) refl))
          (pushes 9 (omega arith)))
        (publishes (channel (9 ∷ []) 0 1) (omega arith) refl))
      (claims 51 nobody nobody (channel (9 ∷ []) 0 0) refl)

Reachable-order_example : IsValid 1 claimed
Reachable-order_example = Reachable-order claimed-Reachable

recv_pop-Returns_example :
    Returns (λ (item, c'). claimed.chan.buf ≡ item ∷ c'.buf) (recv_pop claimed.chan)
recv_pop-Returns_example = recv_pop-Returns claimed-Reachable (omega arith)

abbrev thread : Process
thread = record {
  pid = 1;
  name = [];
  state = running;
  context = zeroed;
  entry = 300;
  kstack_top = 400;
  user_entry = 0;
  user_sp = 0;
  page_table = 200;
  user_table = none;
  heap_base = 0;
  heap_brk = 0;
  fds = replicate max_fds none;
  fork_frame = none;
}

abbrev busy : Scheduler
busy = record { procs = some thread ∷ []; current = some 0; next_slot = 1; next_pid = 2 }

abbrev taken : Semaphore
taken = record { count = 0 }
