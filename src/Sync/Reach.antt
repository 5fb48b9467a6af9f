-- ===== src/Sync/Reach.antt =====
-- What holds of a channel and of its semaphores in every interleaving.
use osmium.Prelude.{
  ℕ, ◌+◌, ◌-◌, ◌≤◌, ◌<◌, ◌≡◌, refl, sym, ap, ◌∙◌, ◌⊎◌, inl, inr, true, false, List, [], ◌∷◌, ◌++◌,
  length, length-append, arith, some, dec_lt, lt→ltb, le→ltb_false,
}
use osmium.Machine.{ok, ◌>>=◌, expect, add, usize_max}
use osmium.Machine.Returns.{Returns, returns, ensured}
use osmium.Sched.{Process, Scheduler, sleeping, sleeps_on}
use osmium.Sched.Slots.{At}
use osmium.Sched.Inv.{leave}
use osmium.Sched.Keep.{sleep_lem}
use osmium.Sched.Wake.{wakeup-exact}
use osmium.Sync.{Semaphore, wait_round, raise, signal, recv_pop, send_push, new_channel, pop_front}
use osmium.Sync.Laws.{
  World, start, Step, reserves, sleeps_full, pushes, publishes, claims, sleeps_empty, pops,
  releases, Reachable, started, after, IsValid, send_reserve_lem, recv_reserve_lem,
  send_publish_lem, recv_release_lem, recv_pop_lem,
}

module _ {T : Type 0} where
  append_assoc : (xs ys zs : List T) → (xs ++ ys) ++ zs ≡ xs ++ (ys ++ zs)
  append_assoc [] ys zs = refl
  append_assoc (x ∷ xs) ys zs = ap (λ l. x ∷ l) (append_assoc xs ys zs)

  start-IsValid : (capacity : ℕ) → IsValid capacity (start {T = T} capacity)
  unfolding new_channel
  start-IsValid capacity = record { slots = omega arith; filled = omega arith; order = refl }

  Step-IsValid :
      {capacity : ℕ} {w w' : World T} → Step w w' → IsValid capacity w → IsValid capacity w'
  unfolding send_push
  Step-IsValid {w} (reserves at s s' c e) v =
      let ((l, n), buf, full) = ensured (send_reserve_lem at w.chan s) e in
      record {
        slots = rw buf (omega (arith, v.slots, n));
        filled = rw (buf, full) v.filled;
        order = rw buf v.order;
      }
  Step-IsValid {w} (sleeps_full at s s' c e) v =
      let ((z, n), buf, full) = ensured (send_reserve_lem at w.chan s) e in
      record {
        slots = rw (buf, n) v.slots;
        filled = rw (buf, full) v.filled;
        order = rw buf v.order;
      }
  Step-IsValid {w} (pushes item some_sender) v = record {
    slots = omega (arith, v.slots, length-append w.chan.buf (item ∷ []));
    filled = omega (arith, v.filled, length-append w.chan.buf (item ∷ []));
    order = ap (λ l. l ++ item ∷ []) v.order ∙ append_assoc w.popped w.chan.buf (item ∷ []);
  }
  Step-IsValid {w} (publishes c some_sender e) v =
      let (n, buf, empty) = ensured (send_publish_lem w.chan) e in
      record {
        slots = rw (buf, empty) v.slots;
        filled = rw buf (omega (arith, v.filled, n));
        order = rw buf v.order;
      }
  Step-IsValid {w} (claims at s s' c e) v =
      let ((l, n), buf, empty) = ensured (recv_reserve_lem at w.chan s) e in
      record {
        slots = rw (buf, empty) v.slots;
        filled = rw buf (omega (arith, v.filled, n));
        order = rw buf v.order;
      }
  Step-IsValid {w} (sleeps_empty at s s' c e) v =
      let ((z, n), buf, empty) = ensured (recv_reserve_lem at w.chan s) e in
      record {
        slots = rw (buf, empty) v.slots;
        filled = rw (buf, n) v.filled;
        order = rw buf v.order;
      }
  Step-IsValid {w} (pops item c some_receiver e) v =
      let (buf, empty, full) = ensured (recv_pop_lem w.chan) e in
      record {
        slots = rw empty (omega (arith, v.slots, ap length buf));
        filled = rw full (omega (arith, v.filled, ap length buf));
        order =
            v.order ∙ ap (λ l. w.popped ++ l) buf ∙ sym (append_assoc w.popped (item ∷ []) c.buf);
      }
  Step-IsValid {w} (releases c some_receiver e) v =
      let (n, buf, full) = ensured (recv_release_lem w.chan) e in
      record {
        slots = rw buf (omega (arith, v.slots, n));
        filled = rw (buf, full) v.filled;
        order = rw buf v.order;
      }

  -- In every interleaving of senders and receivers on a channel: each of its slots is free, reserved
  -- by a sender, filled, or about to be freed; each filled slot is counted, about to be counted, or
  -- claimed by a receiver; and the items come out in the order in which they went in, none lost and
  -- none twice.
  pub Reachable-order : {capacity : ℕ} {w : World T} → Reachable capacity w → IsValid capacity w
  Reachable-order {capacity} started = start-IsValid capacity
  Reachable-order (after r step) = Step-IsValid step (Reachable-order r)

  -- The buffer of a channel never holds more items than its capacity.
  pub length-capacity :
      {capacity : ℕ} {w : World T} → Reachable capacity w → length w.chan.buf ≤ capacity
  length-capacity r = let v = Reachable-order r in omega (arith, v.slots)

  -- A receiver that has come through the wait on the semaphore of filled slots always finds an item:
  -- the pop does not panic, and takes the item at the front.
  pub recv_pop-Returns :
      {capacity : ℕ} {w : World T}
      → Reachable capacity w
      → 0 < w.may_pop
      → Returns (λ (item, c'). w.chan.buf ≡ item ∷ c'.buf) (recv_pop w.chan)
  unfolding recv_pop
  recv_pop-Returns {w} r some_receiver = go w.chan.buf refl
    where
      go :
          (b : List T)
          → w.chan.buf ≡ b
          → Returns
              (λ (item, c'). w.chan.buf ≡ item ∷ c'.buf)
              (expect (pop_front b) >>= λ (item, rest). ok (item, record w.chan { buf = rest }))
      go [] e = let v = Reachable-order r in absurd (omega (arith, v.filled, ap length e))
      go (x ∷ xs) e = returns e

-- A round of `wait` on a thread takes one from a positive count and lets the thread go on, or, where
-- the count is 0, leaves it and puts the thread to sleep on the semaphore.
pub wait_round-cases :
    (at : ℕ) (sem : Semaphore) (s : Scheduler) {cur : ℕ} {p : Process}
    → s.current ≡ some cur
    → At s.procs cur p
    → ((0 < sem.count) × (wait_round at (sem, s) ≡ ok (true, record { count = sem.count - 1 }, s)))
      ⊎ ((sem.count ≡ 0) × (wait_round at (sem, s) ≡ ok (false, sem, leave cur (sleeping at) p s)))
unfolding wait_round
wait_round-cases at sem s e a = elim (dec_lt 0 sem.count) [
  | yes l ↦ inl (l, rw (lt→ltb 0 sem.count l, wait_round) refl)
  | no l ↦ inr (
    omega arith,
    rw (le→ltb_false 0 sem.count (omega arith), sleep_lem at s e a, wait_round) refl,
  )
]

-- `signal` adds one to a count that is not the largest, and leaves nobody asleep on the semaphore.
pub signal-wakes :
    (at : ℕ) (sem : Semaphore) (s : Scheduler)
    → sem.count < usize_max
    → Returns
        (λ (sem', s').
          (sem'.count ≡ sem.count + 1)
          × ((i : ℕ) (q : Process) → At s'.procs i q → sleeps_on at q.state ≡ false))
        (signal at (sem, s))
unfolding signal raise
signal-wakes at sem s top =
    let e : add sem.count 1 ≡ ok (sem.count + 1) = ground arith in
    rw e (returns (refl, λ i q a. (wakeup-exact at s i q a).0))
