-- ===== src/Sync/Laws.antt =====
-- All interleavings of senders and receivers on one channel.
use osmium.Prelude.{
  ℕ, ◌+◌, ◌-◌, ◌<◌, ◌≡◌, refl, ◌⊎◌, inl, inr, Bool, true, false, leb, List, [], ◌∷◌, ◌++◌, length,
  arith, Bool-cases, dec_lt, lt→ltb, le→ltb_false,
}
use osmium.Machine.{ok, ◌>>=◌, add, expect, usize_max}
use osmium.Machine.Returns.{Ensures, ensures, panics, Ensures-bind, Ensures-any}
use osmium.Sched.{Scheduler, sleep}
use osmium.Sync.{
  Semaphore, Channel, wait_round, raise, new_channel, send_reserve, send_push, send_publish,
  recv_reserve, recv_pop, recv_release, pop_front,
}

-- A channel in use: how many senders stand before the push and before the signal, how many receivers
-- stand before the pop and before the signal, and all items pushed and popped so far, in order.
pub record World (T : Type 0) : Type 0 where
  pub chan : Channel T
  pub may_push : ℕ
  pub has_pushed : ℕ
  pub may_pop : ℕ
  pub has_popped : ℕ
  pub pushed : List T
  pub popped : List T

abbrev pub start : {T : Type 0} → ℕ → World T
start capacity = record {
  chan = new_channel capacity;
  may_push = 0;
  has_pushed = 0;
  may_pop = 0;
  has_popped = 0;
  pushed = [];
  popped = [];
}

-- One step of some thread, on any state of the scheduler. A wakeup changes nothing here, so it may
-- come at any time after the increment that it follows.
pub data Step {T : Type 0} (w : World T) : World T → Type 0 where
  reserves :
      (at : ℕ) (s s' : Scheduler) (c : Channel T)
      → send_reserve at (w.chan, s) ≡ ok (true, c, s')
      → Step w (record w { chan = c; may_push = w.may_push + 1 })
  sleeps_full :
      (at : ℕ) (s s' : Scheduler) (c : Channel T)
      → send_reserve at (w.chan, s) ≡ ok (false, c, s')
      → Step w (record w { chan = c })
  pushes :
      (item : T)
      → 0 < w.may_push
      → Step w (record w {
        chan = send_push item w.chan;
        may_push = w.may_push - 1;
        has_pushed = w.has_pushed + 1;
        pushed = w.pushed ++ item ∷ [];
      })
  publishes :
      (c : Channel T)
      → 0 < w.has_pushed
      → send_publish w.chan ≡ ok c
      → Step w (record w { chan = c; has_pushed = w.has_pushed - 1 })
  claims :
      (at : ℕ) (s s' : Scheduler) (c : Channel T)
      → recv_reserve at (w.chan, s) ≡ ok (true, c, s')
      → Step w (record w { chan = c; may_pop = w.may_pop + 1 })
  sleeps_empty :
      (at : ℕ) (s s' : Scheduler) (c : Channel T)
      → recv_reserve at (w.chan, s) ≡ ok (false, c, s')
      → Step w (record w { chan = c })
  pops :
      (item : T) (c : Channel T)
      → 0 < w.may_pop
      → recv_pop w.chan ≡ ok (item, c)
      → Step w (record w {
        chan = c;
        may_pop = w.may_pop - 1;
        has_popped = w.has_popped + 1;
        popped = w.popped ++ item ∷ [];
      })
  releases :
      (c : Channel T)
      → 0 < w.has_popped
      → recv_release w.chan ≡ ok c
      → Step w (record w { chan = c; has_popped = w.has_popped - 1 })

pub data Reachable {T : Type 0} (capacity : ℕ) : World T → Type 0 where
  started : Reachable capacity (start capacity)
  after : {w w' : World T} → Reachable capacity w → Step w w' → Reachable capacity w'

-- Every slot is free, taken by a sender, filled, or about to be freed; every filled slot is counted,
-- about to be counted, or claimed by a receiver; and what was pushed is what was popped and what the
-- buffer holds, in this order.
pub record IsValid {T : Type 0} (capacity : ℕ) (w : World T) : Type 0 where
  pub slots : w.chan.empty.count + w.may_push + length w.chan.buf + w.has_popped ≡ capacity
  pub filled : w.chan.full.count + w.has_pushed + w.may_pop ≡ length w.chan.buf
  pub order : w.pushed ≡ w.popped ++ w.chan.buf

-- What a round of `wait` does to the count.
abbrev pub Waited : Semaphore → Bool → Semaphore → Type 0
Waited sem true sem' = (0 < sem.count) × (sem'.count + 1 ≡ sem.count)
Waited sem false sem' = (sem.count ≡ 0) × (sem'.count ≡ sem.count)

wait_round_lem :
    (at : ℕ) (sem : Semaphore) (s : Scheduler)
    → Ensures (λ (taken, sem', s'). Waited sem taken sem') (wait_round at (sem, s))
unfolding wait_round
wait_round_lem at sem s = elim (dec_lt 0 sem.count) [
  | yes l ↦ rw (lt→ltb 0 sem.count l, wait_round) (ensures (l, omega arith))
  | no l ↦
      rw (le→ltb_false 0 sem.count (omega arith), wait_round)
        (Ensures-bind (Ensures-any (sleep at s)) λ s' u. ensures (omega arith, refl))
]

raise_lem : (sem : Semaphore) → Ensures (λ sem'. sem'.count ≡ sem.count + 1) (raise sem)
unfolding raise
raise_lem sem = Ensures-bind (counted (Bool-cases (leb (sem.count + 1) usize_max))) λ n e. ensures e
  where
    counted :
        (leb (sem.count + 1) usize_max ≡ true) ⊎ (leb (sem.count + 1) usize_max ≡ false)
        → Ensures (λ n. n ≡ sem.count + 1) (add sem.count 1)
    counted (inl t) = rw t (ensures refl)
    counted (inr t) = rw t panics

module _ {T : Type 0} where
  pub send_reserve_lem :
      (at : ℕ) (c : Channel T) (s : Scheduler)
      → Ensures
          (λ (taken, c', s'). Waited c.empty taken c'.empty × (c'.buf ≡ c.buf) × (c'.full ≡ c.full))
          (send_reserve at (c, s))
  unfolding send_reserve
  send_reserve_lem at c s =
      Ensures-bind (wait_round_lem at c.empty s) λ (taken, sem, s') e. ensures (e, refl, refl)

  pub recv_reserve_lem :
      (at : ℕ) (c : Channel T) (s : Scheduler)
      → Ensures
          (λ (taken, c', s'). Waited c.full taken c'.full × (c'.buf ≡ c.buf) × (c'.empty ≡ c.empty))
          (recv_reserve at (c, s))
  unfolding recv_reserve
  recv_reserve_lem at c s =
      Ensures-bind (wait_round_lem at c.full s) λ (taken, sem, s') e. ensures (e, refl, refl)

  pub send_publish_lem :
      (c : Channel T)
      → Ensures
          (λ c'. (c'.full.count ≡ c.full.count + 1) × (c'.buf ≡ c.buf) × (c'.empty ≡ c.empty))
          (send_publish c)
  unfolding send_publish
  send_publish_lem c = Ensures-bind (raise_lem c.full) λ sem e. ensures (e, refl, refl)

  pub recv_release_lem :
      (c : Channel T)
      → Ensures
          (λ c'. (c'.empty.count ≡ c.empty.count + 1) × (c'.buf ≡ c.buf) × (c'.full ≡ c.full))
          (recv_release c)
  unfolding recv_release
  recv_release_lem c = Ensures-bind (raise_lem c.empty) λ sem e. ensures (e, refl, refl)

  pub recv_pop_lem :
      (c : Channel T)
      → Ensures
          (λ (item, c'). (c.buf ≡ item ∷ c'.buf) × (c'.empty ≡ c.empty) × (c'.full ≡ c.full))
          (recv_pop c)
  unfolding recv_pop
  recv_pop_lem c = go c.buf refl
    where
      go :
          (b : List T)
          → c.buf ≡ b
          → Ensures
              (λ (item, c'). (c.buf ≡ item ∷ c'.buf) × (c'.empty ≡ c.empty) × (c'.full ≡ c.full))
              (expect (pop_front b) >>= λ (item, rest). ok (item, record c { buf = rest }))
      go [] e = panics
      go (x ∷ xs) e = ensures (e, refl, refl)
