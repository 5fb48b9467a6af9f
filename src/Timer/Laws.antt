-- ===== src/Timer/Laws.antt =====
-- Sleeping until the counter of ticks has moved on.
use osmium.Prelude.{
  ℕ, zero, suc, ◌+◌, ◌-◌, ◌≤◌, ◌<◌, ◌≡◌, refl, true, false, none, some, arith, dec_lt, lt→ltb,
  le→ltb_false, get_elem?-set_self,
}
use osmium.Machine.{Outcome, ok, add, usize_max}
use osmium.Machine.Returns
use osmium.Machine.Returns.{Returns, returns, Returns-eq}
use osmium.Sched.{Process, Scheduler, sleeping}
use osmium.Sched.Slots.{At, At-bound}
use osmium.Sched.Inv.{IsValid, leave-IsValid}
use osmium.Sched.Keep.{sleep_lem}
use osmium.Timer.{Clock, tick_chan, sleep_round, sleep_until, sleep_ticks}

-- The scheduler is valid and runs the thread with the pid.
pub record IsAwake (pid : ℕ) (s : Scheduler) : Type 0 where
  pub valid : IsValid s
  pub slot : ℕ
  pub process : Process
  pub current : s.current ≡ some slot
  pub here : At s.procs slot process
  pub named : process.pid ≡ pid

-- The scheduler is valid and runs nobody, and the thread with the pid sleeps on the ticks.
pub record IsAsleep (pid : ℕ) (s : Scheduler) : Type 0 where
  pub valid : IsValid s
  pub slot : ℕ
  pub process : Process
  pub idle : s.current ≡ none
  pub here : At s.procs slot process
  pub named : process.pid ≡ pid
  pub sleeps : process.state ≡ sleeping tick_chan

-- Whenever the thread sleeps on the ticks, it runs again, and only after a tick.
abbrev pub Wakes : {R : Type 0} → (pid : ℕ) → (Clock × R → Outcome (Clock × R)) → Type 0
Wakes {R} pid resume =
    (t : ℕ) (s : Scheduler) (rest : R)
    → t < usize_max
    → IsAsleep pid s
    → Returns (λ w. (t < w.0.0) × IsAwake pid w.0.1) (resume ((t, s), rest))

sleep_round-over :
    (target t : ℕ) (s : Scheduler) → target ≤ t → sleep_round target (t, s) ≡ ok (true, (t, s))
unfolding sleep_round
sleep_round-over target t s over = rw (le→ltb_false t target over, sleep_round) refl

sleep_round-early :
    (target t pid : ℕ) (s : Scheduler)
    → t < target
    → IsAwake pid s
    → Returns
        (λ (over, c). (over ≡ false) × (c.0 ≡ t) × IsAsleep pid c.1)
        (sleep_round target (t, s))
unfolding sleep_round
sleep_round-early target t pid s early w =
    rw (lt→ltb t target early, sleep_lem tick_chan s w.current w.here, sleep_round)
      (returns (
        refl,
        refl,
        record {
          valid = leave-IsValid w.slot (sleeping tick_chan) w.valid w.current w.here refl;
          slot = w.slot;
          process = record w.process { state = sleeping tick_chan };
          idle = refl;
          here = get_elem?-set_self s.procs w.slot _ (At-bound s.procs w.slot w.here);
          named = w.named;
          sleeps = refl;
        },
      ))

sleep_until_lem :
    {R : Type 0} (naps pid : ℕ) (resume : Clock × R → Outcome (Clock × R)) (target : ℕ)
    (w : Clock × R)
    → Wakes pid resume
    → IsAwake pid w.0.1
    → target ≤ usize_max
    → target - w.0.0 < naps
    → Returns (λ w'. (target ≤ w'.0.0) × IsAwake pid w'.0.1) (sleep_until naps resume target w)
unfolding sleep_until
sleep_until_lem zero pid resume target w wakes up fits enough = absurd (omega arith)
sleep_until_lem (suc naps) pid resume target (c, rest) wakes up fits enough =
    elim (dec_lt c.0 target) [
      | no over ↦ rw (sleep_round-over target c.0 c.1 (omega arith)) (returns (omega arith, up))
      | yes early ↦
          Returns.bind (sleep_round-early target c.0 pid c.1 early up)
            λ (over, c1) (more, same, down). rw more (
              Returns.bind (wakes c1.0 c1.1 rest (omega arith) down) λ w2 (later, up').
                sleep_until_lem naps pid resume target w2 wakes up' fits (omega arith))
    ]

-- The current thread, on a valid scheduler, calls for a sleep of `n` ticks: the call returns after at
-- most `n` sleeps, and not before `n` ticks have passed, and the same thread is the current one of a
-- valid scheduler again. This is if, whenever the thread sleeps on the ticks, it runs again, and only
-- after a tick, and the counter does not come to its end in the meantime.
pub sleep_ticks-Returns :
    {R : Type 0} (naps pid : ℕ) (resume : Clock × R → Outcome (Clock × R)) (n : ℕ) (w : Clock × R)
    → Wakes pid resume
    → IsAwake pid w.0.1
    → w.0.0 + n ≤ usize_max
    → n < naps
    → Returns (λ w'. (w.0.0 + n ≤ w'.0.0) × IsAwake pid w'.0.1) (sleep_ticks naps resume n w)
unfolding sleep_ticks
sleep_ticks-Returns naps pid resume n w wakes up fits enough =
    let sum : add w.0.0 n ≡ ok (w.0.0 + n) = ground arith in
    rw sum (sleep_until_lem naps pid resume (w.0.0 + n) w wakes up fits (omega arith))
