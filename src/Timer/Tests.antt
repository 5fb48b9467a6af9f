-- ===== src/Timer/Tests.antt =====
-- A thread that sleeps for three ticks, and is the next to run after each of them.
use osmium.Prelude.{
  ℕ, zero, suc, ◌+◌, ◌-◌, ◌^◌, ◌≤◌, ◌<◌, ◌≡◌, refl, ap, ◌∙◌, inl, inr, arith, ◌==◌, if◌then◌else◌,
  none, some, [], ◌∷◌, Bool-cases, ==_iff, eq→==, get_elem?-set_self,
}
use native.Mathlib.Nat.{mod-eq_of_lt}
use osmium.Machine.{Outcome, ok, ◌>>=◌, usize_max}
use osmium.Machine.Returns.{Returns, returns}
use osmium.Sched.{
  Process, Slots, Scheduler, running, runnable, wakeup, wake_slot, sleeps_on, dispatch,
}
use osmium.Sched.Slots.{At, At-bound, get_elem?-map, some-inj, none≢some}
use osmium.Sched.Inv.{IsValid}
use osmium.Sched.Keep.{wakeup-IsValid}
use osmium.Sched.Start.{started, started-IsValid, dispatch_lem}
use osmium.Sched.Tests.{busy, busy-IsValid, thread}
use osmium.Timer.{Clock, tick_chan, sleep_ticks, on_tick, uptime_ms}
use osmium.Timer.Laws.{IsAwake, Wakes, sleep_ticks-Returns}

-- The first slot with the pid.
slot_of : ℕ → Slots → ℕ
slot_of pid [] = 0
slot_of pid (none ∷ slots) = suc (slot_of pid slots)
slot_of pid (some p ∷ slots) = let rest = slot_of pid slots in if p.pid == pid then 0 else suc rest

slot_of-At :
    (pid : ℕ) (slots : Slots) (i : ℕ) (p : Process)
    → At slots i p
    → p.pid ≡ pid
    → (q : Process) × At slots (slot_of pid slots) q × (q.pid ≡ pid)
unfolding slot_of
slot_of-At pid [] i p a e = absurd (none≢some a)
slot_of-At pid (none ∷ slots) zero p a e = absurd (none≢some (some-inj a))
slot_of-At pid (none ∷ slots) (suc i) p a e = slot_of-At pid slots i p a e
slot_of-At pid (some r ∷ slots) zero p a e =
    let same : r.pid ≡ pid = ap (λ x. x.pid) (some-inj (some-inj a)) ∙ e in
    rw (eq→== r.pid pid same) (r, refl, same)
slot_of-At pid (some r ∷ slots) (suc i) p a e = elim (Bool-cases (r.pid == pid)) [
  | inl t ↦ rw t (r, refl, (==_iff r.pid pid).0 t)
  | inr z ↦ rw z (slot_of-At pid slots i p a e)
]

-- After a nap the timer ticks at the time 5_000_000, all its sleepers are woken, and the scheduler
-- goes on with the thread `pid`. Beside the clock there is a counter of the naps.
next_up : ℕ → Clock × ℕ → Outcome (Clock × ℕ)
next_up pid ((ticks, s), naps) = do
  (ticks', when) ← on_tick 5_000_000 ticks
  (table, s') ← dispatch (slot_of pid s.procs) (wakeup tick_chan s)
  ok ((ticks', s'), naps + 1)

-- The process after the wakeup.
woken : Process → Process
woken p = if sleeps_on tick_chan p.state then record p { state = runnable } else p

woken-pid : (p : Process) → (woken p).pid ≡ p.pid
unfolding woken
woken-pid p = elim (Bool-cases (sleeps_on tick_chan p.state)) [
  | inl t ↦ rw t refl
  | inr z ↦ rw z refl
]

tick_once : (t : ℕ) → t < usize_max → on_tick 5_000_000 t ≡ ok (t + 1, 5_100_000)
unfolding on_tick osmium.Timer.next_tick
tick_once t low = ap (λ n. ok (n, 5_100_000)) (mod-eq_of_lt (omega arith))

started-IsAwake :
    (pid i : ℕ) {s : Scheduler} {p : Process}
    → IsValid s
    → s.current ≡ none
    → At s.procs i p
    → p.pid ≡ pid
    → IsAwake pid (started i p s)
started-IsAwake pid i {s} {p} v idle a e = record {
  valid = started-IsValid i idle a v;
  slot = i;
  process = record p { state = running };
  current = refl;
  here = get_elem?-set_self s.procs i _ (At-bound s.procs i a);
  named = e;
}

next_up-Wakes : (pid : ℕ) → Wakes pid (next_up pid)
unfolding next_up wakeup woken
next_up-Wakes pid t s naps low w =
    let (q, b, e) = slot_of-At pid s.procs w.slot w.process w.here w.named in
    let i = slot_of pid s.procs in
    let c : At (wakeup tick_chan s).procs i (woken q) =
      get_elem?-map (wake_slot tick_chan) s.procs i b in
    let v = wakeup-IsValid tick_chan w.valid in
    rw (tick_once t low, dispatch_lem i (wakeup tick_chan s) c)
      (returns (omega arith, started-IsAwake pid i v w.idle c (woken-pid q ∙ e)))

busy-IsAwake : IsAwake 1 busy
busy-IsAwake = record {
  valid = busy-IsValid;
  slot = 0;
  process = thread 1 running;
  current = refl;
  here = refl;
  named = refl;
}

sleep_ticks-Returns_example :
    Returns (λ w. (7 + 3 ≤ w.0.0) × IsAwake 1 w.0.1) (sleep_ticks 4 (next_up 1) 3 ((7, busy), 0))
sleep_ticks-Returns_example =
    sleep_ticks-Returns 4 1 (next_up 1) 3 ((7, busy), 0) (next_up-Wakes 1) busy-IsAwake
      (omega arith) (omega arith)

on_tick_run : on_tick 5_000_000 (2 ^ 64 - 1) ≡ ok (0, 5_100_000)
unfolding on_tick osmium.Timer.next_tick
on_tick_run = refl

uptime_run : uptime_ms 12_345_678 ≡ 1234
unfolding uptime_ms
uptime_run = refl
