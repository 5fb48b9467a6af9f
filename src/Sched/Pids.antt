-- ===== src/Sched/Pids.antt =====
-- Only a spawn brings a new pid into the table: after every other operation the processes that are
-- there have pids that were there before, and the next pid is the same.
use osmium.Prelude.{ℕ, ◌≡◌, refl, sym, ap, ◌∙◌, inl, inr, Option, none, some, map, Option-cases}
use osmium.Machine.Returns.{Returns, Returns-eq}
use osmium.Sched.{
  Process, Scheduler, State, runnable, running, sleeping, zombie, put, yield_now, on_tick_preempt,
  sleep, wakeup, exit, with_current, wake_slot, cleared, reap_slot, exit_chan,
}
use osmium.Sched.Slots.{At, At-map}
use osmium.Sched.Inv.{IsValid, SamePids-set, leave}
use osmium.Sched.Keep.{
  IsQuiet, wake_slot-IsQuiet, reap_slot-IsQuiet, yield_now_lem, yield_now-idle,
  on_tick_preempt-yield, on_tick_preempt-idle, sleep_lem, exit_lem, Keeps, with_current_lem,
  with_current-none,
}
use osmium.Sched.Start.{IsAbsent, started}

pub record IsSub (s s' : Scheduler) : Type 0 where
  pub next : s'.next_pid ≡ s.next_pid
  pub old :
      (i : ℕ) (q : Process) → At s'.procs i q → (p : Process) × At s.procs i p × (q.pid ≡ p.pid)

pub IsSub-IsAbsent :
    {s s' : Scheduler} (pid : ℕ) → IsSub s s' → IsAbsent pid s.procs → IsAbsent pid s'.procs
IsSub-IsAbsent pid sub absent i q a e =
    let (p, b, same) = sub.old i q a in absent i p b (sym same ∙ e)

pub IsSub-self : (s : Scheduler) → IsSub s s
IsSub-self s = record { next = refl; old = λ i q a. (q, a, refl) }

pub IsSub-trans : {s t u : Scheduler} → IsSub s t → IsSub t u → IsSub s u
IsSub-trans {s} {t} {u} a b = record { next = b.next ∙ a.next; old = old }
  where
    old : (i : ℕ) (q : Process) → At u.procs i q → (p : Process) × At s.procs i p × (q.pid ≡ p.pid)
    old i q at = let (p, bt, e) = b.old i q at in let (r, ct, f) = a.old i p bt in (r, ct, e ∙ f)

IsSub-map :
    (f : Option Process → Option Process) (s : Scheduler)
    → IsQuiet f
    → IsSub s (record s { procs = map f s.procs })
IsSub-map f s quiet = record { next = refl; old = old }
  where
    old :
        (i : ℕ) (q : Process)
        → At (map f s.procs) i q
        → (p : Process) × At s.procs i p × (q.pid ≡ p.pid)
    old i q a =
        let (x, at, e) = At-map f s.procs i a in
        let (p, is, pid, run) = quiet.back x q e in (p, at ∙ ap some is, pid)

pub wakeup-IsSub : (chan : ℕ) (s : Scheduler) → IsSub s (wakeup chan s)
unfolding wakeup
wakeup-IsSub chan s = IsSub-map (wake_slot chan) s (wake_slot-IsQuiet chan)

pub cleared-IsSub : (s : Scheduler) → IsSub s (cleared s)
unfolding cleared
cleared-IsSub s = IsSub-map reap_slot s reap_slot-IsQuiet

IsSub-leave :
    (cur : ℕ) (st : State) (s : Scheduler) {p : Process}
    → At s.procs cur p
    → IsSub s (leave cur st p s)
IsSub-leave cur st s {p} a =
    let same = SamePids-set s.procs cur p (record p { state = st }) a refl in
    record { next = refl; old = same.old }

IsSub-put :
    (cur : ℕ) (q : Process) (s : Scheduler) {p : Process}
    → At s.procs cur p
    → q.pid ≡ p.pid
    → IsSub s (put cur q s)
IsSub-put cur q s {p} a pid =
    let same = SamePids-set s.procs cur p q a pid in record { next = refl; old = same.old }

pub IsSub-started : (i : ℕ) (s : Scheduler) {p : Process} → At s.procs i p → IsSub s (started i p s)
IsSub-started i s {p} a =
    let same = SamePids-set s.procs i p (record p { state = running }) a refl in
    record { next = refl; old = same.old }

pub yield_now-IsSub : {s : Scheduler} → IsValid s → Returns (λ s'. IsSub s s') (yield_now s)
yield_now-IsSub {s} v = elim (Option-cases s.current) [
  | inl e ↦ Returns-eq {a = s} (yield_now-idle e) (IsSub-self s)
  | inr (cur, e) ↦
      let (p, a, r) = v.current_runs cur e in
      Returns-eq (yield_now_lem s e a) (IsSub-leave cur runnable s a)
]

pub on_tick_preempt-IsSub :
    {s : Scheduler} → IsValid s → Returns (λ s'. IsSub s s') (on_tick_preempt s)
on_tick_preempt-IsSub {s} v = elim (Option-cases s.current) [
  | inl e ↦ Returns-eq {a = s} (on_tick_preempt-idle e) (IsSub-self s)
  | inr (cur, e) ↦ rw (on_tick_preempt-yield v e) (yield_now-IsSub v)
]

pub sleep-IsSub :
    (chan : ℕ) {s : Scheduler} {cur : ℕ}
    → IsValid s
    → s.current ≡ some cur
    → Returns (λ s'. IsSub s s') (sleep chan s)
sleep-IsSub chan {s} {cur} v e =
    let (p, a, r) = v.current_runs cur e in
    Returns-eq (sleep_lem chan s e a) (IsSub-leave cur (sleeping chan) s a)

pub exit-IsSub :
    {s : Scheduler} {cur : ℕ}
    → IsValid s
    → s.current ≡ some cur
    → Returns (λ s'. IsSub s s') (exit s)
exit-IsSub {s} {cur} v e =
    let (p, a, r) = v.current_runs cur e in
    Returns-eq (exit_lem s e a)
      (IsSub-trans (IsSub-leave cur zombie s a) (wakeup-IsSub exit_chan (leave cur zombie p s)))

pub with_current-IsSub :
    {T : Type 0} (f : Process → T × Process) {s : Scheduler}
    → Keeps f
    → IsValid s
    → Returns (λ (r, s'). IsSub s s') (with_current f s)
with_current-IsSub f {s} keeps v = elim (Option-cases s.current) [
  | inl e ↦ Returns-eq {a = (none, s)} (with_current-none f s e) (IsSub-self s)
  | inr (cur, e) ↦
      let (p, a, r) = v.current_runs cur e in
      Returns-eq {a = (some (f p).0, put cur (f p).1 s)} (with_current_lem f s e a)
        (IsSub-put cur (f p).1 s a (keeps p).0)
]
