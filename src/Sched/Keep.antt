-- ===== src/Sched/Keep.antt =====
-- Every operation of the scheduler keeps its invariant, and ends without a panic.
use osmium.Prelude.{
  ℕ, ◌≡◌, refl, sym, ap, ◌∙◌, inl, inr, Option, none, some, map, get_elem?, set, arith, subst,
  length-set, get_elem?-set_self, Option-cases, Bool-cases,
}
use osmium.Machine.{ok, ◌>>=◌, expect}
use osmium.Machine.Returns.{Returns, Returns-eq}
use osmium.Sched.{
  Process, Scheduler, running, runnable, sleeping, zombie, is_running, put, set_state, switch_out,
  yield_now, on_tick_preempt, sleep, wakeup, exit, with_current, wake_slot, cleared, reap_slot,
  is_zombie, exit_chan, sleeps_on,
}
use osmium.Sched.Slots.{
  At, At-bound, At-set, At-map, some-inj, none≢some, true≢false, length-map, get_elem?-map,
}
use osmium.Sched.Inv.{
  IsValid, SamePids-set, SamePids-IsValid, leave, leave_lem, leave-IsValid, process_at-At,
}

-- What a pass over the slots may do to one: it keeps the pid, starts nothing and stops nobody.
pub record IsQuiet (f : Option Process → Option Process) : Type 0 where
  pub back :
      (x : Option Process) (q : Process)
      → f x ≡ some q
      → (p : Process) × (x ≡ some p) × (q.pid ≡ p.pid) × (q.state ≡ running → p.state ≡ running)
  pub keeps_running :
      (p : Process)
      → p.state ≡ running
      → (q : Process) × (f (some p) ≡ some q) × (q.state ≡ running)

pub map-IsValid :
    (f : Option Process → Option Process) (s : Scheduler)
    → IsQuiet f
    → IsValid s
    → IsValid (record s { procs = map f s.procs })
map-IsValid f s quiet v =
    SamePids-IsValid v (record { size = length-map f s.procs; old = old }) refl
      (omega (arith, v.position, length-map f s.procs)) runs current_runs
  where
    old :
        (i : ℕ) (q : Process)
        → At (map f s.procs) i q
        → (p : Process) × At s.procs i p × (q.pid ≡ p.pid)
    old i q a =
        let (x, at, e) = At-map f s.procs i a in
        let (p, is, pid, run) = quiet.back x q e in (p, at ∙ ap some is, pid)

    runs : (i : ℕ) (q : Process) → At (map f s.procs) i q → q.state ≡ running → s.current ≡ some i
    runs i q a r =
        let (x, at, e) = At-map f s.procs i a in
        let (p, is, pid, run) = quiet.back x q e in v.runs i p (at ∙ ap some is) (run r)

    current_runs :
        (i : ℕ) → s.current ≡ some i → (q : Process) × At (map f s.procs) i q × (q.state ≡ running)
    current_runs i e =
        let (p, at, r) = v.current_runs i e in
        let (q, is, run) = quiet.keeps_running p r in
        (q, get_elem?-map f s.procs i at ∙ ap some is, run)

pub wake_slot-IsQuiet : (chan : ℕ) → IsQuiet (wake_slot chan)
wake_slot-IsQuiet chan = record { back = back; keeps_running = keeps }
  where
    back :
        (x : Option Process) (q : Process)
        → wake_slot chan x ≡ some q
        → (p : Process) × (x ≡ some p) × (q.pid ≡ p.pid) × (q.state ≡ running → p.state ≡ running)
    back none q e = absurd (none≢some e)
    back (some p) q e = elim (Bool-cases (sleeps_on chan p.state)) [
      | inl t ↦
          let at : record p { state = runnable } ≡ q = some-inj (rw t at e) in
          (
            p,
            refl,
            sym (ap (λ x. x.pid) at),
            λ r. absurd (true≢false (sym (ap is_running (ap (λ x. x.state) at ∙ r)))),
          )
      | inr t ↦
          let at : p ≡ q = some-inj (rw t at e) in
          (p, refl, sym (ap (λ x. x.pid) at), λ r. ap (λ x. x.state) at ∙ r)
    ]

    keeps :
        (p : Process)
        → p.state ≡ running
        → (q : Process) × (wake_slot chan (some p) ≡ some q) × (q.state ≡ running)
    keeps p r = (p, rw r refl, r)

pub reap_slot-IsQuiet : IsQuiet reap_slot
reap_slot-IsQuiet = record { back = back; keeps_running = λ p r. (p, rw r refl, r) }
  where
    back :
        (x : Option Process) (q : Process)
        → reap_slot x ≡ some q
        → (p : Process) × (x ≡ some p) × (q.pid ≡ p.pid) × (q.state ≡ running → p.state ≡ running)
    back none q e = absurd (none≢some e)
    back (some p) q e = elim (Bool-cases (is_zombie p.state)) [
      | inl t ↦ absurd (none≢some (rw t at e))
      | inr t ↦
          let at : p ≡ q = some-inj (rw t at e) in
          (p, refl, sym (ap (λ x. x.pid) at), λ r. ap (λ x. x.state) at ∙ r)
    ]

pub wakeup-IsValid : (chan : ℕ) {s : Scheduler} → IsValid s → IsValid (wakeup chan s)
unfolding wakeup
wakeup-IsValid chan {s} v = map-IsValid (wake_slot chan) s (wake_slot-IsQuiet chan) v

pub cleared-IsValid : {s : Scheduler} → IsValid s → IsValid (cleared s)
unfolding cleared
cleared-IsValid {s} v = map-IsValid reap_slot s reap_slot-IsQuiet v

pub yield_now_lem :
    (s : Scheduler) {cur : ℕ} {p : Process}
    → s.current ≡ some cur
    → At s.procs cur p
    → yield_now s ≡ ok (leave cur runnable p s)
unfolding yield_now
yield_now_lem s {cur} e a =
    ap (λ c. elim c [ none ↦ ok s | some i ↦ set_state i runnable s >>= switch_out ]) e
    ∙ leave_lem cur runnable s e a refl

pub yield_now-idle : {s : Scheduler} → s.current ≡ none → yield_now s ≡ ok s
unfolding yield_now
yield_now-idle e = rw e refl

pub yield_now-IsValid : {s : Scheduler} → IsValid s → Returns (λ s'. IsValid s') (yield_now s)
yield_now-IsValid {s} v = elim (Option-cases s.current) [
  | inl e ↦ Returns-eq {a = s} (yield_now-idle e) v
  | inr (cur, e) ↦
      let (p, a, r) = v.current_runs cur e in
      Returns-eq (yield_now_lem s e a) (leave-IsValid cur runnable v e a refl)
]

pub on_tick_preempt-yield :
    {s : Scheduler} {cur : ℕ} → IsValid s → s.current ≡ some cur → on_tick_preempt s ≡ yield_now s
unfolding on_tick_preempt
on_tick_preempt-yield {s} {cur} v e =
    let (p, a, r) = v.current_runs cur e in rw (e, process_at-At s.procs cur a, r) refl

pub on_tick_preempt-idle : {s : Scheduler} → s.current ≡ none → on_tick_preempt s ≡ ok s
unfolding on_tick_preempt
on_tick_preempt-idle e = rw e refl

pub on_tick_preempt-IsValid :
    {s : Scheduler} → IsValid s → Returns (λ s'. IsValid s') (on_tick_preempt s)
on_tick_preempt-IsValid {s} v = elim (Option-cases s.current) [
  | inl e ↦ Returns-eq {a = s} (on_tick_preempt-idle e) v
  | inr (cur, e) ↦ rw (on_tick_preempt-yield v e) (yield_now-IsValid v)
]

pub sleep_lem :
    (chan : ℕ) (s : Scheduler) {cur : ℕ} {p : Process}
    → s.current ≡ some cur
    → At s.procs cur p
    → sleep chan s ≡ ok (leave cur (sleeping chan) p s)
unfolding sleep
sleep_lem chan s {cur} e a = simp (e, leave_lem cur (sleeping chan) s e a refl)

pub sleep-IsValid :
    (chan : ℕ) {s : Scheduler} {cur : ℕ}
    → IsValid s
    → s.current ≡ some cur
    → Returns (λ s'. IsValid s') (sleep chan s)
sleep-IsValid chan {s} {cur} v e =
    let (p, a, r) = v.current_runs cur e in
    Returns-eq (sleep_lem chan s e a) (leave-IsValid cur (sleeping chan) v e a refl)

-- The process that exits, and all who wait for an exit.
pub exit_lem :
    (s : Scheduler) {cur : ℕ} {p : Process}
    → s.current ≡ some cur
    → At s.procs cur p
    → exit s ≡ ok (wakeup exit_chan (leave cur zombie p s))
unfolding exit set_state switch_out wakeup
exit_lem s {cur} {p} e a =
    let dead = record p { state = zombie } in
    let there = get_elem?-set_self s.procs cur (some dead) (At-bound s.procs cur a) in
    rw
      (
        e,
        process_at-At s.procs cur a,
        process_at-At (map (wake_slot exit_chan) (set s.procs cur (some dead))) cur
            (get_elem?-map (wake_slot exit_chan) (set s.procs cur (some dead)) cur there),
      )
      refl

pub exit-IsValid :
    {s : Scheduler} {cur : ℕ}
    → IsValid s
    → s.current ≡ some cur
    → Returns (λ s'. IsValid s') (exit s)
exit-IsValid {s} {cur} v e =
    let (p, a, r) = v.current_runs cur e in
    Returns-eq (exit_lem s e a) (wakeup-IsValid exit_chan (leave-IsValid cur zombie v e a refl))

-- A change of a process that keeps its pid and its state.
abbrev pub Keeps : {T : Type 0} → (Process → T × Process) → Type 0
Keeps f = (p : Process) → ((f p).1.pid ≡ p.pid) × ((f p).1.state ≡ p.state)

pub with_current_lem :
    {T : Type 0} (f : Process → T × Process) (s : Scheduler) {cur : ℕ} {p : Process}
    → s.current ≡ some cur
    → At s.procs cur p
    → with_current f s ≡ ok (some (f p).0, put cur (f p).1 s)
unfolding with_current
with_current_lem f s {cur} {p} e a =
    ap
      (λ c. elim c [
        | none ↦ ok (none, s)
        | some i ↦ expect (get_elem? s.procs i) >>= λ slot. elim slot [
          | none ↦ ok (none, s)
          | some q ↦ ok (some (f q).0, put i (f q).1 s)
        ]
      ])
      e
    ∙ ap
        (λ c. expect c >>= λ slot. elim slot [
          | none ↦ ok (none, s)
          | some q ↦ ok (some (f q).0, put cur (f q).1 s)
        ])
        a

pub with_current-none :
    {T : Type 0} (f : Process → T × Process) (s : Scheduler)
    → s.current ≡ none
    → with_current f s ≡ ok (none, s)
unfolding with_current
with_current-none f s e =
    ap
      (λ c. elim c [
        | none ↦ ok (none, s)
        | some i ↦ expect (get_elem? s.procs i) >>= λ slot. elim slot [
          | none ↦ ok (none, s)
          | some q ↦ ok (some (f q).0, put i (f q).1 s)
        ]
      ])
      e

put-IsValid :
    (cur : ℕ) (q : Process) {s : Scheduler} {p : Process}
    → IsValid s
    → s.current ≡ some cur
    → At s.procs cur p
    → q.pid ≡ p.pid
    → q.state ≡ running
    → IsValid (put cur q s)
put-IsValid cur q {s} {p} v e a pid run =
    SamePids-IsValid v (SamePids-set s.procs cur p q a pid) refl
      (omega (arith, v.position, length-set s.procs cur (some q))) runs
      (λ i f. (q, subst (λ k. At (set s.procs cur (some q)) k q) (some-inj (sym e ∙ f)) here, run))
  where
    here : At (set s.procs cur (some q)) cur q
    here = get_elem?-set_self s.procs cur (some q) (At-bound s.procs cur a)

    runs :
        (i : ℕ) (r : Process)
        → At (set s.procs cur (some q)) i r
        → r.state ≡ running
        → s.current ≡ some i
    runs i r b is = elim (At-set s.procs cur q i b) [
      | inl (at, same) ↦ e ∙ ap some (sym at)
      | inr (ne, c) ↦ v.runs i r c is
    ]

pub with_current-IsValid :
    {T : Type 0} (f : Process → T × Process) {s : Scheduler}
    → Keeps f
    → IsValid s
    → Returns (λ (r, s'). IsValid s') (with_current f s)
with_current-IsValid f {s} keeps v = elim (Option-cases s.current) [
  | inl e ↦ Returns-eq {a = (none, s)} (with_current-none f s e) v
  | inr (cur, e) ↦
      let (p, a, r) = v.current_runs cur e in
      let (pid, state) = keeps p in
      Returns-eq {a = (some (f p).0, put cur (f p).1 s)} (with_current_lem f s e a)
        (put-IsValid cur (f p).1 v e a pid (state ∙ r))
]
