-- ===== src/Sched/Wake.antt =====
-- Waking, exiting, joining and reaping: who is changed, and that nobody waits in vain.
use osmium.Prelude.{
  ℕ, zero, suc, ◌≡◌, refl, sym, ap, ◌∙◌, ◌⊎◌, inl, inr, ◌↔◌, Option, none, some, [], ◌∷◌, map,
  get_elem?, true, false, not, ◌&&◌, ◌==◌, Bool-cases, eq→==, ==_iff,
}
use osmium.Machine.{ok}
use osmium.Machine.Returns.{Returns, Returns-eq}
use osmium.Sched.{
  Process, Slots, Scheduler, State, running, runnable, sleeping, zombie, is_zombie, sleeps_on,
  wakeup, wake_slot, exit, exit_chan, still_running, join_round, cleared, reap_slot,
}
use osmium.Sched.Slots.{At, At-map, At-set, get_elem?-map, some-inj, none≢some, true≢false}
use osmium.Sched.Inv.{IsValid, leave, leave-IsValid}
use osmium.Sched.Keep.{exit_lem, sleep_lem, wakeup-IsValid}

-- A live process with the pid.
abbrev pub Lives : ℕ → Slots → Type 0
Lives pid xs = (i : ℕ) × (p : Process) × At xs i p × (p.pid ≡ pid) × (is_zombie p.state ≡ false)

Lives-here :
    (pid : ℕ) (q : Process)
    → ((((q.pid == pid) && not (is_zombie q.state)) ≡ true)
        × (q.pid ≡ pid)
        × (is_zombie q.state ≡ false))
      ⊎ ((((q.pid == pid) && not (is_zombie q.state)) ≡ false)
          × (q.pid ≡ pid → is_zombie q.state ≡ false → ⊥))
Lives-here pid q = elim (Bool-cases (is_zombie q.state)) [
  | inl z ↦ inr (
    rw z (elim (Bool-cases (q.pid == pid)) [ inl e ↦ rw e refl | inr e ↦ rw e refl ]),
    λ is f. true≢false (sym z ∙ f),
  )
  | inr z ↦ elim (Bool-cases (q.pid == pid)) [
    | inl e ↦ inl (rw (e, z) refl, (==_iff q.pid pid).0 e, z)
    | inr e ↦ inr (rw e refl, λ is f. true≢false (sym (eq→== q.pid pid is) ∙ e))
  ]
]

still_running-cases :
    (pid : ℕ) (xs : Slots)
    → ((still_running pid xs ≡ true) × Lives pid xs)
      ⊎ ((still_running pid xs ≡ false) × (¬ Lives pid xs))
unfolding still_running
still_running-cases pid [] = inr (refl, λ (i, p, a, e, z). none≢some a)
still_running-cases pid (none ∷ xs) = elim (still_running-cases pid xs) [
  | inl (e, (i, p, a, is, z)) ↦ inl (e, (suc i, p, a, is, z))
  | inr (e, no_one) ↦ inr (e, λ (i, p, a, is, z). shifted i no_one p a is z)
]
  where
    shifted :
        (i : ℕ)
        → ¬ Lives pid xs
        → (p : Process) → At (none ∷ xs) i p
        → p.pid ≡ pid
        → is_zombie p.state ≡ false
        → ⊥
    shifted zero no_one p a is z = none≢some (some-inj a)
    shifted (suc i) no_one p a is z = no_one (i, p, a, is, z)
still_running-cases pid (some q ∷ xs) = elim (Lives-here pid q) [
  | inl (e, is, z) ↦ inl (rw e refl, (0, q, refl, is, z))
  | inr (e, dead) ↦ elim (still_running-cases pid xs) [
    | inl (f, (i, p, a, is, z)) ↦ inl (rw (e, f) refl, (suc i, p, a, is, z))
    | inr (f, no_one) ↦ inr (rw (e, f) refl, λ (i, p, a, is, z). behind i dead no_one p a is z)
  ]
]
  where
    behind :
        (i : ℕ)
        → (q.pid ≡ pid → is_zombie q.state ≡ false → ⊥)
        → ¬ Lives pid xs
        → (p : Process) → At (some q ∷ xs) i p
        → p.pid ≡ pid
        → is_zombie p.state ≡ false
        → ⊥
    behind zero dead no_one p a is z =
        let same = some-inj (some-inj a) in
        dead (ap (λ x. x.pid) same ∙ is) (ap (λ x. is_zombie x.state) same ∙ z)
    behind (suc i) dead no_one p a is z = no_one (i, p, a, is, z)

-- `cleared` takes away exactly the zombies, and leaves every other process in its slot.
pub cleared-exact :
    (s : Scheduler) (i : ℕ) (p : Process)
    → At (cleared s).procs i p ↔ (At s.procs i p × (is_zombie p.state ≡ false))
unfolding cleared
cleared-exact s i p = (there, λ (a, z). get_elem?-map reap_slot s.procs i a ∙ rw z refl)
  where
    back : (x : Option Process) → reap_slot x ≡ some p → (x ≡ some p) × (is_zombie p.state ≡ false)
    back none e = absurd (none≢some e)
    back (some q) e = elim (Bool-cases (is_zombie q.state)) [
      | inl z ↦ absurd (none≢some (rw z at e))
      | inr z ↦
          let same : some q ≡ some p = rw z at e in
          (same, sym (ap (λ x. is_zombie x.state) (some-inj same)) ∙ z)
    ]

    there : At (map reap_slot s.procs) i p → At s.procs i p × (is_zombie p.state ≡ false)
    there a =
        let (x, at, e) = At-map reap_slot s.procs i a in
        let (same, z) = back x e in (at ∙ ap some same, z)

-- After `wakeup` nobody sleeps on the channel, and every process that is there was there before,
-- runnable now if it slept on the channel, and unchanged if it did not.
pub wakeup-exact :
    (chan : ℕ) (s : Scheduler) (i : ℕ) (q : Process)
    → At (wakeup chan s).procs i q
    → (sleeps_on chan q.state ≡ false)
      × ((p : Process) × At s.procs i p
          × (((sleeps_on chan p.state ≡ true) × (q ≡ record p { state = runnable }))
              ⊎ ((sleeps_on chan p.state ≡ false) × (q ≡ p))))
unfolding wakeup
wakeup-exact chan s i q a = let (x, at, e) = At-map (wake_slot chan) s.procs i a in woken x at e
  where
    woken :
        (x : Option Process)
        → get_elem? s.procs i ≡ some x
        → wake_slot chan x ≡ some q
        → (sleeps_on chan q.state ≡ false)
          × ((p : Process) × At s.procs i p
              × (((sleeps_on chan p.state ≡ true) × (q ≡ record p { state = runnable }))
                  ⊎ ((sleeps_on chan p.state ≡ false) × (q ≡ p))))
    woken none at e = absurd (none≢some e)
    woken (some p) at e = elim (Bool-cases (sleeps_on chan p.state)) [
      | inl t ↦
          let same : record p { state = runnable } ≡ q = some-inj (rw t at e) in
          (sym (ap (λ x. sleeps_on chan x.state) same), (p, at, inl (t, sym same)))
      | inr t ↦
          let same : p ≡ q = some-inj (rw t at e) in
          (sym (ap (λ x. sleeps_on chan x.state) same) ∙ t, (p, at, inr (t, sym same)))
    ]

-- When the current process of a valid table exits, the invariant is kept, no live process has its
-- pid any more, and nobody is left asleep on the channel that `join` waits on.
pub exit-wakes_joiners :
    {s : Scheduler} (cur : ℕ) (p : Process)
    → IsValid s
    → s.current ≡ some cur
    → At s.procs cur p
    → Returns
        (λ s'.
          IsValid s'
          × (still_running p.pid s'.procs ≡ false)
          × ((i : ℕ) (q : Process) → At s'.procs i q → sleeps_on exit_chan q.state ≡ false))
        (exit s)
exit-wakes_joiners {s} cur p v e a = Returns-eq (exit_lem s e a) (
  wakeup-IsValid exit_chan (leave-IsValid cur zombie v e a refl),
  gone,
  λ i q b. (wakeup-exact exit_chan left i q b).0,
)
  where
    left : Scheduler
    left = leave cur zombie p s

    same_pid :
        (i : ℕ) (q : Process)
        → At (wakeup exit_chan left).procs i q
        → (r : Process) × At left.procs i r
          × (q.pid ≡ r.pid)
          × (is_zombie r.state ≡ true → is_zombie q.state ≡ true)
    same_pid i q b =
        let (awake, (r, c, how)) = wakeup-exact exit_chan left i q b in
        (
          r,
          c,
          elim how [ inl (t, is) ↦ ap (λ x. x.pid) is | inr (t, is) ↦ ap (λ x. x.pid) is ],
          λ z. elim how [
            | inl (t, is) ↦ absurd (true≢false (sym t ∙ dozes r.state z))
            | inr (t, is) ↦ ap (λ x. is_zombie x.state) is ∙ z
          ],
        )
      where
        dozes : (st : State) → is_zombie st ≡ true → sleeps_on exit_chan st ≡ false
        dozes runnable z = refl
        dozes running z = refl
        dozes (State.sleeping c) z = absurd (true≢false (sym z))
        dozes zombie z = refl

    nobody :
        (i : ℕ) (q : Process)
        → At (wakeup exit_chan left).procs i q
        → q.pid ≡ p.pid
        → is_zombie q.state ≡ false
        → ⊥
    nobody i q b is z =
        let (r, c, pid, dead) = same_pid i q b in
        elim (At-set s.procs cur (record p { state = zombie }) i c) [
          | inl (at, same) ↦ true≢false (sym (dead (ap (λ x. is_zombie x.state) same)) ∙ z)
          | inr (ne, d) ↦ ne (v.pid_once i cur r p d a (sym pid ∙ is))
        ]

    gone : still_running p.pid (wakeup exit_chan left).procs ≡ false
    gone = elim (still_running-cases p.pid (wakeup exit_chan left).procs) [
      | inl (f, (i, q, b, is, z)) ↦ absurd (nobody i q b is z)
      | inr (f, no_one) ↦ f
    ]

-- A round of `join` returns, with nothing changed, exactly if no live process has the pid; otherwise
-- the caller is asleep on the channel that every exit wakes.
pub join_round_lem :
    (pid : ℕ) {s : Scheduler} (cur : ℕ) (p : Process)
    → s.current ≡ some cur
    → At s.procs cur p
    → ((join_round pid s ≡ ok (true, s)) × (¬ Lives pid s.procs))
      ⊎ ((join_round pid s ≡ ok (false, leave cur (sleeping exit_chan) p s)) × Lives pid s.procs)
unfolding join_round
join_round_lem pid {s} cur p e a = elim (still_running-cases pid s.procs) [
  | inl (f, lives) ↦ inr (rw (f, sleep_lem exit_chan s e a, join_round) refl, lives)
  | inr (f, no_one) ↦ inl (rw (f, join_round) refl, no_one)
]
