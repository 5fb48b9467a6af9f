-- ===== src/Sched/Inv.antt =====
-- The scheduler's invariant, the steps of the kernel that change its state, and what they keep.
use osmium.Prelude.{
  ℕ, ◌≤◌, ◌<◌, ◌≡◌, refl, sym, ap, ◌∙◌, inl, inr, none, some, length, set, arith, false, subst,
  length-set, get_elem?-set_self,
}
use osmium.Machine.{ok, ◌>>=◌}
use osmium.Sched.{
  Process, Slots, Scheduler, State, running, is_running, process_at, set_state, switch_out,
}
use osmium.Sched.Slots.{At, At-bound, At-set, some-inj, none≢some, true≢false}

-- At most one process runs, and it is the current one; pids are in use once each, not 0, and below
-- the next; the round-robin position lies in the table or at its end.
pub record IsValid (s : Scheduler) : Type 0 where
  pub runs : (i : ℕ) (p : Process) → At s.procs i p → p.state ≡ running → s.current ≡ some i
  pub current_runs :
      (i : ℕ) → s.current ≡ some i → (p : Process) × At s.procs i p × (p.state ≡ running)
  pub pid_range : (i : ℕ) (p : Process) → At s.procs i p → (0 < p.pid) × (p.pid < s.next_pid)
  pub pid_once : (i j : ℕ) (p q : Process) → At s.procs i p → At s.procs j q → p.pid ≡ q.pid → i ≡ j
  pub pid_first : 0 < s.next_pid
  pub position : s.next_slot ≤ length s.procs

-- The filled slots of `ys` held processes with the same pids in `xs`.
pub record SamePids (xs ys : Slots) : Type 0 where
  pub size : length ys ≡ length xs
  pub old : (i : ℕ) (q : Process) → At ys i q → (p : Process) × At xs i p × (q.pid ≡ p.pid)

pub SamePids-set :
    (xs : Slots) (j : ℕ) (p q : Process)
    → At xs j p
    → q.pid ≡ p.pid
    → SamePids xs (set xs j (some q))
SamePids-set xs j p q at e = record { size = length-set xs j (some q); old = old }
  where
    old :
        (i : ℕ) (r : Process)
        → At (set xs j (some q)) i r
        → (p' : Process) × At xs i p' × (r.pid ≡ p'.pid)
    old i r a = elim (At-set xs j q i a) [
      | inl (here, same) ↦ (p, subst (λ k. At xs k p) (sym here) at, ap (λ x. x.pid) same ∙ e)
      | inr (ne, b) ↦ (r, b, refl)
    ]

-- A step that keeps the pids keeps the invariant, if it says who runs.
pub SamePids-IsValid :
    {s s' : Scheduler}
    → IsValid s
    → SamePids s.procs s'.procs
    → s.next_pid ≡ s'.next_pid
    → s'.next_slot ≤ length s'.procs
    → ((i : ℕ) (p : Process) → At s'.procs i p → p.state ≡ running → s'.current ≡ some i)
    → ((i : ℕ) → s'.current ≡ some i → (p : Process) × At s'.procs i p × (p.state ≡ running))
    → IsValid s'
SamePids-IsValid {s} {s'} v same next position runs current_runs = record {
  runs = runs;
  current_runs = current_runs;
  pid_range = range;
  pid_once = once;
  pid_first = omega (arith, v.pid_first);
  position = position;
}
  where
    range : (i : ℕ) (q : Process) → At s'.procs i q → (0 < q.pid) × (q.pid < s'.next_pid)
    range i q a =
        let (p, at, e) = same.old i q a in
        let (low, high) = v.pid_range i p at in (omega arith, omega arith)

    once : (i j : ℕ) (p q : Process) → At s'.procs i p → At s'.procs j q → p.pid ≡ q.pid → i ≡ j
    once i j p q a b e =
        let (p', at, ep) = same.old i p a in
        let (q', bt, eq) = same.old j q b in v.pid_once i j p' q' at bt (sym ep ∙ e ∙ eq)

-- The current process leaves the processor in state `st`.
abbrev pub leave : ℕ → State → Process → Scheduler → Scheduler
leave cur st p s = record s {
  procs = set s.procs cur (some (record p { state = st }));
  current = none;
}

pub process_at-At : (xs : Slots) (i : ℕ) {p : Process} → At xs i p → process_at xs i ≡ ok p
unfolding process_at
process_at-At xs i a = rw a refl

process_at-set :
    (xs : Slots) (i : ℕ) {p : Process} (q : Process)
    → At xs i p
    → process_at (set xs i (some q)) i ≡ ok q
process_at-set xs i q a =
    process_at-At (set xs i (some q)) i (get_elem?-set_self xs i (some q) (At-bound xs i a))

pub leave_lem :
    (cur : ℕ) (st : State) (s : Scheduler) {p : Process}
    → s.current ≡ some cur
    → At s.procs cur p
    → is_running st ≡ false
    → (set_state cur st s >>= switch_out) ≡ ok (leave cur st p s)
unfolding set_state switch_out
leave_lem cur st s {p} e a no_run =
    rw
      (
        process_at-At s.procs cur a,
        e,
        process_at-set s.procs cur (record p { state = st }) a,
        no_run,
      )
      refl

pub leave-IsValid :
    (cur : ℕ) (st : State) {s : Scheduler} {p : Process}
    → IsValid s
    → s.current ≡ some cur
    → At s.procs cur p
    → is_running st ≡ false
    → IsValid (leave cur st p s)
leave-IsValid cur st {s} {p} v e a no_run =
    SamePids-IsValid v (SamePids-set s.procs cur p _ a refl) refl
      (omega (arith, v.position, length-set s.procs cur (some (record p { state = st })))) none_runs
      (λ i f. absurd (none≢some f))
  where
    none_runs :
        (i : ℕ) (q : Process)
        → At (set s.procs cur (some (record p { state = st }))) i q
        → q.state ≡ running
        → none ≡ some i
    none_runs i q b run = elim (At-set s.procs cur (record p { state = st }) i b) [
      | inl (here, same) ↦
          absurd (true≢false (sym (ap is_running (sym (ap (λ x. x.state) same) ∙ run)) ∙ no_run))
      | inr (ne, c) ↦ absurd (ne (sym (some-inj (sym e ∙ v.runs i q c run))))
    ]
