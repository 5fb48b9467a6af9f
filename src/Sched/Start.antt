-- ===== src/Sched/Start.antt =====
-- How a process comes to run: spawning, and the scheduler's choice.
use osmium.Prelude.{
  ℕ, ◌+◌, ◌^◌, ◌≤◌, ◌<◌, ◌≡◌, ◌≢◌, refl, sym, ap, ◌∙◌, inl, inr, none, some, List, set, arith,
  subst, length-set, get_elem?-set_self,
}
use native.Mathlib.Nat.{mod-eq_of_lt}
use osmium.Machine.{ok, usize_max, add}
use osmium.Machine.Returns.{Returns, returns}
use osmium.Sched.{
  Process, Slots, Scheduler, Context, running, runnable, is_running, place, take_pid, publish,
  spawn_with, set_state, kstack_size, dispatch,
}
use osmium.Sched.Slots.{
  At, IsVacant, At-bound, At-set, At-place, At-unique, some-inj, none≢some, true≢false,
  length-place, place-one, place-keeps,
}
use osmium.Sched.Inv.{IsValid, SamePids-set, SamePids-IsValid, process_at-At}

-- No process of the table holds the pid.
abbrev pub IsAbsent : ℕ → Slots → Type 0
IsAbsent pid procs = (i : ℕ) (p : Process) → At procs i p → p.pid ≢ pid

-- A process with a pid that is new to the table, ready to run.
pub publish-IsValid :
    (q : Process) {s : Scheduler}
    → 0 < q.pid
    → q.pid < s.next_pid
    → IsAbsent q.pid s.procs
    → q.state ≡ runnable
    → IsValid s
    → IsValid (publish q s)
unfolding publish
publish-IsValid q {s} low high fresh ready v = record {
  runs = λ i p a run. elim (At-place q s.procs i a) [
    | inl (vacant, same) ↦
        absurd (true≢false (sym (ap is_running (sym (ap (λ x. x.state) same ∙ ready) ∙ run))))
    | inr b ↦ v.runs i p b run
  ];
  current_runs = λ i e. let (p, a, r) = v.current_runs i e in (p, place-keeps q s.procs i a, r);
  pid_range = λ i p a. elim (At-place q s.procs i a) [
    | inl (vacant, same) ↦
        let pid : p.pid ≡ q.pid = ap (λ x. x.pid) same in (omega arith, omega arith)
    | inr b ↦ v.pid_range i p b
  ];
  pid_once = once;
  pid_first = v.pid_first;
  position = omega (arith, v.position, length-place q s.procs);
}
  where
    once :
        (i j : ℕ) (p r : Process)
        → At (place q s.procs) i p
        → At (place q s.procs) j r
        → p.pid ≡ r.pid
        → i ≡ j
    once i j p r a b e =
        let (k, vacant, at, others) = place-one q s.procs in
        elim (others i p a) [
          | inl ik ↦ elim (others j r b) [
            | inl jk ↦ ik ∙ sym jk
            | inr b' ↦
                let new =
                  At-unique (place q s.procs) k (subst (λ m. At (place q s.procs) m p) ik a) at in
                absurd (fresh j r b' (sym e ∙ ap (λ x. x.pid) new))
          ]
          | inr a' ↦ elim (others j r b) [
            | inl jk ↦
                let new =
                  At-unique (place q s.procs) k (subst (λ m. At (place q s.procs) m r) jk b) at in
                absurd (fresh i p a' (e ∙ ap (λ x. x.pid) new))
            | inr b' ↦ v.pid_once i j p r a' b' e
          ]
        ]

-- Before the counter wraps, the pid that is taken is new, and below the next.
pub take_pid-fresh :
    {s : Scheduler}
    → s.next_pid + 1 < 2 ^ 64
    → IsValid s
    → IsValid (take_pid s).1
      × ((take_pid s).1.next_pid ≡ s.next_pid + 1)
      × (0 < (take_pid s).0)
      × ((take_pid s).0 < (take_pid s).1.next_pid)
      × IsAbsent (take_pid s).0 s.procs
unfolding take_pid
take_pid-fresh {s} high v = rw (mod-eq_of_lt high) (
  record {
    runs = v.runs;
    current_runs = v.current_runs;
    pid_range = λ i p a. let (lo, hi) = v.pid_range i p a in (lo, omega arith);
    pid_once = v.pid_once;
    pid_first = omega arith;
    position = v.position;
  },
  refl,
  v.pid_first,
  omega arith,
  λ i p a e. omega (arith, v.pid_range i p a, e),
)

-- The same without a wrap, for both steps of a spawn.
place-IsValid :
    (q : Process) (s : Scheduler)
    → q.pid ≡ s.next_pid
    → q.state ≡ runnable
    → s.next_pid + 1 < 2 ^ 64
    → IsValid s
    → IsValid (publish q (take_pid s).1)
unfolding take_pid
place-IsValid q s fresh ready high v =
    let (w, next, low, below, absent) = take_pid-fresh high v in
    publish-IsValid q (omega (arith, v.pid_first)) (omega (arith, next))
      (λ i p a e. absent i p a (e ∙ fresh)) ready w

-- What the caller of `spawn_with` may set: neither the pid nor the state.
abbrev pub Configures : (Process → Process) → Type 0
Configures f = (p : Process) → ((f p).pid ≡ p.pid) × ((f p).state ≡ p.state)

-- The new process stands in a slot that was free, as the caller has set it up, and the others are
-- where they were.
pub spawn_with-child :
    (thread_entry kernel_root kstack : ℕ) (name : List ℕ) (entry : ℕ)
    (configure : Process → Process) {s : Scheduler}
    → kstack + kstack_size ≤ usize_max
    → Configures configure
    → s.next_pid + 1 < 2 ^ 64
    → IsValid s
    → Returns
        (λ (pid, s').
          (pid ≡ s.next_pid)
          × IsValid s'
          × ((i : ℕ) (p : Process) → At s.procs i p → At s'.procs i p)
          × (base : Process) × (context : Context) × (j : ℕ) × IsVacant s.procs j
          × At s'.procs j (record (configure base) { context = context })
          × (base.pid ≡ pid))
        (spawn_with thread_entry kernel_root kstack name entry configure s)
unfolding spawn_with take_pid publish
spawn_with-child thread_entry kernel_root kstack name entry configure {s} fits keeps high v =
    let top : add kstack kstack_size ≡ ok (kstack + kstack_size) = ground arith in
    rw top (
      let (j, vacant, at, others) = place-one _ s.procs in
      returns (
        refl,
        place-IsValid _ s (keeps _).0 (keeps _).1 high v,
        (λ i p a. place-keeps _ s.procs i a),
        _,
        _,
        j,
        vacant,
        at,
        refl,
      ))

-- The state that `dispatch` leaves.
abbrev pub started : ℕ → Process → Scheduler → Scheduler
started i p s = record s {
  procs = set s.procs i (some (record p { state = running }));
  current = some i;
  next_slot = i + 1;
}

pub dispatch_lem :
    (idx : ℕ) (s : Scheduler) {p : Process}
    → At s.procs idx p
    → dispatch idx s ≡ ok (p.page_table, started idx p s)
unfolding dispatch set_state
dispatch_lem idx s {p} a =
    let here =
      get_elem?-set_self s.procs idx (some (record p { state = running }))
        (At-bound s.procs idx a) in
    rw
      (
        process_at-At s.procs idx a,
        process_at-At (set s.procs idx (some (record p { state = running }))) idx here,
      )
      refl

pub started-IsValid :
    (idx : ℕ) {s : Scheduler} {p : Process}
    → s.current ≡ none
    → At s.procs idx p
    → IsValid s
    → IsValid (started idx p s)
started-IsValid idx {s} {p} idle a v =
    SamePids-IsValid v (SamePids-set s.procs idx p q a refl) refl
      (omega (arith, At-bound s.procs idx a, length-set s.procs idx (some q))) runs
      (λ i f. (q, subst (λ k. At (set s.procs idx (some q)) k q) (some-inj f) here, refl))
  where
    q : Process
    q = record p { state = running }

    here : At (set s.procs idx (some q)) idx q
    here = get_elem?-set_self s.procs idx (some q) (At-bound s.procs idx a)

    runs :
        (i : ℕ) (r : Process)
        → At (set s.procs idx (some q)) i r
        → r.state ≡ running
        → some idx ≡ some i
    runs i r b is = elim (At-set s.procs idx q i b) [
      | inl (at, same) ↦ ap some (sym at)
      | inr (ne, c) ↦ absurd (none≢some (sym idle ∙ v.runs i r c is))
    ]
