-- ===== src/Sched/Round.antt =====
-- One round of the scheduler's loop: reaping, the choice and the switch.
use osmium.Prelude.{
  ℕ, ◌+◌, ◌≤◌, ◌<◌, ◌≡◌, ◌≢◌, refl, sym, ap, ◌∙◌, inl, inr, Option, none, some, length, set, true,
  subst, length-set, get_elem?-set_ne, get_elem?-set_self, Bool-cases,
}
use osmium.Machine.{Outcome, ok, ◌>>=◌}
use osmium.Kalloc.{Kmem}
use osmium.Vm.Tables.{switch_to}
use osmium.Vm.Laws.{switch_to-ok}
use osmium.Sched.Pids.{IsSub, IsSub-self, IsSub-trans, cleared-IsSub, IsSub-started}
use osmium.Sched.Loop.{free_all, round, reap_lem, reap-cleared}
use osmium.Machine.Returns.{
  Returns, Returns-eq, Ensures, Ensures-bind, Ensures-any, Ensures-mono, ensures,
}
use osmium.Sched.{
  Process, Scheduler, State, running, zombie, runnable, cleared, reap_slot, freed_tables, pick,
  dispatch, is_runnable, is_zombie,
}
use osmium.Sched.Slots.{At, At-bound, At-map, get_elem?-map, length-map, none≢some, true≢false}
use osmium.Sched.Inv.{IsValid}
use osmium.Sched.Keep.{cleared-IsValid}
use osmium.Sched.Start.{dispatch_lem, started, started-IsValid}
use osmium.Sched.Pick.{
  IsReady, distance, distance-next, Picked, nobody_ready, next_ready, pick-Picked,
}

-- Reaping leaves the ready processes where they are.
cleared-IsReady : (s : Scheduler) (i : ℕ) → IsReady s.procs i → IsReady (cleared s).procs i
unfolding cleared
cleared-IsReady s i (p, a, t) =
    (p, get_elem?-map reap_slot s.procs i a ∙ ap some (kept p.state t), t)
  where
    kept :
        (st : State)
        → is_runnable st ≡ true
        → reap_slot (some (record p { state = st })) ≡ some (record p { state = st })
    kept runnable t = refl
    kept running t = absurd (true≢false (sym t))
    kept (State.sleeping c) t = absurd (true≢false (sym t))
    kept zombie t = absurd (true≢false (sym t))

At-cleared : (s : Scheduler) (i : ℕ) {p : Process} → At (cleared s).procs i p → At s.procs i p
unfolding cleared
At-cleared s i {p} a = let (x, at, e) = At-map reap_slot s.procs i a in at ∙ ap some (back x e)
  where
    back : (x : Option Process) → reap_slot x ≡ some p → x ≡ some p
    back none e = e
    back (some q) e = elim (Bool-cases (is_zombie q.state)) [
      | inl z ↦ absurd (none≢some (rw z at e))
      | inr z ↦ rw z at e
    ]

-- What a round does: nobody is ready and it idles, or the ready process that is next in turn gets
-- the processor, with satp for its table and for the kernel's on the way back, and every other ready
-- process stays ready and comes nearer to its turn.
pub data Rounded (kernel_root : ℕ) (s : Scheduler) : Option (ℕ × ℕ) × Scheduler → Type 0 where
  idles :
      {s' : Scheduler}
      → s'.current ≡ none
      → ((j : ℕ) → ¬ IsReady s.procs j)
      → Rounded kernel_root s (none, s')
  runs_next :
      {satp back : ℕ} {s' : Scheduler} (i : ℕ) (p : Process)
      → At s.procs i p
      → is_runnable p.state ≡ true
      → ((j : ℕ)
          → IsReady s.procs j
          → distance s.next_slot (length s.procs) i ≤ distance s.next_slot (length s.procs) j)
      → switch_to p.page_table ≡ ok satp
      → switch_to kernel_root ≡ ok back
      → s'.current ≡ some i
      → s'.next_slot ≡ i + 1
      → At s'.procs i (record p { state = running })
      → length s'.procs ≡ length s.procs
      → ((j : ℕ)
          → IsReady s.procs j
          → j ≢ i
          → IsReady s'.procs j
            × (distance s'.next_slot (length s'.procs) j < distance s.next_slot (length s.procs) j))
      → Rounded kernel_root s (some (satp, back), s')

current-cleared : (s : Scheduler) → (cleared s).current ≡ s.current
unfolding cleared
current-cleared s = refl

-- The rest of a round, after the pass over the zombies.
abbrev rest : (kernel_root : ℕ) → Scheduler × Kmem → Outcome (Option (ℕ × ℕ) × Scheduler × Kmem)
rest kernel_root (s1, k1) = elim (pick s1) [
  | none ↦ ok (none, s1, k1)
  | some idx ↦ do
    (table, s2) ← dispatch idx s1
    satp ← switch_to table
    back ← switch_to kernel_root
    ok (some (satp, back), s2, k1)
]

round-reaped :
    (kernel_end kernel_root : ℕ) (s : Scheduler) (k : Kmem) {k' : Kmem}
    → free_all kernel_end (freed_tables s.procs) k ≡ ok k'
    → round kernel_end kernel_root s k ≡ rest kernel_root (cleared s, k')
unfolding round
round-reaped kernel_end kernel_root s k e =
    ap (λ m. m >>= rest kernel_root) (reap_lem kernel_end s k e)

rest-idle :
    (kernel_root : ℕ) (s : Scheduler) (k : Kmem)
    → pick s ≡ none
    → rest kernel_root (s, k) ≡ ok (none, s, k)
rest-idle kernel_root s k e = rw (e, rest) refl

rest-runs :
    (kernel_root : ℕ) (s : Scheduler) (k : Kmem) (i : ℕ) {p : Process} {satp back : ℕ}
    → pick s ≡ some i
    → At s.procs i p
    → switch_to p.page_table ≡ ok satp
    → switch_to kernel_root ≡ ok back
    → rest kernel_root (s, k) ≡ ok (some (satp, back), started i p s, k)
rest-runs kernel_root s k i e a there home = rw (e, dispatch_lem i s a, there, home, rest) refl

started-Rounded :
    {kernel_root : ℕ} (s : Scheduler) (i : ℕ) {p : Process} {satp back : ℕ}
    → s.next_slot ≤ length s.procs
    → At s.procs i p
    → is_runnable p.state ≡ true
    → ((j : ℕ)
        → IsReady s.procs j
        → distance s.next_slot (length s.procs) i ≤ distance s.next_slot (length s.procs) j)
    → switch_to p.page_table ≡ ok satp
    → switch_to kernel_root ≡ ok back
    → Rounded kernel_root s (some (satp, back), started i p s)
started-Rounded s i {p} low a t order there home =
    runs_next i p a t order there home refl refl
      (get_elem?-set_self s.procs i (some q) (At-bound s.procs i a)) size others
  where
    q : Process
    q = record p { state = running }

    size : length (set s.procs i (some q)) ≡ length s.procs
    size = length-set s.procs i (some q)

    others :
        (j : ℕ)
        → IsReady s.procs j
        → j ≢ i
        → IsReady (set s.procs i (some q)) j
          × (distance (i + 1) (length (set s.procs i (some q))) j
              < distance s.next_slot (length s.procs) j)
    others j (r, b, u) ne = (
      (r, get_elem?-set_ne s.procs (some q) (λ e. ne (sym e)) ∙ b, u),
      rw size (
          distance-next s.next_slot (length s.procs) i j low (At-bound s.procs i a)
            (At-bound s.procs j b) (λ e. ne (sym e)) (order j (r, b, u))),
    )

-- What holds of a round from the reaped table on holds of the whole round.
Rounded-cleared :
    {kernel_root : ℕ} (s : Scheduler) {r : Option (ℕ × ℕ) × Scheduler}
    → Rounded kernel_root (cleared s) r
    → Rounded kernel_root s r
unfolding cleared
Rounded-cleared s (idles e none_ready) = idles e λ j ready. none_ready j (cleared-IsReady s j ready)
Rounded-cleared s (runs_next {s'} i p a t order there home cur next now size others) =
    let len = length-map reap_slot s.procs in
    runs_next i p (At-cleared s i a) t
      (λ j ready.
        subst (λ n. distance s.next_slot n i ≤ distance s.next_slot n j) len
          (order j (cleared-IsReady s j ready)))
      there home cur next now (size ∙ len)
      λ j ready ne.
        let (still, nearer) = others j (cleared-IsReady s j ready) ne in
        (
          still,
          subst (λ n. distance s'.next_slot (length s'.procs) j < distance s.next_slot n j) len
              nearer,
        )

-- A round of the scheduler on a valid table with no current process, where the freeing of the
-- zombies' private tables ends without a panic and neither the kernel's table nor that of a process
-- is at address 0, ends without a panic. The invariant holds, and the memory is what the freeing
-- has left. If a process is ready, the first ready one in turn runs as the current one, satp has its
-- table and on the way back the kernel's, the turn is with the slot after it, and every other ready
-- process stays ready and comes nearer to its turn; the hart idles only if nobody is ready.
pub round-Rounded :
    (kernel_end kernel_root : ℕ) {s : Scheduler} (k : Kmem) {k' : Kmem}
    → IsValid s
    → s.current ≡ none
    → free_all kernel_end (freed_tables s.procs) k ≡ ok k'
    → kernel_root ≢ 0
    → ((i : ℕ) (p : Process) → At s.procs i p → p.page_table ≢ 0)
    → Returns
        (λ (r, s', k2). IsValid s' × (k2 ≡ k') × Rounded kernel_root s (r, s'))
        (round kernel_end kernel_root s k)
round-Rounded kernel_end kernel_root {s} k {k'} v idle frees root tables =
    rw (round-reaped kernel_end kernel_root s k frees)
      (go (pick-Picked (cleared s) w.position) refl)
  where
    w : IsValid (cleared s)
    w = cleared-IsValid v

    free : (cleared s).current ≡ none
    free = current-cleared s ∙ idle

    go :
        {r : Option ℕ}
        → Picked (cleared s).procs (cleared s).next_slot r
        → pick (cleared s) ≡ r
        → Returns
            (λ (r, s', k2). IsValid s' × (k2 ≡ k') × Rounded kernel_root s (r, s'))
            (rest kernel_root (cleared s, k'))
    go (nobody_ready none_ready) e =
        Returns-eq (rest-idle kernel_root (cleared s) k' e)
          (w, refl, Rounded-cleared s (idles free none_ready))
    go (next_ready i (p, a, t) order) e =
        let there = switch_to-ok p.page_table (tables i p (At-cleared s i a)) in
        let home = switch_to-ok kernel_root root in
        Returns-eq (rest-runs kernel_root (cleared s) k' i e a there home) (
          started-IsValid i free a w,
          refl,
          Rounded-cleared s (started-Rounded (cleared s) i w.position a t order there home),
        )

rest-IsValid :
    (kernel_root : ℕ) {s : Scheduler} (k : Kmem)
    → IsValid s
    → s.current ≡ none
    → Ensures (λ (r, s', k2). IsValid s' × IsSub s s') (rest kernel_root (s, k))
rest-IsValid kernel_root {s} k v idle = go (pick-Picked s v.position) refl
  where
    go :
        {r : Option ℕ}
        → Picked s.procs s.next_slot r
        → pick s ≡ r
        → Ensures (λ (r, s', k2). IsValid s' × IsSub s s') (rest kernel_root (s, k))
    go (nobody_ready none_ready) e = rw (rest-idle kernel_root s k e) (ensures (v, IsSub-self s))
    go (next_ready i (p, a, t) order) e =
        rw (e, dispatch_lem i s a, rest)
          (Ensures-bind (Ensures-any (switch_to p.page_table)) λ satp x.
            Ensures-bind (Ensures-any (switch_to kernel_root))
              λ back y. ensures (started-IsValid i idle a v, IsSub-started i s a))

-- A round that comes to its end, whatever the memory, keeps the invariant and brings no pid.
pub round-IsValid :
    (kernel_end kernel_root : ℕ) {s : Scheduler} (k : Kmem)
    → IsValid s
    → s.current ≡ none
    → Ensures (λ (r, s', k2). IsValid s' × IsSub s s') (round kernel_end kernel_root s k)
unfolding round
round-IsValid kernel_end kernel_root {s} k v idle = rw (reap-cleared kernel_end s k) (
    Ensures-bind {P = λ w. w.0 ≡ cleared s}
      (Ensures-bind (Ensures-any (free_all kernel_end (freed_tables s.procs) k))
        λ k' x. ensures refl)
      (λ w same.
        subst (λ t. Ensures (λ (r, s', k2). IsValid s' × IsSub s s') (rest kernel_root (t, w.1)))
          (sym same)
          (Ensures-mono
            (rest-IsValid kernel_root w.1 (cleared-IsValid v) (current-cleared s ∙ idle))
            λ r (valid, sub). (valid, IsSub-trans (cleared-IsSub s) sub))))
