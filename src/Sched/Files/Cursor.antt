-- ===== src/Sched/Files/Cursor.antt =====
-- The cursor of an open file of the current process.
use osmium.Prelude.{
  ℕ, zero, suc, ◌+◌, ◌≤◌, ◌≡◌, refl, sym, ap, ◌∙◌, Option, none, some, [], ◌∷◌, get_elem?, set,
  arith,
}
use osmium.Machine.{Outcome, ok, ◌>>=◌, add, expect, usize_max}
use osmium.Sched.{Process, Scheduler, Slots, FdEntry, put}
use osmium.Sched.Slots.{At, some-inj}
use osmium.Sched.Keep.{with_current_lem}
use osmium.Sched.Files.{Fds, flatten, lookup_entry, fd_lookup, advance, fd_advance}
use osmium.Sched.Files.Laws.{lookup_entry-some}

set-same : (xs : Slots) (i : ℕ) {x : Option Process} → get_elem? xs i ≡ some x → set xs i x ≡ xs
set-same [] i e = refl
set-same (y ∷ xs) zero e = ap (λ z. z ∷ xs) (sym (some-inj e))
set-same (y ∷ xs) (suc i) e = ap (λ zs. y ∷ zs) (set-same xs i e)

pub put-same : (s : Scheduler) (cur : ℕ) {p : Process} → At s.procs cur p → put cur p s ≡ s
put-same s cur at = ap (λ xs. record s { procs = xs }) (set-same s.procs cur at)

-- On the current process, the look-up changes nothing.
pub fd_lookup-eq :
    (fd : ℕ) (s : Scheduler) {cur : ℕ} {p : Process} {x : FdEntry}
    → s.current ≡ some cur
    → At s.procs cur p
    → flatten (get_elem? p.fds fd) ≡ some x
    → fd_lookup fd s ≡ ok (some (x.file_idx, x.offset), s)
unfolding fd_lookup
fd_lookup-eq fd s {cur} {p} e at here =
    rw
      (
        with_current_lem (λ q. (lookup_entry fd q.fds, q)) s e at,
        put-same s cur at,
        lookup_entry-some fd p.fds here,
      )
      refl

-- The process after its cursor of a file was moved on.
abbrev pub moved : (fd delta : ℕ) → FdEntry → Process → Process
moved fd delta x p = record p { fds = set p.fds fd (some (record x { offset = x.offset + delta })) }

advance-some :
    (fd delta : ℕ) (fds : Fds) {x : FdEntry}
    → flatten (get_elem? fds fd) ≡ some x
    → x.offset + delta ≤ usize_max
    → advance fd delta fds ≡ ok (set fds fd (some (record x { offset = x.offset + delta })))
unfolding advance
advance-some fd delta fds {x} here fits =
    let sum : add x.offset delta ≡ ok (x.offset + delta) = ground arith in
    rw (here, sum, advance) refl

pub fd_advance-eq :
    (fd delta : ℕ) (s : Scheduler) {cur : ℕ} {p : Process} {x : FdEntry}
    → s.current ≡ some cur
    → At s.procs cur p
    → flatten (get_elem? p.fds fd) ≡ some x
    → x.offset + delta ≤ usize_max
    → fd_advance fd delta s ≡ ok (put cur (moved fd delta x p) s)
unfolding fd_advance
fd_advance-eq fd delta s {cur} {p} {x} e at here fits =
    ap (λ c. elim c [ none ↦ ok s | some i ↦ expect (get_elem? s.procs i) >>= λ slot. go i slot ]) e
    ∙ ap (λ o. expect o >>= λ slot. go cur slot) at
    ∙ ap (λ m. m >>= λ fds. ok (put cur (record p { fds = fds }) s))
        (advance-some fd delta p.fds here fits)
  where
    go : ℕ → Option Process → Outcome Scheduler
    go i slot = elim slot [
      | none ↦ ok s
      | some q ↦ advance fd delta q.fds >>= λ fds. ok (put i (record q { fds = fds }) s)
    ]
