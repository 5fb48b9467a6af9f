-- ===== src/Sched/Files.antt =====
-- proc.rs, the open files of the current process.
mod Laws
pub mod Cursor
mod Tests
use osmium.Prelude.{
  ℕ, zero, suc, ◌+◌, Bool, true, false, Option, none, some, List, [], ◌∷◌, get_elem?, set,
}
use osmium.Machine.{Outcome, ok, panic, spin, ◌>>=◌, add, expect}
use osmium.Sched.{Process, Scheduler, FdEntry, with_current, process_at, put}

abbrev pub Fds : Type 0
Fds = List (Option FdEntry)

-- `iter().position(|slot| slot.is_none())`, counted from `i`.
pub free_fd : ℕ → Fds → Option ℕ
free_fd i [] = none
free_fd i (none ∷ fds) = some i
free_fd i (some e ∷ fds) = free_fd (suc i) fds

-- `Option::flatten`
abbrev pub flatten : {A : Type 0} → Option (Option A) → Option A
flatten none = none
flatten (some o) = o

-- The closure of `fd_install`, on the table of a process.
pub install : ℕ → Fds → Option ℕ × Fds
install file_idx fds = elim (free_fd 0 fds) [
  | none ↦ (none, fds)
  | some fd ↦ (some fd, set fds fd (some (record { file_idx = file_idx; offset = 0 })))
]

pub fd_install : ℕ → Scheduler → Outcome (Option ℕ × Scheduler)
fd_install file_idx s = do
  (r, s') ←
      with_current (λ p. let (fd, fds) = install file_idx p.fds in (fd, record p { fds = fds })) s
  ok (flatten r, s')

-- The closure of `fd_lookup`.
pub lookup_entry : ℕ → Fds → Option (ℕ × ℕ)
lookup_entry fd fds = elim (flatten (get_elem? fds fd)) [
  | none ↦ none
  | some e ↦ some (e.file_idx, e.offset)
]

pub fd_lookup : ℕ → Scheduler → Outcome (Option (ℕ × ℕ) × Scheduler)
fd_lookup fd s = do (r, s') ← with_current (λ p. (lookup_entry fd p.fds, p)) s; ok (flatten r, s')

-- The closure of `fd_advance`, which panics where the offset overflows.
pub advance : ℕ → ℕ → Fds → Outcome Fds
advance fd delta fds = elim (flatten (get_elem? fds fd)) [
  | none ↦ ok fds
  | some e ↦ do offset ← add e.offset delta; ok (set fds fd (some (record e { offset = offset })))
]

pub fd_advance : ℕ → ℕ → Scheduler → Outcome Scheduler
fd_advance fd delta s = elim s.current [
  | none ↦ ok s
  | some cur ↦ do
    slot ← expect (get_elem? s.procs cur)
    elim slot [
      | none ↦ ok s
      | some p ↦ do fds ← advance fd delta p.fds; ok (put cur (record p { fds = fds }) s)
    ]
]

-- The closure of `fd_close`.
pub close : ℕ → Fds → Bool × Fds
close fd fds = elim (flatten (get_elem? fds fd)) [
  | none ↦ (false, fds)
  | some e ↦ (true, set fds fd none)
]

abbrev pub or_false : Option Bool → Bool
or_false none = false
or_false (some b) = b

pub fd_close : ℕ → Scheduler → Outcome (Bool × Scheduler)
fd_close fd s = do
  (r, s') ← with_current (λ p. let (was, fds) = close fd p.fds in (was, record p { fds = fds })) s
  ok (or_false r, s')
