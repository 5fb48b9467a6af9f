-- ===== src/Sched/Files/Laws.antt =====
-- The laws of the table of open files.
use osmium.Prelude.{
  ℕ, zero, suc, ◌+◌, ◌<◌, ◌≡◌, ◌≢◌, refl, sym, ap, ◌∙◌, ◌⊎◌, inl, inr, true, false, none, some, [],
  ◌∷◌, get_elem?, set, arith, length, Option-cases, get_elem?-set_self, get_elem?-set_ne, ◌↔◌,
}
use osmium.Sched.{FdEntry}
use osmium.Sched.Slots.{none≢some, true≢false}
use osmium.Sched.Files.{Fds, free_fd, install, lookup_entry, close, flatten}

-- The first free descriptor, or that there is none.
free_fd-cases :
    (i : ℕ) (fds : Fds)
    → ((free_fd i fds ≡ none) × ((d : ℕ) → d < length fds → ¬ (flatten (get_elem? fds d) ≡ none)))
      ⊎ ((d : ℕ) × (free_fd i fds ≡ some (i + d))
          × (d < length fds)
          × (get_elem? fds d ≡ some none)
          × ((e : ℕ) → e < d → ¬ (flatten (get_elem? fds e) ≡ none)))
unfolding free_fd
free_fd-cases i [] = inl (refl, λ d l. absurd (omega arith))
free_fd-cases i (none ∷ fds) =
    inr (0, ap some (omega arith), omega arith, refl, λ e l. absurd (omega arith))
free_fd-cases i (some e ∷ fds) = elim (free_fd-cases (suc i) fds) [
  | inl (f, full) ↦ inl (f, shift (length fds) full)
  | inr (d, f, l, at, full) ↦ inr (suc d, f ∙ ap some (omega arith), omega arith, at, shift d full)
]
  where
    shift :
        (n : ℕ)
        → ((d : ℕ) → d < n → ¬ (flatten (get_elem? fds d) ≡ none))
        → (d : ℕ) → d < suc n
        → ¬ (flatten (get_elem? (some e ∷ fds) d) ≡ none)
    shift n full zero l is = none≢some (sym is)
    shift n full (suc d) l is = full d (omega arith) is

lookup_entry-eq :
    (fd : ℕ) (fds fds' : Fds)
    → flatten (get_elem? fds fd) ≡ flatten (get_elem? fds' fd)
    → lookup_entry fd fds ≡ lookup_entry fd fds'
unfolding lookup_entry
lookup_entry-eq fd fds fds' e =
    ap (λ o. elim o [ none ↦ none | some x ↦ some (x.file_idx, x.offset) ]) e

lookup_entry-none :
    (fd : ℕ) (fds : Fds) → flatten (get_elem? fds fd) ≡ none → lookup_entry fd fds ≡ none
unfolding lookup_entry
lookup_entry-none fd fds is = rw (is, lookup_entry) refl

pub lookup_entry-some :
    (fd : ℕ) (fds : Fds) {x : FdEntry}
    → flatten (get_elem? fds fd) ≡ some x
    → lookup_entry fd fds ≡ some (x.file_idx, x.offset)
unfolding lookup_entry
lookup_entry-some fd fds is = rw (is, lookup_entry) refl

-- Installing a file takes the lowest free descriptor of the table, which then refers to the file
-- from its start, and leaves the other descriptors as they are; it fails, and changes nothing,
-- exactly if the table is full.
pub install_lem :
    (file_idx : ℕ) (fds : Fds)
    → ((install file_idx fds ≡ (none, fds))
        × ((d : ℕ) → d < length fds → ¬ (lookup_entry d fds ≡ none)))
      ⊎ ((d : ℕ) × (fds' : Fds) × (install file_idx fds ≡ (some d, fds'))
          × (lookup_entry d fds ≡ none)
          × ((e : ℕ) → e < d → ¬ (lookup_entry e fds ≡ none))
          × (lookup_entry d fds' ≡ some (file_idx, 0))
          × ((e : ℕ) → e ≢ d → lookup_entry e fds' ≡ lookup_entry e fds))
unfolding install lookup_entry
install_lem file_idx fds = elim (free_fd-cases 0 fds) [
  | inl (f, full) ↦ inl (rw (f, install) refl, λ d l e. full d l (closed d e))
  | inr (d, f, l, at, full) ↦ inr (
    d,
    opened d,
    rw (f, install) (ap (λ k. (some k, opened k)) (omega arith)),
    lookup_entry-none d fds (ap (λ o. flatten o) at),
    (λ e l' is. full e l' (closed e is)),
    lookup_entry-some d (opened d) (
        ap (λ o. flatten o)
          (get_elem?-set_self fds d (some (record { file_idx = file_idx; offset = 0 })) l)),
    λ e ne. lookup_entry-eq e (opened d) fds (
        ap (λ o. flatten o)
          (get_elem?-set_ne fds (some (record { file_idx = file_idx; offset = 0 }))
            (λ is. ne (sym is)))),
  )
]
  where
    opened : ℕ → Fds
    opened d = set fds d (some (record { file_idx = file_idx; offset = 0 }))

    closed : (d : ℕ) → lookup_entry d fds ≡ none → flatten (get_elem? fds d) ≡ none
    closed d e = elim (Option-cases (flatten (get_elem? fds d))) [
      | inl is ↦ is
      | inr (x, is) ↦ absurd (none≢some (sym e ∙ lookup_entry-some d fds is))
    ]

close-shut : (fd : ℕ) (fds : Fds) → flatten (get_elem? fds fd) ≡ none → close fd fds ≡ (false, fds)
unfolding close
close-shut fd fds is = rw (is, close) refl

close-open :
    (fd : ℕ) (fds : Fds) {x : FdEntry}
    → flatten (get_elem? fds fd) ≡ some x
    → close fd fds ≡ (true, set fds fd none)
unfolding close
close-open fd fds is = rw (is, close) refl

flatten-bound :
    (fds : Fds) (fd : ℕ) {x : FdEntry} → flatten (get_elem? fds fd) ≡ some x → fd < length fds
flatten-bound [] fd is = absurd (none≢some is)
flatten-bound (e ∷ fds) zero is = omega arith
flatten-bound (e ∷ fds) (suc fd) is = omega (arith, flatten-bound fds fd is)

-- Closing a descriptor says whether it was open; it is not open afterwards, and every other
-- descriptor is as before.
pub close_lem :
    (fd : ℕ) (fds : Fds)
    → (((close fd fds).0 ≡ true) ↔ (¬ (lookup_entry fd fds ≡ none)))
      × (lookup_entry fd (close fd fds).1 ≡ none)
      × ((e : ℕ) → e ≢ fd → lookup_entry e (close fd fds).1 ≡ lookup_entry e fds)
close_lem fd fds = elim (Option-cases (flatten (get_elem? fds fd))) [
  | inl is ↦ rw (close-shut fd fds is) (
    ((λ t. absurd (true≢false (sym t))), λ is_open. absurd (is_open (lookup_entry-none fd fds is))),
    lookup_entry-none fd fds is,
    λ e ne. refl,
  )
  | inr (x, is) ↦ rw (close-open fd fds is) (
    ((λ t gone. none≢some (sym gone ∙ lookup_entry-some fd fds is)), λ is_open. refl),
    lookup_entry-none fd (set fds fd none)
        (ap (λ o. flatten o) (get_elem?-set_self fds fd none (flatten-bound fds fd is))),
    λ e ne.
        lookup_entry-eq e (set fds fd none) fds
          (ap (λ o. flatten o) (get_elem?-set_ne fds none (λ at. ne (sym at)))),
  )
]
