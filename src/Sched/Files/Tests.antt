-- ===== src/Sched/Files/Tests.antt =====
-- A table with one open file among closed descriptors.
use osmium.Prelude.{ℕ, ◌<◌, ◌≡◌, ◌≢◌, ◌⊎◌, ◌↔◌, true, none, some, [], ◌∷◌, length}
use osmium.Sched.Files.{Fds, install, close, lookup_entry}
use osmium.Sched.Files.Laws.{install_lem, close_lem}

abbrev table : Fds
table = some (record { file_idx = 2; offset = 10 }) ∷ none ∷ none ∷ []

install_lem_example :
    ((install 1 table ≡ (none, table))
      × ((d : ℕ) → d < length table → ¬ (lookup_entry d table ≡ none)))
    ⊎ ((d : ℕ) × (fds' : Fds) × (install 1 table ≡ (some d, fds'))
        × (lookup_entry d table ≡ none)
        × ((e : ℕ) → e < d → ¬ (lookup_entry e table ≡ none))
        × (lookup_entry d fds' ≡ some (1, 0))
        × ((e : ℕ) → e ≢ d → lookup_entry e fds' ≡ lookup_entry e table))
install_lem_example = install_lem 1 table

close_lem_example :
    (((close 0 table).0 ≡ true) ↔ (¬ (lookup_entry 0 table ≡ none)))
    × (lookup_entry 0 (close 0 table).1 ≡ none)
    × ((e : ℕ) → e ≢ 0 → lookup_entry e (close 0 table).1 ≡ lookup_entry e table)
close_lem_example = close_lem 0 table
