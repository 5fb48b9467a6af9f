-- ===== src/Fs/Tests.antt =====
-- Runs of the file system on its built-in files.
use osmium.Prelude.{ℕ, ◌<◌, ◌≡◌, refl, ◌⊎◌, none, some, [], ◌∷◌, get_elem?, replicate}
use osmium.Fs.{File, Files, init, lookup, position, eq_bytes, read_at, motd, readme, cpuinfo}
use osmium.Fs.Laws.{Named, NotNamed, Copied, lookup-first, read_at_lem}

abbrev files : Files
files = motd ∷ readme ∷ cpuinfo ∷ []

files_lem : init [] ≡ files
unfolding init
files_lem = refl

lookup_run : lookup cpuinfo.name files ≡ some 2
unfolding lookup position eq_bytes
lookup_run = refl

lookup-first_example :
    ((lookup readme.name files ≡ none) × ((j : ℕ) → NotNamed files j readme.name))
    ⊎ ((j : ℕ) × (lookup readme.name files ≡ some j)
        × Named files j readme.name
        × ((k : ℕ) → k < j → NotNamed files k readme.name))
lookup-first_example = lookup-first readme.name files

read_at_lem_example :
    ((get_elem? files 1 ≡ none) × (read_at 1 8 (replicate 5 0) files ≡ (replicate 5 0, 0)))
    ⊎ ((f : File) × (get_elem? files 1 ≡ some f)
        × Copied 8 f.data_bytes (replicate 5 0) (read_at 1 8 (replicate 5 0) files))
read_at_lem_example = read_at_lem 1 8 (replicate 5 0) files
