-- ===== src/Fs.antt =====
-- fs.rs, the file system in memory. A name and the data are lists of bytes; the lock is taken and
-- released inside each call.
pub mod Laws
mod Tests
use osmium.Prelude.{
  ℕ, zero, suc, ◌+◌, ◌-◌, Bool, true, false, ◌&&◌, leb, ◌==◌, if◌then◌else◌, Option, none, some,
  List, [], ◌∷◌, ◌++◌, map, length, get_elem?, take, drop, min,
}

pub record File : Type 0 where
  pub name : List ℕ
  pub data_bytes : List ℕ

-- `Fs`
abbrev pub Files : Type 0
Files = List File

-- The built-in files, in the bytes of their strings.
abbrev pub motd_data : List ℕ
motd_data =
    119 ∷ 101 ∷ 108 ∷ 99 ∷ 111 ∷ 109 ∷ 101 ∷ 32 ∷ 116 ∷ 111 ∷ 32 ∷ 111 ∷ 115 ∷ 109 ∷ 105 ∷ 117 ∷ 109
    ∷ 32 ∷ 45 ∷ 45 ∷ 32 ∷ 97 ∷ 32 ∷ 82 ∷ 73 ∷ 83 ∷ 67 ∷ 45 ∷ 86 ∷ 32 ∷ 107 ∷ 101 ∷ 114 ∷ 110 ∷ 101
    ∷ 108 ∷ 32 ∷ 105 ∷ 110 ∷ 32 ∷ 82 ∷ 117 ∷ 115 ∷ 116 ∷ 10 ∷ []

abbrev pub motd : File
motd = record { name = 109 ∷ 111 ∷ 116 ∷ 100 ∷ []; data_bytes = motd_data }

abbrev pub readme_data : List ℕ
readme_data =
    111 ∷ 115 ∷ 109 ∷ 105 ∷ 117 ∷ 109 ∷ 32 ∷ 114 ∷ 97 ∷ 109 ∷ 102 ∷ 115 ∷ 10 ∷ 45 ∷ 45 ∷ 45 ∷ 45
    ∷ 45 ∷ 45 ∷ 45 ∷ 45 ∷ 45 ∷ 45 ∷ 45 ∷ 45 ∷ 10 ∷ 97 ∷ 32 ∷ 102 ∷ 108 ∷ 97 ∷ 116 ∷ 44 ∷ 32 ∷ 114
    ∷ 101 ∷ 97 ∷ 100 ∷ 45 ∷ 111 ∷ 110 ∷ 108 ∷ 121 ∷ 44 ∷ 32 ∷ 105 ∷ 110 ∷ 45 ∷ 109 ∷ 101 ∷ 109 ∷ 111
    ∷ 114 ∷ 121 ∷ 32 ∷ 102 ∷ 105 ∷ 108 ∷ 101 ∷ 115 ∷ 121 ∷ 115 ∷ 116 ∷ 101 ∷ 109 ∷ 46 ∷ 10 ∷ 116
    ∷ 114 ∷ 121 ∷ 58 ∷ 32 ∷ 108 ∷ 115 ∷ 44 ∷ 32 ∷ 99 ∷ 97 ∷ 116 ∷ 32 ∷ 109 ∷ 111 ∷ 116 ∷ 100 ∷ 44
    ∷ 32 ∷ 99 ∷ 97 ∷ 116 ∷ 32 ∷ 114 ∷ 101 ∷ 97 ∷ 100 ∷ 109 ∷ 101 ∷ 10 ∷ []

abbrev pub readme : File
readme = record { name = 114 ∷ 101 ∷ 97 ∷ 100 ∷ 109 ∷ 101 ∷ []; data_bytes = readme_data }

abbrev pub cpuinfo_data : List ℕ
cpuinfo_data =
    105 ∷ 115 ∷ 97 ∷ 58 ∷ 32 ∷ 114 ∷ 118 ∷ 54 ∷ 52 ∷ 103 ∷ 99 ∷ 10 ∷ 104 ∷ 97 ∷ 114 ∷ 116 ∷ 115 ∷ 58
    ∷ 32 ∷ 49 ∷ 10 ∷ 109 ∷ 97 ∷ 99 ∷ 104 ∷ 105 ∷ 110 ∷ 101 ∷ 58 ∷ 32 ∷ 113 ∷ 101 ∷ 109 ∷ 117 ∷ 45
    ∷ 118 ∷ 105 ∷ 114 ∷ 116 ∷ 10 ∷ []

abbrev pub cpuinfo : File
cpuinfo = record { name = 99 ∷ 112 ∷ 117 ∷ 105 ∷ 110 ∷ 102 ∷ 111 ∷ []; data_bytes = cpuinfo_data }

pub init : Files → Files
init fs = fs ++ motd ∷ readme ∷ cpuinfo ∷ []

pub list : Files → List (List ℕ × ℕ)
list fs = map (λ f. (f.name, length f.data_bytes)) fs

-- Equality of strings.
pub eq_bytes : List ℕ → List ℕ → Bool
eq_bytes [] [] = true
eq_bytes [] (b ∷ bs) = false
eq_bytes (a ∷ xs) [] = false
eq_bytes (a ∷ xs) (b ∷ bs) = (a == b) && eq_bytes xs bs

-- `iter().position(...)`, counted from `i`.
pub position : ℕ → List ℕ → Files → Option ℕ
position i name [] = none
position i name (f ∷ fs) =
    let rest = position (suc i) name fs in if eq_bytes f.name name then some i else rest

pub lookup : List ℕ → Files → Option ℕ
lookup name fs = position 0 name fs

-- `read_at` on a buffer: the buffer afterwards, and the number of bytes copied.
pub copy_at : ℕ → List ℕ → List ℕ → List ℕ × ℕ
copy_at offset bytes buf =
    if leb (length bytes) offset
    then (buf, 0)
    else (let n = min (length buf) (length bytes - offset) in
        (take n (drop offset bytes) ++ drop n buf, n))

pub read_at : (idx offset : ℕ) → List ℕ → Files → List ℕ × ℕ
read_at idx offset buf fs = elim (get_elem? fs idx) [
  | none ↦ (buf, 0)
  | some file ↦ copy_at offset file.data_bytes buf
]
