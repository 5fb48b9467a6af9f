-- ===== src/Fs/Laws.antt =====
-- What the file system promises of `lookup` and `read_at`.
use osmium.Prelude.{
  ℕ, zero, suc, ◌+◌, ◌-◌, ◌<◌, ◌≡◌, ◌≢◌, refl, sym, ap, ap₂, ◌∙◌, ◌⊎◌, inl, inr, true, false, leb,
  ◌==◌, Option, none, some, List, [], ◌∷◌, ◌++◌, length, get_elem?, take, drop, min, arith,
  Bool-cases, Option-cases, length-append, length-take, length-drop, subst, ==_iff, leb→le,
}
use osmium.Fs.{File, Files, eq_bytes, position, lookup, copy_at, read_at}

eq_bytes_refl : (xs : List ℕ) → eq_bytes xs xs ≡ true
unfolding eq_bytes
eq_bytes_refl [] = refl
eq_bytes_refl (x ∷ xs) = rw ((==_iff x x).1 refl) (eq_bytes_refl xs)

eq_bytes→eq : (xs ys : List ℕ) → eq_bytes xs ys ≡ true → xs ≡ ys
unfolding eq_bytes
eq_bytes→eq [] [] e = refl
eq_bytes→eq [] (y ∷ ys) e = ground arith
eq_bytes→eq (x ∷ xs) [] e = ground arith
eq_bytes→eq (x ∷ xs) (y ∷ ys) e = elim (Bool-cases (x == y)) [
  | inl t ↦ ap₂ (λ a as'. a ∷ as') ((==_iff x y).0 t) (eq_bytes→eq xs ys (rw t at e))
  | inr t ↦ absurd (subst (λ b. elim b [ true ↦ ⊥ | false ↦ Unit ]) (rw t at e) tt)
]

-- The name of file `i`.
abbrev pub Named : Files → ℕ → List ℕ → Type 0
Named fs i name = (f : File) × (get_elem? fs i ≡ some f) × (f.name ≡ name)

abbrev pub NotNamed : Files → ℕ → List ℕ → Type 0
NotNamed fs i name = (f : File) → get_elem? fs i ≡ some f → f.name ≢ name

abbrev Positioned : ℕ → List ℕ → Files → Option ℕ → Type 0
Positioned i name fs r =
    ((r ≡ none) × ((j : ℕ) → NotNamed fs j name))
    ⊎ ((j : ℕ) × (r ≡ some (i + j)) × Named fs j name × ((k : ℕ) → k < j → NotNamed fs k name))

position_lem : (i : ℕ) (name : List ℕ) (fs : Files) → Positioned i name fs (position i name fs)
unfolding position
position_lem i name [] =
    inl (refl, λ j f e. absurd (subst (λ o. elim o [ none ↦ Unit | some _ ↦ ⊥ ]) e tt))
position_lem i name (f ∷ fs) = elim (Bool-cases (eq_bytes f.name name)) [
  | inl t ↦ rw t (
      inr (
        0,
        ap some (omega arith),
        (f, refl, eq_bytes→eq f.name name t),
        λ k l. absurd (omega arith),
      ))
  | inr t ↦ rw t (elim (position_lem (suc i) name fs) [
    | inl (e, none_named) ↦ inl (e, behind t none_named)
    | inr (j, e, named, before) ↦ inr (suc j, e ∙ ap some (omega arith), named, between t j before)
  ])
]
  where
    other : eq_bytes f.name name ≡ false → (g : File) → some f ≡ some g → g.name ≢ name
    other t g e is =
        let same : f ≡ g = ap (λ o. elim o [ none ↦ f | some x ↦ x ]) e in
        subst (λ b. elim b [ true ↦ Unit | false ↦ ⊥ ])
          (sym (eq_bytes_refl name)
            ∙ ap (λ n. eq_bytes n name) (sym (ap (λ x. x.name) same ∙ is))
            ∙ t)
          tt

    behind :
        eq_bytes f.name name ≡ false
        → ((j : ℕ) → NotNamed fs j name)
        → (j : ℕ) → NotNamed (f ∷ fs) j name
    behind t none_named zero = other t
    behind t none_named (suc j) = none_named j

    between :
        eq_bytes f.name name ≡ false
        → (j : ℕ) → ((k : ℕ) → k < j → NotNamed fs k name)
        → (k : ℕ) → k < suc j
        → NotNamed (f ∷ fs) k name
    between t j before zero l = other t
    between t j before (suc k) l = before k (omega arith)

-- `lookup` gives the first file with the name, and none exactly if no file has it.
pub lookup-first :
    (name : List ℕ) (fs : Files)
    → ((lookup name fs ≡ none) × ((j : ℕ) → NotNamed fs j name))
      ⊎ ((j : ℕ) × (lookup name fs ≡ some j)
          × Named fs j name
          × ((k : ℕ) → k < j → NotNamed fs k name))
unfolding lookup
lookup-first name fs = elim (position_lem 0 name fs) [
  | inl p ↦ inl p
  | inr (j, e, named, before) ↦ inr (j, e ∙ ap some (omega arith), named, before)
]

take-append : (n : ℕ) (xs ys : List ℕ) → length xs ≡ n → take n (xs ++ ys) ≡ xs
take-append zero [] ys e = refl
take-append zero (x ∷ xs) ys e = absurd (omega (arith, e))
take-append (suc n) [] ys e = absurd (omega (arith, e))
take-append (suc n) (x ∷ xs) ys e = ap (λ l. x ∷ l) (take-append n xs ys (omega (arith, e)))

drop-append : (n : ℕ) (xs ys : List ℕ) → length xs ≡ n → drop n (xs ++ ys) ≡ ys
drop-append zero [] ys e = refl
drop-append zero (x ∷ xs) ys e = absurd (omega (arith, e))
drop-append (suc n) [] ys e = absurd (omega (arith, e))
drop-append (suc n) (x ∷ xs) ys e = drop-append n xs ys (omega (arith, e))

-- What is copied from a file at an offset.
abbrev pub Copied : (offset : ℕ) → (bytes buf : List ℕ) → List ℕ × ℕ → Type 0
Copied offset bytes buf r =
    (length r.0 ≡ length buf)
    × (r.1 ≡ min (length buf) (length bytes - offset))
    × (take r.1 r.0 ≡ take r.1 (drop offset bytes))
    × (drop r.1 r.0 ≡ drop r.1 buf)

copy_at_lem : (offset : ℕ) (bytes buf : List ℕ) → Copied offset bytes buf (copy_at offset bytes buf)
unfolding copy_at
copy_at_lem offset bytes buf = elim (Bool-cases (leb (length bytes) offset)) [
  | inl t ↦ rw t (refl, omega (arith, leb→le (length bytes) offset t), refl, refl)
  | inr t ↦ rw t (
    length-append (take n (drop offset bytes)) (drop n buf)
        ∙ omega (arith, size, length-drop n buf),
    refl,
    take-append n (take n (drop offset bytes)) (drop n buf) size,
    drop-append n (take n (drop offset bytes)) (drop n buf) size,
  )
]
  where
    n : ℕ
    n = min (length buf) (length bytes - offset)

    size : length (take n (drop offset bytes)) ≡ n
    size = length-take n (drop offset bytes) ∙ omega (arith, length-drop offset bytes)

-- `read_at` of a file: the buffer keeps its length; the number of bytes is the smaller of the
-- buffer's length and what is left of the file, 0 at or past its end; that many bytes of the buffer
-- are the file's from the offset on, and the rest of the buffer is as before. Without the file
-- nothing is read.
pub read_at_lem :
    (idx offset : ℕ) (buf : List ℕ) (fs : Files)
    → ((get_elem? fs idx ≡ none) × (read_at idx offset buf fs ≡ (buf, 0)))
      ⊎ ((f : File) × (get_elem? fs idx ≡ some f)
          × Copied offset f.data_bytes buf (read_at idx offset buf fs))
unfolding read_at
read_at_lem idx offset buf fs = elim (Option-cases (get_elem? fs idx)) [
  | inl e ↦ inl (e, rw (e, read_at) refl)
  | inr (f, e) ↦
      let is : read_at idx offset buf fs ≡ copy_at offset f.data_bytes buf = rw (e, read_at) refl in
      inr (
        f,
        e,
        subst (λ r. Copied offset f.data_bytes buf r) (sym is)
            (copy_at_lem offset f.data_bytes buf),
      )
]
