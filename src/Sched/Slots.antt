-- ===== src/Sched/Slots.antt =====
-- The slot table by position: what a write, a map and a placement leave in each slot.
use osmium.Prelude.{
  ℕ, zero, suc, ◌≤◌, ◌<◌, ◌≡◌, ◌≢◌, refl, sym, ap, ◌∙◌, ◌⊎◌, inl, inr, Option, none, some, [], ◌∷◌,
  map, length, get_elem?, set, arith, true, false, subst, length-set, get_elem?-set_self,
  get_elem?-set_ne, ℕ_discrete,
}
use osmium.Sched.{Process, Slots, place}

-- Process `p` is in slot `i`.
abbrev pub At : Slots → ℕ → Process → Type 0
At xs i p = get_elem? xs i ≡ some (some p)

-- No process is in slot `i`.
abbrev pub IsVacant : Slots → ℕ → Type 0
IsVacant xs i = (p : Process) → ¬ At xs i p

pub some-inj {ℓ} : {A : Type ℓ} {a b : A} → Option.some a ≡ some b → a ≡ b
some-inj {a} e = ap (λ o. elim o [ none ↦ a | some x ↦ x ]) e

pub none≢some {ℓ} : {A : Type ℓ} {a : A} → ¬ (Option.none ≡ some a)
none≢some e = subst (λ o. elim o [ none ↦ Unit | some _ ↦ ⊥ ]) e tt

pub true≢false : ¬ (true ≡ false)
true≢false t = subst (λ b. elim b [ true ↦ Unit | false ↦ ⊥ ]) t tt

pub At-unique : (xs : Slots) (i : ℕ) {p q : Process} → At xs i p → At xs i q → p ≡ q
At-unique xs i a b = some-inj (some-inj (sym a ∙ b))

pub At-bound : (xs : Slots) (i : ℕ) {x : Option Process} → get_elem? xs i ≡ some x → i < length xs
At-bound [] i a = absurd (none≢some a)
At-bound (x ∷ xs) zero a = omega arith
At-bound (x ∷ xs) (suc i) a = omega (arith, At-bound xs i a)

-- A filled slot of a table that `f` was mapped over.
pub At-map :
    (f : Option Process → Option Process) (xs : Slots) (i : ℕ) {y : Option Process}
    → get_elem? (map f xs) i ≡ some y
    → (x : Option Process) × (get_elem? xs i ≡ some x) × (f x ≡ y)
At-map f [] i a = absurd (none≢some a)
At-map f (x ∷ xs) zero a = (x, refl, some-inj a)
At-map f (x ∷ xs) (suc i) a = At-map f xs i a

pub get_elem?-map :
    (f : Option Process → Option Process) (xs : Slots) (i : ℕ) {x : Option Process}
    → get_elem? xs i ≡ some x
    → get_elem? (map f xs) i ≡ some (f x)
get_elem?-map f [] i a = absurd (none≢some a)
get_elem?-map f (x ∷ xs) zero a = ap (λ o. some (f o)) (some-inj a)
get_elem?-map f (x ∷ xs) (suc i) a = get_elem?-map f xs i a

pub length-map : (f : Option Process → Option Process) (xs : Slots) → length (map f xs) ≡ length xs
length-map f [] = refl
length-map f (x ∷ xs) = ap suc (length-map f xs)

pub At-set :
    (xs : Slots) (j : ℕ) (q : Process) (i : ℕ) {p : Process}
    → At (set xs j (some q)) i p
    → ((i ≡ j) × (p ≡ q)) ⊎ ((i ≢ j) × At xs i p)
At-set xs j q i {p} a = elim (ℕ_discrete i j) [
  | yes e ↦
      let here = subst (λ k. At (set xs j (some q)) k p) e a in
      let low : j < length xs =
        omega (arith, At-bound (set xs j (some q)) j here, length-set xs j (some q)) in
      inl (e, At-unique (set xs j (some q)) j here (get_elem?-set_self xs j (some q) low))
  | no ne ↦ inr (ne, sym (get_elem?-set_ne xs (some q) (λ e. ne (sym e))) ∙ a)
]

-- `place` fills one vacant slot and keeps the others.
pub At-place :
    (q : Process) (xs : Slots) (i : ℕ) {p : Process}
    → At (place q xs) i p
    → (IsVacant xs i × (p ≡ q)) ⊎ At xs i p
unfolding place
At-place q [] zero a = inl ((λ p e. none≢some e), sym (some-inj (some-inj a)))
At-place q [] (suc i) a = absurd (none≢some a)
At-place q (none ∷ xs) zero a = inl ((λ p e. none≢some (some-inj e)), sym (some-inj (some-inj a)))
At-place q (none ∷ xs) (suc i) a = inr a
At-place q (some r ∷ xs) zero a = inr a
At-place q (some r ∷ xs) (suc i) a = At-place q xs i a

pub place-keeps : (q : Process) (xs : Slots) (i : ℕ) {p : Process} → At xs i p → At (place q xs) i p
unfolding place
place-keeps q [] i a = absurd (none≢some a)
place-keeps q (none ∷ xs) zero a = absurd (none≢some (some-inj a))
place-keeps q (none ∷ xs) (suc i) a = a
place-keeps q (some r ∷ xs) zero a = a
place-keeps q (some r ∷ xs) (suc i) a = place-keeps q xs i a

-- There is one new slot.
pub place-one :
    (q : Process) (xs : Slots)
    → (i : ℕ) × IsVacant xs i
      × At (place q xs) i q
      × ((j : ℕ) → (p : Process) → At (place q xs) j p → (j ≡ i) ⊎ At xs j p)
unfolding place
place-one q [] = (0, (λ p e. none≢some e), refl, only)
  where
    only : (j : ℕ) → (p : Process) → At (some q ∷ []) j p → (j ≡ 0) ⊎ At [] j p
    only zero p a = inl refl
    only (suc j) p a = inr a
place-one q (none ∷ xs) = (0, (λ p e. none≢some (some-inj e)), refl, rest)
  where
    rest : (j : ℕ) → (p : Process) → At (some q ∷ xs) j p → (j ≡ 0) ⊎ At (none ∷ xs) j p
    rest zero p a = inl refl
    rest (suc j) p a = inr a
place-one q (some r ∷ xs) =
    let (i, vacant, at, others) = place-one q xs in (suc i, vacant, at, shift i others)
  where
    shift :
        (i : ℕ)
        → ((j : ℕ) → (p : Process) → At (place q xs) j p → (j ≡ i) ⊎ At xs j p)
        → (j : ℕ) → (p : Process) → At (some r ∷ place q xs) j p
        → (j ≡ suc i) ⊎ At (some r ∷ xs) j p
    shift i others zero p a = inr a
    shift i others (suc j) p a = elim (others j p a) [ inl e ↦ inl (ap suc e) | inr b ↦ inr b ]

pub length-place : (q : Process) (xs : Slots) → length xs ≤ length (place q xs)
unfolding place
length-place q [] = omega arith
length-place q (none ∷ xs) = omega arith
length-place q (some r ∷ xs) = omega (arith, length-place q xs)
