-- ===== src/Vm/Find.antt =====
-- The abstract view of a table: the entry at the end of a path of indices. A walk is this lookup.
use osmium.Prelude.{
  ℕ, zero, suc, ◌+◌, ◌*◌, ◌/◌, ◌%◌, ◌^◌, ◌<◌, ◌≡◌, refl, ap, ◌⊎◌, inl, inr, Bool, true, false,
  Option, none, some, List, [], ◌∷◌, bit_or, arith, Bool-cases, if◌then◌else◌,
}
use osmium.Prelude.Bits.{bit_and-low}
use osmium.Machine.{Mem, ok, page_size}
use osmium.Kalloc.{Kmem}
use osmium.Vm.{pte_to_pa, vpn, entry, is_valid, translate, va_max}
use osmium.Vm.Laws.{translate-cases, entry2, entry1}

-- The entry that the indices lead to, if every entry on the way is valid and so is it.
pub find : Mem → ℕ → List ℕ → Option ℕ
find m table [] = none
find m table (i ∷ []) = if is_valid (m (entry table i)) then some (m (entry table i)) else none
find m table (i ∷ j ∷ path) =
    let rest = find m (pte_to_pa (m (entry table i))) (j ∷ path) in
    if is_valid (m (entry table i)) then rest else none

-- The three indices of an address.
abbrev pub indices : ℕ → List ℕ
indices va = vpn va 2 ∷ vpn va 1 ∷ vpn va 0 ∷ []

pub vpn-lt : (va level : ℕ) → vpn va level < 512
unfolding vpn
vpn-lt va level = omega (arith, bit_and-low 9 (va / 2 ^ (12 + 9 * level)))

-- Addresses with the same indices lie in the same page.
pub indices-page :
    (va va' : ℕ)
    → va < va_max
    → va' < va_max
    → vpn va 2 ≡ vpn va' 2
    → vpn va 1 ≡ vpn va' 1
    → vpn va 0 ≡ vpn va' 0
    → va / 4096 ≡ va' / 4096
unfolding vpn
indices-page va va' low low' e2 e1 e0 = omega (
  arith,
  bit_and-low 9 (va / 2 ^ 30),
  bit_and-low 9 (va' / 2 ^ 30),
  bit_and-low 9 (va / 2 ^ 21),
  bit_and-low 9 (va' / 2 ^ 21),
  bit_and-low 9 (va / 2 ^ 12),
  bit_and-low 9 (va' / 2 ^ 12),
)

abbrev nth : ℕ → List ℕ → ℕ
nth i [] = 0
nth zero (x ∷ xs) = x
nth (suc i) (x ∷ xs) = nth i xs

pub indices-inj :
    (va va' : ℕ) → va < va_max → va' < va_max → indices va ≡ indices va' → va / 4096 ≡ va' / 4096
indices-inj va va' low low' e =
    indices-page va va' low low' (ap (nth 0) e) (ap (nth 1) e) (ap (nth 2) e)

pub indices-same : (va va' : ℕ) → va / 4096 ≡ va' / 4096 → indices va ≡ indices va'
unfolding vpn
indices-same va va' e =
    let e2 : va / 2 ^ 30 ≡ va' / 2 ^ 30 = omega arith in
    let e1 : va / 2 ^ 21 ≡ va' / 2 ^ 21 = omega arith in
    let e0 : va / 2 ^ 12 ≡ va' / 2 ^ 12 = omega arith in rw (e2, e1, e0) refl

-- What `translate` makes of an entry.
abbrev pub located : ℕ → Option ℕ → Option (ℕ × ℕ)
located va none = none
located va (some pte) = some (bit_or (pte_to_pa pte) (va % page_size), pte)

abbrev no_entry : Option ℕ
no_entry = none

if_none : (b : Bool) → (if b then no_entry else no_entry) ≡ no_entry
if_none true = refl
if_none false = refl

-- `translate` is the lookup of the path of indices, and changes nothing.
pub translate-find :
    (root va : ℕ) (k : Kmem)
    → va < va_max
    → translate root va k ≡ ok (located va (find k.mem root (indices va)), k)
unfolding find
translate-find root va k low = elim (translate-cases root va k) [
  | inl (high, e) ↦ absurd (omega arith)
  | inr (l, inl (t2, t1, t0, e)) ↦ rw (t2, t1, t0) e
  | inr (l, inr (inl z, e)) ↦ rw z e
  | inr (l, inr (inr (inl z), e)) ↦ rw (z, if_none (is_valid (entry2 root va k))) e
  | inr (l, inr (inr (inr z), e)) ↦
      rw (z, if_none (is_valid (entry1 root va k)), if_none (is_valid (entry2 root va k))) e
]

-- One step of a lookup.
pub find-step :
    (m : Mem) (s i j : ℕ) (path : List ℕ)
    → ((is_valid (m (entry s i)) ≡ true)
        × (find m s (i ∷ j ∷ path) ≡ find m (pte_to_pa (m (entry s i))) (j ∷ path)))
      ⊎ ((is_valid (m (entry s i)) ≡ false) × (find m s (i ∷ j ∷ path) ≡ none))
unfolding find
find-step m s i j path = elim (Bool-cases (is_valid (m (entry s i)))) [
  | inl t ↦ inl (t, rw t refl)
  | inr f ↦ inr (f, rw f refl)
]

pub find-last :
    (m : Mem) (s i : ℕ)
    → ((is_valid (m (entry s i)) ≡ true) × (find m s (i ∷ []) ≡ some (m (entry s i))))
      ⊎ ((is_valid (m (entry s i)) ≡ false) × (find m s (i ∷ []) ≡ none))
unfolding find
find-last m s i = elim (Bool-cases (is_valid (m (entry s i)))) [
  | inl t ↦ inl (t, rw t refl)
  | inr f ↦ inr (f, rw f refl)
]

pub find-valid_step :
    (m : Mem) (s i j : ℕ) (path : List ℕ)
    → is_valid (m (entry s i)) ≡ true
    → find m s (i ∷ j ∷ path) ≡ find m (pte_to_pa (m (entry s i))) (j ∷ path)
unfolding find
find-valid_step m s i j path t = rw t refl

pub find-valid_last :
    (m : Mem) (s i : ℕ) → is_valid (m (entry s i)) ≡ true → find m s (i ∷ []) ≡ some (m (entry s i))
unfolding find
find-valid_last m s i t = rw t refl

-- An entry that is read the same has the same lookup behind it.
pub find-same_last :
    (m m' : Mem) (s i : ℕ) → m' (entry s i) ≡ m (entry s i) → find m' s (i ∷ []) ≡ find m s (i ∷ [])
unfolding find
find-same_last m m' s i e = rw e refl

pub find-same_step :
    (m m' : Mem) (s i j : ℕ) (path : List ℕ)
    → m' (entry s i) ≡ m (entry s i)
    → (is_valid (m (entry s i)) ≡ true
        → find m' (pte_to_pa (m (entry s i))) (j ∷ path)
          ≡ find m (pte_to_pa (m (entry s i))) (j ∷ path))
    → find m' s (i ∷ j ∷ path) ≡ find m s (i ∷ j ∷ path)
unfolding find
find-same_step m m' s i j path e behind = elim (Bool-cases (is_valid (m (entry s i)))) [
  | inl t ↦ rw (e, t) (behind t)
  | inr f ↦ rw (e, f) refl
]

pub find-nil : (m m' : Mem) (s : ℕ) → find m' s [] ≡ find m s []
unfolding find
find-nil m m' s = refl

-- A table without a valid entry leads nowhere.
pub find-empty :
    (m : Mem) (s i : ℕ) (path : List ℕ)
    → is_valid (m (entry s i)) ≡ false
    → find m s (i ∷ path) ≡ none
unfolding find
find-empty m s i [] f = rw f refl
find-empty m s i (j ∷ path) f = rw f refl
