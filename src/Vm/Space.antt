-- ===== src/Vm/Space.antt =====
-- When the tables below a root are sound: each page that is a table has one place in the tree, and
-- is no free page.
use osmium.Prelude.{
  ℕ, ◌+◌, ◌%◌, ◌<◌, ◌≡◌, ◌≢◌, refl, ap, ◌⊎◌, true, false, Option, some, List, [], ◌∷◌, ◌++◌, arith,
}
use osmium.Machine.{Mem}
use osmium.Kalloc.{Kmem}
use osmium.Kalloc.Chain.{has}
use osmium.Kalloc.Chain
use osmium.Vm.{pte_to_pa, entry, is_valid}

-- The place of a table: the root, behind an entry of the root, or behind an entry of such a table.
pub data Node : Type 0 where
  top : Node
  mid : ℕ → Node
  low : ℕ → ℕ → Node

abbrev pub child : Node → ℕ → Node
child top i = mid i
child (mid i) j = low i j
child (low i j) _ = low i j

-- How many indices lead from a table to a mapped page.
abbrev pub rank : Node → ℕ
rank top = 3
rank (mid i) = 2
rank (low i j) = 1

-- The indices that lead to a table.
abbrev pub trail : Node → List ℕ
trail top = []
trail (mid i) = i ∷ []
trail (low i j) = i ∷ j ∷ []

-- Which pages are tables of the space, and where.
abbrev pub Owner : Type 0
Owner = ℕ → Option Node

-- The tables below `root`, by `own`, with the free list `free`.
pub record IsSpace (kernel_end root : ℕ) (own : Owner) (k : Kmem) (free : List ℕ) : Type 0 where
  pub pages : Chain.IsValid kernel_end k free
  pub at_root : own root ≡ some top
  pub kids :
      (t : ℕ) (n : Node) (i : ℕ)
      → own t ≡ some n
      → 1 < rank n
      → i < 512
      → is_valid (k.mem (entry t i)) ≡ true
      → own (pte_to_pa (k.mem (entry t i))) ≡ some (child n i)
  pub aligned : (t : ℕ) (n : Node) → own t ≡ some n → t % 4096 ≡ 0
  pub apart : (t : ℕ) (n : Node) → own t ≡ some n → has t free ≡ false

-- One entry of the tables was written.
pub record Wrote (own : Owner) (m m' : Mem) (t i e : ℕ) : Type 0 where
  pub written : m' (entry t i) ≡ e
  pub kept :
      (s : ℕ) (n : Node) (j : ℕ)
      → own s ≡ some n
      → j < 512
      → (s ≢ t) ⊎ (j ≢ i)
      → m' (entry s j) ≡ m (entry s j)

abbrev pub Small : List ℕ → Type 0
Small [] = Unit {0}
Small (i ∷ path) = (i < 512) × Small path

pub rank-child : (n : Node) (i : ℕ) → 1 < rank n → rank (child n i) + 1 ≡ rank n
rank-child top i h = refl
rank-child (mid j) i h = refl
rank-child (low j l) i h = absurd (omega arith)

pub trail-child : (n : Node) (i : ℕ) → 1 < rank n → trail (child n i) ≡ trail n ++ i ∷ []
trail-child top i h = refl
trail-child (mid j) i h = refl
trail-child (low j l) i h = absurd (omega arith)

pub append_assoc : (xs ys zs : List ℕ) → (xs ++ ys) ++ zs ≡ xs ++ (ys ++ zs)
append_assoc [] ys zs = refl
append_assoc (x ∷ xs) ys zs = ap (λ l. x ∷ l) (append_assoc xs ys zs)
