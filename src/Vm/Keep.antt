-- ===== src/Vm/Keep.antt =====
-- Writes to pages that are neither tables nor free pages leave an address space as it is.
use osmium.Prelude.{
  ℕ, zero, suc, ◌+◌, ◌*◌, ◌/◌, ◌%◌, ◌^◌, ◌≤◌, ◌<◌, ◌≡◌, ◌≢◌, refl, sym, ap, ◌∙◌, inl, inr, Bool,
  true, false, Option, none, some, List, [], ◌∷◌, length, arith, ℕ_discrete,
}
use osmium.Machine.{Mem}
use osmium.Kalloc.{Kmem}
use osmium.Kalloc.Chain
use osmium.Kalloc.Chain.{has, Chain-outside}
use osmium.Vm.{pte_to_pa, entry, is_valid}
use osmium.Vm.Find.{find, find-nil, find-same_last, find-same_step}
use osmium.Vm.Space.{Node, rank, rank-child, Owner, IsSpace, Small}

-- The page at `q` is no part of the space: it is no table and not free.
pub record IsData (own : Owner) (free : List ℕ) (q : ℕ) : Type 0 where
  pub aligned : q % 4096 ≡ 0
  pub no_table : (s : ℕ) (n : Node) → own s ≡ some n → s ≢ q
  pub no_free : has q free ≡ false

pub pte_to_pa-aligned : (pte : ℕ) → pte_to_pa pte % 4096 ≡ 0
unfolding pte_to_pa
pte_to_pa-aligned pte = omega arith

-- Outside the page at `q` nothing was written.
abbrev pub OnlyIn : (q : ℕ) → Mem → Mem → Type 0
OnlyIn q m m' = ((a : ℕ) → a < q → m' a ≡ m a) × ((a : ℕ) → q + 4096 ≤ a → m' a ≡ m a)

-- A change of the memory that keeps the entries of the tables keeps every lookup.
module _ {kernel_end root : ℕ} {own : Owner} {k : Kmem} {free : List ℕ} (m' : Mem)
    (v : IsSpace kernel_end root own k free)
    (kept : (s : ℕ) (n : Node) (j : ℕ)
      → own s ≡ some n
      → j < 512
      → m' (entry s j) ≡ k.mem (entry s j)) where
  lookup-same :
      (path : List ℕ) (s : ℕ) {n : Node}
      → own s ≡ some n
      → length path ≡ rank n
      → Small path
      → find m' s path ≡ find k.mem s path
  lookup-same [] s at size small = find-nil k.mem m' s
  lookup-same (x ∷ []) s {n} at size small = find-same_last k.mem m' s x (kept s n x at small.0)
  lookup-same (x ∷ y ∷ path) s {n} at size small =
      find-same_step k.mem m' s x y path (kept s n x at small.0) λ valid.
        lookup-same (y ∷ path) (pte_to_pa (k.mem (entry s x)))
          (v.kids s n x at (omega (arith, size)) small.0 valid)
          (omega (arith, size, rank-child n x (omega (arith, size)))) small.1

  pub find-same :
      (path : List ℕ) → length path ≡ 3 → Small path → find m' root path ≡ find k.mem root path
  find-same path size small = lookup-same path root v.at_root size small

  -- The tables are as sound as before, whatever has become of the free list.
  pub IsSpace-same :
      {k' : Kmem} {free' : List ℕ}
      → k'.mem ≡ m'
      → Chain.IsValid kernel_end k' free'
      → ((t : ℕ) (n : Node) → own t ≡ some n → has t free' ≡ false)
      → IsSpace kernel_end root own k' free'
  IsSpace-same {k'} mem pages apart = record {
    pages = pages;
    at_root = v.at_root;
    kids = λ t n i at inner small valid.
        let word = ap (λ m. m (entry t i)) mem ∙ kept t n i at small in
        ap (λ x. own (pte_to_pa x)) word
        ∙ v.kids t n i at inner small (sym (ap is_valid word) ∙ valid);
    aligned = v.aligned;
    apart = apart;
  }

module _ {kernel_end root : ℕ} {own : Owner} {k : Kmem} {free : List ℕ} {q : ℕ} {m' : Mem}
    (v : IsSpace kernel_end root own k free) (d : IsData own free q) (w : OnlyIn q k.mem m') where
  table-kept :
      (s : ℕ) (n : Node) (j : ℕ) → own s ≡ some n → j < 512 → m' (entry s j) ≡ k.mem (entry s j)
  table-kept s n j at small = elim (osmium.Prelude.dec_lt s q) [
    | yes below ↦ w.0 (entry s j) (omega (arith, v.aligned s n at, d.aligned, d.no_table s n at))
    | no above ↦ w.1 (entry s j) (omega (arith, v.aligned s n at, d.aligned, d.no_table s n at))
  ]

  pub find-kept :
      (path : List ℕ) → length path ≡ 3 → Small path → find m' root path ≡ find k.mem root path
  find-kept = find-same m' v table-kept

  pub IsSpace-kept : IsSpace kernel_end root own (record k { mem = m' }) free
  IsSpace-kept =
      IsSpace-same m' v table-kept refl
        (record {
          chain =
              Chain-outside kernel_end q k.mem m' k.head free d.aligned w.0 w.1 d.no_free
                v.pages.pages v.pages.chain;
          pages = v.pages.pages;
          distinct = v.pages.distinct;
          count = v.pages.count;
        })
        v.apart
