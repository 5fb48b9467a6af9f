-- ===== src/Kalloc/Chain.antt =====
-- What the free list stands for: the chain of pages behind the head, and its invariant.
use osmium.Prelude.{
  ℕ, ◌+◌, ◌%◌, ◌≤◌, ◌<◌, ◌≡◌, ◌≢◌, List, [], ◌∷◌, length, Bool, true, false, ◌==◌, ◌||◌, arith,
}
use osmium.Machine.{Mem, null, phys_top, alloc_start}
use osmium.Kalloc.{Kmem}

-- From `p` the first words of the pages lead through `ps` to null.
abbrev pub Chain : Mem → ℕ → List ℕ → Type 0
Chain m p [] = p ≡ null
Chain m p (q ∷ ps) = (p ≡ q) × (q ≢ null) × Chain m (m q) ps

-- A page that the allocator may own.
pub record IsPage (kernel_end q : ℕ) : Type 0 where
  pub aligned : q % 4096 ≡ 0
  pub above : alloc_start kernel_end ≤ q
  pub below : q + 4096 ≤ phys_top

abbrev pub ArePages : ℕ → List ℕ → Type 0
ArePages kernel_end [] = Unit {0}
ArePages kernel_end (q ∷ ps) = IsPage kernel_end q × ArePages kernel_end ps

abbrev pub has : ℕ → List ℕ → Bool
has a [] = false
has a (q ∷ ps) = (a == q) || has a ps

abbrev pub Distinct : List ℕ → Type 0
Distinct [] = Unit {0}
Distinct (q ∷ ps) = (has q ps ≡ false) × Distinct ps

-- The free list holds exactly the distinct pages `ps`, and counts them.
pub record IsValid (kernel_end : ℕ) (k : Kmem) (ps : List ℕ) : Type 0 where
  pub chain : Chain k.mem k.head ps
  pub pages : ArePages kernel_end ps
  pub distinct : Distinct ps
  pub count : k.free_pages ≡ length ps

-- A change of one page's words leaves the chain through other pages as it was.
pub Chain-outside :
    (kernel_end q : ℕ) (m m' : Mem) (p : ℕ) (ps : List ℕ)
    → q % 4096 ≡ 0
    → ((a : ℕ) → (a < q) → m' a ≡ m a)
    → ((a : ℕ) → (q + 4096 ≤ a) → m' a ≡ m a)
    → has q ps ≡ false
    → ArePages kernel_end ps
    → Chain m p ps
    → Chain m' p ps
Chain-outside kernel_end q m m' p [] al lo hi out pg c = c
Chain-outside kernel_end q m m' p (r ∷ ps) al lo hi out pg c =
    (c.0, c.1, rw same (Chain-outside kernel_end q m m' (m r) ps al lo hi (ground arith) pg.1 c.2))
  where
    same : m' r ≡ m r
    same = elim (osmium.Prelude.dec_lt r q) [
      | yes below ↦ lo r below
      | no above ↦ hi r (ground (arith, pg.0.aligned))
    ]
