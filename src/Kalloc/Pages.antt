-- ===== src/Kalloc/Pages.antt =====
-- `alloc` and `free` against the list of free pages.
use osmium.Prelude.{
  ℕ, ◌+◌, ◌-◌, ◌≤◌, ◌<◌, ◌≡◌, refl, ◌∙◌, List, [], ◌∷◌, false, ◌⊎◌, none, some, arith, eq→==,
}
use osmium.Machine.{Mem, store, fill, page_size, ok, Outcome}
use osmium.Machine.{◌>>=◌}
use osmium.Machine.Returns
use osmium.Machine.Returns.{Returns, returns, Returns-eq}
use osmium.Kalloc.{Kmem, alloc, free, poison}
use osmium.Kalloc.Chain.{IsValid, IsPage, has, Chain-outside}
use osmium.Kalloc.Count.{length-ArePages}

-- A change of the memory outside the page at `p` is none.
abbrev pub SameOutside : ℕ → Mem → Mem → Type 0
SameOutside p m m' = (a : ℕ) → (a < p) ⊎ (p + 4096 ≤ a) → m' a ≡ m a

abbrev pub IsZero : ℕ → Mem → Type 0
IsZero p m = (a : ℕ) → p ≤ a → a < p + 4096 → m a ≡ 0

module _ {kernel_end : ℕ} {k : Kmem} {p : ℕ} {ps : List ℕ} where
  -- With a free page, `alloc` hands out the first of the list, all its words zero; the list is the
  -- rest, the count falls by one, and no other page's memory changes.
  pub alloc-cons :
      IsValid kernel_end k (p ∷ ps)
      → Returns
          (λ (r, k').
            (r ≡ some p)
            × IsValid kernel_end k' ps
            × (k'.free_pages + 1 ≡ k.free_pages)
            × IsZero p k'.mem
            × SameOutside p k.mem k'.mem)
          (alloc k)
  unfolding alloc
  alloc-cons v =
      Returns-eq
        {a = (
          some p,
          record {
            mem = fill k.mem k.head page_size 0;
            head = k.mem k.head;
            free_pages = k.free_pages - 1;
          },
        )}
        (ground arith)
        (
          refl,
          record {
            chain =
                Chain-outside kernel_end p k.mem _ _ ps v.pages.0.aligned (ground arith)
                  (ground arith) v.distinct.0 v.pages.1 (ground arith);
            pages = v.pages.1;
            distinct = v.distinct.1;
            count = omega arith;
          },
          omega arith,
          ground arith,
          ground arith,
        )

  -- `free` of a page of the allocator's range that is not on the list puts it in front, adds one to
  -- the count, and writes nowhere outside it.
  pub free-cons :
      IsValid kernel_end k ps
      → IsPage kernel_end p
      → has p ps ≡ false
      → Returns
          (λ k'. IsValid kernel_end k' (p ∷ ps) × SameOutside p k.mem k'.mem)
          (free kernel_end p k)
  unfolding free
  free-cons v pg out =
      Returns-eq
        {a = record {
          mem = store (fill k.mem p page_size poison) p k.head;
          head = p;
          free_pages = k.free_pages + 1;
        }}
        (ground (arith, length-ArePages kernel_end ps))
        (
          record {
            chain = (
              refl,
              omega (arith, pg.above),
              rw (eq→== p p refl) (
                  Chain-outside kernel_end p k.mem _ _ ps pg.aligned (ground arith) (ground arith)
                    out v.pages v.chain),
            );
            pages = (pg, v.pages);
            distinct = (out, v.distinct);
            count = omega arith;
          },
          ground arith,
        )

-- With no free page, `alloc` says so and changes nothing.
pub alloc-nil : {kernel_end : ℕ} {k : Kmem} → IsValid kernel_end k [] → alloc k ≡ ok (none, k)
unfolding alloc
alloc-nil v = ground (arith, v.chain)

-- `alloc` and then `free` of the page that it handed out.
abbrev pub alloc_then_free : ℕ → Kmem → Outcome Kmem
alloc_then_free kernel_end k = do
  (page, k') ← alloc k
  elim page [ none ↦ ok k' | some pa ↦ free kernel_end pa k' ]

-- Handing a fresh page back restores the list of free pages in its order, and changes no memory
-- outside that page.
pub alloc-free :
    {kernel_end : ℕ} {k : Kmem} {p : ℕ} {ps : List ℕ}
    → IsValid kernel_end k (p ∷ ps)
    → Returns
        (λ k'. IsValid kernel_end k' (p ∷ ps) × SameOutside p k.mem k'.mem)
        (alloc_then_free kernel_end k)
alloc-free v = Returns.bind (alloc-cons v) λ (r, k1) (got, v1, count, zero, same). rw got (
    Returns.mono (free-cons v1 v.pages.0 v.distinct.0)
      λ k2 (v2, same2). (v2, λ a out. same2 a out ∙ same a out))
