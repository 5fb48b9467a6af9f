-- ===== src/Kalloc/Tests.antt =====
-- Runs of the page allocator, and its theorems at concrete memories.
use osmium.Prelude.{ℕ, ◌+◌, ◌≡◌, refl, ◌↔◌, List, [], ◌∷◌, Option, some, arith, true}
use osmium.Machine.{store}
use osmium.Machine.Returns.{Returns}
use osmium.Kalloc.{Kmem, alloc, free, init, empty_kmem}
use osmium.Kalloc.Chain.{IsValid, IsPage, has}
use osmium.Kalloc.Pages.{SameOutside, IsZero, alloc-cons, free-cons, alloc_then_free, alloc-free}
use osmium.Kalloc.Seed.{IsClear, init_lem}

-- A kernel image that ends at 0x8040_0000, so that pages start at 0x80c0_0000.
abbrev image_end : ℕ
image_end = 0x8040_0000

abbrev page_a : ℕ
page_a = 0x80c0_0000

abbrev page_b : ℕ
page_b = 0x80c0_1000

abbrev two_pages : Kmem
two_pages = record {
  mem = store (store (λ a. 7) page_a page_b) page_b 0;
  head = page_a;
  free_pages = 2;
}

two_pages-IsValid : IsValid image_end two_pages (page_a ∷ page_b ∷ [])
two_pages-IsValid = record {
  chain = (refl, omega arith, (refl, omega arith, refl));
  pages = (omega arith, (omega arith, tt));
  distinct = (refl, (refl, tt));
  count = refl;
}

abbrev no_pages : Kmem
no_pages = record { mem = λ a. 7; head = 0; free_pages = 0 }

no_pages-IsValid : IsValid image_end no_pages []
no_pages-IsValid = record { chain = refl; pages = tt; distinct = tt; count = refl }

alloc-cons_example :
    Returns
      (λ (r, k').
        (r ≡ some page_a)
        × IsValid image_end k' (page_b ∷ [])
        × (k'.free_pages + 1 ≡ 2)
        × IsZero page_a k'.mem
        × SameOutside page_a two_pages.mem k'.mem)
      (alloc two_pages)
alloc-cons_example = alloc-cons two_pages-IsValid

free-cons_example :
    Returns
      (λ k'. IsValid image_end k' (page_a ∷ []) × SameOutside page_a no_pages.mem k'.mem)
      (free image_end page_a no_pages)
free-cons_example = free-cons no_pages-IsValid (omega arith) refl

alloc-free_example :
    Returns
      (λ k'. IsValid image_end k' (page_a ∷ page_b ∷ []) × SameOutside page_a two_pages.mem k'.mem)
      (alloc_then_free image_end two_pages)
alloc-free_example = alloc-free two_pages-IsValid

-- A device tree of 5000 bytes in the last pages of DRAM.
abbrev dtb : Option (ℕ × ℕ)
dtb = some (0x87e0_0000, 0x87e0_1388)

init_lem_example :
    Returns
      (λ k.
        (ps : List ℕ) × IsValid image_end k ps
        × ((q : ℕ) → (has q ps ≡ true) ↔ (IsPage image_end q × IsClear dtb q)))
      (init image_end dtb (empty_kmem λ a. 7))
init_lem_example = init_lem image_end dtb (λ a. 7) (omega arith) (omega arith)
