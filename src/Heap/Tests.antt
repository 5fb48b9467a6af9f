-- ===== src/Heap/Tests.antt =====
-- Runs of the heap, and its theorems at a concrete heap.
use osmium.Prelude.{ℕ, ◌+◌, ◌-◌, ◌<◌, ◌≤◌, ◌≡◌, refl, ◌⊎◌, [], ◌∷◌, arith, max}
use osmium.Machine.{Mem, heap_size, null}
use osmium.Machine.Returns.{Returns}
use osmium.Heap.{Heap, init, alloc_inner, dealloc_inner, write_pair}
use osmium.Heap.Spec.{give_back, sizes, Outside, round_up}
use osmium.Heap.Layout.{IsLayout}
use osmium.Heap.Live.{Live, IsValid, AllocPost, alloc_inner_lem, live_bytes}
use osmium.Heap.Release.{dealloc_inner_lem, init-whole, alloc_then_dealloc, alloc-dealloc}

abbrev base : ℕ
base = 0x8040_0000

-- The heap with its first 64 bytes allocated.
abbrev words : Mem
words = write_pair (write_pair (λ a. 0) base base 64) (base + 64) (heap_size - 64) null

abbrev one_live : Heap
one_live = record { mem = words; head = base + 64; free_bytes = heap_size - 64 }

abbrev first : Live
first = record { user = base + 16; start = base; size = 64 }

one_live-IsValid : IsValid base one_live ((base + 64, heap_size - 64) ∷ []) (first ∷ [])
unfolding sizes live_bytes
one_live-IsValid = record {
  region = (omega arith, omega arith);
  blocks = (refl, omega arith, refl, refl);
  apart = omega arith;
  live = (
    record {
      start_at = refl;
      size_at = refl;
      header = omega arith;
      payload = omega arith;
      start_even = refl;
      size_even = refl;
      big = omega arith;
      above = omega arith;
      below = omega arith;
      free = omega arith;
    },
    tt,
  );
  far = (tt, tt);
  counted = refl;
  total = refl;
}

page-IsLayout : IsLayout 100 64
page-IsLayout = record { power = (6, omega arith, refl); fits = omega arith }

alloc_inner_lem_example :
    Returns
      (AllocPost base
        (round_up (max 100 1) 16)
        (max 64 16)
        one_live
        ((base + 64, heap_size - 64) ∷ [])
        (first ∷ []))
      (alloc_inner 300000 100 64 one_live)
alloc_inner_lem_example =
    alloc_inner_lem 300000 100 64 base (omega arith) page-IsLayout one_live-IsValid

dealloc_inner_lem_example :
    Returns
      (λ h'.
        IsValid base h' (give_back (base, 64) ((base + 64, heap_size - 64) ∷ [])) []
        × ((a : ℕ)
            → Outside a ((base + 64, heap_size - 64) ∷ [])
            → (a < base) ⊎ (base + 64 ≤ a)
            → h'.mem a ≡ words a))
      (dealloc_inner 300000 (base + 16) one_live)
dealloc_inner_lem_example = dealloc_inner_lem 300000 base [] first [] (omega arith) one_live-IsValid

init-whole_example :
    Returns
      (λ h. IsValid base h ((base, heap_size) ∷ []) [])
      (init base (record { mem = λ a. 7; head = null; free_bytes = 0 }))
init-whole_example = init-whole base (λ a. 7) (omega arith) refl (omega arith)

alloc-dealloc_example :
    Returns
      (λ h'. IsValid base h' ((base + 64, heap_size - 64) ∷ []) (first ∷ []))
      (alloc_then_dealloc 300000 100 64 one_live)
alloc-dealloc_example =
    alloc-dealloc 300000 100 64 base (omega arith) page-IsLayout one_live-IsValid
