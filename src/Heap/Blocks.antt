-- ===== src/Heap/Blocks.antt =====
-- The free list in memory stands for a list of blocks.
use osmium.Prelude.{ℕ, ◌+◌, ◌<◌, ◌≡◌, ◌≢◌, List, [], ◌∷◌, arith}
use osmium.Machine.{Mem, null}
use osmium.Heap.Spec.{Block, Apart}

-- From `p` the headers {size, next} lead through the blocks to null.
abbrev pub Blocks : Mem → ℕ → List Block → Type 0
Blocks m p [] = p ≡ null
Blocks m p ((s, n) ∷ bs) = (p ≡ s) × (s ≢ null) × (m s ≡ n) × Blocks m (m (s + 8)) bs

-- The list is read only at addresses above `lo`.
pub Blocks-frame :
    (m m' : Mem) (p lo hi : ℕ) (bs : List Block)
    → ((a : ℕ) → lo < a → m' a ≡ m a)
    → Apart lo hi bs
    → Blocks m p bs
    → Blocks m' p bs
Blocks-frame m m' p lo hi [] same ap b = b
Blocks-frame m m' p lo hi ((s, n) ∷ bs) same ap (at, ne, size, next) = (
  at,
  ne,
  ground (arith, same s, ap.0, size),
  rw (same (s + 8) (omega (arith, ap)))
      (Blocks-frame m m' (m (s + 8)) (s + n) hi bs (λ a h. same a (omega (arith, ap))) ap.5 next),
)
