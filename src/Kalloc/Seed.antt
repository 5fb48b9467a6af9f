-- ===== src/Kalloc/Seed.antt =====
-- What `init` puts on the free list.
use osmium.Prelude.{
  ℕ, zero, suc, ◌+◌, ◌*◌, ◌/◌, ◌%◌, ◌≤◌, ◌<◌, ◌≡◌, refl, List, [], ◌∷◌, Bool, true, false, ◌==◌,
  ◌||◌, ◌&&◌, ◌⊎◌, ◌↔◌, Option, none, some, arith, leb, Bool-cases, inl, inr,
}
use osmium.Machine.{Mem, page_size, phys_top, alloc_start, ok, usize_max}
use osmium.Machine.Words.{page_down}
use osmium.Machine.{add, ◌>>=◌}
use native.Mathlib.Decide.{dec_le}
use osmium.Machine.Returns
use osmium.Machine.Returns.{Returns, returns, Returns-eq}
use osmium.Kalloc.{
  Kmem, seed_page, seed_loop, seed_rounds, reserved_pages, init, empty_kmem, next_multiple_of,
}
use osmium.Kalloc.Chain.{IsValid, IsPage, has}
use osmium.Kalloc.Pages.{free-cons}

-- The page at `q` meets no byte of the reserved range.
abbrev pub IsClear : Option (ℕ × ℕ) → ℕ → Type 0
IsClear none q = Unit {0}
IsClear (some (s, e)) q = (e ≤ q) ⊎ (q + 4096 ≤ s)

-- A reserved range whose end can be rounded up.
abbrev pub IsRange : Option (ℕ × ℕ) → Type 0
IsRange none = Unit {0}
IsRange (some (s, e)) = (s ≤ usize_max) × (e ≤ phys_top)

-- Every page of the list lies below `page`.
abbrev AllBelow : ℕ → List ℕ → Type 0
AllBelow page [] = Unit {0}
AllBelow page (q ∷ ps) = (q < page) × AllBelow page ps

AllBelow-mono : {a b : ℕ} (ps : List ℕ) → a ≤ b → AllBelow a ps → AllBelow b ps
AllBelow-mono [] h u = u
AllBelow-mono (q ∷ ps) h u = (omega (arith, u.0), AllBelow-mono ps h u.1)

not-has_of_AllBelow : (page : ℕ) (ps : List ℕ) → AllBelow page ps → has page ps ≡ false
not-has_of_AllBelow page [] u = refl
not-has_of_AllBelow page (q ∷ ps) u = ground (arith, u.0, not-has_of_AllBelow page ps u.1)

-- The pages that the loop frees from `page` on.
abbrev wanted : ℕ × ℕ → ℕ → ℕ → Bool
wanted (res_start, res_end) page q =
    leb page q
    && leb (q + 4096) phys_top
    && (q % 4096 == 0)
    && (leb res_end q || leb (q + 4096) res_start)

module _ (kernel_end res_start res_end : ℕ) where
  seed_page_lem :
      (page : ℕ) {k : Kmem} {ps : List ℕ}
      → IsPage kernel_end page
      → AllBelow page ps
      → IsValid kernel_end k ps
      → Returns
          (λ k'.
            (ps' : List ℕ) × IsValid kernel_end k' ps'
            × AllBelow (page + 4096) ps'
            × ((q : ℕ)
                → has q ps'
                  ≡ (has q ps || ((q == page) && (leb res_end q || leb (q + 4096) res_start)))))
          (seed_page kernel_end (res_start, res_end) page k)
  unfolding seed_page
  seed_page_lem page {k} {ps} pg low v =
      let end : add page page_size ≡ ok (page + 4096) = ground (arith, pg.below) in
      elim (Bool-cases (leb res_end page || leb (page + 4096) res_start)) [
        | inl clear ↦
            rw (end, clear)
              (Returns.mono (free-cons v pg (not-has_of_AllBelow page ps low)) λ k' (v', same). (
                page ∷ ps,
                v',
                (omega arith, AllBelow-mono ps (omega arith) low),
                λ q. ground arith,
              ))
        | inr held ↦
            rw (end, held) (returns (ps, v, AllBelow-mono ps (omega arith) low, λ q. ground arith))
      ]

  -- The two ways a round of the loop goes.
  seed_loop-more :
      (fuel page : ℕ) (k : Kmem)
      → page + 4096 ≤ phys_top
      → seed_loop (suc fuel) kernel_end (res_start, res_end) page k ≡ (
          seed_page kernel_end (res_start, res_end) page k >>= λ k'.
          seed_loop fuel kernel_end (res_start, res_end) (page + 4096) k')
  unfolding seed_loop
  seed_loop-more fuel page k h = ground arith

  seed_loop-done :
      (fuel page : ℕ) (k : Kmem)
      → phys_top < page + 4096
      → page ≤ phys_top
      → seed_loop (suc fuel) kernel_end (res_start, res_end) page k ≡ ok k
  unfolding seed_loop
  seed_loop-done fuel page k h top = ground arith

  seed_loop_lem :
      (fuel page : ℕ) {k : Kmem} {ps : List ℕ}
      → page % 4096 ≡ 0
      → alloc_start kernel_end ≤ page
      → phys_top < page + fuel * 4096
      → page ≤ phys_top
      → AllBelow page ps
      → IsValid kernel_end k ps
      → Returns
          (λ k'.
            (ps' : List ℕ) × IsValid kernel_end k' ps'
            × ((q : ℕ) → has q ps' ≡ (has q ps || wanted (res_start, res_end) page q)))
          (seed_loop fuel kernel_end (res_start, res_end) page k)
  unfolding seed_loop
  seed_loop_lem zero page al lo fuel top low v = absurd (omega arith)
  seed_loop_lem (suc n) page {k} {ps} al lo fuel top low v = elim (dec_le (page + 4096) phys_top) [
    | yes more ↦ rw (seed_loop-more n page k more) (
        Returns.bind (seed_page_lem page (record { aligned = al; above = lo; below = more }) low v)
          λ k1 (ps1, v1, low1, has1).
            Returns.mono
              (seed_loop_lem n (page + 4096) (omega arith) (omega arith) (omega arith) more low1 v1)
              λ k2 (ps2, v2, has2). (ps2, v2, λ q. ground (arith, has1 q, has2 q)))
    | no done ↦ Returns-eq (seed_loop-done n page k (omega arith) top) (ps, v, λ q. ground arith)
  ]

-- What the rounded bounds say of a whole page.
reserved_pages_lem :
    (r : Option (ℕ × ℕ))
    → IsRange r
    → Returns
        (λ (lo, hi).
          (q : ℕ) → q % 4096 ≡ 0 → ((leb hi q || leb (q + 4096) lo) ≡ true) ↔ IsClear r q)
        (reserved_pages r)
unfolding reserved_pages
reserved_pages_lem none h = returns (λ q al. ground arith)
reserved_pages_lem (some (s, e)) h =
    Returns-eq {a = (s / 4096 * 4096, (e + 4095) / 4096 * 4096)} (ground (arith, page_down s h.0))
      (λ q al. ground arith)

start_of : ℕ → ℕ
start_of kernel_end = (alloc_start kernel_end + 4095) / 4096 * 4096

start_lem :
    (kernel_end : ℕ)
    → alloc_start kernel_end ≤ phys_top
    → next_multiple_of (alloc_start kernel_end) page_size ≡ ok (start_of kernel_end)
unfolding start_of
start_lem kernel_end h = ground arith

wanted_iff :
    (kernel_end lo hi q : ℕ) (r : Option (ℕ × ℕ))
    → (q % 4096 ≡ 0 → ((leb hi q || leb (q + 4096) lo) ≡ true) ↔ IsClear r q)
    → (wanted (lo, hi) (start_of kernel_end) q ≡ true) ↔ (IsPage kernel_end q × IsClear r q)
unfolding start_of
wanted_iff kernel_end lo hi q r h = (
  λ w.
      let al : q % 4096 ≡ 0 = ground arith in
      (
        record { aligned = al; above = ground arith; below = ground arith },
        (h al).0 (ground arith),
      ),
  λ (pg, c).
      let in_range : (leb hi q || leb (q + 4096) lo) ≡ true = (h pg.aligned).1 c in
      ground (arith, pg.aligned, pg.above, pg.below),
)

seed_lem :
    {kernel_end : ℕ} (lo hi fuel : ℕ) (m : Mem)
    → alloc_start kernel_end ≤ phys_top
    → phys_top < fuel * 4096
    → Returns
        (λ k.
          (ps : List ℕ) × IsValid kernel_end k ps
          × ((q : ℕ) → has q ps ≡ wanted (lo, hi) (start_of kernel_end) q))
        (seed_loop fuel kernel_end (lo, hi) (start_of kernel_end) (empty_kmem m))
unfolding empty_kmem start_of
seed_lem {kernel_end} lo hi fuel m fits rounds =
    seed_loop_lem kernel_end lo hi fuel (start_of kernel_end) {ps = []} (omega arith) (omega arith)
      (omega arith) (omega arith) tt
      (record { chain = refl; pages = tt; distinct = tt; count = refl })

-- Booted with the kernel image and the reserved range, where there is one, below the top of DRAM,
-- `init` ends without a panic, and the free list then holds exactly the whole aligned pages of the allocator's range that meet no
-- byte of the reserved range, each once, with their number as the count.
pub init_lem :
    (kernel_end : ℕ) (r : Option (ℕ × ℕ)) (m : Mem)
    → alloc_start kernel_end ≤ phys_top
    → IsRange r
    → Returns
        (λ k.
          (ps : List ℕ) × IsValid kernel_end k ps
          × ((q : ℕ) → (has q ps ≡ true) ↔ (IsPage kernel_end q × IsClear r q)))
        (init kernel_end r (empty_kmem m))
unfolding init
init_lem kernel_end r m fits range = Returns.bind (reserved_pages_lem r range) λ (lo, hi) clear.
    rw (start_lem kernel_end fits) (
      Returns.mono (seed_lem lo hi seed_rounds m fits (omega arith)) λ k (ps, v, all).
        (ps, v, λ q. ground (arith, all q, wanted_iff kernel_end lo hi q r (clear q))))
