-- ===== src/Heap/Carve.antt =====
-- The free list in memory after a region is carved from the block at `s`.
use osmium.Prelude.{
  ℕ, ◌+◌, ◌-◌, ◌≤◌, ◌<◌, ◌≡◌, ◌≢◌, refl, ◌⊎◌, inr, Bool, true, false, List, ◌∷◌, arith,
  if◌then◌else◌, ◌==◌,
}
use osmium.Machine.{null}
use osmium.Heap.{Heap, rewire, link, write_pair}
use osmium.Heap.Spec.{Block, Apart}
use osmium.Heap.Blocks.{Blocks, Blocks-frame}

-- What the link behind `prev` holds.
abbrev pub reads : ℕ → Heap → ℕ
reads prev h = if prev == null then h.head else h.mem (prev + 8)

-- The heap when `carve` returns.
unfoldable pub carved : (keep_front keep_back : Bool) (prev s n user start end : ℕ) → Heap → Heap
carved kf kb prev s n user start end h =
    let h' = rewire kf kb prev s (user - 16 - s) end (s + n) h in
    record h' {
      mem = write_pair h'.mem (user - 16) start (end - start);
      free_bytes = h.free_bytes - (end - start);
    }

-- How the carved region [`start`, `end`) and the user's address lie in the block.
pub record Cut (kf kb : Bool) (prev s n user start end : ℕ) : Type 0 where
  pub ahead : (prev ≡ null) ⊎ (prev + 16 ≤ s)
  pub header : start + 16 ≤ user
  pub payload : user < end
  pub within : end ≤ s + n
  pub front : if kf then (start ≡ user - 16) × (s + 32 ≤ start) else start ≡ s
  pub back : if kb then end + 32 ≤ s + n else end ≡ s + n
  pub live : s ≢ null

module _ (kf kb : Bool) (prev s n user start end : ℕ) (h : Heap)
    (c : Cut kf kb prev s n user start end) where
  pub carved-frame :
      (a : ℕ)
      → (a < s) ⊎ (s + n ≤ a)
      → a ≢ prev + 8
      → (carved kf kb prev s n user start end h).mem a ≡ h.mem a
  unfolding carved rewire link
  carved-frame a out ne = ground (arith, c.front, c.back)

  pub head-carved : prev ≢ null → (carved kf kb prev s n user start end h).head ≡ h.head
  unfolding carved rewire link
  head-carved ne = ground arith

  pub free_bytes-carved :
      (carved kf kb prev s n user start end h).free_bytes ≡ h.free_bytes - (end - start)
  unfolding carved
  free_bytes-carved = refl

  pub carved-header :
      ((carved kf kb prev s n user start end h).mem (user - 16) ≡ start)
      × ((carved kf kb prev s n user start end h).mem (user - 8) ≡ end - start)
  unfolding carved
  carved-header = (ground (arith, c.header), ground (arith, c.header))

-- The remainders that are kept.
unfoldable pub kept : (keep_front keep_back : Bool) (s n start end : ℕ) → List Block → List Block
kept kf kb s n start end bs =
    let behind = if kb then (end, s + n - end) ∷ bs else bs in
    if kf then (s, start - s) ∷ behind else behind

module _ (prev s n user start end hi : ℕ) (h : Heap) (bs : List Block) where
  carved-tail :
      (kf kb : Bool)
      → Cut kf kb prev s n user start end
      → Apart (s + n) hi bs
      → Blocks h.mem (h.mem (s + 8)) bs
      → Blocks (carved kf kb prev s n user start end h).mem (h.mem (s + 8)) bs
  carved-tail kf kb c rest b =
      Blocks-frame h.mem _ _ (s + n) hi bs
        (λ a low.
          carved-frame kf kb prev s n user start end h c a (inr (omega arith))
            (omega (arith, c.ahead)))
        rest b

  -- The remainders and the blocks behind them hang on the link.
  pub carved-Blocks :
      (kf kb : Bool)
      → Cut kf kb prev s n user start end
      → Apart (s + n) hi bs
      → Blocks h.mem (h.mem (s + 8)) bs
      → let h' = carved kf kb prev s n user start end h in
        Blocks h'.mem (reads prev h') (kept kf kb s n start end bs)
  unfolding carved rewire link kept
  carved-Blocks true true c rest b =
      let h' = carved true true prev s n user start end h in
      let e : h'.mem (end + 8) ≡ h.mem (s + 8) = ground (arith, c) in
      (
        ground (arith, c),
        c.live,
        ground (arith, c),
        (
          ground (arith, c),
          omega (arith, c),
          ground (arith, c),
          rw e (carved-tail true true c rest b),
        ),
      )
  carved-Blocks true false c rest b =
      let h' = carved true false prev s n user start end h in
      let e : h'.mem (s + 8) ≡ h.mem (s + 8) = ground (arith, c) in
      (ground (arith, c), c.live, ground (arith, c), rw e (carved-tail true false c rest b))
  carved-Blocks false true c rest b =
      let h' = carved false true prev s n user start end h in
      let e : h'.mem (end + 8) ≡ h.mem (s + 8) = ground (arith, c) in
      (
        ground (arith, c),
        omega (arith, c),
        ground (arith, c),
        rw e (carved-tail false true c rest b),
      )
  carved-Blocks false false c rest b =
      let h' = carved false false prev s n user start end h in
      let e : reads prev h' ≡ h.mem (s + 8) = ground (arith, c) in
      rw e (carved-tail false false c rest b)
