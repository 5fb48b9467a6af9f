-- ===== src/Heap/Free.antt =====
-- `dealloc_inner` on the list in memory does what `give_back` does to the list of blocks.
use osmium.Prelude.{
  ℕ, zero, suc, ◌+◌, ◌-◌, ◌^◌, ◌≤◌, ◌<◌, ◌≡◌, ◌≢◌, refl, ◌⊎◌, inl, inr, true, false, not, ◌&&◌,
  List, [], ◌∷◌, arith, ◌==◌, ltb, length, ◌∙◌, ap, le→ltb_false, lt→ltb, ne→==_false, eq→==,
  ℕ_discrete, dec_lt, sym,
}
use osmium.Machine.{Mem, null, ◌>>=◌, Outcome, store}
use osmium.Machine.Returns
use osmium.Machine.Returns.{Returns, returns, Returns-eq}
use osmium.Heap.{Heap, search_place, insert, write_pair}
use osmium.Heap.Spec.{Block, Apart, join, give_back, Misses, Outside}
use osmium.Heap.Spec.Laws.{Apart-mono}
use osmium.Heap.Blocks.{Blocks, Blocks-frame}
use osmium.Heap.Carve.{reads}
use osmium.Heap.Alloc.{Outside-of_Apart}
use osmium.Heap.Dealloc.{
  growth, next_of, headed, left_over, join-left_over, left_over-Blocks, left_over-Apart,
  insert-head, insert-link, insert-merge,
}

-- The end of the walk: `insert` between the two blocks that `search_place` finds.
abbrev pub place : (fuel start size prev cur : ℕ) → Heap → Outcome Heap
place fuel start size prev cur h = do
  (p, c) ← search_place fuel start prev cur h
  insert start size (start + size) p c h

-- What giving [`start`, `start + size`) back has done to the heap: the list that hangs on the link
-- is `bs'`, and no word outside the blocks and the region has changed.
pub record Freed (start size prev : ℕ) (h : Heap) (bs bs' : List Block) (h' : Heap) : Type 0 where
  pub blocks : Blocks h'.mem (reads prev h') bs'
  pub same : (a : ℕ) → Outside a bs → (a < start) ⊎ (start + size ≤ a) → h'.mem a ≡ h.mem a
  pub bytes : h'.free_bytes ≡ h.free_bytes

-- The first blocks that lie behind the region.
record Rest (start size cur hi : ℕ) (h : Heap) (bs : List Block) : Type 0 where
  pub blocks : Blocks h.mem cur bs
  pub apart : Apart (start + size - 1) hi bs
  pub top : hi ≤ 2 ^ 60
  pub fits : start + size ≤ hi
  pub big : 32 ≤ size
  pub live : start ≢ null

module _ (start size cur hi : ℕ) (h : Heap) (bs : List Block)
    (r : Rest start size cur hi h bs) where
  growth-le : size + growth (start + size) cur h.mem ≤ 2 ^ 62
  growth-le = bound bs r.blocks r.apart
    where
      bound :
          (bs : List Block)
          → Blocks h.mem cur bs
          → Apart (start + size - 1) hi bs
          → size + growth (start + size) cur h.mem ≤ 2 ^ 62
      bound [] b p = ground (arith, r.fits, r.top, b)
      bound ((s, n) ∷ bs) b p = ground (arith, r.fits, r.top, b.0, b.1, b.2, p)

  -- The tail of the joined list is read behind the freed block's header.
  tail :
      (m' : Mem)
      → ((a : ℕ) → start + 8 < a → m' a ≡ h.mem a)
      → Blocks m' (next_of (start + size) cur h.mem) (left_over (start + size) bs)
  tail m' same =
      Blocks-frame h.mem m' _ (start + 8) hi (left_over (start + size) bs) same
        (left_over-Apart h.mem (start + 8) hi (start + size) bs (omega (arith, r.big))
          (Apart-mono (start + size - 1) (start + 8) hi bs (omega (arith, r.big)) r.apart))
        (left_over-Blocks h.mem 0 hi (start + size) cur bs r.blocks)

  -- The block at the front of the list.
  place-head :
      Freed start size null h bs
        (join (start, size) bs)
        (record h { mem = headed start size cur h.mem; head = start })
  place-head =
      let t = tail (headed start size cur h.mem) (λ a low. ground arith) in
      rw (join-left_over h.mem 0 hi (start + size) start size cur bs refl r.blocks) (record {
        blocks = (
          refl,
          r.live,
          ground arith,
          let e : headed start size cur h.mem (start + 8) ≡ next_of (start + size) cur h.mem =
                ground arith in
              rw e t,
        );
        same = λ a out off. ground (arith, r.big);
        bytes = refl;
      })

-- The same for a region behind the block (`s`, `n`): the list that starts there is `bs'`.
pub record After (start size s n : ℕ) (h : Heap) (bs bs' : List Block) (h' : Heap) : Type 0 where
  pub blocks : Blocks h'.mem s bs'
  pub same :
      (a : ℕ) → Outside a ((s, n) ∷ bs) → (a < start) ⊎ (start + size ≤ a) → h'.mem a ≡ h.mem a
  pub head_same : h'.head ≡ h.head
  pub bytes : h'.free_bytes ≡ h.free_bytes

module _ (start size cur hi : ℕ) (h : Heap) (bs : List Block) (r : Rest start size cur hi h bs)
    (s n : ℕ) (live : s ≢ null) (size_at : h.mem s ≡ n) (wide : 32 ≤ n)
    (ahead : s + n ≤ start) where
  -- The region does not touch the block before it.
  place-link :
      After start size s n h bs
        ((s, n) ∷ join (start, size) bs)
        (record h { mem = store (headed start size cur h.mem) (s + 8) start })
  place-link =
      let m' : Mem = store (headed start size cur h.mem) (s + 8) start in
      let t = tail start size cur hi h bs r m' (λ a low. ground arith) in
      let e : m' (start + 8) ≡ next_of (start + size) cur h.mem = ground arith in
      let f : m' (s + 8) ≡ start = ground arith in
      rw (join-left_over h.mem 0 hi (start + size) start size cur bs refl r.blocks) (record {
        blocks = (refl, live, ground arith, (f, r.live, ground arith, rw e t));
        same = λ a out off. ground (arith, r.big, out.0);
        head_same = refl;
        bytes = refl;
      })

  -- The region touches the block before it.
  place-merge :
      s + n ≡ start
      → After start size s n h bs (join (s, n + size) bs) (record h {
        mem =
            write_pair
              (headed start size cur h.mem)
              s
              (h.mem s + (size + growth (start + size) cur h.mem))
              (next_of (start + size) cur h.mem);
      })
  place-merge touch =
      let m' : Mem =
        write_pair (headed start size cur h.mem) s
          (h.mem s + (size + growth (start + size) cur h.mem)) (next_of (start + size) cur h.mem) in
      let t = tail start size cur hi h bs r m' (λ a low. ground arith) in
      let e : m' (s + 8) ≡ next_of (start + size) cur h.mem = ground arith in
      rw (join-left_over h.mem 0 hi (start + size) s (n + size) cur bs (omega arith) r.blocks)
        (record {
          blocks = (refl, live, ground arith, rw e t);
          same = λ a out off. ground (arith, r.big, out.0);
          head_same = refl;
          bytes = refl;
        })

give_back-front :
    (start size hi : ℕ) (bs : List Block)
    → 0 < size
    → Apart (start + size - 1) hi bs
    → give_back (start, size) bs ≡ join (start, size) bs
unfolding give_back join
give_back-front start size hi [] pos p = refl
give_back-front start size hi ((s, n) ∷ bs) pos p = rw (le→ltb_false s start (omega (arith, p.0)))

place-next :
    (fuel start size prev cur : ℕ) (h : Heap)
    → cur ≢ null
    → cur < start
    → place (suc fuel) start size prev cur h ≡ place fuel start size cur (h.mem (cur + 8)) h
unfolding search_place
place-next fuel start size prev cur h live low =
    rw (ne→==_false cur null live, lt→ltb cur start low, search_place)

place-stop :
    (fuel start size prev cur : ℕ) (h : Heap)
    → (cur ≡ null) ⊎ (start ≤ cur)
    → place (suc fuel) start size prev cur h ≡ insert start size (start + size) prev cur h
unfolding search_place
place-stop fuel start size prev cur h stop =
    let t : (not (cur == null) && ltb cur start) ≡ false = ground arith in rw (t, search_place)

give_back-behind :
    (start size s n : ℕ) (bs : List Block)
    → s < start
    → s + n ≢ start
    → give_back (start, size) ((s, n) ∷ bs) ≡ (s, n) ∷ give_back (start, size) bs
unfolding give_back
give_back-behind start size s n bs low gap = rw (lt→ltb s start low, ne→==_false (s + n) start gap)

-- A block that the walk passes stays as it is.
After-cons :
    (start size s n s' n' hi : ℕ) (h : Heap) (bs : List Block) {bs' : List Block} {h' : Heap}
    → s ≢ null
    → h.mem s ≡ n
    → 32 ≤ n
    → s + n ≤ start
    → h.mem (s + 8) ≡ s'
    → Apart (s + n) hi ((s', n') ∷ bs)
    → After start size s' n' h bs bs' h'
    → After start size s n h ((s', n') ∷ bs) ((s, n) ∷ bs') h'
After-cons start size s n s' n' hi h bs {h'} live size_at wide ahead at p a = record {
  blocks = (
    refl,
    live,
    a.same s (Outside-of_Apart s (s + n) hi ((s', n') ∷ bs) (omega arith) p) (inl (omega arith))
        ∙ size_at,
    let next : h'.mem (s + 8) ≡ s' =
          a.same (s + 8) (Outside-of_Apart (s + 8) (s + n) hi ((s', n') ∷ bs) (omega arith) p)
            (inl (omega arith))
          ∙ at in
        rw next a.blocks,
  );
  same = λ b (out, outs) off. a.same b outs off;
  head_same = a.head_same;
  bytes = a.bytes;
}

module _ (start size hi : ℕ) (h : Heap) (top : hi ≤ 2 ^ 60) (fits : start + size ≤ hi)
    (big : 32 ≤ size) where
  place-last :
      (s n cur : ℕ) (bs : List Block)
      → Rest start size cur hi h bs
      → s ≢ null
      → h.mem s ≡ n
      → 32 ≤ n
      → s + n ≤ start
      → Returns
          (After start size s n h bs (give_back (start, size) ((s, n) ∷ bs)))
          (insert start size (start + size) s cur h)
  unfolding give_back
  place-last s n cur bs r live size_at wide ahead =
      let before : ltb s start ≡ true = ground arith in
      let grow = growth-le start size cur hi h bs r in
      elim (dec_eq (s + n) start) [
        | yes touch ↦
            rw (before, eq→== (s + n) start touch)
              (Returns-eq
                (insert-merge start size cur h grow s live (omega arith) (omega arith) (omega arith)
                  (omega arith))
                (place-merge start size cur hi h bs r s n live size_at wide ahead touch))
        | no gap ↦
            rw
              (
                before,
                ne→==_false (s + n) start gap,
                give_back-front start size hi bs (omega arith) r.apart,
              )
              (Returns-eq
                (insert-link start size cur h grow s live (omega arith) (omega arith) (omega arith)
                  (λ e. gap (omega arith)))
                (place-link start size cur hi h bs r s n live size_at wide ahead))
      ]
    where
      dec_eq : (a b : ℕ) → Dec (a ≡ b)
      dec_eq = ℕ_discrete

  place-After :
      (fuel s n cur : ℕ) (bs : List Block)
      → length bs < fuel
      → s ≢ null
      → h.mem s ≡ n
      → 32 ≤ n
      → s + n ≤ start
      → h.mem (s + 8) ≡ cur
      → Blocks h.mem cur bs
      → Apart (s + n) hi bs
      → Misses (start, size) bs
      → Returns
          (After start size s n h bs (give_back (start, size) ((s, n) ∷ bs)))
          (place fuel start size s cur h)
  place-After zero s n cur bs rounds live size_at wide ahead at b p miss = absurd (omega arith)
  place-After (suc fuel) s n cur [] rounds live size_at wide ahead at b p miss =
      rw (place-stop fuel start size s cur h (inl b)) (
        place-last s n cur []
          (record { blocks = b; apart = tt; top = top; fits = fits; big = big; live = omega arith })
          live size_at wide ahead)
  place-After (suc fuel) s n cur ((s', n') ∷ bs) rounds live size_at wide ahead at b p miss =
      elim (dec_lt s' start) [
        | yes low ↦
            rw
              (
                b.0,
                place-next fuel start size s s' h b.1 low,
                give_back-behind start size s n ((s', n') ∷ bs) (omega arith) (omega (arith, p.0)),
              )
              (Returns.mono
                (place-After fuel s' n' (h.mem (s' + 8)) bs (omega arith) b.1 b.2 p.3
                  (omega (arith, miss.0)) refl b.3 p.5 miss.1)
                λ h' a.
                  After-cons start size s n s' n' hi h bs live size_at wide ahead (at ∙ b.0) p a)
        | no high ↦ rw (place-stop fuel start size s cur h (inr (omega (arith, b.0)))) (
            place-last s n cur ((s', n') ∷ bs)
              (record {
                blocks = b;
                apart = (omega (arith, p.3, miss.0), p.1, p.2, p.3, p.4, p.5);
                top = top;
                fits = fits;
                big = big;
                live = omega arith;
              })
              live size_at wide ahead)
      ]

  -- From the head of the list.
  pub place-give_back :
      (fuel lo : ℕ) (bs : List Block)
      → length bs < fuel
      → lo < start
      → Blocks h.mem h.head bs
      → Apart lo hi bs
      → Misses (start, size) bs
      → Returns
          (Freed start size null h bs (give_back (start, size) bs))
          (place fuel start size null h.head h)
  place-give_back zero lo bs rounds low b p miss = absurd (omega arith)
  place-give_back (suc fuel) lo [] rounds low b p miss =
      let r : Rest start size h.head hi h [] = record {
        blocks = b;
        apart = tt;
        top = top;
        fits = fits;
        big = big;
        live = omega arith;
      } in
      rw
        (
          place-stop fuel start size null h.head h (inl b),
          give_back-front start size hi [] (omega arith) tt,
        )
        (Returns-eq (insert-head start size h.head h (growth-le start size h.head hi h [] r))
          (place-head start size h.head hi h [] r))
  place-give_back (suc fuel) lo ((s, n) ∷ bs) rounds low b p miss = elim (dec_lt s start) [
    | yes before ↦
        let step : place (suc fuel) start size null h.head h
            ≡ place fuel start size s (h.mem (s + 8)) h =
          place-next fuel start size null h.head h (λ e. b.1 (sym b.0 ∙ e)) (omega (arith, b.0))
          ∙ ap (λ c. place fuel start size c (h.mem (c + 8)) h) b.0 in
        rw step (
          Returns.mono
            (place-After fuel s n (h.mem (s + 8)) bs (omega arith) b.1 b.2 p.3
              (omega (arith, miss.0)) refl b.3 p.5 miss.1)
            λ h' a. record {
              blocks = rw (a.head_same ∙ b.0) a.blocks;
              same = a.same;
              bytes = a.bytes;
            })
    | no behind ↦
        let ap : Apart (start + size - 1) hi ((s, n) ∷ bs) =
          (omega (arith, p.3, miss.0), p.1, p.2, p.3, p.4, p.5) in
        let r : Rest start size h.head hi h ((s, n) ∷ bs) = record {
          blocks = b;
          apart = ap;
          top = top;
          fits = fits;
          big = big;
          live = omega arith;
        } in
        rw
          (
            place-stop fuel start size null h.head h (inr (omega (arith, b.0))),
            give_back-front start size hi ((s, n) ∷ bs) (omega arith) ap,
          )
          (Returns-eq (insert-head start size h.head h (growth-le start size h.head hi h _ r))
            (place-head start size h.head hi h _ r))
  ]
