-- ===== src/Heap/Release.antt =====
-- `dealloc_inner` of a live allocation, and the two calls together.
use osmium.Prelude.{
  ℕ, ◌+◌, ◌-◌, ◌%◌, ◌/◌, ◌^◌, ◌≤◌, ◌<◌, ◌≡◌, refl, ◌⊎◌, inl, inr, List, [], ◌∷◌, ◌++◌, arith, max,
  ◌==◌, true, false, ne→==_false,
}
use osmium.Machine.{Mem, null, ok, ◌>>=◌, heap_size, add, sub, Outcome}
use osmium.Machine.Returns
use osmium.Machine.Returns.{Returns, returns, Returns-eq}
use osmium.Heap.{Heap, dealloc_inner, alloc_inner, init, write_pair, header_size}
use osmium.Heap.Spec.{Block, give_back, sizes, Outside, round_up}
use osmium.Heap.Spec.Give.{Gave, give_back-Gave}
use osmium.Heap.Layout.{IsLayout}
use osmium.Heap.Free.{place, place-give_back}
use osmium.Heap.Live.{
  Live, IsLive, AllLive, Far, AllFar, live_bytes, IsValid, IsLive-keep, AllocPost, alloc_inner_lem,
  length-blocks,
}

-- Taking one of the live allocations out.
AllLive-at :
    {m : Mem} {lo hi : ℕ} {bs : List Block} (before : List Live) (e : Live) (after : List Live)
    → AllLive m lo hi bs (before ++ e ∷ after)
    → IsLive m lo hi bs e × AllLive m lo hi bs (before ++ after)
AllLive-at [] e after l = l
AllLive-at (f ∷ before) e after (l, ls) =
    let (at, rest) = AllLive-at before e after ls in (at, (l, rest))

Far-drop :
    (f : Live) (before : List Live) (e : Live) (after : List Live)
    → Far f (before ++ e ∷ after)
    → ((f.start + f.size ≤ e.start) ⊎ (e.start + e.size ≤ f.start)) × Far f (before ++ after)
Far-drop f [] e after d = d
Far-drop f (g ∷ before) e after (d, ds) =
    let (at, rest) = Far-drop f before e after ds in (at, (d, rest))

AllFar-drop :
    (before : List Live) (e : Live) (after : List Live)
    → AllFar (before ++ e ∷ after)
    → AllFar (before ++ after) × Far e (before ++ after)
AllFar-drop [] e after (d, ds) = (ds, d)
AllFar-drop (f ∷ before) e after (d, ds) =
    let (rest, off) = AllFar-drop before e after ds in
    let (at, far) = Far-drop f before e after d in ((far, rest), (omega (arith, at), off))

live_bytes-drop :
    (before : List Live) (e : Live) (after : List Live)
    → live_bytes (before ++ e ∷ after) ≡ e.size + live_bytes (before ++ after)
unfolding live_bytes
live_bytes-drop [] e after = refl
live_bytes-drop (f ∷ before) e after = omega (arith, live_bytes-drop before e after)

-- The allocations that are left stay live.
AllLive-give_back :
    (m m' : Mem) (lo hi : ℕ) (bs bs' : List Block) (e : Live) (es : List Live)
    → Gave lo hi e.start e.size bs bs'
    → Far e es
    → ((a : ℕ) → lo < a → Outside a bs → (a < e.start) ⊎ (e.start + e.size ≤ a) → m' a ≡ m a)
    → AllLive m lo hi bs es
    → AllLive m' lo hi bs' es
AllLive-give_back m m' lo hi bs bs' e [] g far same l = tt
AllLive-give_back m m' lo hi bs bs' e (f ∷ es) g (d, ds) same (l, ls) = (
  IsLive-keep m m' lo hi bs bs' f l
      (g.keeps f.start f.size (omega (arith, l.big)) l.free (omega (arith, d)))
      (λ a low high out. same a (omega (arith, l.above)) out (omega (arith, d))),
  AllLive-give_back m m' lo hi bs bs' e es g ds same ls,
)

dealloc-place :
    (fuel : ℕ) {lo hi : ℕ} {bs : List Block} (h : Heap) (e : Live)
    → IsLive h.mem lo hi bs e
    → hi ≤ 2 ^ 60
    → h.free_bytes ≤ 2 ^ 60
    → let h' = record h { free_bytes = h.free_bytes + e.size } in
      dealloc_inner fuel e.user h ≡ place fuel e.start e.size null h'.head h'
unfolding dealloc_inner
dealloc-place fuel h e l top low =
    let header : sub e.user header_size ≡ ok (e.user - 16) = ground (arith, l.header) in
    let at : e.user - 16 + 8 ≡ e.user - 8 = omega (arith, l.header) in
    let end : add e.start e.size ≡ ok (e.start + e.size) = ground (arith, l.below) in
    let sum : add h.free_bytes e.size ≡ ok (h.free_bytes + e.size) = ground (arith, l.below) in
    rw (header, at, l.start_at, l.size_at, end, sum)

-- Freeing any one of the live allocations of a valid heap by its address, with fuel above
-- heap_size / 32, ends without a panic; its region goes back to the free list, the other
-- allocations stay live, and no word outside the free blocks and the region changes.
pub dealloc_inner_lem :
    (fuel base : ℕ) {h : Heap} {bs : List Block} (before : List Live) (e : Live) (after : List Live)
    → heap_size / 32 < fuel
    → IsValid base h bs (before ++ e ∷ after)
    → Returns
        (λ h'.
          IsValid base h' (give_back (e.start, e.size) bs) (before ++ after)
          × ((a : ℕ) → Outside a bs → (a < e.start) ⊎ (e.start + e.size ≤ a) → h'.mem a ≡ h.mem a))
        (dealloc_inner fuel e.user h)
dealloc_inner_lem fuel base {h} {bs} before e after rounds v =
    let (l, ls) = AllLive-at before e after v.live in
    let (ds, d) = AllFar-drop before e after v.far in
    let sum = live_bytes-drop before e after in
    let g =
      give_back-Gave (base - 1) (base + heap_size) e.start e.size bs l.start_even l.size_even l.big
        l.above l.below l.free v.apart in
    rw (dealloc-place fuel h e l v.region.1 (omega (arith, v.counted, v.total, v.region))) (
      Returns.mono
        (place-give_back e.start e.size (base + heap_size)
          (record h { free_bytes = h.free_bytes + e.size }) v.region.1 l.below l.big fuel (base - 1)
          bs (omega (arith, length-blocks v)) l.above v.blocks v.apart l.free)
        λ h' f. (
          record {
            region = v.region;
            blocks = f.blocks;
            apart = g.apart;
            live =
                AllLive-give_back h.mem h'.mem _ _ bs _ e (before ++ after) g d
                  (λ a low out off. f.same a out off) ls;
            far = ds;
            counted = omega (arith, f.bytes, g.bytes, v.counted);
            total = omega (arith, g.bytes, v.total, sum);
          },
          f.same,
        ))

-- On a heap that was not set up before, in a region aligned to 16 bytes and below 2^60, `init`
-- ends without a panic and makes the whole region one free block of a valid heap with no live
-- allocation.
pub init-whole :
    (base : ℕ) (m : Mem)
    → 16 ≤ base
    → base % 16 ≡ 0
    → base + heap_size ≤ 2 ^ 60
    → Returns
        (λ h. IsValid base h ((base, heap_size) ∷ []) [])
        (init base (record { mem = m; head = null; free_bytes = 0 }))
unfolding init sizes live_bytes
init-whole base m low even top =
    Returns-eq
      {a = record { mem = write_pair m base heap_size null; head = base; free_bytes = heap_size }}
      (ground arith)
      (record {
        region = (low, top);
        blocks = (refl, omega arith, ground arith, ground arith);
        apart = (omega arith, even, refl, omega arith, omega arith, tt);
        live = tt;
        far = tt;
        counted = refl;
        total = refl;
      })

-- `alloc_inner`, and then `dealloc_inner` of what it returned, unless that is null.
abbrev pub alloc_then_dealloc : (fuel size align : ℕ) → Heap → Outcome Heap
alloc_then_dealloc fuel size align h = do
  (p, h') ← alloc_inner fuel size align h
  elim (p == null) [ true ↦ ok h' | false ↦ dealloc_inner fuel p h' ]

-- On a valid heap, with fuel above heap_size / 32: what is allocated and freed at once leaves the
-- free list as it was, coalesced again in full, with the same live allocations.
pub alloc-dealloc :
    (fuel size align base : ℕ) {h : Heap} {bs : List Block} {es : List Live}
    → heap_size / 32 < fuel
    → IsLayout size align
    → IsValid base h bs es
    → Returns (λ h'. IsValid base h' bs es) (alloc_then_dealloc fuel size align h)
alloc-dealloc fuel size align base {h} {bs} {es} rounds l v =
    Returns.bind (alloc_inner_lem fuel size align base rounds l v) λ (p, h'). free p h'
  where
    free :
        (p : ℕ) (h' : Heap)
        → AllocPost base (round_up (max size 1) 16) (max align 16) h bs es (p, h')
        → Returns
            (λ h''. IsValid base h'' bs es)
            (elim (p == null) [ true ↦ ok h' | false ↦ dealloc_inner fuel p h' ])
    free p h' (inl (e, same, none_fits)) = rw e (returns (rw same v))
    free p h' (inr (e, bs', at, al, header, payload, v', undo, words)) =
        rw (ne→==_false p null (omega arith), at)
          (Returns.mono (dealloc_inner_lem fuel base [] e es rounds v')
            λ h'' (v'', off). rw undo at v'')
