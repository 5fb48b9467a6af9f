-- ===== src/Heap/Live.antt =====
-- The heap with its live allocations: what `alloc_inner` and `dealloc_inner` promise.
use osmium.Prelude.{
  ℕ, ◌+◌, ◌-◌, ◌%◌, ◌/◌, ◌*◌, ◌^◌, ◌≤◌, ◌<◌, ◌≡◌, refl, ◌⊎◌, inl, inr, List, [], ◌∷◌, arith, length,
  max, Option, none, some, ◌∙◌,
}
use osmium.Machine.{Mem, null, heap_size}
use osmium.Machine.Returns
use osmium.Machine.Returns.{Returns, returns, Returns-eq}
use osmium.Heap.{Heap, alloc_inner}
use osmium.Heap.Spec.{Block, Taken, Apart, give_back, take_first, sizes, Misses, Outside, round_up}
use osmium.Heap.Spec.Laws.{Took, take_first-Took, take_first-none, NoFit, Search}
use osmium.Heap.Layout.{IsLayout, layout_lem, IsFit}
use osmium.Heap.Blocks.{Blocks}
use osmium.Heap.Alloc.{Allocated, Found, search_fit-take_first}

-- An allocation that has not been freed: the user's address, and the region it was carved from.
pub record Live : Type 0 where
  pub user : ℕ
  pub start : ℕ
  pub size : ℕ

-- Its header tells where the region lies, and the region meets no free block.
pub record IsLive (m : Mem) (lo hi : ℕ) (bs : List Block) (e : Live) : Type 0 where
  pub start_at : m (e.user - 16) ≡ e.start
  pub size_at : m (e.user - 8) ≡ e.size
  pub header : e.start + 16 ≤ e.user
  pub payload : e.user < e.start + e.size
  pub start_even : e.start % 16 ≡ 0
  pub size_even : e.size % 16 ≡ 0
  pub big : 32 ≤ e.size
  pub above : lo < e.start
  pub below : e.start + e.size ≤ hi
  pub free : Misses (e.start, e.size) bs

abbrev pub AllLive : Mem → ℕ → ℕ → List Block → List Live → Type 0
AllLive m lo hi bs [] = Unit {0}
AllLive m lo hi bs (e ∷ es) = IsLive m lo hi bs e × AllLive m lo hi bs es

-- A region that meets no live one.
abbrev pub Far : Live → List Live → Type 0
Far e [] = Unit {0}
Far e (f ∷ es) = ((e.start + e.size ≤ f.start) ⊎ (f.start + f.size ≤ e.start)) × Far e es

abbrev pub AllFar : List Live → Type 0
AllFar [] = Unit {0}
AllFar (e ∷ es) = Far e es × AllFar es

unfoldable pub live_bytes : List Live → ℕ
live_bytes [] = 0
live_bytes (e ∷ es) = e.size + live_bytes es

-- The heap from `base` on is divided into the free blocks and the live regions.
pub record IsValid (base : ℕ) (h : Heap) (bs : List Block) (es : List Live) : Type 0 where
  pub region : (16 ≤ base) × (base + heap_size ≤ 2 ^ 60)
  pub blocks : Blocks h.mem h.head bs
  pub apart : Apart (base - 1) (base + heap_size) bs
  pub live : AllLive h.mem (base - 1) (base + heap_size) bs es
  pub far : AllFar es
  pub counted : h.free_bytes ≡ sizes bs
  pub total : sizes bs + live_bytes es ≡ heap_size

length-Apart : (lo hi : ℕ) (bs : List Block) → lo ≤ hi → Apart lo hi bs → length bs * 32 + lo ≤ hi
length-Apart lo hi [] h p = omega arith
length-Apart lo hi ((s, n) ∷ bs) h p =
    omega (arith, p, length-Apart (s + n) hi bs (omega (arith, p)) p.5)

-- No free list is longer than the smallest blocks that fill the heap.
pub length-blocks :
    {base : ℕ} {h : Heap} {bs : List Block} {es : List Live}
    → IsValid base h bs es
    → length bs ≤ heap_size / 32
length-blocks {base} {bs} v =
    omega (arith, length-Apart (base - 1) (base + heap_size) bs (omega arith) v.apart, v.region)

-- A word of a region that meets no free block lies outside the free blocks.
Outside-of_Misses :
    (a s z : ℕ) (bs : List Block) → s ≤ a → a < s + z → Misses (s, z) bs → Outside a bs
Outside-of_Misses a s z [] lo hi m = tt
Outside-of_Misses a s z ((b, n) ∷ bs) lo hi m =
    (omega (arith, m.0), Outside-of_Misses a s z bs lo hi m.1)

-- An allocation stays live where its words stay and its region keeps off the free blocks.
pub IsLive-keep :
    (m m' : Mem) (lo hi : ℕ) (bs bs' : List Block) (e : Live)
    → IsLive m lo hi bs e
    → Misses (e.start, e.size) bs'
    → ((a : ℕ) → e.start ≤ a → a < e.start + e.size → Outside a bs → m' a ≡ m a)
    → IsLive m' lo hi bs' e
IsLive-keep m m' lo hi bs bs' e l off same = record {
  start_at = word (e.user - 16) (omega (arith, l)) (omega (arith, l)) ∙ l.start_at;
  size_at = word (e.user - 8) (omega (arith, l)) (omega (arith, l)) ∙ l.size_at;
  header = l.header;
  payload = l.payload;
  start_even = l.start_even;
  size_even = l.size_even;
  big = l.big;
  above = l.above;
  below = l.below;
  free = off;
}
  where
    word : (a : ℕ) → e.start ≤ a → a < e.start + e.size → m' a ≡ m a
    word a low high = same a low high (Outside-of_Misses a e.start e.size bs low high l.free)

AllLive-keep :
    (m m' : Mem) (lo hi : ℕ) (bs bs' : List Block) (es : List Live)
    → ((e : Live) → IsLive m lo hi bs e → Misses (e.start, e.size) bs')
    → ((a : ℕ) → lo < a → Outside a bs → m' a ≡ m a)
    → AllLive m lo hi bs es
    → AllLive m' lo hi bs' es
AllLive-keep m m' lo hi bs bs' [] off same l = tt
AllLive-keep m m' lo hi bs bs' (e ∷ es) off same (l, ls) = (
  IsLive-keep m m' lo hi bs bs' e l (off e l)
      (λ a low high out. same a (omega (arith, l.above)) out),
  AllLive-keep m m' lo hi bs bs' es off same ls,
)

-- What an allocation returns: null and an unchanged heap where no free block can hold the request;
-- else the address of a new live allocation, aligned, with room for the payload behind its header,
-- whose region was free and would leave the free list as it was if it were freed at once.
abbrev pub AllocPost : (base need align : ℕ) → Heap → List Block → List Live → ℕ × Heap → Type 0
AllocPost base need align h bs es (p, h') =
    ((p ≡ null) × (h' ≡ h) × NoFit need align bs)
    ⊎ ((e : Live) × (bs' : List Block) × (p ≡ e.user)
        × ((x : ℕ) × (p ≡ round_up x align))
        × (e.start + 16 ≤ p)
        × (p + need ≤ e.start + e.size)
        × IsValid base h' bs' (e ∷ es)
        × (give_back (e.start, e.size) bs' ≡ bs)
        × ((a : ℕ) → base ≤ a → Outside a bs → h'.mem a ≡ h.mem a))

Far-of_Took :
    {need align lo hi : ℕ} {bs bs' : List Block} {t : Taken} (m : Mem) (es : List Live)
    → Took need align lo hi bs t bs'
    → AllLive m lo hi bs es
    → Far (record { user = t.user; start = t.start; size = t.end - t.start }) es
Far-of_Took m [] k l = tt
Far-of_Took m (e ∷ es) k (l, ls) =
    (omega (arith, k.header, k.payload, (k.keeps e.start e.size l.free).1), Far-of_Took m es k ls)

module _ (base need align : ℕ) (h h' : Heap) (bs : List Block) (es : List Live) (p : ℕ) where
  Took-AllocPost :
      IsValid base h bs es
      → IsFit need align
      → (t : Taken) (bs' : List Block) → Took need align (base - 1) (base + heap_size) bs t bs'
      → Allocated null h bs t bs' p h'
      → AllocPost base need align h bs es (p, h')
  unfolding live_bytes
  Took-AllocPost v f t bs' k a =
      let (x, al) = k.aligned in
      let same : (b : ℕ) → base - 1 < b → Outside b bs → h'.mem b ≡ h.mem b =
        λ b low out. a.same b out (omega (arith, v.region)) in
      inr (
        record { user = t.user; start = t.start; size = t.end - t.start },
        bs',
        a.user,
        (x, a.user ∙ al),
        omega (arith, a.user, k.header),
        omega (arith, a.user, k.header, k.payload),
        record {
          region = v.region;
          blocks = a.blocks;
          apart = k.apart;
          live = (
            record {
              start_at = a.start_at;
              size_at = a.size_at;
              header = k.header;
              payload = omega (arith, f.request.positive, k.payload, k.header);
              start_even = k.start_even;
              size_even = omega (arith, k.start_even, k.end_even);
              big = omega (arith, f.request.positive, f.request.granules, k.payload, k.header);
              above = k.above;
              below = omega (arith, k.header, k.payload, k.below);
              free = k.misses;
            },
            AllLive-keep h.mem h'.mem _ _ bs bs' es (λ e l. (k.keeps e.start e.size l.free).0) same
                v.live,
          );
          far = (Far-of_Took h.mem es k v.live, v.far);
          counted = omega (arith, a.bytes, k.bytes, v.counted);
          total = omega (arith, k.bytes, v.total);
        },
        k.undo,
        λ b low out. same b (omega (arith, v.region)) out,
      )

-- For every layout that Rust can pass and a valid heap, with fuel above heap_size / 32,
-- `alloc_inner` ends without a panic and keeps the heap valid: it returns null only if no free
-- block can hold the request, and else an aligned address in a region that no other live
-- allocation and no free block meets, with the words of all other live allocations unchanged.
pub alloc_inner_lem :
    (fuel size align base : ℕ) {h : Heap} {bs : List Block} {es : List Live}
    → heap_size / 32 < fuel
    → IsLayout size align
    → IsValid base h bs es
    → Returns
        (AllocPost base (round_up (max size 1) 16) (max align 16) h bs es)
        (alloc_inner fuel size align h)
unfolding alloc_inner
alloc_inner_lem fuel size align base {h} {bs} {es} rounds l v =
    let (need_eq, f) = layout_lem size align l in
    let need = round_up (max size 1) 16 in
    rw need_eq (
      Returns.mono
        (search_fit-take_first need (max align 16) (base + heap_size) f v.region.1 fuel null
          (base - 1) h.head h bs (omega (arith, length-blocks v)) (inl refl) refl v.blocks v.apart
          (omega (arith, v.counted)))
        (post (take_first need (max align 16) bs) refl f
          (take_first-Took f.request (base - 1) (base + heap_size) bs v.apart)))
  where
    post :
        (o : Option (Taken × List Block))
        → take_first (round_up (max size 1) 16) (max align 16) bs ≡ o
        → IsFit (round_up (max size 1) 16) (max align 16)
        → Search
            (round_up (max size 1) 16)
            (max align 16)
            (base - 1)
            (base + heap_size)
            bs
            (take_first (round_up (max size 1) 16) (max align 16) bs)
        → (r : ℕ × Heap)
        → Found null h bs (take_first (round_up (max size 1) 16) (max align 16) bs) r
        → AllocPost base (round_up (max size 1) 16) (max align 16) h bs es r
    post none e f k (p, h') a = let b = rw e at a in inl (b.0, b.1, take_first-none _ _ bs e)
    post (some (t, bs')) e f k (p, h') a =
        Took-AllocPost base _ _ h h' bs es p v f t bs' (rw e at k) (rw e at a)
