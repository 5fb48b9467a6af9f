-- ===== src/Heap/Dealloc.antt =====
-- The steps of `dealloc_inner` on the list in memory.
use osmium.Prelude.{
  ℕ, ◌+◌, ◌^◌, ◌≤◌, ◌<◌, ◌≡◌, ◌≢◌, inl, inr, Bool, true, false, not, ◌&&◌, List, [], ◌∷◌, arith,
  if◌then◌else◌, ◌==◌, Bool-cases, ap,
}
use osmium.Machine.{Mem, null, ok, add, store}
use osmium.Heap.{Heap, insert, write_pair}
use osmium.Heap.Spec.{Block, Apart, join}
use osmium.Heap.Spec.Laws.{Apart-mono}
use osmium.Heap.Blocks.{Blocks}

-- Whether the freed block touches the one behind it, and by how much that makes it grow.
abbrev pub touches : (end cur : ℕ) → Bool
touches end cur = not (cur == null) && (end == cur)

abbrev pub growth : (end cur : ℕ) → Mem → ℕ
growth end cur m = if touches end cur then m cur else 0

abbrev pub next_of : (end cur : ℕ) → Mem → ℕ
next_of end cur m = if touches end cur then m (cur + 8) else cur

-- The blocks behind the one that `join` makes.
pub left_over : ℕ → List Block → List Block
left_over end [] = []
left_over end ((s, n) ∷ bs) = if end == s then bs else (s, n) ∷ bs

module _ (m : Mem) (lo hi end : ℕ) where
  pub join-left_over :
      (a z cur : ℕ) (bs : List Block)
      → a + z ≡ end
      → Blocks m cur bs
      → join (a, z) bs ≡ (a, z + growth end cur m) ∷ left_over end bs
  unfolding join left_over
  join-left_over a z cur [] e b = ground (arith, b)
  join-left_over a z cur ((s, n) ∷ bs) e b = ground (arith, b.0, b.1, b.2)

  pub left_over-Blocks :
      (cur : ℕ) (bs : List Block)
      → Blocks m cur bs
      → Blocks m (next_of end cur m) (left_over end bs)
  unfolding left_over
  left_over-Blocks cur [] b = ground (arith, b)
  left_over-Blocks cur ((s, n) ∷ bs) b = elim (Bool-cases (end == s)) [
    | inl e ↦
        let t : touches end cur ≡ true = ground (arith, b.0, b.1) in
        let c : cur ≡ s = b.0 in rw (e, t, c) b.3
    | inr e ↦ let t : touches end cur ≡ false = ground (arith, b.0, b.1) in rw (e, t) b
  ]

  pub left_over-Apart :
      (bs : List Block) → lo < end → Apart lo hi bs → Apart lo hi (left_over end bs)
  unfolding left_over
  left_over-Apart [] h p = p
  left_over-Apart ((s, n) ∷ bs) h p = elim (Bool-cases (end == s)) [
    | inl e ↦ rw e (Apart-mono (s + n) lo hi bs (omega (arith, p)) p.5)
    | inr e ↦ rw e p
  ]

-- The memory once the freed block carries its header.
abbrev pub headed : (start size cur : ℕ) → Mem → Mem
headed start size cur m =
    write_pair m start (size + growth (start + size) cur m) (next_of (start + size) cur m)

module _ (start size cur : ℕ) (h : Heap)
    (small : size + growth (start + size) cur h.mem ≤ 2 ^ 62) where
  grown :
      (if touches (start + size) cur then add size (h.mem cur) else ok size)
      ≡ ok (size + growth (start + size) cur h.mem)
  grown = elim (Bool-cases (touches (start + size) cur)) [
    | inl t ↦ let b : size + h.mem cur ≤ 2 ^ 62 = rw t at small in rw t (ground arith)
    | inr t ↦ rw t (ap ok (omega arith))
  ]

  pub insert-head :
      insert start size (start + size) null cur h
      ≡ ok (record h { mem = headed start size cur h.mem; head = start })
  unfolding insert
  insert-head = rw grown

  module _ (prev : ℕ) (live : prev ≢ null) (ahead : prev + 16 ≤ start)
      (short : prev + h.mem prev ≤ start) (low : start ≤ 2 ^ 62) where
    alive : (prev == null) ≡ false
    alive = ground arith

    reach : add prev (headed start size cur h.mem prev) ≡ ok (prev + h.mem prev)
    reach = ground arith

    pub insert-link :
        prev + h.mem prev ≢ start
        → insert start size (start + size) prev cur h
          ≡ ok (record h { mem = store (headed start size cur h.mem) (prev + 8) start })
    unfolding insert
    insert-link gap =
        let apart : (prev + h.mem prev == start) ≡ false = ground arith in
        rw (grown, alive, reach, apart)

    pub insert-merge :
        prev + h.mem prev ≡ start
        → insert start size (start + size) prev cur h
          ≡ ok (record h {
            mem =
                write_pair
                  (headed start size cur h.mem)
                  prev
                  (h.mem prev + (size + growth (start + size) cur h.mem))
                  (next_of (start + size) cur h.mem);
          })
    unfolding insert
    insert-merge touch =
        let apart : (prev + h.mem prev == start) ≡ true = ground arith in
        let whole : add (headed start size cur h.mem prev) (size + growth (start + size) cur h.mem)
            ≡ ok (h.mem prev + (size + growth (start + size) cur h.mem)) =
          ground arith in
        rw (grown, alive, reach, apart, whole)
