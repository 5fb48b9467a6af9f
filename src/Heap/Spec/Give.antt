-- ===== src/Heap/Spec/Give.antt =====
-- Giving a region back keeps the blocks apart and accounts for its bytes.
use osmium.Prelude.{
  ℕ, ◌+◌, ◌%◌, ◌≤◌, ◌<◌, ◌≡◌, ◌≢◌, refl, ◌⊎◌, inl, inr, List, [], ◌∷◌, ltb, ◌==◌, arith, Bool-cases,
}
use osmium.Heap.Spec.{Block, join, give_back, sizes, Apart, Misses}

-- The first block, if any, starts at `e` or behind it.
abbrev Above : ℕ → List Block → Type 0
Above e [] = Unit {0}
Above e ((s, n) ∷ bs) = e ≤ s

record IsRegion (lo hi a z : ℕ) : Type 0 where
  pub start_even : a % 16 ≡ 0
  pub size_even : z % 16 ≡ 0
  pub big : 32 ≤ z
  pub above : lo < a
  pub below : a + z ≤ hi

join-Apart :
    (lo lo' hi a z : ℕ) (bs : List Block)
    → IsRegion lo hi a z
    → Above (a + z) bs
    → Apart lo' hi bs
    → Apart lo hi (join (a, z) bs)
unfolding join
join-Apart lo lo' hi a z [] r u p = (r.above, r.start_even, r.size_even, r.big, r.below, tt)
join-Apart lo lo' hi a z ((s, n) ∷ bs) r u p = elim (Bool-cases (a + z == s)) [
  | inl e ↦
      let at : a + z ≡ s = ground arith in
      let same : a + (z + n) ≡ s + n = omega arith in
      rw e (
        r.above,
        r.start_even,
        omega (arith, p, r),
        omega (arith, r),
        omega (arith, p),
        rw same p.5,
      )
  | inr e ↦
      let ne : a + z ≢ s = ground arith in
      rw e
        (r.above, r.start_even, r.size_even, r.big, r.below, (omega arith, p.1, p.2, p.3, p.4, p.5))
]

sizes-join : (a z : ℕ) (bs : List Block) → sizes (join (a, z) bs) ≡ z + sizes bs
unfolding join sizes
sizes-join a z [] = refl
sizes-join a z ((s, n) ∷ bs) = elim (Bool-cases (a + z == s)) [
  | inl e ↦ rw e (omega arith)
  | inr e ↦ rw e
]

join-Misses :
    (a z b y : ℕ) (bs : List Block)
    → Misses (b, y) bs
    → (b + y ≤ a) ⊎ (a + z ≤ b)
    → 0 < y
    → Above (a + z) bs
    → Misses (b, y) (join (a, z) bs)
unfolding join
join-Misses a z b y [] m d pos u = (d, tt)
join-Misses a z b y ((s, n) ∷ bs) m d pos u = elim (Bool-cases (a + z == s)) [
  | inl e ↦ let at : a + z ≡ s = ground arith in rw e (omega (arith, m.0), m.1)
  | inr e ↦ rw e (d, m)
]

-- What holds of the list after a region is given back.
pub record Gave (lo hi a z : ℕ) (bs bs' : List Block) : Type 0 where
  pub apart : Apart lo hi bs'
  pub bytes : sizes bs' ≡ z + sizes bs
  pub keeps : (b y : ℕ) → 0 < y → Misses (b, y) bs → (b + y ≤ a) ⊎ (a + z ≤ b) → Misses (b, y) bs'

Above-of_Misses :
    (a z lo hi : ℕ) (bs : List Block)
    → Misses (a, z) bs
    → Apart lo hi bs
    → a ≤ lo
    → 0 < z
    → Above (a + z) bs
Above-of_Misses a z lo hi [] m p h pos = tt
Above-of_Misses a z lo hi ((s, n) ∷ bs) m p h pos = omega (arith, m.0, p)

join-Gave :
    (lo lo' hi a z : ℕ) (bs : List Block)
    → IsRegion lo hi a z
    → Above (a + z) bs
    → Apart lo' hi bs
    → Gave lo hi a z bs (join (a, z) bs)
join-Gave lo lo' hi a z bs r u p = record {
  apart = join-Apart lo lo' hi a z bs r u p;
  bytes = sizes-join a z bs;
  keeps = λ b y pos m d. join-Misses a z b y bs m d pos u;
}

pub give_back-Gave :
    (lo hi a z : ℕ) (bs : List Block)
    → a % 16 ≡ 0
    → z % 16 ≡ 0
    → 32 ≤ z
    → lo < a
    → a + z ≤ hi
    → Misses (a, z) bs
    → Apart lo hi bs
    → Gave lo hi a z bs (give_back (a, z) bs)
unfolding give_back sizes
give_back-Gave lo hi a z [] ha hz big low top m p = record {
  apart = (low, ha, hz, big, top, tt);
  bytes = refl;
  keeps = λ b y pos m d. (d, tt);
}
give_back-Gave lo hi a z ((s, n) ∷ bs) ha hz big low top m p = elim (Bool-cases (ltb s a)) [
  | inl before ↦ elim (Bool-cases (s + n == a)) [
    | inl touch ↦
        let at : s + n ≡ a = ground arith in
        let sum : s + (n + z) ≡ a + z = omega arith in
        let above : Above (a + z) bs =
          Above-of_Misses a z (s + n) hi bs m.1 p.5 (omega arith) (omega arith) in
        let g =
          join-Gave lo (s + n) hi s (n + z) bs
            (record {
              start_even = p.1;
              size_even = omega (arith, p);
              big = omega arith;
              above = p.0;
              below = omega arith;
            })
            (rw sum above) p.5 in
        rw (before, touch)
          (record {
            apart = g.apart;
            bytes = omega (arith, g.bytes);
            keeps = λ b y pos (m0, ms) d. g.keeps b y pos ms (omega arith);
          })
    | inr gap ↦
        let ne : s + n ≢ a = ground arith in
        let lt : s < a = ground arith in
        let g = give_back-Gave (s + n) hi a z bs ha hz big (omega (arith, m.0)) top m.1 p.5 in
        rw (before, gap)
          (record {
            apart = (p.0, p.1, p.2, p.3, p.4, g.apart);
            bytes = omega (arith, g.bytes);
            keeps = λ b y pos (m0, ms) d. (m0, g.keeps b y pos ms d);
          })
  ]
  | inr behind ↦
      let ge : a ≤ s = ground arith in
      let above : a + z ≤ s = omega (arith, m.0, p.3) in
      rw behind (
        join-Gave lo lo hi a z ((s, n) ∷ bs)
          (record { start_even = ha; size_even = hz; big = big; above = low; below = top }) above p)
]
