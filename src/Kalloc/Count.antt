-- ===== src/Kalloc/Count.antt =====
-- Distinct pages below a bound are no more than fit there, so the count of free pages cannot
-- overflow.
use osmium.Prelude.{
  ℕ, zero, suc, ◌+◌, ◌*◌, ◌%◌, ◌≤◌, ◌<◌, ◌≡◌, refl, List, [], ◌∷◌, length, false, ◌==◌,
  if◌then◌else◌, arith,
}
use osmium.Kalloc.Chain.{ArePages, has, Distinct}

erase : ℕ → List ℕ → List ℕ
erase q [] = []
erase q (r ∷ ps) = if q == r then ps else r ∷ erase q ps

-- Pages with a number below `n`.
abbrev Below : ℕ → List ℕ → Type 0
Below n [] = Unit {0}
Below n (q ∷ ps) = (q % 4096 ≡ 0) × (q < n * 4096) × Below n ps

length-le-erase : (q : ℕ) (ps : List ℕ) → length ps ≤ length (erase q ps) + 1
unfolding erase
length-le-erase q [] = omega arith
length-le-erase q (r ∷ ps) = ground (arith, length-le-erase q ps)

not-has-erase : (a q : ℕ) (ps : List ℕ) → has a ps ≡ false → has a (erase q ps) ≡ false
unfolding erase
not-has-erase a q [] h = refl
not-has-erase a q (r ∷ ps) h = ground (arith, not-has-erase a q ps)

Distinct-erase : (q : ℕ) (ps : List ℕ) → Distinct ps → Distinct (erase q ps)
unfolding erase
Distinct-erase q [] d = d
Distinct-erase q (r ∷ ps) d = ground (arith, not-has-erase r q ps, Distinct-erase q ps d.1)

Below-pred : (n : ℕ) (ps : List ℕ) → has (n * 4096) ps ≡ false → Below (suc n) ps → Below n ps
Below-pred n [] out b = b
Below-pred n (q ∷ ps) out b = (b.0, ground (arith, b.1, b.0), Below-pred n ps (ground arith) b.2)

Below-erase : (n : ℕ) (ps : List ℕ) → Distinct ps → Below (suc n) ps → Below n (erase (n * 4096) ps)
unfolding erase
Below-erase n [] d b = b
Below-erase n (q ∷ ps) d b = ground (arith, Below-pred n ps, Below-erase n ps d.1 b.2, b.0, b.1)

length-le_of_Below : (n : ℕ) (ps : List ℕ) → Distinct ps → Below n ps → length ps ≤ n
length-le_of_Below zero [] d b = omega arith
length-le_of_Below zero (q ∷ ps) d b = absurd (omega (arith, b.1))
length-le_of_Below (suc n) ps d b = omega (
  arith,
  length-le-erase (n * 4096) ps,
  length-le_of_Below n (erase (n * 4096) ps) (Distinct-erase (n * 4096) ps d)
      (Below-erase n ps d b),
)

Below-of_ArePages : (kernel_end : ℕ) (ps : List ℕ) → ArePages kernel_end ps → Below 557056 ps
Below-of_ArePages kernel_end [] pg = pg
Below-of_ArePages kernel_end (q ∷ ps) pg =
    (pg.0.aligned, omega (arith, pg.0.below), Below-of_ArePages kernel_end ps pg.1)

pub length-ArePages :
    (kernel_end : ℕ) (ps : List ℕ) → Distinct ps → ArePages kernel_end ps → length ps ≤ 557056
length-ArePages kernel_end ps d pg = length-le_of_Below _ ps d (Below-of_ArePages kernel_end ps pg)
