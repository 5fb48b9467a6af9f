-- ===== src/Heap/Spec/Laws.antt =====
-- The list operations keep the blocks apart, account for every byte, and undo one another.
use osmium.Prelude.{
  ℕ, ◌+◌, ◌-◌, ◌%◌, ◌≤◌, ◌<◌, ◌≡◌, ◌≢◌, refl, ◌⊎◌, inl, inr, List, [], ◌∷◌, ◌++◌, Option, none,
  some, leb, ◌==◌, arith, Bool-cases,
}
use osmium.Heap.Spec.{
  Block, round_up, Taken, pieces, taken, take_first, join, give_back, sizes, Apart, Misses,
}

-- A request: a positive multiple of the granule, and an alignment that is one too.
pub record IsRequest (need align : ℕ) : Type 0 where
  pub positive : 0 < need
  pub granules : need % 16 ≡ 0
  pub wide : 16 ≤ align
  pub even : (x : ℕ) → round_up x align % 16 ≡ 0

pub round_up-ge : (x a : ℕ) → 0 < a → x ≤ round_up x a
round_up-ge x a h = grind arith

-- What is taken from the block that fits.
pub record IsTaken (need align : ℕ) (b : Block) (t : Taken) : Type 0 where
  pub user_eq : t.user ≡ round_up (b.0 + 16) align
  pub inside : b.0 ≤ t.start
  pub header : t.start + 16 ≤ t.user
  pub payload : t.user + need ≤ t.end
  pub within : t.end ≤ b.0 + b.1
  pub front : (t.start ≡ b.0) ⊎ (b.0 + 32 ≤ t.start)
  pub back : (t.end ≡ b.0 + b.1) ⊎ (t.end + 32 ≤ b.0 + b.1)
  pub start_even : t.start % 16 ≡ 0
  pub end_even : t.end % 16 ≡ 0

module _ {need align : ℕ} (r : IsRequest need align) (s n : ℕ) where
  pub taken-IsTaken :
      s % 16 ≡ 0
      → n % 16 ≡ 0
      → round_up (s + 16) align + need ≤ s + n
      → IsTaken need align (s, n) (taken need align (s, n))
  unfolding taken
  taken-IsTaken hs hn fits =
      ground (arith, round_up-ge (s + 16) align, r.even (s + 16), r.wide, r.granules, r.positive)

-- Where the carved region lies, what stays free, and that freeing it brings the list back.
pub record Took (need align lo hi : ℕ) (bs : List Block) (t : Taken) (bs' : List Block)
    : Type 0 where
  pub above : lo < t.start
  pub header : t.start + 16 ≤ t.user
  pub payload : t.user + need ≤ t.end
  pub below : t.end ≤ hi
  pub start_even : t.start % 16 ≡ 0
  pub end_even : t.end % 16 ≡ 0
  pub aligned : (x : ℕ) × (t.user ≡ round_up x align)
  pub apart : Apart lo hi bs'
  pub bytes : sizes bs' + (t.end - t.start) ≡ sizes bs
  pub misses : Misses (t.start, t.end - t.start) bs'
  pub undo : give_back (t.start, t.end - t.start) bs' ≡ bs
  pub keeps : (a z : ℕ) → Misses (a, z) bs → Misses (a, z) bs' × ((a + z ≤ t.start) ⊎ (t.end ≤ a))

Misses_of_Apart : (a z lo hi : ℕ) (bs : List Block) → a + z ≤ lo → Apart lo hi bs → Misses (a, z) bs
Misses_of_Apart a z lo hi [] h p = tt
Misses_of_Apart a z lo hi ((s, n) ∷ bs) h p =
    (omega (arith, p.0), Misses_of_Apart a z (s + n) hi bs (omega (arith, p.0)) p.5)

pub Apart-mono : (lo lo' hi : ℕ) (bs : List Block) → lo' ≤ lo → Apart lo hi bs → Apart lo' hi bs
Apart-mono lo lo' hi [] h p = p
Apart-mono lo lo' hi ((s, n) ∷ bs) h p = (omega (arith, p.0), p.1, p.2, p.3, p.4, p.5)

-- A block below all others is put in front as it is, unless it touches the first.
give_back-below :
    (a z lo hi : ℕ) (bs : List Block)
    → a + z ≤ lo
    → Apart lo hi bs
    → give_back (a, z) bs ≡ (a, z) ∷ bs
unfolding give_back join
give_back-below a z lo hi [] h p = refl
give_back-below a z lo hi ((s, n) ∷ bs) h p = ground (arith, p.0)

join-below :
    (a z lo hi : ℕ) (bs : List Block) → a + z ≤ lo → Apart lo hi bs → join (a, z) bs ≡ (a, z) ∷ bs
unfolding join
join-below a z lo hi [] h p = refl
join-below a z lo hi ((s, n) ∷ bs) h p = ground (arith, p.0)

module _ (s n start end : ℕ) (bs : List Block) where
  -- The four shapes of the remainder.
  pieces-cases :
      (P : List Block → Type 0)
      → (start ≡ s → end ≡ s + n → P bs)
      → (start ≡ s → end ≢ s + n → P ((end, s + n - end) ∷ bs))
      → (start ≢ s → end ≡ s + n → P ((s, start - s) ∷ bs))
      → (start ≢ s → end ≢ s + n → P ((s, start - s) ∷ (end, s + n - end) ∷ bs))
      → P (pieces (s, n) start end ++ bs)
  unfolding pieces
  pieces-cases P none_left back front both = elim (Bool-cases (start == s)) [
    | inl e ↦ elim (Bool-cases (end == s + n)) [
      | inl d ↦ rw (e, d) (none_left (ground arith) (ground arith))
      | inr d ↦ rw (e, d) (back (ground arith) (ground arith))
    ]
    | inr e ↦ elim (Bool-cases (end == s + n)) [
      | inl d ↦ rw (e, d) (front (ground arith) (ground arith))
      | inr d ↦ rw (e, d) (both (ground arith) (ground arith))
    ]
  ]

module _ (need align lo hi s n : ℕ) (bs : List Block) {t : Taken} where
  pieces-Took :
      IsTaken need align (s, n) t
      → Apart lo hi ((s, n) ∷ bs)
      → 0 < need
      → Took need align lo hi ((s, n) ∷ bs) t (pieces (s, n) t.start t.end ++ bs)
  unfolding sizes give_back join
  pieces-Took k (low, hs, hn, big, top, rest) pos = record {
    above = omega (arith, low, k.inside);
    header = k.header;
    payload = k.payload;
    below = omega (arith, top, k.within);
    start_even = k.start_even;
    end_even = k.end_even;
    aligned = (s + 16, k.user_eq);
    apart =
        pieces-cases s n t.start t.end bs (Apart lo hi)
          (λ e d. Apart-mono (s + n) lo hi bs (omega arith) rest)
          (λ e d.
            let r =
              Apart-mono (s + n) (t.end + (s + n - t.end)) hi bs (omega (arith, k.within)) rest in
            ground (arith, k.back, r))
          (λ e d.
            let r = Apart-mono (s + n) (s + (t.start - s)) hi bs (omega (arith, k.within)) rest in
            ground (arith, k.front, r))
          (λ e d.
            let r =
              Apart-mono (s + n) (t.end + (s + n - t.end)) hi bs (omega (arith, k.within)) rest in
            ground (arith, k.front, k.back, r));
    bytes =
        pieces-cases s n t.start t.end bs (λ l. sizes l + (t.end - t.start) ≡ n + sizes bs)
          (λ e d. omega (arith, k)) (λ e d. omega (arith, k)) (λ e d. omega (arith, k))
          (λ e d. omega (arith, k));
    misses =
        let r =
          Misses_of_Apart t.start (t.end - t.start) (s + n) hi bs (omega (arith, k.within)) rest in
        pieces-cases s n t.start t.end bs (Misses (t.start, t.end - t.start)) (λ e d. r)
          (λ e d. (omega (arith, k), r)) (λ e d. (omega (arith, k), r))
          (λ e d. (omega (arith, k), (omega (arith, k), r)));
    undo =
        pieces-cases s n t.start t.end bs
          (λ l. give_back (t.start, t.end - t.start) l ≡ (s, n) ∷ bs)
          (λ e d. ground (
            arith,
            k,
            give_back-below t.start (t.end - t.start) (s + n) hi bs (omega (arith, k)) rest,
          ))
          (λ e d. ground (arith, k))
          (λ e d. ground (arith, k, join-below s n (s + n) hi bs (omega arith) rest))
          (λ e d. ground (arith, k));
    keeps = λ a z (m, ms). (
      pieces-cases s n t.start t.end bs (Misses (a, z)) (λ e d. ms) (λ e d. (omega (arith, k), ms))
          (λ e d. (omega (arith, k), ms)) (λ e d. (omega (arith, k), (omega (arith, k), ms))),
      omega (arith, k),
    );
  }

-- The result of a search, as a predicate on the option.
abbrev pub Search : (need align lo hi : ℕ) → List Block → Option (Taken × List Block) → Type 0
Search need align lo hi bs none = Unit {0}
Search need align lo hi bs (some (t, bs')) = Took need align lo hi bs t bs'

module _ {need align : ℕ} (r : IsRequest need align) where
  Took-cons :
      (lo hi s n : ℕ) (bs : List Block) {t : Taken} {bs' : List Block}
      → Apart lo hi ((s, n) ∷ bs)
      → Took need align (s + n) hi bs t bs'
      → Took need align lo hi ((s, n) ∷ bs) t ((s, n) ∷ bs')
  unfolding sizes give_back
  Took-cons lo hi s n bs (low, hs, hn, big, top, rest) k = record {
    above = omega (arith, k.above);
    header = k.header;
    payload = k.payload;
    below = k.below;
    start_even = k.start_even;
    end_even = k.end_even;
    aligned = k.aligned;
    apart = (low, hs, hn, big, top, k.apart);
    bytes = omega (arith, k.bytes);
    misses = (omega (arith, k.above), k.misses);
    undo = ground (arith, k.above, k.undo);
    keeps = λ a z (m, ms). let (ms', apart) = k.keeps a z ms in ((m, ms'), apart);
  }

  -- What the first fit takes, if any.
  pub take_first-Took :
      (lo hi : ℕ) (bs : List Block)
      → Apart lo hi bs
      → Search need align lo hi bs (take_first need align bs)
  unfolding take_first
  take_first-Took lo hi [] p = tt
  take_first-Took lo hi ((s, n) ∷ bs) p =
      elim (Bool-cases (leb (round_up (s + 16) align + need) (s + n))) [
        | inl fits ↦ rw fits (
            pieces-Took need align lo hi s n bs (taken-IsTaken r s n p.1 p.2 (ground arith)) p
              r.positive)
        | inr no_fit ↦
            rw no_fit (later (take_first need align bs) (take_first-Took (s + n) hi bs p.5))
      ]
    where
      later :
          (o : Option (Taken × List Block))
          → Search need align (s + n) hi bs o
          → Search need align lo hi
              ((s, n) ∷ bs)
              (elim o [ none ↦ none | some (t, bs') ↦ some (t, (s, n) ∷ bs') ])
      later none k = tt
      later (some (t, bs')) k = Took-cons lo hi s n bs p k

-- No block can hold the request.
abbrev pub NoFit : (need align : ℕ) → List Block → Type 0
NoFit need align [] = Unit {0}
NoFit need align ((s, n) ∷ bs) = (s + n < round_up (s + 16) align + need) × NoFit need align bs

pub take_first-none :
    (need align : ℕ) (bs : List Block) → take_first need align bs ≡ none → NoFit need align bs
unfolding take_first
take_first-none need align [] h = tt
take_first-none need align ((s, n) ∷ bs) h =
    (ground arith, take_first-none need align bs (ground arith))
