-- ===== src/Heap/Spec.antt =====
-- The free list as a list of (address, size): what `alloc_inner` and `dealloc_inner` do to it.
pub mod Give
pub mod Laws
use osmium.Prelude.{
  ℕ, ◌+◌, ◌-◌, ◌*◌, ◌/◌, ◌%◌, ◌≤◌, ◌<◌, ◌≡◌, ◌⊎◌, List, [], ◌∷◌, ◌++◌, Option, none, some, leb, ltb,
  ◌==◌, if◌then◌else◌,
}

abbrev pub Block : Type 0
Block = ℕ × ℕ

-- The least multiple of `a` that is no less than `x`.
abbrev pub round_up : ℕ → ℕ → ℕ
round_up x a = (x + (a - 1)) / a * a

-- What an allocation takes: the user's address, and the carved region as start and end.
pub record Taken : Type 0 where
  pub user : ℕ
  pub start : ℕ
  pub end : ℕ

-- The remainders that stay free when [`start`, `end`) is carved from a block.
unfoldable pub pieces : Block → (start end : ℕ) → List Block
pieces (s, n) start end =
    (if start == s then [] else (s, start - s) ∷ [])
    ++ (if end == s + n then [] else (end, s + n - end) ∷ [])

-- A remainder of less than 32 bytes goes to the allocation.
unfoldable pub taken : (need align : ℕ) → Block → Taken
taken need align (s, n) =
    let u = round_up (s + 16) align in
    record {
      user = u;
      start = if leb 32 (u - 16 - s) then u - 16 else s;
      end = if leb 32 (s + n - (u + need)) then u + need else s + n;
    }

-- The first block that can hold the header and the aligned payload.
unfoldable pub take_first : (need align : ℕ) → List Block → Option (Taken × List Block)
take_first need align [] = none
take_first need align ((s, n) ∷ bs) =
    if leb (round_up (s + 16) align + need) (s + n)
    then (let t = taken need align (s, n) in some (t, pieces (s, n) t.start t.end ++ bs))
    else elim (take_first need align bs) [ none ↦ none | some (t, bs') ↦ some (t, (s, n) ∷ bs') ]

-- A freed block, merged with the block behind it if they touch.
unfoldable pub join : Block → List Block → List Block
join (start, size) [] = (start, size) ∷ []
join (start, size) ((s, n) ∷ bs) =
    if start + size == s then (start, size + n) ∷ bs else (start, size) ∷ (s, n) ∷ bs

-- A freed block goes to its place by address, merged with the neighbours that it touches.
unfoldable pub give_back : Block → List Block → List Block
give_back (start, size) [] = (start, size) ∷ []
give_back (start, size) ((s, n) ∷ bs) =
    if ltb s start
    then (if s + n == start then join (s, n + size) bs else (s, n) ∷ give_back (start, size) bs)
    else join (start, size) ((s, n) ∷ bs)

unfoldable pub sizes : List Block → ℕ
sizes [] = 0
sizes ((s, n) ∷ bs) = n + sizes bs

-- Blocks of whole granules in address order behind `lo` and up to `hi`, none touching the next.
abbrev pub Apart : ℕ → ℕ → List Block → Type 0
Apart lo hi [] = Unit {0}
Apart lo hi ((s, n) ∷ bs) =
    (lo < s) × (s % 16 ≡ 0) × (n % 16 ≡ 0) × (32 ≤ n) × (s + n ≤ hi) × Apart (s + n) hi bs

-- A region that meets no block.
abbrev pub Misses : Block → List Block → Type 0
Misses r [] = Unit {0}
Misses r ((s, n) ∷ bs) = ((r.0 + r.1 ≤ s) ⊎ (s + n ≤ r.0)) × Misses r bs

-- An address in no block.
abbrev pub Outside : ℕ → List Block → Type 0
Outside a [] = Unit {0}
Outside a ((s, n) ∷ bs) = ((a < s) ⊎ (s + n ≤ a)) × Outside a bs
