-- ===== src/Sched/Pick.antt =====
-- The round-robin scan: which slot it picks, and that a runnable process is not passed over for
-- long.
use osmium.Prelude.{
  ℕ, zero, suc, ◌+◌, ◌-◌, ◌*◌, ◌%◌, ◌≤◌, ◌<◌, ◌≡◌, ◌≢◌, refl, sym, ap, ◌∙◌, ◌⊎◌, inl, inr, Option,
  none, some, length, get_elem?, arith, true, subst, Bool-cases, dec_lt,
}
use native.Mathlib.Nat.{mod-eq_of_lt, add-mul-mod_self_left}
use osmium.Sched.{Process, Slots, Scheduler, scan, pick, is_runnable}
use osmium.Sched.Slots.{At, At-bound, some-inj, none≢some, true≢false}

-- Slot `i` holds a runnable process.
abbrev pub IsReady : Slots → ℕ → Type 0
IsReady xs i = (p : Process) × At xs i p × (is_runnable p.state ≡ true)

-- The slot that stands `d` places behind `next`, counted round the table.
abbrev pub nth : (next n d : ℕ) → ℕ
nth next n d = (next + d) % n

-- How far round the table slot `i` stands behind `next`.
abbrev pub distance : (next n i : ℕ) → ℕ
distance next n i = (i + (n - next)) % n

pub mod_wrap : (a n : ℕ) → n ≤ a → a < n + n → a % n ≡ a - n
mod_wrap a n low high =
    let shift : (a - n + n * 1) % n ≡ (a - n) % n = add-mul-mod_self_left (a - n) n 1 in
    let is : a - n + n * 1 ≡ a = omega arith in
    sym (ap (λ k. k % n) is) ∙ shift ∙ mod-eq_of_lt (omega arith)

-- Every slot is met, at its distance.
pub nth-distance : (next n i : ℕ) → next ≤ n → i < n → nth next n (distance next n i) ≡ i
nth-distance next n i low high = elim (dec_lt i next) [
  | yes l ↦
      let d : distance next n i ≡ i + (n - next) = mod-eq_of_lt (omega arith) in
      rw d (mod_wrap (next + (i + (n - next))) n (omega arith) (omega arith) ∙ omega arith)
  | no l ↦
      let d : distance next n i ≡ i - next =
        mod_wrap (i + (n - next)) n (omega arith) (omega arith) ∙ omega arith in
      rw d (ap (λ k. k % n) (omega arith) ∙ mod-eq_of_lt high)
]

-- What a scan of the `left` last slots of the round finds.
pub data Found (xs : Slots) (next : ℕ) : (left i : ℕ) → Option ℕ → Type 0 where
  nobody :
      {left i : ℕ}
      → ((d : ℕ) → i ≤ d → d < i + left → ¬ IsReady xs (nth next (length xs) d))
      → Found xs next left i none
  first :
      {left i : ℕ} (d : ℕ)
      → i ≤ d
      → d < i + left
      → IsReady xs (nth next (length xs) d)
      → ((e : ℕ) → i ≤ e → e < d → ¬ IsReady xs (nth next (length xs) e))
      → Found xs next left i (some (nth next (length xs) d))

abbrev NoneIn : Slots → (next from to : ℕ) → Type 0
NoneIn xs next from to = (d : ℕ) → from ≤ d → d < to → ¬ IsReady xs (nth next (length xs) d)

NoneIn-before :
    (xs : Slots) (next i to : ℕ)
    → ¬ IsReady xs (nth next (length xs) i)
    → NoneIn xs next (suc i) to
    → NoneIn xs next i to
NoneIn-before xs next i to bad none_in d low high ready = elim (dec_lt i d) [
  | yes l ↦ none_in d l high ready
  | no l ↦
      let at : d ≡ i = omega arith in
      bad (subst (λ k. IsReady xs (nth next (length xs) k)) at ready)
]

skip :
    (xs : Slots) (next left i : ℕ) {r : Option ℕ}
    → ¬ IsReady xs (nth next (length xs) i)
    → Found xs next left (suc i) r
    → Found xs next (suc left) i r
skip xs next left i bad (nobody none_behind) =
    nobody
      (NoneIn-before xs next i (i + suc left) bad λ d low high. none_behind d low (omega arith))
skip xs next left i bad (first d low high ready none_before) =
    first d (omega arith) (omega arith) ready (NoneIn-before xs next i d bad none_before)

scan_round :
    (left i next : ℕ) (xs : Slots) (o : Option (Option Process))
    → get_elem? xs (nth next (length xs) i) ≡ o
    → (IsReady xs (nth next (length xs) i)
        × (scan (suc left) i next xs ≡ some (nth next (length xs) i)))
      ⊎ ((¬ IsReady xs (nth next (length xs) i))
          × (scan (suc left) i next xs ≡ scan left (suc i) next xs))
unfolding scan
scan_round left i next xs none e = inr ((λ (p, a, t). none≢some (sym e ∙ a)), rw (e, scan) refl)
scan_round left i next xs (some none) e =
    inr ((λ (p, a, t). none≢some (some-inj (sym e ∙ a))), rw (e, scan) refl)
scan_round left i next xs (some (some p)) e = elim (Bool-cases (is_runnable p.state)) [
  | inl t ↦ inl ((p, e, t), rw (e, scan, t) refl)
  | inr t ↦ inr (
    (λ (q, b, u).
        true≢false (sym u ∙ ap (λ x. is_runnable x.state) (some-inj (some-inj (sym b ∙ e))) ∙ t)),
    rw (e, scan, t) refl,
  )
]

scan-zero : (i next : ℕ) (xs : Slots) → scan zero i next xs ≡ none
unfolding scan
scan-zero i next xs = refl

pub scan-Found : (left i next : ℕ) (xs : Slots) → Found xs next left i (scan left i next xs)
scan-Found zero i next xs = rw (scan-zero i next xs) (nobody (λ d low high. absurd (omega arith)))
scan-Found (suc left) i next xs =
    elim (scan_round left i next xs (get_elem? xs (nth next (length xs) i)) refl) [
      | inl (ready, e) ↦
          rw e (first i (omega arith) (omega arith) ready (λ d low high. absurd (omega arith)))
      | inr (bad, e) ↦ rw e (skip xs next left i bad (scan-Found left (suc i) next xs))
    ]

distance-cases :
    (next n i : ℕ)
    → next ≤ n
    → i < n
    → ((i < next) × (distance next n i ≡ i + (n - next)))
      ⊎ ((next ≤ i) × (distance next n i ≡ i - next))
distance-cases next n i low high = elim (dec_lt i next) [
  | yes l ↦ inl (l, mod-eq_of_lt (omega arith))
  | no l ↦ inr (omega arith, mod_wrap (i + (n - next)) n (omega arith) (omega arith) ∙ omega arith)
]

distance-lt : (next n i : ℕ) → next ≤ n → i < n → distance next n i < n
distance-lt next n i low high = elim (distance-cases next n i low high) [
  | inl (l, e) ↦ omega (arith, e)
  | inr (l, e) ↦ omega (arith, e)
]

distance-nth : (next n d : ℕ) → next ≤ n → d < n → distance next n (nth next n d) ≡ d
distance-nth next n d low high = elim (dec_lt (next + d) n) [
  | yes l ↦
      let at : nth next n d ≡ next + d = mod-eq_of_lt l in
      rw at (mod_wrap (next + d + (n - next)) n (omega arith) (omega arith) ∙ omega arith)
  | no l ↦
      let at : nth next n d ≡ next + d - n = mod_wrap (next + d) n (omega arith) (omega arith) in
      rw at (ap (λ k. k % n) (omega arith) ∙ mod-eq_of_lt high)
]

-- Where the scan moves on to behind `i`, all that stood behind `i` come nearer.
pub distance-next :
    (next n i j : ℕ)
    → next ≤ n
    → i < n
    → j < n
    → i ≢ j
    → distance next n i ≤ distance next n j
    → distance (i + 1) n j < distance next n j
distance-next next n i j low hi hj ne order = elim (distance-cases next n i low hi) [
  | inl (a, e) ↦ elim (distance-cases next n j low hj) [
    | inl (b, f) ↦ elim (distance-cases (i + 1) n j (omega arith) hj) [
      | inl (c, g) ↦ omega (arith, e, f, g)
      | inr (c, g) ↦ omega (arith, e, f, g)
    ]
    | inr (b, f) ↦ absurd (omega (arith, e, f))
  ]
  | inr (a, e) ↦ elim (distance-cases next n j low hj) [
    | inl (b, f) ↦ elim (distance-cases (i + 1) n j (omega arith) hj) [
      | inl (c, g) ↦ omega (arith, e, f, g)
      | inr (c, g) ↦ omega (arith, e, f, g)
    ]
    | inr (b, f) ↦ elim (distance-cases (i + 1) n j (omega arith) hj) [
      | inl (c, g) ↦ omega (arith, e, f, g)
      | inr (c, g) ↦ omega (arith, e, f, g)
    ]
  ]
]

-- What `pick` says of the table: nobody is ready, or who is ready and next in turn.
pub data Picked (xs : Slots) (next : ℕ) : Option ℕ → Type 0 where
  nobody_ready : ((j : ℕ) → ¬ IsReady xs j) → Picked xs next none
  next_ready :
      (i : ℕ)
      → IsReady xs i
      → ((j : ℕ) → IsReady xs j → distance next (length xs) i ≤ distance next (length xs) j)
      → Picked xs next (some i)

-- The scan picks the ready process that stands nearest behind the round-robin position, counted
-- round the table, and picks nobody only if nobody is ready.
pub pick-Picked :
    (s : Scheduler) → s.next_slot ≤ length s.procs → Picked s.procs s.next_slot (pick s)
unfolding pick
pick-Picked s low = finish (scan-Found (length s.procs) 0 s.next_slot s.procs)
  where
    n : ℕ
    n = length s.procs

    ready_at :
        (j : ℕ) → IsReady s.procs j → IsReady s.procs (nth s.next_slot n (distance s.next_slot n j))
    ready_at j (p, a, t) =
        subst (λ k. IsReady s.procs k)
          (sym (nth-distance s.next_slot n j low (At-bound s.procs j a))) (p, a, t)

    finish : {r : Option ℕ} → Found s.procs s.next_slot n 0 r → Picked s.procs s.next_slot r
    finish (nobody none_in) = nobody_ready λ j (p, a, t).
        none_in (distance s.next_slot n j) (omega arith)
          (omega (arith, distance-lt s.next_slot n j low (At-bound s.procs j a)))
          (ready_at j (p, a, t))
    finish (first d low' high ready none_before) =
        next_ready (nth s.next_slot n d) ready λ j (p, a, t).
          elim (dec_lt (distance s.next_slot n j) d) [
            | yes l ↦
                absurd
                  (none_before (distance s.next_slot n j) (omega arith) l (ready_at j (p, a, t)))
            | no l ↦ omega (arith, distance-nth s.next_slot n d low (omega arith))
          ]
