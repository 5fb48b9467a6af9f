-- ===== src/Heap/Layout.antt =====
-- The layouts that the heap is asked for, and `align_up`.
use osmium.Prelude.{ℕ, zero, suc, ◌+◌, ◌-◌, ◌*◌, ◌%◌, ◌^◌, ◌≤◌, ◌<◌, ◌≡◌, max, arith, ap, ◌∙◌}
use native.Mathlib.Nat.{one-le-pow}
use native.Mathlib.Decide.{dec_le}
use osmium.Machine.{ok, usize_max}
use osmium.Machine.Words.{round_down, two_pow-le, two_pow-add}
use osmium.Heap.{align_up, granule}
use osmium.Heap.Spec.{round_up}
use osmium.Heap.Spec.Laws.{IsRequest, round_up-ge}

-- A power of two that fits a word.
abbrev pub IsPower : ℕ → Type 0
IsPower a = (k : ℕ) × (k ≤ 63) × (a ≡ 2 ^ k)

-- What Rust promises of a `Layout`: the alignment is a power of two, and the size, rounded up to
-- it, does not exceed `isize::MAX`.
pub record IsLayout (size align : ℕ) : Type 0 where
  pub power : IsPower align
  pub fits : round_up size align ≤ 2 ^ 63 - 1

pub align_up-round_up : (x a : ℕ) → IsPower a → x + a ≤ usize_max → align_up x a ≡ ok (round_up x a)
unfolding align_up
align_up-round_up x a (k, small, e) h =
    let pos : 0 < 2 ^ k = omega (arith, one-le-pow k 2) in
    let mask = round_down k (x + a - 1) (omega arith) (omega arith) in
    let top : x + a - 1 ≡ x + (a - 1) = omega arith in ground (arith, mask)

-- An alignment that a nonempty layout can have is at most half of the largest power.
power-le : (size k : ℕ) → 0 < size → k ≤ 63 → round_up size (2 ^ k) ≤ 2 ^ 63 - 1 → 2 ^ k ≤ 2 ^ 62
power-le size k pos small fits = elim (dec_le k 62) [
  | yes h ↦ two_pow-le k 62 h
  | no h ↦
      let e : k ≡ 63 = omega arith in
      let full : round_up size (2 ^ 63) ≤ 2 ^ 63 - 1 = rw e at fits in absurd (omega arith)
]

max-IsPower : (a : ℕ) → IsPower a → IsPower (max a 16)
max-IsPower a (k, small, e) = elim (dec_le k 4) [
  | yes h ↦ (4, omega arith, omega (arith, two_pow-le k 4 h))
  | no h ↦ (k, small, omega (arith, two_pow-le 4 k (omega arith)))
]

-- A power of two from 16 on is a multiple of 16.
power_even : (a : ℕ) → IsPower a → 16 ≤ a → (q : ℕ) × (a ≡ 16 * q)
power_even a (k, small, e) wide = elim (dec_le 4 k) [
  | yes h ↦
      let s : k ≡ 4 + (k - 4) = omega arith in
      (2 ^ (k - 4), e ∙ ap (λ (t : ℕ). 2 ^ t) s ∙ two_pow-add 4 (k - 4))
  | no h ↦ absurd (omega (arith, two_pow-le k 3 (omega arith)))
]

even_multiple : (x a q : ℕ) → a ≡ 16 * q → x * a % 16 ≡ 0
even_multiple x a q e = omega (arith, ap (λ (t : ℕ). x * t) e)

layout_bound : (size align : ℕ) → IsLayout size align → size + align ≤ 2 ^ 63 + 2 ^ 62
layout_bound zero align l = let (k, small, e) = l.power in omega (arith, two_pow-le k 63 small)
layout_bound (suc size) align l =
    let (k, small, e) = l.power in
    let pos : 0 < align = omega (arith, one-le-pow k 2) in
    let fits : round_up (suc size) (2 ^ k) ≤ 2 ^ 63 - 1 = rw e at l.fits in
    omega (
      arith,
      round_up-ge (suc size) align pos,
      l.fits,
      power-le (suc size) k (omega arith) small fits,
    )

-- What the walk needs to know of a layout: the request is well formed, and the sums do not overflow.
pub record IsFit (need align : ℕ) : Type 0 where
  pub request : IsRequest need align
  pub power : IsPower align
  pub room : need + align ≤ 2 ^ 63 + 2 ^ 62 + 64

pub layout_lem :
    (size align : ℕ)
    → IsLayout size align
    → (align_up (max size 1) granule ≡ ok (round_up (max size 1) 16))
      × IsFit (round_up (max size 1) 16) (max align 16)
layout_lem size align l =
    let p = max-IsPower align l.power in
    let (q, e) = power_even (max align 16) p (omega arith) in
    (
      align_up-round_up (max size 1) 16 (4, omega arith, omega arith)
          (omega (arith, layout_bound size align l)),
      record {
        request = record {
          positive = omega arith;
          granules = omega arith;
          wide = omega arith;
          even = λ x. even_multiple _ (max align 16) q e;
        };
        power = p;
        room = omega (arith, layout_bound size align l);
      },
    )
