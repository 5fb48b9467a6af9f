-- ===== src/Machine/Words.antt =====
-- Rounding of words by masks.
use osmium.Prelude.{
  ℕ, zero, suc, ◌+◌, ◌-◌, ◌*◌, ◌/◌, ◌^◌, ◌≤◌, ◌<◌, ◌≡◌, bit_and, arith, ap, ◌∙◌, sym,
}
use osmium.Prelude.Bits.{bit_and-high}
use native.Mathlib.Nat.{one-le-pow, pow-suc, add-suc, add-zero}
use osmium.Machine.{complement, usize_max}

-- `p & !(PAGE_SIZE - 1)` rounds a word down to a page.
pub page_down : (p : ℕ) → p ≤ usize_max → bit_and p (complement 4095) ≡ p / 4096 * 4096
page_down p h = bit_and-high 12 52 p (omega arith)

pub two_pow-add : (j k : ℕ) → 2 ^ (j + k) ≡ 2 ^ j * 2 ^ k
two_pow-add j zero = rw add-zero (omega arith)
two_pow-add j (suc k) = omega (
  arith,
  pow-suc 2 (j + k),
  pow-suc 2 k,
  ap (λ (t : ℕ). 2 * t) (two_pow-add j k),
  ap (λ (t : ℕ). 2 ^ j * t) (pow-suc 2 k),
  ap (λ (t : ℕ). 2 ^ t) (add-suc j k),
)

pub two_pow-le : (j k : ℕ) → j ≤ k → 2 ^ j ≤ 2 ^ k
two_pow-le j k h =
    let e : 2 ^ (k - j + j) ≡ 2 ^ k = ap (λ (t : ℕ). 2 ^ t) (omega arith) in
    grind (arith, two_pow-add (k - j) j, one-le-pow (k - j) 2)

split_64 : (k : ℕ) → k ≤ 64 → 2 ^ (64 - k) * 2 ^ k ≡ 2 ^ 64
split_64 k h =
    let e : 64 - k + k ≡ 64 = omega arith in sym (two_pow-add (64 - k) k) ∙ ap (λ (t : ℕ). 2 ^ t) e

mask_lem : (p q : ℕ) → 0 < p → q * p ≡ 2 ^ 64 → complement (p - 1) ≡ (q - 1) * p
mask_lem p zero pos h = absurd (omega arith)
mask_lem p (suc q) pos h =
    let e : suc q - 1 ≡ q = omega arith in
    let whole : q * p + p ≡ 2 ^ 64 = omega (arith, h) in rw e (omega arith)

-- `t & !(2^k - 1)` rounds a word down to a multiple of `2^k`.
pub round_down :
    (k t : ℕ) → k ≤ 64 → t ≤ usize_max → bit_and t (complement (2 ^ k - 1)) ≡ t / 2 ^ k * 2 ^ k
round_down k t h small =
    let whole = split_64 k h in
    let pos : 0 < 2 ^ k = omega (arith, one-le-pow k 2) in
    rw (mask_lem (2 ^ k) (2 ^ (64 - k)) pos whole)
      (bit_and-high k (64 - k) t (div_bound t (2 ^ k) (2 ^ (64 - k)) pos whole small))
  where
    div_bound : (t p q : ℕ) → 0 < p → q * p ≡ 2 ^ 64 → t ≤ usize_max → t / p < q
    div_bound t p q pos e small = grind arith
