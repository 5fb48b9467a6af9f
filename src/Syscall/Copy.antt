-- ===== src/Syscall/Copy.antt =====
-- Copying from the user's memory.
use osmium.Prelude.{
  ℕ, suc, ◌+◌, ◌*◌, ◌/◌, ◌≤◌, ◌<◌, ◌≡◌, refl, sym, ap, ◌⊎◌, inl, inr, Bool, Option, none, some,
  List, arith, bit_and, dec_lt, lt→ltb, le→ltb_false, subst,
}
use osmium.Machine.{ok, usize_max, complement}
use osmium.Machine.Words.{page_down}
use osmium.Machine.Returns
use osmium.Machine.Returns.{Returns, returns, Returns-ok}
use osmium.Kalloc.{Kmem}
use osmium.Vm.{va_max}
use osmium.Vm.Space.{Owner}
use osmium.Syscall.{copy_from_user, check_pages, end_of, page_fuel, refuses_read}
use osmium.Syscall.Pages.{Grants, AllGrant, Checked, check_pages_lem, user_bytes, read_user_lem}
use osmium.Syscall.Poke.{IsUserSpace}

abbrev pub page_of : ℕ → ℕ
page_of a = a / 4096 * 4096

-- A range that is rejected: it ends beyond the user's addresses, or a page of it fails the test.
abbrev pub Rejected : (refuses : ℕ → Bool) → (root ptr len : ℕ) → Kmem → Type 0
Rejected refuses root ptr len k =
    (va_max < ptr + len)
    ⊎ ((a : ℕ) × (page_of ptr ≤ a) × (a < ptr + len) × (¬ Grants refuses root a k))

abbrev pub Accepted : (refuses : ℕ → Bool) → (root ptr len : ℕ) → Kmem → Type 0
Accepted refuses root ptr len k =
    (ptr + len ≤ va_max) × AllGrant refuses root (page_of ptr) (ptr + len) k

pub end_of-some : (ptr len : ℕ) → ptr + len ≤ va_max → end_of ptr len ≡ some (ptr + len)
end_of-some ptr len low =
    rw (le→ltb_false usize_max (ptr + len) (omega arith), le→ltb_false va_max (ptr + len) low) refl

pub end_of-none : (ptr len : ℕ) → va_max < ptr + len → end_of ptr len ≡ none
end_of-none ptr len high = elim (dec_lt usize_max (ptr + len)) [
  | yes over ↦ rw (lt→ltb usize_max (ptr + len) over) refl
  | no fits ↦
      rw (le→ltb_false usize_max (ptr + len) (omega arith), lt→ltb va_max (ptr + len) high) refl
]

-- The test of the pages of a range.
pub range_check :
    (refuses : ℕ → Bool) (root ptr len : ℕ) (k : Kmem)
    → ptr + len ≤ va_max
    → Returns
        (λ r. Checked refuses root (page_of ptr) (ptr + len) k r)
        (check_pages (page_fuel len) refuses root (bit_and ptr (complement 4095)) (ptr + len) k)
range_check refuses root ptr len k low = rw (page_down ptr (omega arith)) (
    subst
      (λ n.
        Returns (λ r. Checked refuses root (page_of ptr) (ptr + len) k r)
          (check_pages n refuses root (page_of ptr) (ptr + len) k))
      (sym fuel)
      (check_pages_lem (len / 4096 + 2) refuses root (page_of ptr) (ptr + len) k (omega arith) low
        (omega arith)))
  where
    fuel : page_fuel len ≡ suc (len / 4096 + 2)
    fuel = omega arith

-- What a copy from the user's memory gives.
abbrev pub CopiedIn : (root ptr len : ℕ) → Kmem → Option (List ℕ) × Kmem → Type 0
CopiedIn root ptr len k (r, k') =
    (k' ≡ k)
    × (((r ≡ some (user_bytes len root ptr k)) × Accepted refuses_read root ptr len k)
        ⊎ ((r ≡ none) × Rejected refuses_read root ptr len k))

copy_from_user-rejected :
    (root ptr len : ℕ) (k : Kmem)
    → va_max < ptr + len
    → copy_from_user root ptr len k ≡ ok (none, k)
unfolding copy_from_user
copy_from_user-rejected root ptr len k high = rw (end_of-none ptr len high, copy_from_user) refl

-- In a sound address space (tables apart from each other and from the free pages, user pages
-- readable, no tables, not free, with one place each), copying a range from the user never panics
-- and changes nothing: it gives the bytes of the range if the range ends below the bound of the
-- addresses and each of its pages is mapped for the user, and is rejected only if not.
pub copy_from_user-exact :
    {kernel_end root : ℕ} {own : Owner} {k : Kmem} {free : List ℕ} (ptr len : ℕ)
    → IsUserSpace kernel_end root own k free
    → Returns (λ r. CopiedIn root ptr len k r) (copy_from_user root ptr len k)
unfolding copy_from_user
copy_from_user-exact {root} {k} ptr len v = elim (dec_lt va_max (ptr + len)) [
  | yes high ↦
      rw (copy_from_user-rejected root ptr len k high) (returns (refl, inr (refl, inl high)))
  | no fits ↦
      rw (end_of-some ptr len (omega arith), copy_from_user)
        (Returns.bind (range_check refuses_read root ptr len k (omega arith))
          λ (fine, k') (same, r). elim r [
            | inl (is, all) ↦
                let whole : ptr + (0 + len) ≤ va_max = omega arith in
                let buf = read_user_lem len 0 root ptr k whole (λ a lo hi.
                  let (pte, e, passes) = all a (omega arith) (omega arith) in
                  (pte, e, v.readable a pte (e, passes))) in
                rw (is, same, buf)
                  (returns (
                    refl,
                    inl (
                      ap (λ a. some (user_bytes len root a k)) (omega arith),
                      (omega arith, all),
                    ),
                  ))
            | inr (is, a, lo, hi, bad) ↦
                rw (is, same) (returns (refl, inr (refl, inr (a, lo, hi, bad))))
          ])
]
