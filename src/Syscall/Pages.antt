-- ===== src/Syscall/Pages.antt =====
-- The test of the pages of a user range, and the bytes that the range has.
use osmium.Prelude.{
  ℕ, zero, suc, ◌+◌, ◌*◌, ◌%◌, ◌≤◌, ◌<◌, ◌≡◌, refl, sym, ap, ◌∙◌, ◌⊎◌, inl, inr, Bool, true, false,
  none, some, List, [], ◌∷◌, arith, bit_or, dec_lt, lt→ltb, le→ltb_false, Bool-cases, Option-cases,
}
use osmium.Machine.{ok, add}
use osmium.Machine.Bytes.{read_byte}
use osmium.Machine.Returns
use osmium.Machine.Returns.{Returns, returns}
use osmium.Kalloc.{Kmem}
use osmium.Sched.Slots.{some-inj, none≢some, true≢false}
use osmium.Vm.{va_max, pte_to_pa}
use osmium.Vm.Find.{find, indices, indices-same, translate-find}
use osmium.Syscall.{check_pages, access, read_user, unreadable}

-- The page of `a` is mapped with flags that pass the test.
abbrev pub Grants : (refuses : ℕ → Bool) → (root a : ℕ) → Kmem → Type 0
Grants refuses root a k =
    (pte : ℕ) × (find k.mem root (indices a) ≡ some pte) × (refuses pte ≡ false)

-- All addresses of a range are granted.
abbrev pub AllGrant : (refuses : ℕ → Bool) → (root first end : ℕ) → Kmem → Type 0
AllGrant refuses root first end k = (a : ℕ) → first ≤ a → a < end → Grants refuses root a k

-- The outcome of the test of the pages from `page` on.
abbrev pub Checked : (refuses : ℕ → Bool) → (root page end : ℕ) → Kmem → Bool × Kmem → Type 0
Checked refuses root page end k (fine, k') =
    (k' ≡ k)
    × (((fine ≡ true) × AllGrant refuses root page end k)
        ⊎ ((fine ≡ false) × (a : ℕ) × (page ≤ a) × (a < end) × (¬ Grants refuses root a k)))

check_pages-over :
    (fuel : ℕ) (refuses : ℕ → Bool) (root page end : ℕ) (k : Kmem)
    → end ≤ page
    → check_pages (suc fuel) refuses root page end k ≡ ok (true, k)
unfolding check_pages
check_pages-over fuel refuses root page end k over =
    rw (le→ltb_false page end over, check_pages) refl

check_pages-unmapped :
    (fuel : ℕ) (refuses : ℕ → Bool) (root page end : ℕ) (k : Kmem)
    → page < end
    → end ≤ va_max
    → find k.mem root (indices page) ≡ none
    → check_pages (suc fuel) refuses root page end k ≡ ok (false, k)
unfolding check_pages
check_pages-unmapped fuel refuses root page end k l low e =
    rw (lt→ltb page end l, translate-find root page k (omega arith), e, check_pages) refl

check_pages-next :
    (fuel : ℕ) (refuses : ℕ → Bool) (root page end : ℕ) (k : Kmem) {pte : ℕ}
    → page < end
    → end ≤ va_max
    → find k.mem root (indices page) ≡ some pte
    → refuses pte ≡ false
    → check_pages (suc fuel) refuses root page end k
      ≡ check_pages fuel refuses root (page + 4096) end k
unfolding check_pages
check_pages-next fuel refuses root page end k l low e passes =
    let sum : add page 4096 ≡ ok (page + 4096) = ground arith in
    rw (lt→ltb page end l, translate-find root page k (omega arith), e, passes, sum, check_pages)
      refl

check_pages-refused :
    (fuel : ℕ) (refuses : ℕ → Bool) (root page end : ℕ) (k : Kmem) {pte : ℕ}
    → page < end
    → end ≤ va_max
    → find k.mem root (indices page) ≡ some pte
    → refuses pte ≡ true
    → check_pages (suc fuel) refuses root page end k ≡ ok (false, k)
unfolding check_pages
check_pages-refused fuel refuses root page end k l low e fails =
    rw (lt→ltb page end l, translate-find root page k (omega arith), e, fails, check_pages) refl

pub check_pages_lem :
    (n : ℕ) (refuses : ℕ → Bool) (root page end : ℕ) (k : Kmem)
    → page % 4096 ≡ 0
    → end ≤ va_max
    → end ≤ page + 4096 * n
    → Returns (λ r. Checked refuses root page end k r) (check_pages (suc n) refuses root page end k)
check_pages_lem zero refuses root page end k al low enough =
    rw (check_pages-over 0 refuses root page end k (omega arith))
      (returns (refl, inl (refl, λ a lo hi. absurd (omega arith))))
check_pages_lem (suc n) refuses root page end k al low enough = elim (dec_lt page end) [
  | no over ↦
      rw (check_pages-over (suc n) refuses root page end k (omega arith))
        (returns (refl, inl (refl, λ a lo hi. absurd (omega arith))))
  | yes l ↦ elim (Option-cases (find k.mem root (indices page))) [
    | inl e ↦ rw (check_pages-unmapped (suc n) refuses root page end k l low e) (
        returns
          (refl, inr (refl, page, omega arith, l, λ (pte, is, passes). none≢some (sym e ∙ is))))
    | inr (pte, e) ↦ elim (Bool-cases (refuses pte)) [
      | inl fails ↦ rw (check_pages-refused (suc n) refuses root page end k l low e fails) (
          returns (
            refl,
            inr (
              refl,
              page,
              omega arith,
              l,
              λ (pte', is, passes).
                  true≢false (sym fails ∙ ap refuses (some-inj (sym e ∙ is)) ∙ passes),
            ),
          ))
      | inr passes ↦ rw (check_pages-next (suc n) refuses root page end k l low e passes) (
          Returns.mono
            (check_pages_lem n refuses root (page + 4096) end k (omega arith) low (omega arith))
            λ (fine, k') (same, r). (
              same,
              elim r [
                | inl (yes_, all) ↦ inl (
                  yes_,
                  λ a lo hi. elim (dec_lt a (page + 4096)) [
                    | yes here ↦
                        (pte, ap (find k.mem root) (indices-same a page (omega arith)) ∙ e, passes)
                    | no later ↦ all a (omega arith) hi
                  ],
                )
                | inr (no_, a, lo, hi, bad) ↦ inr (no_, a, omega arith, hi, bad)
              ],
            ))
    ]
  ]
]

-- The byte at a user address, and those of a range.
pub user_byte : (root a : ℕ) → Kmem → ℕ
user_byte root a k = elim (find k.mem root (indices a)) [
  | none ↦ 0
  | some pte ↦ read_byte k.mem (bit_or (pte_to_pa pte) (a % 4096))
]

abbrev pub user_bytes : (n : ℕ) → (root a : ℕ) → Kmem → List ℕ
user_bytes zero root a k = []
user_bytes (suc n) root a k = user_byte root a k ∷ user_bytes n root (a + 1) k

pub user_byte-some :
    (root a : ℕ) (k : Kmem) {pte : ℕ}
    → find k.mem root (indices a) ≡ some pte
    → user_byte root a k ≡ read_byte k.mem (bit_or (pte_to_pa pte) (a % 4096))
unfolding user_byte
user_byte-some root a k e = rw (e, user_byte) refl

pub access-granted :
    (refuses : ℕ → Bool) (root a : ℕ) (k : Kmem) {pte : ℕ}
    → a < va_max
    → find k.mem root (indices a) ≡ some pte
    → refuses pte ≡ false
    → access refuses root a k ≡ ok (bit_or (pte_to_pa pte) (a % 4096))
unfolding access
access-granted refuses root a k low e passes =
    rw (translate-find root a k low, e, passes, access) refl

pub read_user_lem :
    (n i : ℕ) (root ptr : ℕ) (k : Kmem)
    → ptr + (i + n) ≤ va_max
    → AllGrant unreadable root (ptr + i) (ptr + (i + n)) k
    → read_user n i root ptr k ≡ ok (user_bytes n root (ptr + i) k)
unfolding read_user
read_user_lem zero i root ptr k low all = refl
read_user_lem (suc n) i root ptr k low all =
    let (pte, e, passes) = all (ptr + i) (omega arith) (omega arith) in
    let sum : add ptr i ≡ ok (ptr + i) = ground arith in
    let here : ptr + suc i ≡ ptr + i + 1 = omega arith in
    let rest =
      read_user_lem n (suc i) root ptr k (omega arith)
        (λ a lo hi. all a (omega arith) (omega arith))
      ∙ ap (λ a. ok (user_bytes n root a k)) here in
    rw
      (
        sum,
        access-granted unreadable root (ptr + i) k (omega arith) e passes,
        rest,
        user_byte-some root (ptr + i) k e,
      )
      refl
