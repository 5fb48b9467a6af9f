-- ===== src/Syscall/CopyOut.antt =====
-- Copying to the user's memory.
use osmium.Prelude.{
  ℕ, suc, ◌+◌, ◌≤◌, ◌<◌, ◌≡◌, refl, sym, ap, ap₂, ◌∙◌, ◌⊎◌, inl, inr, Bool, true, false, ◌||◌,
  Option, none, some, List, [], ◌∷◌, length, arith, dec_lt, subst,
}
use osmium.Machine.{Outcome, ok, add}
use osmium.Machine.Returns
use osmium.Machine.Returns.{Returns, returns, Returns-ok}
use osmium.Kalloc.{Kmem}
use osmium.Sched.Slots.{true≢false, none≢some}
use osmium.Vm.{va_max}
use osmium.Vm.Find.{find, indices}
use osmium.Vm.Space.{Owner}
use osmium.Syscall.{
  copy_from_user, copy_to_user, write_user, refuses_read, refuses_write, unwritable, lacks,
}
use osmium.Syscall.Pages.{AllGrant, user_byte, user_bytes, access-granted}
use osmium.Syscall.Poke.{
  UserPage, IsUserSpace, poke, poke-find, poke-IsUserSpace, poke-same, poke-other,
}
use osmium.Syscall.Copy.{
  Rejected, Accepted, end_of-some, end_of-none, range_check, CopiedIn, copy_from_user-exact,
}

-- What writing to the addresses from `first` to `end` makes of an address space.
pub record Written (kernel_end root : ℕ) (own : Owner) (k k' : Kmem) (free : List ℕ) (first end : ℕ)
    : Type 0 where
  pub user : IsUserSpace kernel_end root own k' free
  pub lookups : (a : ℕ) → find k'.mem root (indices a) ≡ find k.mem root (indices a)
  pub others :
      (c pte : ℕ)
      → c < va_max
      → (c < first) ⊎ (end ≤ c)
      → UserPage root c pte k
      → user_byte root c k' ≡ user_byte root c k
  pub list : (k'.head ≡ k.head) × (k'.free_pages ≡ k.free_pages)

-- The bytes are bytes.
abbrev pub AreBytes : List ℕ → Type 0
AreBytes [] = Unit {0}
AreBytes (b ∷ bs) = (b < 256) × AreBytes bs

split_or : (a b : Bool) → (a || b) ≡ false → (a ≡ false) × (b ≡ false)
split_or true b e = absurd (true≢false e)
split_or false b e = (refl, e)

write_user-step :
    (src : List ℕ) (b i root ptr : ℕ) (k : Kmem) {pte : ℕ}
    → ptr + i < va_max
    → find k.mem root (indices (ptr + i)) ≡ some pte
    → unwritable pte ≡ false
    → write_user (b ∷ src) i root ptr k ≡ write_user src (suc i) root ptr (poke (ptr + i) pte b k)
unfolding write_user
write_user-step src b i root ptr k low e passes =
    let sum : add ptr i ≡ ok (ptr + i) = ground arith in
    rw (sum, access-granted unwritable root (ptr + i) k low e passes) refl

Written-step :
    {kernel_end root : ℕ} {own : Owner} {k k' : Kmem} {free : List ℕ} {pte : ℕ} (b a end : ℕ)
    → IsUserSpace kernel_end root own k free
    → a < va_max
    → b < 256
    → a < end
    → UserPage root a pte k
    → Written kernel_end root own (poke a pte b k) k' free (a + 1) end
    → Written kernel_end root own k k' free a end
Written-step {root} {k} {k'} {pte} b a end v low small l here w = record {
  user = w.user;
  lookups = λ c. w.lookups c ∙ poke-find v low here b c;
  others = λ c pte' low' out there.
      w.others c pte' low' (elim out [ inl x ↦ inl (omega arith) | inr y ↦ inr y ])
        (poke-find v low here b c ∙ there.0, there.1)
      ∙ poke-other v low here b c pte' small low'
          (elim out [ inl x ↦ (λ e. omega arith) | inr y ↦ (λ e. omega arith) ]) there;
  list = w.list;
}

write_user_lem :
    (src : List ℕ) {kernel_end root : ℕ} {own : Owner} {k : Kmem} {free : List ℕ} (i ptr : ℕ)
    → IsUserSpace kernel_end root own k free
    → AreBytes src
    → ptr + (i + length src) ≤ va_max
    → AllGrant refuses_write root (ptr + i) (ptr + (i + length src)) k
    → Returns
        (λ k'.
          Written kernel_end root own k k' free (ptr + i) (ptr + (i + length src))
          × (user_bytes (length src) root (ptr + i) k' ≡ src))
        (write_user src i root ptr k)
unfolding write_user
write_user_lem [] i ptr v bytes low all = returns (
  record {
    user = v;
    lookups = λ a. refl;
    others = λ c pte low' out here. refl;
    list = (refl, refl);
  },
  refl,
)
write_user_lem (b ∷ src) {kernel_end} {root} {own} {k} {free} i ptr v (small, bytes) low all =
    let (pte, e, passes) = all (ptr + i) (omega arith) (omega arith) in
    let (is_user, writable) = split_or (lacks 16 pte) (unwritable pte) passes in
    let here : UserPage root (ptr + i) pte k = (e, is_user) in
    let below : ptr + i < va_max = omega arith in
    let k1 = poke (ptr + i) pte b k in
    let next : ptr + suc i ≡ ptr + i + 1 = omega arith in
    let last : ptr + (suc i + length src) ≡ ptr + (i + suc (length src)) = omega arith in
    rw (write_user-step src b i root ptr k below e writable) (
      Returns.mono
        (write_user_lem src (suc i) ptr (poke-IsUserSpace v below here b) bytes (omega arith)
          (λ a lo hi.
            let (pte', e', passes') = all a (omega arith) (omega arith) in
            (pte', poke-find v below here b a ∙ e', passes')))
        λ k' (w, got).
          let w' : Written kernel_end root own k1 k' free (ptr + i + 1)
              (ptr + (i + suc (length src))) =
            subst (λ n. Written kernel_end root own k1 k' free n (ptr + (i + suc (length src))))
              next (subst (λ n. Written kernel_end root own k1 k' free (ptr + suc i) n) last w) in
          (
            Written-step b (ptr + i) (ptr + (i + suc (length src))) v below small (omega arith) here
                w',
            ap (λ c. c ∷ user_bytes (length src) root (ptr + i + 1) k')
                  (w'.others (ptr + i) pte below (inl (omega arith))
                      (poke-find v below here b (ptr + i) ∙ e, is_user)
                    ∙ poke-same v below here b small)
                ∙ ap (λ bs. b ∷ bs) (ap (λ n. user_bytes (length src) root n k') (sym next) ∙ got),
          ))

-- What a copy to the user's memory does.
abbrev pub CopiedOut :
    (kernel_end root : ℕ) → Owner → List ℕ → (ptr : ℕ) → List ℕ → Kmem → Option ℕ × Kmem → Type 0
CopiedOut kernel_end root own free ptr src k (r, k') =
    ((r ≡ some (length src))
      × Accepted refuses_write root ptr (length src) k
      × (user_bytes (length src) root ptr k' ≡ src)
      × Written kernel_end root own k k' free ptr (ptr + length src))
    ⊎ ((r ≡ none) × (k' ≡ k) × Rejected refuses_write root ptr (length src) k)

copy_to_user-rejected :
    (root ptr : ℕ) (src : List ℕ) (k : Kmem)
    → va_max < ptr + length src
    → copy_to_user root ptr src k ≡ ok (none, k)
unfolding copy_to_user
copy_to_user-rejected root ptr src k high =
    rw (end_of-none ptr (length src) high, copy_to_user) refl

-- In a sound address space (tables apart from each other and from the free pages, user pages
-- readable, no tables, not free, with one place each), copying bytes to the user never panics. If
-- the range ends below the bound of the addresses and each of its pages is mapped for the user
-- and writable, the range has the bytes afterwards, every other byte of the user and the entry of
-- every address is as before, and the space is as sound as before. Otherwise, and only then, the
-- copy is rejected and nothing changes.
pub copy_to_user-exact :
    {kernel_end root : ℕ} {own : Owner} {k : Kmem} {free : List ℕ} (ptr : ℕ) (src : List ℕ)
    → IsUserSpace kernel_end root own k free
    → AreBytes src
    → Returns (λ r. CopiedOut kernel_end root own free ptr src k r) (copy_to_user root ptr src k)
unfolding copy_to_user
copy_to_user-exact {kernel_end} {root} {own} {k} {free} ptr src v bytes =
    elim (dec_lt va_max (ptr + length src)) [
      | yes high ↦
          rw (copy_to_user-rejected root ptr src k high) (returns (inr (refl, refl, inl high)))
      | no fits ↦
          rw (end_of-some ptr (length src) (omega arith), copy_to_user)
            (Returns.bind (range_check refuses_write root ptr (length src) k (omega arith))
              λ (fine, k') (same, r). elim r [
                | inl (is, all) ↦
                    let start : ptr + 0 ≡ ptr = omega arith in
                    let whole : 0 + length src ≡ length src = omega arith in
                    rw (is, same)
                      (Returns.bind
                        (write_user_lem src 0 ptr v bytes (omega arith)
                          (λ a lo hi. all a (omega arith) (omega arith)))
                        λ k'' (w, got). returns (
                          inl (
                            refl,
                            (omega arith, all),
                            subst (λ n. user_bytes (length src) root n k'' ≡ src) start got,
                            subst (λ n. Written kernel_end root own k k'' free n (ptr + length src))
                                start
                                (subst
                                  (λ n. Written kernel_end root own k k'' free (ptr + 0) (ptr + n))
                                  whole w),
                          )))
                | inr (is, a, lo, hi, bad) ↦
                    rw (is, same) (returns (inr (refl, refl, inr (a, lo, hi, bad))))
              ])
    ]

not_both :
    (root ptr len : ℕ) (k : Kmem)
    → Accepted refuses_read root ptr len k
    → Rejected refuses_read root ptr len k
    → ⊥
not_both root ptr len k (low, all) (inl high) = omega arith
not_both root ptr len k (low, all) (inr (a, lo, hi, bad)) = bad (all a lo hi)

-- In a sound address space (tables apart from each other and from the free pages, user pages
-- readable, no tables, not free, with one place each), bytes that were copied to the user are the
-- bytes that a copy of the same range from the user gives.
pub copy_to_user-copy_from_user :
    {kernel_end root : ℕ} {own : Owner} {k : Kmem} {free : List ℕ} {k' : Kmem} (ptr : ℕ)
    (src : List ℕ)
    → IsUserSpace kernel_end root own k free
    → AreBytes src
    → copy_to_user root ptr src k ≡ ok (some (length src), k')
    → copy_from_user root ptr (length src) k' ≡ ok (some src, k')
copy_to_user-copy_from_user {root} {k} {k'} ptr src v bytes done =
    elim (Returns-ok (copy_to_user-exact ptr src v bytes) done) [
      | inr (none_, same, bad) ↦ absurd (none≢some (sym none_))
      | inl (is, (low, all), got, w) ↦
          let readable : Accepted refuses_read root ptr (length src) k' = (
            low,
            λ a lo hi.
                let (pte, e, passes) = all a lo hi in
                (pte, w.lookups a ∙ e, (split_or (lacks 16 pte) (unwritable pte) passes).0),
          ) in
          read_back root ptr (length src) src k' readable got
            (copy_from_user-exact ptr (length src) w.user)
    ]
  where
    read_back :
        (root ptr len : ℕ) (src : List ℕ) (k : Kmem)
        → Accepted refuses_read root ptr len k
        → user_bytes len root ptr k ≡ src
        → {m : Outcome (Option (List ℕ) × Kmem)} → Returns (λ r. CopiedIn root ptr len k r) m
        → m ≡ ok (some src, k)
    read_back root ptr len src k fine got (returns (same, inl (is, acc))) =
        ap₂ (λ r s. ok (r, s)) (is ∙ ap some got) same
    read_back root ptr len src k fine got (returns (same, inr (is, bad))) =
        absurd (not_both root ptr len k fine bad)
