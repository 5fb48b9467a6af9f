-- ===== src/Shell/Cat.antt =====
-- `cat` prints the whole file.
use osmium.Prelude.{
  ℕ, zero, suc, ◌+◌, ◌-◌, ◌*◌, ◌≤◌, ◌≡◌, refl, sym, ap, ap₂, ◌∙◌, inl, inr, Bool, true, some, List,
  [], ◌∷◌, ◌++◌, length, take, drop, replicate, min, get_elem?, arith, eq→==, ne→==_false,
  ℕ_discrete, subst,
}
use osmium.Machine.{ok, add, usize_max}
use osmium.Fs.{File, Files, read_at}
use osmium.Fs.Laws.{Copied, read_at_lem}
use osmium.Sched.Slots.{some-inj, none≢some}
use osmium.Shell.{cat_from}

-- Every text is fine.
abbrev pub IsText : (List ℕ → Bool) → List ℕ → Type 0
IsText from_utf8 bytes = (offset n : ℕ) → from_utf8 (take n (drop offset bytes)) ≡ true

drop-nil : (n : ℕ) → drop {A = ℕ} n [] ≡ []
drop-nil zero = refl
drop-nil (suc n) = refl

take-nil : (n : ℕ) → take {A = ℕ} n [] ≡ []
take-nil zero = refl
take-nil (suc n) = refl

take-rest : (n : ℕ) (bs : List ℕ) → take n bs ++ drop n bs ≡ bs
take-rest zero bs = refl
take-rest (suc n) [] = refl
take-rest (suc n) (b ∷ bs) = ap (λ l. b ∷ l) (take-rest n bs)

take-drop :
    (n offset : ℕ) (bs : List ℕ) → take n (drop offset bs) ++ drop (offset + n) bs ≡ drop offset bs
take-drop n zero bs = ap (λ m. take n bs ++ drop m bs) (omega arith) ∙ take-rest n bs
take-drop n (suc offset) [] = ap₂ (λ l m. l ++ m) (take-nil n) (drop-nil (suc offset + n))
take-drop n (suc offset) (b ∷ bs) =
    let shift : suc offset + n ≡ suc (offset + n) = omega arith in
    ap (λ m. take n (drop offset bs) ++ drop m (b ∷ bs)) shift ∙ take-drop n offset bs

-- A chunk of the file.
chunk :
    (idx offset : ℕ) (fs : Files) {f : File}
    → get_elem? fs idx ≡ some f
    → Copied offset f.data_bytes (replicate 64 0) (read_at idx offset (replicate 64 0) fs)
chunk idx offset fs {f} there = elim (read_at_lem idx offset (replicate 64 0) fs) [
  | inl (missing, _) ↦ absurd (none≢some (sym missing ∙ there))
  | inr (f', is, c) ↦
      subst
        (λ g. Copied offset g.data_bytes (replicate 64 0) (read_at idx offset (replicate 64 0) fs))
        (some-inj (sym is ∙ there)) c
]

drop-end : (n : ℕ) (bs : List ℕ) → length bs ≤ n → drop n bs ≡ []
drop-end zero [] l = refl
drop-end zero (b ∷ bs) l = absurd (omega arith)
drop-end (suc n) [] l = refl
drop-end (suc n) (b ∷ bs) l = drop-end n bs (omega arith)

-- From an offset within a file on, the loop of cat ends, with fuel for each chunk of 64 bytes
-- that is left and one more, and prints the rest of the file, if every part of it is a text in
-- UTF-8. The length of the file is a usize.
pub cat_from-whole :
    (fuel : ℕ) (from_utf8 : List ℕ → Bool) (idx offset : ℕ) (fs : Files) {f : File}
    → get_elem? fs idx ≡ some f
    → IsText from_utf8 f.data_bytes
    → offset ≤ length f.data_bytes
    → length f.data_bytes ≤ usize_max
    → length f.data_bytes - offset + 64 ≤ 64 * fuel
    → cat_from fuel from_utf8 idx offset fs ≡ ok (drop offset f.data_bytes)
unfolding cat_from
cat_from-whole zero from_utf8 idx offset fs there text order fits enough = absurd (omega arith)
cat_from-whole (suc fuel) from_utf8 idx offset fs {f} there text order fits enough =
    elim (ℕ_discrete (read_at idx offset (replicate 64 0) fs).1 0) [
      | yes over ↦
          rw (eq→== (read_at idx offset (replicate 64 0) fs).1 0 over, cat_from)
            (ap ok (sym (drop-end offset f.data_bytes (omega (arith, count, over)))))
      | no more ↦
          let sum : add offset n ≡ ok (offset + n) = ground (arith, count, fits, order) in
          let rest =
            cat_from-whole fuel from_utf8 idx (offset + n) fs there text (omega (arith, count)) fits
              (omega (arith, count, more)) in
          rw (ne→==_false n 0 more, c.2, text offset n, sum, rest, cat_from)
            (ap ok (take-drop n offset f.data_bytes))
    ]
  where
    c : Copied offset f.data_bytes (replicate 64 0) (read_at idx offset (replicate 64 0) fs)
    c = chunk idx offset fs there

    n : ℕ
    n = (read_at idx offset (replicate 64 0) fs).1

    count : n ≡ min 64 (length f.data_bytes - offset)
    count = c.1
