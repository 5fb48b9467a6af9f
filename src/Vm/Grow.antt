-- ===== src/Vm/Grow.antt =====
-- A new table: every lookup is as before, and the space stays sound.
use osmium.Prelude.{
  ℕ, ◌+◌, ◌%◌, ◌≤◌, ◌<◌, ◌≡◌, ◌≢◌, refl, sym, ap, ◌∙◌, ◌⊎◌, inl, inr, true, false, ◌==◌, some, List,
  [], ◌∷◌, length, arith, ℕ_discrete, if◌then◌else◌, eq→==, dec_lt, ne→==_false, ap₂,
}
use osmium.Machine.{Mem, store}
use osmium.Kalloc.{Kmem}
use osmium.Kalloc.Chain.{has}
use osmium.Kalloc.Chain
use osmium.Kalloc.Pages.{IsZero, SameOutside}
use osmium.Sched.Slots.{some-inj, true≢false}
use osmium.Vm.{pte_to_pa, entry, is_valid}
use osmium.Vm.Find.{find, find-step, find-same_last, find-same_step, find-empty, find-nil}
use osmium.Vm.Space.{Node, top, child, rank, rank-child, Owner, IsSpace, Wrote, Small}

-- A place is not another place.
pub rank-ne :
    (own : Owner) (s t : ℕ) {n o : Node} → own s ≡ some n → own t ≡ some o → rank n < rank o → s ≢ t
rank-ne own s t {n} {o} a b less e =
    let same : n ≡ o = some-inj (sym a ∙ ap own e ∙ b) in absurd (omega (arith, ap rank same))

find-grown_step :
    {own : Owner} (m m' : Mem) (t i e : ℕ) (path : List ℕ) (s x y : ℕ) {n : Node}
    → Wrote own m m' t i e
    → is_valid (m (entry t i)) ≡ false
    → ((j : ℕ) → j < 512 → is_valid (m' (entry (pte_to_pa e) j)) ≡ false)
    → own s ≡ some n
    → x < 512
    → y < 512
    → (is_valid (m (entry s x)) ≡ true
        → find m' (pte_to_pa (m (entry s x))) (y ∷ path)
          ≡ find m (pte_to_pa (m (entry s x))) (y ∷ path))
    → find m' s (x ∷ y ∷ path) ≡ find m s (x ∷ y ∷ path)
find-grown_step m m' t i e path s x y {n} wr missing blank here small small' behind =
    elim (ℕ_discrete s t) [
      | no ne ↦ same (inl ne)
      | yes st ↦ elim (ℕ_discrete x i) [ no ne ↦ same (inr ne) | yes xi ↦ grown st xi ]
    ]
  where
    same : (s ≢ t) ⊎ (x ≢ i) → find m' s (x ∷ y ∷ path) ≡ find m s (x ∷ y ∷ path)
    same other = find-same_step m m' s x y path (wr.kept s n x here small other) behind

    grown : s ≡ t → x ≡ i → find m' s (x ∷ y ∷ path) ≡ find m s (x ∷ y ∷ path)
    grown st xi =
        let is : m' (entry s x) ≡ e = ap (λ a. m' a) (ap₂ entry st xi) ∙ wr.written in
        let was : is_valid (m (entry s x)) ≡ false =
          ap (λ a. is_valid (m a)) (ap₂ entry st xi) ∙ missing in
        elim (find-step m' s x y path) [
          | inl (valid, step) ↦
              step
              ∙ find-empty m' (pte_to_pa (m' (entry s x))) y path
                  (ap (λ w. is_valid (m' (entry (pte_to_pa w) y))) is ∙ blank y small')
              ∙ sym (find-empty m s x (y ∷ path) was)
          | inr (f, step) ↦ step ∙ sym (find-empty m s x (y ∷ path) was)
        ]

pub find-grown :
    {kernel_end root : ℕ} {own : Owner} {k : Kmem} {free : List ℕ} (m' : Mem) (t i e : ℕ) {o : Node}
    → IsSpace kernel_end root own k free
    → Wrote own k.mem m' t i e
    → own t ≡ some o
    → 1 < rank o
    → is_valid (k.mem (entry t i)) ≡ false
    → ((j : ℕ) → j < 512 → is_valid (m' (entry (pte_to_pa e) j)) ≡ false)
    → (path : List ℕ) (s : ℕ) {n : Node} → own s ≡ some n
    → length path ≡ rank n
    → Small path
    → find m' s path ≡ find k.mem s path
find-grown {k} m' t i e v wr at inner missing blank [] s here size small = find-nil k.mem m' s
find-grown {own} {k} m' t i e {o} v wr at inner missing blank (x ∷ []) s {n} here size small =
    find-same_last k.mem m' s x
      (wr.kept s n x here small.0 (inl (rank-ne own s t here at (omega (arith, size, inner)))))
find-grown {k} m' t i e {o} v wr at inner missing blank (x ∷ y ∷ path) s {n} here size small =
    find-grown_step k.mem m' t i e path s x y wr missing blank here small.0 small.1.0 λ valid.
      find-grown m' t i e v wr at inner missing blank (y ∷ path) (pte_to_pa (k.mem (entry s x)))
        (v.kids s n x here (omega (arith, size)) small.0 valid)
        (omega (arith, size, rank-child n x (omega (arith, size)))) small.1

-- The page `p` becomes a table at the place `n`.
pub adopt : ℕ → Node → Owner → Owner
adopt p n own s = if s == p then some n else own s

pub adopt-new : (p : ℕ) (n : Node) (own : Owner) → adopt p n own p ≡ some n
unfolding adopt
adopt-new p n own = rw (eq→== p p refl) refl

pub adopt-other : (p : ℕ) (n : Node) (own : Owner) (s : ℕ) → s ≢ p → adopt p n own s ≡ own s
unfolding adopt
adopt-other p n own s ne = rw (ne→==_false s p ne) refl

-- A table of the space is not a free page.
pub ne-of_has : (s p : ℕ) (ps : List ℕ) → has s (p ∷ ps) ≡ false → s ≢ p
ne-of_has s p ps out e = ground (arith, out, e)

-- A write into a page that is not free leaves the free list sound.
pub pages-written :
    {kernel_end : ℕ} (k : Kmem) (free : List ℕ) (t i e : ℕ)
    → Chain.IsValid kernel_end k free
    → t % 4096 ≡ 0
    → has t free ≡ false
    → i < 512
    → Chain.IsValid kernel_end (record k { mem = store k.mem (entry t i) e }) free
pages-written {kernel_end} k free t i e v al out small = record {
  chain =
      Chain.Chain-outside kernel_end t k.mem _ k.head free al (λ a l. ground arith)
        (λ a l. ground arith) out v.pages v.chain;
  pages = v.pages;
  distinct = v.distinct;
  count = v.count;
}

-- What `k'` is to `k` after new tables were added, from at most `budget` free pages.
pub record Grown (kernel_end root : ℕ) (own own' : Owner) (k k' : Kmem) (free free' : List ℕ)
    (budget : ℕ) : Type 0 where
  pub space : IsSpace kernel_end root own' k' free'
  pub extends : (s : ℕ) (n : Node) → own s ≡ some n → own' s ≡ some n
  pub cost : length free ≤ length free' + budget
  pub valid_kept :
      (s : ℕ) (n : Node) (j : ℕ)
      → own s ≡ some n
      → j < 512
      → is_valid (k.mem (entry s j)) ≡ true
      → k'.mem (entry s j) ≡ k.mem (entry s j)
  pub same :
      (path : List ℕ) → length path ≡ 3 → Small path → find k'.mem root path ≡ find k.mem root path
  pub others :
      (a : ℕ)
      → ((s : ℕ) (n : Node) → own' s ≡ some n → (a < s) ⊎ (s + 4096 ≤ a))
      → k'.mem a ≡ k.mem a

-- The page `p` was taken from the free list, cleared, and is about to be linked into entry `i` of
-- the table `t`.
pub record Links (kernel_end root : ℕ) (own : Owner) (k k1 : Kmem) (p : ℕ) (ps : List ℕ) (t i e : ℕ)
    (o : Node) : Type 0 where
  pub v : IsSpace kernel_end root own k (p ∷ ps)
  pub at : own t ≡ some o
  pub inner : 1 < rank o
  pub small : i < 512
  pub missing : is_valid (k.mem (entry t i)) ≡ false
  pub leads : pte_to_pa e ≡ p
  pub v1 : Chain.IsValid kernel_end k1 ps
  pub zero_page : IsZero p k1.mem
  pub outside : SameOutside p k.mem k1.mem

abbrev pub linked : Kmem → (t i e : ℕ) → Kmem
linked k1 t i e = record k1 { mem = store k1.mem (entry t i) e }

pub entry-ne :
    (s t i j : ℕ)
    → s % 4096 ≡ 0
    → t % 4096 ≡ 0
    → i < 512
    → j < 512
    → (s ≢ t) ⊎ (j ≢ i)
    → entry s j ≢ entry t i
entry-ne s t i j al al' l l' other e = elim other [
  | inl ne ↦ ne (omega arith)
  | inr ne ↦ let st : s ≡ t = omega arith in ne (omega arith)
]

module _ {kernel_end root : ℕ} {own : Owner} {k k1 : Kmem} {p : ℕ} {ps : List ℕ} {t i e : ℕ}
    {o : Node} (l : Links kernel_end root own k k1 p ps t i e o) where
  table_ne : (s : ℕ) (n : Node) → own s ≡ some n → s ≢ p
  table_ne s n a = ne-of_has s p ps (l.v.apart s n a)

  table_out :
      (s : ℕ) (n : Node) (j : ℕ)
      → own s ≡ some n
      → j < 512
      → (entry s j < p) ⊎ (p + 4096 ≤ entry s j)
  table_out s n j a small =
      let al = l.v.aligned s n a in
      let alp = l.v.pages.pages.0.aligned in
      let ne = table_ne s n a in
      elim (dec_lt s p) [ yes b ↦ inl (omega arith) | no b ↦ inr (omega arith) ]

  linked-Wrote : Wrote own k.mem (linked k1 t i e).mem t i e
  linked-Wrote = record {
    written = rw (eq→== (entry t i) (entry t i) refl) refl;
    kept = λ s n j a small other.
        rw
          (ne→==_false (entry s j) (entry t i)
            (entry-ne s t i j (l.v.aligned s n a) (l.v.aligned t o l.at) l.small small other))
          (l.outside (entry s j) (table_out s n j a small));
  }

  linked-blank : (j : ℕ) → j < 512 → (linked k1 t i e).mem (entry p j) ≡ 0
  linked-blank j small =
      rw
        (ne→==_false (entry p j) (entry t i) (
          entry-ne p t i j l.v.pages.pages.0.aligned (l.v.aligned t o l.at) l.small small
            (inl (λ is. table_ne t o l.at (sym is)))))
        (l.zero_page (entry p j) (omega arith) (omega arith))

  linked-kids :
      (s : ℕ) (n : Node) (j : ℕ)
      → adopt p (child o i) own s ≡ some n
      → 1 < rank n
      → j < 512
      → is_valid ((linked k1 t i e).mem (entry s j)) ≡ true
      → adopt p (child o i) own (pte_to_pa ((linked k1 t i e).mem (entry s j))) ≡ some (child n j)
  linked-kids s n j a inner small valid = elim (ℕ_discrete s p) [
    | yes is ↦ absurd (
        true≢false (
          sym valid
          ∙ ap is_valid (ap (λ x. (linked k1 t i e).mem (entry x j)) is ∙ linked-blank j small)))
    | no ne ↦
        let was : own s ≡ some n = sym (adopt-other p (child o i) own s ne) ∙ a in
        elim (ℕ_discrete s t) [
          | no st ↦ kept was (inl st)
          | yes st ↦ elim (ℕ_discrete j i) [
            | no ji ↦ kept was (inr ji)
            | yes ji ↦
                let same : n ≡ o = some-inj (sym was ∙ ap own st ∙ l.at) in
                ap (λ x. adopt p (child o i) own (pte_to_pa x))
                  (ap (linked k1 t i e).mem (ap₂ entry st ji) ∙ linked-Wrote.written)
                ∙ ap (adopt p (child o i) own) l.leads
                ∙ adopt-new p (child o i) own
                ∙ ap some (ap₂ child (sym same) (sym ji))
          ]
        ]
  ]
    where
      kept :
          own s ≡ some n
          → (s ≢ t) ⊎ (j ≢ i)
          → adopt p (child o i) own (pte_to_pa ((linked k1 t i e).mem (entry s j)))
            ≡ some (child n j)
      kept was other =
          let word = linked-Wrote.kept s n j was small other in
          let old = l.v.kids s n j was inner small (sym (ap is_valid word) ∙ valid) in
          ap (λ x. adopt p (child o i) own (pte_to_pa x)) word
          ∙ adopt-other p (child o i) own (pte_to_pa (k.mem (entry s j)))
              (table_ne (pte_to_pa (k.mem (entry s j))) (child n j) old)
          ∙ old

  -- The new table takes its place in the space.
  pub linked-Grown :
      Grown kernel_end root own (adopt p (child o i) own) k (linked k1 t i e) (p ∷ ps) ps 1
  linked-Grown = record {
    space = record {
      pages =
          pages-written k1 ps t i e l.v1 (l.v.aligned t o l.at) (tail t (l.v.apart t o l.at))
            l.small;
      at_root = adopt-other p (child o i) own root (table_ne root top l.v.at_root) ∙ l.v.at_root;
      kids = linked-kids;
      aligned = λ s n a. elim (ℕ_discrete s p) [
        | yes is ↦ ap (λ x. x % 4096) is ∙ l.v.pages.pages.0.aligned
        | no ne ↦ l.v.aligned s n (sym (adopt-other p (child o i) own s ne) ∙ a)
      ];
      apart = λ s n a. elim (ℕ_discrete s p) [
        | yes is ↦ ap (λ x. has x ps) is ∙ l.v.pages.distinct.0
        | no ne ↦ tail s (l.v.apart s n (sym (adopt-other p (child o i) own s ne) ∙ a))
      ];
    };
    extends = λ s n a. adopt-other p (child o i) own s (table_ne s n a) ∙ a;
    cost = omega arith;
    same = λ path size small.
        find-grown (linked k1 t i e).mem t i e l.v linked-Wrote l.at l.inner l.missing
          (λ j b.
            ap is_valid (ap (λ x. (linked k1 t i e).mem (entry x j)) l.leads ∙ linked-blank j b))
          path root l.v.at_root size small;
    valid_kept = λ s n j a small valid. elim (ℕ_discrete s t) [
      | no st ↦ linked-Wrote.kept s n j a small (inl st)
      | yes st ↦ elim (ℕ_discrete j i) [
        | no ji ↦ linked-Wrote.kept s n j a small (inr ji)
        | yes ji ↦
            absurd
              (true≢false (sym valid ∙ ap (λ x. is_valid (k.mem x)) (ap₂ entry st ji) ∙ l.missing))
      ]
    ];
    others = λ a out.
        let off = out t o (adopt-other p (child o i) own t (table_ne t o l.at) ∙ l.at) in
        rw
          (ne→==_false a (entry t i) (λ is. elim off [
            | inl b ↦ omega (arith, is, l.small)
            | inr b ↦ omega (arith, is, l.small)
          ]))
          (l.outside a (out p (child o i) (adopt-new p (child o i) own)));
  }
    where
      tail : (s : ℕ) → has s (p ∷ ps) ≡ false → has s ps ≡ false
      tail s out = ground (arith, out)
