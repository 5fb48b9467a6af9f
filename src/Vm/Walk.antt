-- ===== src/Vm/Walk.antt =====
-- A walk that allocates: where it comes to, and that every lookup is as before.
use osmium.Prelude.{
  ℕ, ◌+◌, ◌%◌, ◌^◌, ◌<◌, ◌≡◌, refl, ap, ◌∙◌, inl, inr, true, false, Option, none, some, List, [],
  ◌∷◌, length, arith, Bool-cases, bit_or, lt→ltb, eq→==,
}
use osmium.Prelude.Bits.{bit_or-odd, bit_and-flag}
use osmium.Machine.{Mem, Outcome, ok, ◌>>=◌}
use osmium.Machine.Returns
use osmium.Machine.Returns.{Returns, returns, Returns-eq}
use osmium.Kalloc.{Kmem, alloc}
use osmium.Kalloc.Chain.{has}
use osmium.Kalloc.Pages.{alloc-cons}
use osmium.Vm.{pa_to_pte, pte_to_pa, entry, is_valid, vpn, walk_level, walk, va_max, pte_v}
use osmium.Vm.Laws.{pte_to_pa-pa_to_pte}
use osmium.Vm.Find.{vpn-lt}
use osmium.Vm.Space.{Node, top, low, child, rank, Owner, IsSpace}
use osmium.Vm.Grow.{Grown, linked, linked-Grown, adopt, adopt-new}

Grown-refl :
    {kernel_end root : ℕ} {own : Owner} {k : Kmem} {free : List ℕ}
    → IsSpace kernel_end root own k free
    → Grown kernel_end root own own k k free free 1
Grown-refl v = record {
  space = v;
  extends = λ s n a. a;
  cost = omega arith;
  valid_kept = λ s n j a l valid. refl;
  same = λ path size small. refl;
  others = λ a out. refl;
}

-- The table that a step of the walk comes to.
abbrev Reached :
    (kernel_end root : ℕ) → Owner → Kmem → List ℕ → (t i : ℕ) → Node → Option ℕ × Kmem → Type 0
Reached kernel_end root own k free t i o (r, k') =
    (t' : ℕ) × (own' : Owner) × (free' : List ℕ) × (r ≡ some t')
    × Grown kernel_end root own own' k k' free free' 1
    × (own' t' ≡ some (child o i))
    × (is_valid (k'.mem (entry t i)) ≡ true)
    × (pte_to_pa (k'.mem (entry t i)) ≡ t')

table_entry : ℕ → ℕ
table_entry p = bit_or (pa_to_pte p) pte_v

table_entry-is_valid : (p : ℕ) → is_valid (table_entry p) ≡ true
unfolding table_entry
table_entry-is_valid p =
    ground (arith, bit_and-flag 0 (bit_or (pa_to_pte p) pte_v), bit_or-odd (pa_to_pte p) 1 refl)

table_entry-leads : (p : ℕ) → p % 4096 ≡ 0 → p < 2 ^ 56 → pte_to_pa (table_entry p) ≡ p
unfolding table_entry
table_entry-leads p al small = pte_to_pa-pa_to_pte p pte_v al small (omega arith)

level-present :
    (va level t : ℕ) (k : Kmem)
    → is_valid (k.mem (entry t (vpn va level))) ≡ true
    → walk_level true va level t k ≡ ok (some (pte_to_pa (k.mem (entry t (vpn va level)))), k)
unfolding walk_level
level-present va level t k valid = rw (valid, walk_level) refl

level-grows :
    (va level t : ℕ) (k k1 : Kmem) (p : ℕ)
    → is_valid (k.mem (entry t (vpn va level))) ≡ false
    → alloc k ≡ ok (some p, k1)
    → walk_level true va level t k ≡ ok (some p, linked k1 t (vpn va level) (table_entry p))
unfolding walk_level table_entry
level-grows va level t k k1 p missing e = rw (missing, e, walk_level) refl

level_lem :
    {kernel_end root : ℕ} {own : Owner} {k : Kmem} {free : List ℕ} (va level t : ℕ) {o : Node}
    → IsSpace kernel_end root own k free
    → own t ≡ some o
    → 1 < rank o
    → 0 < length free
    → Returns
        (λ r. Reached kernel_end root own k free t (vpn va level) o r)
        (walk_level true va level t k)
level_lem {own} {k} {free = []} va level t {o} v at inner some_free = absurd (omega arith)
level_lem {kernel_end} {root} {own} {k} {free = p ∷ ps} va level t {o} v at inner some_free =
    elim (Bool-cases (is_valid (k.mem (entry t (vpn va level))))) [
      | inl valid ↦ Returns-eq (level-present va level t k valid) (
        pte_to_pa (k.mem (entry t (vpn va level))),
        own,
        p ∷ ps,
        refl,
        Grown-refl v,
        v.kids t o (vpn va level) at inner (vpn-lt va level) valid,
        valid,
        refl,
      )
      | inr missing ↦ grow missing (alloc k) refl (alloc-cons v.pages)
    ]
  where
    grow :
        is_valid (k.mem (entry t (vpn va level))) ≡ false
        → (m : Outcome (Option ℕ × Kmem)) → alloc k ≡ m
        → Returns
            (λ (r, k1).
              (r ≡ some p)
              × osmium.Kalloc.Chain.IsValid kernel_end k1 ps
              × (k1.free_pages + 1 ≡ k.free_pages)
              × osmium.Kalloc.Pages.IsZero p k1.mem
              × osmium.Kalloc.Pages.SameOutside p k.mem k1.mem)
            m
        → Returns
            (λ r. Reached kernel_end root own k (p ∷ ps) t (vpn va level) o r)
            (walk_level true va level t k)
    grow missing m e (returns {a = (r, k1)} (got, v1, count, zero_page, outside)) =
        let page = v.pages.pages.0 in
        let e2 = table_entry p in
        let leads : pte_to_pa e2 ≡ p =
          table_entry-leads p page.aligned (omega (arith, page.below)) in
        let here : (linked k1 t (vpn va level) e2).mem (entry t (vpn va level)) ≡ e2 =
          rw (eq→== (entry t (vpn va level)) (entry t (vpn va level)) refl) refl in
        Returns-eq (level-grows va level t k k1 p missing (e ∙ ap (λ x. ok (x, k1)) got)) (
          p,
          adopt p (child o (vpn va level)) own,
          ps,
          refl,
          linked-Grown (record {
            v = v;
            at = at;
            inner = inner;
            small = vpn-lt va level;
            missing = missing;
            leads = leads;
            v1 = v1;
            zero_page = zero_page;
            outside = outside;
          }),
          adopt-new p (child o (vpn va level)) own,
          ap is_valid here ∙ table_entry-is_valid p,
          ap pte_to_pa here ∙ leads,
        )

-- Two such changes, one after the other.
pub Grown-trans :
    {kernel_end root : ℕ} {own own1 own2 : Owner} {k k1 k2 : Kmem} {f f1 f2 : List ℕ} {a b : ℕ}
    → own root ≡ some top
    → Grown kernel_end root own own1 k k1 f f1 a
    → Grown kernel_end root own1 own2 k1 k2 f1 f2 b
    → Grown kernel_end root own own2 k k2 f f2 (a + b)
Grown-trans {k} {k1} at g h = record {
  space = h.space;
  extends = λ s n w. h.extends s n (g.extends s n w);
  cost = omega (arith, g.cost, h.cost);
  valid_kept = λ s n j w l valid.
      let first = g.valid_kept s n j w l valid in
      h.valid_kept s n j (g.extends s n w) l (ap is_valid first ∙ valid) ∙ first;
  same = λ path size small. h.same path size small ∙ g.same path size small;
  others = λ x out. h.others x out ∙ g.others x (λ s n w. out s n (h.extends s n w));
}

-- The two entries that lead to the last table.
pub record Led (m : Mem) (root va t0 : ℕ) : Type 0 where
  pub valid2 : is_valid (m (entry root (vpn va 2))) ≡ true
  pub valid1 : is_valid (m (entry (pte_to_pa (m (entry root (vpn va 2)))) (vpn va 1))) ≡ true
  pub leads : pte_to_pa (m (entry (pte_to_pa (m (entry root (vpn va 2)))) (vpn va 1))) ≡ t0

abbrev pub Walked : (kernel_end root : ℕ) → Owner → Kmem → List ℕ → ℕ → Option ℕ × Kmem → Type 0
Walked kernel_end root own k free va (r, k') =
    (t0 : ℕ) × (own' : Owner) × (free' : List ℕ) × (r ≡ some (entry t0 (vpn va 0)))
    × Grown kernel_end root own own' k k' free free' 2
    × (own' t0 ≡ some (low (vpn va 2) (vpn va 1)))
    × Led k'.mem root va t0

walk-both :
    (root va : ℕ) (k : Kmem)
    → va < va_max
    → walk root va true k ≡ (
        walk_level true va 2 root k >>= λ (middle, k1). elim middle [
          | none ↦ ok (none, k1)
          | some t1 ↦ walk_level true va 1 t1 k1 >>= λ (last, k2). elim last [
            | none ↦ ok (none, k2)
            | some t0 ↦ ok (some (entry t0 (vpn va 0)), k2)
          ]
        ])
unfolding walk
walk-both root va k bound = rw (lt→ltb va va_max bound) refl

pub walk_lem :
    {kernel_end root : ℕ} {own : Owner} {k : Kmem} {free : List ℕ} (va : ℕ)
    → IsSpace kernel_end root own k free
    → va < va_max
    → 1 < length free
    → Returns (λ r. Walked kernel_end root own k free va r) (walk root va true k)
walk_lem {root} {k} va v bound two = rw (walk-both root va k bound) (
    Returns.bind (level_lem va 2 root v v.at_root (omega arith) (omega arith))
      λ (r1, k1) (t1, own1, free1, got1, g1, at1, valid2, leads2). rw got1 (
        Returns.bind (level_lem va 1 t1 g1.space at1 (omega arith) (omega (arith, g1.cost)))
          λ (r2, k2) (t0, own2, free2, got2, g2, at0, valid1, leads1). rw got2 (
            returns (
              t0,
              own2,
              free2,
              refl,
              Grown-trans v.at_root g1 g2,
              at0,
              led k1 k2 t1 t0
                  (g2.valid_kept root top (vpn va 2) g1.space.at_root (vpn-lt va 2) valid2) valid2
                  leads2 valid1 leads1,
            ))))
  where
    led :
        (k1 k2 : Kmem) (t1 t0 : ℕ)
        → k2.mem (entry root (vpn va 2)) ≡ k1.mem (entry root (vpn va 2))
        → is_valid (k1.mem (entry root (vpn va 2))) ≡ true
        → pte_to_pa (k1.mem (entry root (vpn va 2))) ≡ t1
        → is_valid (k2.mem (entry t1 (vpn va 1))) ≡ true
        → pte_to_pa (k2.mem (entry t1 (vpn va 1))) ≡ t0
        → Led k2.mem root va t0
    led k1 k2 t1 t0 word valid2 leads2 valid1 leads1 =
        let base = ap pte_to_pa word ∙ leads2 in
        record {
          valid2 = ap is_valid word ∙ valid2;
          valid1 = ap (λ s. is_valid (k2.mem (entry s (vpn va 1)))) base ∙ valid1;
          leads = ap (λ s. pte_to_pa (k2.mem (entry s (vpn va 1)))) base ∙ leads1;
        }
