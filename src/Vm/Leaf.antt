-- ===== src/Vm/Leaf.antt =====
-- Mapping one page: the lookup of its address finds the new entry, and every other lookup is as
-- before.
use osmium.Prelude.{
  ℕ, ◌+◌, ◌*◌, ◌/◌, ◌%◌, ◌^◌, ◌≤◌, ◌<◌, ◌≡◌, ◌≢◌, refl, sym, ap, ap₂, ◌∙◌, ◌⊎◌, inl, inr, true, not,
  ◌==◌, none, some, List, [], ◌∷◌, ◌++◌, length, arith, Bool-cases, ℕ_discrete, bit_and, bit_or,
  eq→==, ne→==_false,
}
use osmium.Prelude.Bits.{bit_or-shift, bit_or-odd, bit_and-flag, bit_or-zero}
use osmium.Machine.{Mem}
use osmium.Machine.Returns
use osmium.Machine.Returns.{Returns, returns, Returns-eq}
use osmium.Kalloc.{Kmem}
use osmium.Sched.Slots.{some-inj, none≢some}
use osmium.Vm.{pa_to_pte, pte_to_pa, entry, is_valid, vpn, map_page, va_max, pte_v, pte_a, pte_d}
use osmium.Vm.Find.{
  find, find-nil, find-same_last, find-same_step, vpn-lt, indices, find-valid_step, find-valid_last,
}
use osmium.Vm.Space.{
  Node, top, mid, low, rank, rank-child, trail, trail-child, append_assoc, Owner, IsSpace, Wrote,
  Small,
}
use osmium.Vm.Grow.{Grown, linked, pages-written, rank-ne, entry-ne}
use osmium.Vm.Walk.{Led, walk_lem}

-- The entry that `map_pages` writes.
pub leaf_pte : (pa perm : ℕ) → ℕ
leaf_pte pa perm = bit_or (bit_or (bit_or (bit_or (pa_to_pte pa) perm) pte_a) pte_d) pte_v

pub leaf_pte-is_valid : (pa perm : ℕ) → is_valid (leaf_pte pa perm) ≡ true
unfolding leaf_pte
leaf_pte-is_valid pa perm =
    let high = bit_or (bit_or (bit_or (pa_to_pte pa) perm) pte_a) pte_d in
    ground (arith, bit_and-flag 0 (bit_or high pte_v), bit_or-odd high 1 refl)

-- Whatever its flags below 2^10 are, the entry leads to the page.
pub leaf_pte-leads :
    (pa perm : ℕ) → pa % 4096 ≡ 0 → pa < 2 ^ 56 → perm < 2 ^ 10 → pte_to_pa (leaf_pte pa perm) ≡ pa
unfolding leaf_pte pte_to_pa pa_to_pte
leaf_pte-leads pa perm al small flags =
    let base = pa / 2 ^ 12 * 2 ^ 10 % 2 ^ 64 in
    let field : base / 2 ^ 10 ≡ pa / 2 ^ 12 = omega arith in
    let none_left : perm / 2 ^ 10 ≡ 0 = omega arith in
    rw
      (
        bit_or-shift 10 (bit_or (bit_or (bit_or base perm) pte_a) pte_d) pte_v,
        bit_or-shift 10 (bit_or (bit_or base perm) pte_a) pte_d,
        bit_or-shift 10 (bit_or base perm) pte_a,
        bit_or-shift 10 base perm,
        field,
        none_left,
        bit_or-zero (pa / 2 ^ 12),
        bit_or-zero (pa / 2 ^ 12),
        bit_or-zero (pa / 2 ^ 12),
        bit_or-zero (pa / 2 ^ 12),
      )
      (omega arith)

-- A write into a table of the last level changes only the lookup of its own path.
find-leaf :
    {kernel_end root : ℕ} {own : Owner} {k : Kmem} {free : List ℕ} (m' : Mem) (t i e a b : ℕ)
    → IsSpace kernel_end root own k free
    → Wrote own k.mem m' t i e
    → own t ≡ some (low a b)
    → (path : List ℕ) (s : ℕ) {n : Node} → own s ≡ some n
    → length path ≡ rank n
    → Small path
    → trail n ++ path ≢ a ∷ b ∷ i ∷ []
    → find m' s path ≡ find k.mem s path
find-leaf {k} m' t i e a b v wr at [] s here size small off = find-nil k.mem m' s
find-leaf {own} {k} m' t i e a b v wr at (x ∷ []) s {n} here size small off =
    find-same_last k.mem m' s x (wr.kept s n x here small.0 other)
  where
    other : (s ≢ t) ⊎ (x ≢ i)
    other = elim (ℕ_discrete s t) [
      | no ne ↦ inl ne
      | yes st ↦
          let node : n ≡ low a b = some-inj (sym here ∙ ap own st ∙ at) in
          inr (λ xi. off (ap₂ (λ o y. trail o ++ y ∷ []) node xi))
    ]
find-leaf {own} {k} m' t i e a b v wr at (x ∷ y ∷ path) s {n} here size small off =
    find-same_step k.mem m' s x y path
      (wr.kept s n x here small.0
        (inl (λ st. rank-ne own t s at here (omega (arith, size)) (sym st))))
      λ valid.
        find-leaf m' t i e a b v wr at (y ∷ path) (pte_to_pa (k.mem (entry s x)))
          (v.kids s n x here (omega (arith, size)) small.0 valid)
          (omega (arith, size, rank-child n x (omega (arith, size)))) small.1
          (λ same. off (
            sym (append_assoc (trail n) (x ∷ []) (y ∷ path))
            ∙ ap (λ l. l ++ y ∷ path) (sym (trail-child n x (omega (arith, size))))
            ∙ same))

-- The lookup of the path that was written.
find-hit :
    (m m' : Mem) (root va t0 e : ℕ)
    → Led m root va t0
    → m' (entry root (vpn va 2)) ≡ m (entry root (vpn va 2))
    → m' (entry (pte_to_pa (m (entry root (vpn va 2)))) (vpn va 1))
      ≡ m (entry (pte_to_pa (m (entry root (vpn va 2)))) (vpn va 1))
    → m' (entry t0 (vpn va 0)) ≡ e
    → is_valid e ≡ true
    → find m' root (indices va) ≡ some e
find-hit m m' root va t0 e led same2 same1 here valid = first ∙ second ∙ last
  where
    t1 : ℕ
    t1 = pte_to_pa (m (entry root (vpn va 2)))

    first : find m' root (indices va) ≡ find m' t1 (vpn va 1 ∷ vpn va 0 ∷ [])
    first =
        find-valid_step m' root (vpn va 2) (vpn va 1) (vpn va 0 ∷ [])
          (ap is_valid same2 ∙ led.valid2)
        ∙ ap (λ w. find m' (pte_to_pa w) (vpn va 1 ∷ vpn va 0 ∷ [])) same2

    second : find m' t1 (vpn va 1 ∷ vpn va 0 ∷ []) ≡ find m' t0 (vpn va 0 ∷ [])
    second =
        find-valid_step m' t1 (vpn va 1) (vpn va 0) [] (ap is_valid same1 ∙ led.valid1)
        ∙ ap (λ w. find m' (pte_to_pa w) (vpn va 0 ∷ [])) same1
        ∙ ap (λ s. find m' s (vpn va 0 ∷ [])) led.leads

    last : find m' t0 (vpn va 0 ∷ []) ≡ some e
    last = find-valid_last m' t0 (vpn va 0) (ap is_valid here ∙ valid) ∙ ap some here

-- What mapping the page of `va` makes of a space.
pub record Mapped (kernel_end root : ℕ) (own own' : Owner) (k k' : Kmem) (free free' : List ℕ)
    (va pa perm : ℕ) : Type 0 where
  pub space : IsSpace kernel_end root own' k' free'
  pub extends : (s : ℕ) (n : Node) → own s ≡ some n → own' s ≡ some n
  pub cost : length free ≤ length free' + 2
  pub hit : find k'.mem root (indices va) ≡ some (leaf_pte pa perm)
  pub same :
      (path : List ℕ)
      → length path ≡ 3
      → Small path
      → path ≢ indices va
      → find k'.mem root path ≡ find k.mem root path
  pub others :
      (a : ℕ)
      → ((s : ℕ) (n : Node) → own' s ≡ some n → (a < s) ⊎ (s + 4096 ≤ a))
      → k'.mem a ≡ k.mem a

-- A write of an entry into a table of the last level.
module _ {kernel_end root : ℕ} {own : Owner} {k : Kmem} {free : List ℕ} {t i a b : ℕ}
    (v : IsSpace kernel_end root own k free) (at : own t ≡ some (low a b)) (small : i < 512) where
  leaf-Wrote : (e : ℕ) → Wrote own k.mem (linked k t i e).mem t i e
  leaf-Wrote e = record {
    written = rw (eq→== (entry t i) (entry t i) refl) refl;
    kept = λ s n j w l other.
        rw
          (ne→==_false (entry s j) (entry t i)
            (entry-ne s t i j (v.aligned s n w) (v.aligned t (low a b) at) small l other))
          refl;
  }

  leaf-IsSpace : (e : ℕ) → IsSpace kernel_end root own (linked k t i e) free
  leaf-IsSpace e = record {
    pages =
        pages-written k free t i e v.pages (v.aligned t (low a b) at) (v.apart t (low a b) at)
          small;
    at_root = v.at_root;
    kids = λ s n j w inner l valid.
        let word =
          (leaf-Wrote e).kept s n j w l (inl (λ st. rank-ne own t s at w inner (sym st))) in
        ap (λ x. own (pte_to_pa x)) word ∙ v.kids s n j w inner l (sym (ap is_valid word) ∙ valid);
    aligned = v.aligned;
    apart = v.apart;
  }

pub indices-Small : (va : ℕ) → Small (indices va)
indices-Small va = (vpn-lt va 2, (vpn-lt va 1, (vpn-lt va 0, tt)))

-- The entry that a walk comes to is not in use if the address is not mapped.
entry-unused :
    {kernel_end root : ℕ} {own own' : Owner} {k k' : Kmem} {free free' : List ℕ} (va t0 : ℕ)
    → Grown kernel_end root own own' k k' free free' 2
    → Led k'.mem root va t0
    → find k.mem root (indices va) ≡ none
    → (bit_and (k'.mem (entry t0 (vpn va 0))) pte_v == 0) ≡ true
entry-unused {root} {k'} va t0 g led unmapped =
    elim (Bool-cases (bit_and (k'.mem (entry t0 (vpn va 0))) pte_v == 0)) [
      | inl t ↦ t
      | inr f ↦
          let found = find-hit k'.mem k'.mem root va t0 _ led refl refl refl (ap not f) in
          absurd (none≢some (sym (g.same (indices va) refl (indices-Small va) ∙ unmapped) ∙ found))
    ]

leaf-Mapped :
    {kernel_end root : ℕ} {own own' : Owner} {k k' : Kmem} {free free' : List ℕ} (va t0 pa perm : ℕ)
    → own root ≡ some top
    → Grown kernel_end root own own' k k' free free' 2
    → own' t0 ≡ some (low (vpn va 2) (vpn va 1))
    → Led k'.mem root va t0
    → Mapped kernel_end root own own' k
        (linked k' t0 (vpn va 0) (leaf_pte pa perm))
        free
        free'
        va
        pa
        perm
leaf-Mapped {root} {own'} {k'} va t0 pa perm at g at0 led = record {
  space = leaf-IsSpace g.space at0 (vpn-lt va 0) (leaf_pte pa perm);
  extends = g.extends;
  cost = g.cost;
  hit =
      find-hit k'.mem _ root va t0 (leaf_pte pa perm) led
        (wr.kept root top (vpn va 2) g.space.at_root (vpn-lt va 2)
          (inl (λ is. rank-ne own' t0 root at0 g.space.at_root (omega arith) (sym is))))
        (wr.kept t1 (mid (vpn va 2)) (vpn va 1)
          (g.space.kids root top (vpn va 2) g.space.at_root (omega arith) (vpn-lt va 2) led.valid2)
          (vpn-lt va 1)
          (inl (λ is.
            rank-ne own' t0 t1 at0
              (g.space.kids root top (vpn va 2) g.space.at_root (omega arith) (vpn-lt va 2)
                led.valid2)
              (omega arith) (sym is))))
        wr.written (leaf_pte-is_valid pa perm);
  same = λ path size small off.
      find-leaf _ t0 (vpn va 0) (leaf_pte pa perm) (vpn va 2) (vpn va 1) g.space wr at0 path root
        g.space.at_root size small off
      ∙ g.same path size small;
  others = λ a out.
      rw
        (ne→==_false a (entry t0 (vpn va 0)) (λ is. elim (out t0 (low (vpn va 2) (vpn va 1)) at0) [
          | inl b ↦ omega (arith, is, vpn-lt va 0)
          | inr b ↦ omega (arith, is, vpn-lt va 0)
        ]))
        (g.others a out);
}
  where
    t1 : ℕ
    t1 = pte_to_pa (k'.mem (entry root (vpn va 2)))

    wr :
        Wrote own' k'.mem
          (linked k' t0 (vpn va 0) (leaf_pte pa perm)).mem
          t0
          (vpn va 0)
          (leaf_pte pa perm)
    wr = leaf-Wrote g.space at0 (vpn-lt va 0) (leaf_pte pa perm)

-- Mapping the page of an address that is not mapped, with two free pages at hand, ends without a
-- panic: the address then leads to the new entry, and every other lookup is as before.
pub map_page_lem :
    {kernel_end root : ℕ} {own : Owner} {k : Kmem} {free : List ℕ} (va pa perm : ℕ)
    → IsSpace kernel_end root own k free
    → va < va_max
    → 1 < length free
    → find k.mem root (indices va) ≡ none
    → Returns
        (λ k'.
          (own' : Owner) × (free' : List ℕ) × Mapped kernel_end root own own' k k' free free' va pa
            perm)
        (map_page root va pa perm k)
unfolding map_page leaf_pte
map_page_lem {root} {k} va pa perm v bound two unmapped =
    Returns.bind (walk_lem va v bound two) λ (r, k') (t0, own', free', got, g, at0, led).
      rw (got, entry-unused va t0 g led unmapped)
        (returns (own', free', leaf-Mapped va t0 pa perm v.at_root g at0 led))
