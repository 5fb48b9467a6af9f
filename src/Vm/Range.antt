-- ===== src/Vm/Range.antt =====
-- Mapping the pages of a range one by one: the lookup of each finds its entry, and every other lookup
-- is as before.
use osmium.Prelude.{
  ℕ, zero, suc, ◌+◌, ◌*◌, ◌^◌, ◌≤◌, ◌<◌, ◌≡◌, ◌≢◌, refl, sym, ap, ◌∙◌, ◌⊎◌, none, some, List,
  length, arith, subst,
}
use osmium.Machine.{ok, ◌>>=◌, add}
use osmium.Machine.Returns
use osmium.Machine.Returns.{Returns, returns, Returns-eq}
use osmium.Kalloc.{Kmem}
use osmium.Vm.{map_page, map_loop, va_max}
use osmium.Vm.Find.{find, indices, indices-inj}
use osmium.Vm.Space.{Node, Owner, IsSpace, Small}
use osmium.Vm.Leaf.{Mapped, map_page_lem, leaf_pte, indices-Small}

-- What mapping `n` pages, from `off` on, makes of a space.
pub record Ranged (kernel_end root : ℕ) (own own' : Owner) (k k' : Kmem) (free free' : List ℕ)
    (n va pa perm off : ℕ) : Type 0 where
  pub space : IsSpace kernel_end root own' k' free'
  pub extends : (s : ℕ) (o : Node) → own s ≡ some o → own' s ≡ some o
  pub cost : length free ≤ length free' + 2 * n
  pub hits :
      (j : ℕ)
      → j < n
      → find k'.mem root (indices (va + (off + 4096 * j)))
        ≡ some (leaf_pte (pa + (off + 4096 * j)) perm)
  pub same :
      (path : List ℕ)
      → length path ≡ 3
      → Small path
      → ((j : ℕ) → j < n → path ≢ indices (va + (off + 4096 * j)))
      → find k'.mem root path ≡ find k.mem root path
  pub others :
      (a : ℕ)
      → ((s : ℕ) (o : Node) → own' s ≡ some o → (a < s) ⊎ (s + 4096 ≤ a))
      → k'.mem a ≡ k.mem a

Ranged-zero :
    {kernel_end root : ℕ} {own : Owner} {k : Kmem} {free : List ℕ} (va pa perm off : ℕ)
    → IsSpace kernel_end root own k free
    → Ranged kernel_end root own own k k free free 0 va pa perm off
Ranged-zero va pa perm off v = record {
  space = v;
  extends = λ s o a. a;
  cost = omega arith;
  hits = λ j l. absurd (omega arith);
  same = λ path size small off. refl;
  others = λ a out. refl;
}

-- A later page of a range is another one than its first.
later-ne :
    (va off j : ℕ)
    → va + (off + 4096 + 4096 * j) < va_max
    → indices (va + (off + 4096 + 4096 * j)) ≢ indices (va + off)
later-ne va off j bound e =
    let page = indices-inj (va + (off + 4096 + 4096 * j)) (va + off) bound (omega arith) e in
    absurd (omega (arith, page))

Ranged-suc :
    {kernel_end root : ℕ} {own own1 own2 : Owner} {k k1 k2 : Kmem} {f f1 f2 : List ℕ}
    (n va pa perm off : ℕ)
    → va + (off + 4096 * suc n) ≤ va_max
    → Mapped kernel_end root own own1 k k1 f f1 (va + off) (pa + off) perm
    → Ranged kernel_end root own1 own2 k1 k2 f1 f2 n va pa perm (off + 4096)
    → Ranged kernel_end root own own2 k k2 f f2 (suc n) va pa perm off
Ranged-suc {root} {k} {k1} {k2} n va pa perm off bound m r = record {
  space = r.space;
  extends = λ s o a. r.extends s o (m.extends s o a);
  cost = omega (arith, m.cost, r.cost);
  hits = hits;
  same = λ path size small off_range.
      r.same path size small
        (λ j l. subst (λ a. path ≢ indices (va + a)) (shift j) (off_range (suc j) (omega arith)))
      ∙ m.same path size small
          (subst (λ a. path ≢ indices a) (at_zero va) (off_range 0 (omega arith)));
  others = λ a out. r.others a out ∙ m.others a (λ s o w. out s o (r.extends s o w));
}
  where
    shift : (j : ℕ) → off + 4096 * suc j ≡ off + 4096 + 4096 * j
    shift j = omega arith

    at_zero : (x : ℕ) → x + (off + 4096 * 0) ≡ x + off
    at_zero x = omega arith

    hits :
        (j : ℕ)
        → j < suc n
        → find k2.mem root (indices (va + (off + 4096 * j)))
          ≡ some (leaf_pte (pa + (off + 4096 * j)) perm)
    hits zero l =
        ap (λ a. find k2.mem root (indices a)) (at_zero va)
        ∙ r.same (indices (va + off)) refl (indices-Small (va + off))
            (λ j b e. later-ne va off j (omega arith) (sym e))
        ∙ m.hit
        ∙ ap (λ a. some (leaf_pte a perm)) (sym (at_zero pa))
    hits (suc j) l =
        ap (λ a. find k2.mem root (indices (va + a))) (shift j)
        ∙ r.hits j (omega arith)
        ∙ ap (λ a. some (leaf_pte (pa + a) perm)) (sym (shift j))

loop-suc :
    (n root va pa perm off : ℕ) (k : Kmem)
    → va + off < 2 ^ 64
    → pa + off < 2 ^ 64
    → map_loop (suc n) root va pa perm off k ≡ (
        map_page root (va + off) (pa + off) perm k >>= λ k'.
        map_loop n root va pa perm (off + 4096) k')
unfolding map_loop
loop-suc n root va pa perm off k small small' =
    let a : add va off ≡ ok (va + off) = ground arith in
    let b : add pa off ≡ ok (pa + off) = ground arith in rw (a, b) refl

pub map_loop_lem :
    {kernel_end root : ℕ} (n : ℕ) {own : Owner} {k : Kmem} {free : List ℕ} (va pa perm off : ℕ)
    → IsSpace kernel_end root own k free
    → va + (off + 4096 * n) ≤ va_max
    → pa + (off + 4096 * n) ≤ 2 ^ 56
    → 2 * n ≤ length free
    → ((j : ℕ) → j < n → find k.mem root (indices (va + (off + 4096 * j))) ≡ none)
    → Returns
        (λ k'.
          (own' : Owner) × (free' : List ℕ) × Ranged kernel_end root own own' k k' free free' n va
            pa perm off)
        (map_loop n root va pa perm off k)
unfolding map_loop
map_loop_lem zero {own} {free} va pa perm off v bound phys enough unmapped =
    returns (own, free, Ranged-zero va pa perm off v)
map_loop_lem {root} (suc n) {own} {k} {free} va pa perm off v bound phys enough unmapped =
    rw (loop-suc n root va pa perm off k (omega arith) (omega arith)) (
      Returns.bind
        (map_page_lem (va + off) (pa + off) perm v (omega arith) (omega arith) (
          subst (λ a. find k.mem root (indices a) ≡ none) (omega arith) (unmapped 0 (omega arith))))
        λ k1 (own1, free1, m).
          Returns.mono
            (map_loop_lem n va pa perm (off + 4096) m.space (omega arith) (omega arith)
              (omega (arith, m.cost))
              λ j l.
                m.same (indices (va + (off + 4096 + 4096 * j))) refl
                  (indices-Small (va + (off + 4096 + 4096 * j))) (later-ne va off j (omega arith))
                ∙ subst (λ a. find k.mem root (indices (va + a)) ≡ none) (omega arith)
                    (unmapped (suc j) (omega arith)))
            λ k2 (own2, free2, r). (own2, free2, Ranged-suc n va pa perm off bound m r))
