-- ===== src/Vm/Translate.antt =====
-- `map_pages` on a range: each address of the range is translated to its physical address, and every
-- other address as before.
use osmium.Prelude.{
  ℕ, ◌+◌, ◌*◌, ◌/◌, ◌%◌, ◌^◌, ◌≤◌, ◌<◌, ◌≡◌, ◌≢◌, refl, sym, ap, ◌∙◌, ◌⊎◌, inl, inr, Option, none,
  some, List, length, arith, bit_and, bit_or, eq→==, ne→==_false, lt→ltb, subst, Option-cases,
}
use osmium.Prelude.Bits.{bit_or-fields}
use osmium.Machine.{Outcome, ok}
use osmium.Machine.Returns
use osmium.Machine.Returns.{Returns, returns, Returns-eq}
use osmium.Kalloc.{Kmem}
use osmium.Sched.Slots.{none≢some}
use osmium.Vm.{map_pages, translate, va_max, perm_mask}
use osmium.Vm.Find.{find, indices, indices-inj, translate-find, located, indices-same}
use osmium.Vm.Space.{Owner, IsSpace}
use osmium.Vm.Leaf.{leaf_pte, leaf_pte-leads, indices-Small}
use osmium.Vm.Range.{Ranged, map_loop_lem}

-- What `translate` returns is the lookup.
pub translate-found :
    (root a : ℕ) (k : Kmem) (r : Option (ℕ × ℕ))
    → a < va_max
    → translate root a k ≡ ok (r, k)
    → located a (find k.mem root (indices a)) ≡ r
translate-found root a k r bound e = ap result (sym (translate-find root a k bound) ∙ e)
  where
    result : Outcome (Option (ℕ × ℕ) × Kmem) → Option (ℕ × ℕ)
    result m = elim m [ ok x ↦ x.0 | _ ↦ none ]

-- What is translated to nothing has no entry.
find-none :
    (root a : ℕ) (k : Kmem)
    → a < va_max
    → translate root a k ≡ ok (none, k)
    → find k.mem root (indices a) ≡ none
find-none root a k bound e = elim (Option-cases (find k.mem root (indices a))) [
  | inl is ↦ is
  | inr (pte, is) ↦
      absurd (none≢some (sym (translate-found root a k none bound e) ∙ ap (located a) is))
]

located-leaf :
    (a pa perm x : ℕ)
    → pa % 4096 ≡ 0
    → pa < 2 ^ 56
    → perm < 2 ^ 10
    → a % 4096 ≡ x
    → located a (some (leaf_pte pa perm)) ≡ some (pa + x, leaf_pte pa perm)
located-leaf a pa perm x al small flags rest =
    let page : pa ≡ pa / 4096 * 2 ^ 12 = omega arith in
    rw (leaf_pte-leads pa perm al small flags, rest)
      (ap (λ p. some (p, leaf_pte pa perm))
        (ap (λ p. bit_or p x) page ∙ bit_or-fields 12 (pa / 4096) x (omega arith) ∙ omega arith))

-- The address space in which `va` to `va + size` was mapped to `pa`.
pub record Translates (kernel_end root : ℕ) (own : Owner) (k k' : Kmem) (va pa size perm : ℕ)
    : Type 0 where
  pub space : (free' : List ℕ) × (own' : Owner) × IsSpace kernel_end root own' k' free'
  pub inside :
      (x : ℕ)
      → x < size
      → translate root (va + x) k' ≡ ok (some (pa + x, leaf_pte ((pa + x) / 4096 * 4096) perm), k')
  pub outside :
      (a : ℕ) (r : Option (ℕ × ℕ))
      → a < va_max
      → (a < va) ⊎ (va + size ≤ a)
      → translate root a k ≡ ok (r, k)
      → translate root a k' ≡ ok (r, k')

module _ {kernel_end root : ℕ} {own own' : Owner} {k k' : Kmem} {free free' : List ℕ}
    {n va pa perm : ℕ} (r : Ranged kernel_end root own own' k k' free free' n va pa perm 0)
    (al : va % 4096 ≡ 0) where
  range-inside :
      (size x : ℕ)
      → size ≡ 4096 * n
      → pa % 4096 ≡ 0
      → perm < 2 ^ 10
      → va + size ≤ va_max
      → pa + size ≤ 2 ^ 56
      → x < size
      → translate root (va + x) k' ≡ ok (some (pa + x, leaf_pte ((pa + x) / 4096 * 4096) perm), k')
  range-inside size x pages al' flags bound phys l =
      let j = x / 4096 in
      let page : pa + (0 + 4096 * j) ≡ (pa + x) / 4096 * 4096 = omega arith in
      translate-find root (va + x) k' (omega arith)
      ∙ ap (λ o. ok (located (va + x) o, k'))
          (ap (find k'.mem root) (indices-same (va + x) (va + (0 + 4096 * j)) (omega arith))
            ∙ r.hits j (omega arith)
            ∙ ap (λ p. some (leaf_pte p perm)) page)
      ∙ ap (λ o. ok (o, k'))
          (located-leaf (va + x) ((pa + x) / 4096 * 4096) perm (x % 4096) (omega arith)
              (omega arith) flags (omega arith)
            ∙ ap (λ p. some (p, leaf_pte ((pa + x) / 4096 * 4096) perm)) (omega arith))

  range-outside :
      (size a : ℕ) (found : Option (ℕ × ℕ))
      → size ≡ 4096 * n
      → va + size ≤ va_max
      → a < va_max
      → (a < va) ⊎ (va + size ≤ a)
      → translate root a k ≡ ok (found, k)
      → translate root a k' ≡ ok (found, k')
  range-outside size a found pages bound small out e =
      translate-find root a k' small
      ∙ ap (λ o. ok (o, k'))
          (ap (located a) (
              r.same (indices a) refl (indices-Small a) λ j l same.
                let page = indices-inj a (va + (0 + 4096 * j)) small (omega arith) same in
                elim out [ inl b ↦ omega (arith, page) | inr b ↦ omega (arith, page) ])
            ∙ translate-found root a k found small e)

-- In a sound address space with two free pages for each page of the range, mapping an aligned range
-- that is not empty, ends below the bound of the addresses and is not mapped yet, with permissions
-- in the ten bits of flags, to physical addresses up to 2^56, ends without a panic. Then each
-- address of the range is translated to its physical address, with the given permissions, each
-- address outside is translated as before, and the space is sound again.
pub map_pages-translate :
    {kernel_end root : ℕ} {own : Owner} {k : Kmem} {free : List ℕ} (va pa size perm : ℕ)
    → IsSpace kernel_end root own k free
    → (va % 4096 ≡ 0) × (pa % 4096 ≡ 0) × (size % 4096 ≡ 0)
    → 0 < size
    → (bit_and perm perm_mask ≢ 0) × (perm < 2 ^ 10)
    → (va + size ≤ va_max) × (pa + size ≤ 2 ^ 56)
    → 2 * (size / 4096) ≤ length free
    → ((x : ℕ) → x < size → translate root (va + x) k ≡ ok (none, k))
    → Returns
        (λ k'. Translates kernel_end root own k k' va pa size perm)
        (map_pages root va pa size perm k)
unfolding map_pages
map_pages-translate {root} {own} {k} va pa size perm v (al, al', al'') some_size (perms, flags)
      (bound, phys) enough unmapped =
    rw
      (
        eq→== (va % 4096) 0 al,
        eq→== (pa % 4096) 0 al',
        eq→== (size % 4096) 0 al'',
        lt→ltb 0 size some_size,
        ne→==_false (bit_and perm perm_mask) 0 perms,
      )
      (Returns.mono
        (map_loop_lem (size / 4096) va pa perm 0 v (omega arith) (omega arith) enough λ j l.
          find-none root (va + (0 + 4096 * j)) k (omega arith) (
            subst (λ a. translate root (va + a) k ≡ ok (none, k)) (omega arith)
              (unmapped (4096 * j) (omega arith))))
        λ k' (own', free', r). record {
          space = (free', own', r.space);
          inside = λ x l. range-inside r al size x (omega arith) al' flags bound phys l;
          outside = λ a found small out e.
              range-outside r al size a found (omega arith) bound small out e;
        })
