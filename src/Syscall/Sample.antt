-- ===== src/Syscall/Sample.antt =====
-- An address space with one page of the user, at 0x4000_0000, for the runs of the system calls.
use osmium.Prelude.{
  ℕ, ◌+◌, ◌*◌, ◌/◌, ◌%◌, ◌<◌, ◌≡◌, ◌≢◌, refl, sym, ap, ◌∙◌, ap₂, subst, ◌⊎◌, inl, inr, true, none,
  some, [], ◌∷◌, arith, ◌==◌, if◌then◌else◌, ne→==_false, ℕ_discrete,
}
use osmium.Machine.{store}
use osmium.Kalloc.{Kmem}
use osmium.Sched.Slots.{some-inj, none≢some, true≢false}
use osmium.Vm.{entry, is_valid, pte_to_pa, vpn}
use osmium.Vm.Find.{find, indices, indices-page, vpn-lt, find-step, find-last}
use osmium.Vm.Space.{Node, top, mid, low, child, rank, Owner, IsSpace}
use osmium.Syscall.{unreadable}
use osmium.Syscall.Poke.{IsUserSpace}

-- The root table, the two below it, and the page.
abbrev pub root : ℕ
root = 0x80c0_0000

abbrev pub memory : Kmem
memory = record {
  mem =
      store
        (store (store (λ a. 0) (root + 8) (0x80c0_1000 / 4096 * 1024 + 1)) 0x80c0_1000
          (0x80c0_2000 / 4096 * 1024 + 1))
        0x80c0_2000 (0x80c0_3000 / 4096 * 1024 + 0xd7);
  head = 0;
  free_pages = 0;
}

abbrev pub tables : Owner
tables s =
    if s == root
    then some top
    else if s == 0x80c0_1000
    then some (mid 1)
    else if s == 0x80c0_2000
    then some (low 1 0)
    else none

-- The entries that are valid.
root-valid : (i : ℕ) → i < 512 → is_valid (memory.mem (entry root i)) ≡ true → i ≡ 1
root-valid i small valid = elim (ℕ_discrete i 1) [
  | yes e ↦ e
  | no ne ↦ absurd (
      true≢false (
        sym valid
        ∙ rw
            (
              ne→==_false (entry root i) 0x80c0_2000 (λ e. omega arith),
              ne→==_false (entry root i) 0x80c0_1000 (λ e. omega arith),
              ne→==_false (entry root i) (root + 8) (λ e. ne (omega arith)),
            )
            refl))
]

middle-valid : (i : ℕ) → i < 512 → is_valid (memory.mem (entry 0x80c0_1000 i)) ≡ true → i ≡ 0
middle-valid i small valid = elim (ℕ_discrete i 0) [
  | yes e ↦ e
  | no ne ↦ absurd (
      true≢false (
        sym valid
        ∙ rw
            (
              ne→==_false (entry 0x80c0_1000 i) 0x80c0_2000 (λ e. omega arith),
              ne→==_false (entry 0x80c0_1000 i) 0x80c0_1000 (λ e. ne (omega arith)),
              ne→==_false (entry 0x80c0_1000 i) (root + 8) (λ e. omega arith),
            )
            refl))
]

last-valid : (i : ℕ) → i < 512 → is_valid (memory.mem (entry 0x80c0_2000 i)) ≡ true → i ≡ 0
last-valid i small valid = elim (ℕ_discrete i 0) [
  | yes e ↦ e
  | no ne ↦ absurd (
      true≢false (
        sym valid
        ∙ rw
            (
              ne→==_false (entry 0x80c0_2000 i) 0x80c0_2000 (λ e. ne (omega arith)),
              ne→==_false (entry 0x80c0_2000 i) 0x80c0_1000 (λ e. omega arith),
              ne→==_false (entry 0x80c0_2000 i) (root + 8) (λ e. omega arith),
            )
            refl))
]

-- The one page that is mapped.
mapped :
    (a pte : ℕ)
    → find memory.mem root (indices a) ≡ some pte
    → (vpn a 2 ≡ 1) × (vpn a 1 ≡ 0) × (vpn a 0 ≡ 0) × (pte ≡ 0x2030_0cd7)
unfolding pte_to_pa
mapped a pte e = elim (find-step memory.mem root (vpn a 2) (vpn a 1) (vpn a 0 ∷ [])) [
  | inr (bad, is) ↦ absurd (none≢some (sym is ∙ e))
  | inl (valid, is) ↦
      let e2 = root-valid (vpn a 2) (vpn-lt a 2) valid in
      let at1 : find memory.mem 0x80c0_1000 (vpn a 1 ∷ vpn a 0 ∷ []) ≡ some pte =
        ap (λ i. find memory.mem (pte_to_pa (memory.mem (entry root i))) (vpn a 1 ∷ vpn a 0 ∷ []))
          (sym e2)
        ∙ sym is
        ∙ e in
      elim (find-step memory.mem 0x80c0_1000 (vpn a 1) (vpn a 0) []) [
        | inr (bad, is') ↦ absurd (none≢some (sym is' ∙ at1))
        | inl (valid', is') ↦
            let e1 = middle-valid (vpn a 1) (vpn-lt a 1) valid' in
            let at0 : find memory.mem 0x80c0_2000 (vpn a 0 ∷ []) ≡ some pte =
              ap
                (λ i. find memory.mem (pte_to_pa (memory.mem (entry 0x80c0_1000 i))) (vpn a 0 ∷ []))
                (sym e1)
              ∙ sym is'
              ∙ at1 in
            elim (find-last memory.mem 0x80c0_2000 (vpn a 0)) [
              | inr (bad, is'') ↦ absurd (none≢some (sym is'' ∙ at0))
              | inl (valid'', is'') ↦
                  let e0 = last-valid (vpn a 0) (vpn-lt a 0) valid'' in
                  (
                    e2,
                    e1,
                    e0,
                    some-inj (sym at0 ∙ is'') ∙ ap (λ i. memory.mem (entry 0x80c0_2000 i)) e0,
                  )
            ]
      ]
]

-- Which pages are tables.
tables-cases :
    (s : ℕ) (n : Node)
    → tables s ≡ some n
    → ((s ≡ root) × (n ≡ top))
      ⊎ ((s ≡ 0x80c0_1000) × (n ≡ mid 1))
      ⊎ ((s ≡ 0x80c0_2000) × (n ≡ low 1 0))
tables-cases s n e = elim (ℕ_discrete s root) [
  | yes is ↦ inl (is, some-inj (sym e ∙ ap tables is))
  | no ne ↦ elim (ℕ_discrete s 0x80c0_1000) [
    | yes is ↦ inr (inl (is, some-inj (sym e ∙ ap tables is)))
    | no ne' ↦ elim (ℕ_discrete s 0x80c0_2000) [
      | yes is ↦ inr (inr (is, some-inj (sym e ∙ ap tables is)))
      | no ne'' ↦ absurd (
          none≢some (
            sym (
              rw
                (
                  ne→==_false s root ne,
                  ne→==_false s 0x80c0_1000 ne',
                  ne→==_false s 0x80c0_2000 ne'',
                )
                refl)
            ∙ e))
    ]
  ]
]

-- The entry of a table leads to the table at its place.
kid :
    (s t : ℕ) (m n : Node) (i j : ℕ)
    → t ≡ s
    → n ≡ m
    → i ≡ j
    → tables (pte_to_pa (memory.mem (entry s j))) ≡ some (child m j)
    → tables (pte_to_pa (memory.mem (entry t i))) ≡ some (child n i)
kid s t m n i j e e' e'' there =
    ap₂ (λ s j. tables (pte_to_pa (memory.mem (entry s j)))) e e''
    ∙ there
    ∙ sym (ap₂ (λ m j. some (child m j)) e' e'')

kids :
    (t : ℕ) (n : Node) (i : ℕ)
    → tables t ≡ some n
    → 1 < rank n
    → i < 512
    → is_valid (memory.mem (entry t i)) ≡ true
    → tables (pte_to_pa (memory.mem (entry t i))) ≡ some (child n i)
unfolding pte_to_pa
kids t n i at inner small valid = elim (tables-cases t n at) [
  | inl (e, e') ↦
      kid root t top n i 1 e e'
        (root-valid i small (subst (λ s. is_valid (memory.mem (entry s i)) ≡ true) e valid)) refl
  | inr (inl (e, e')) ↦
      kid 0x80c0_1000 t (mid 1) n i 0 e e'
        (middle-valid i small (subst (λ s. is_valid (memory.mem (entry s i)) ≡ true) e valid)) refl
  | inr (inr (e, e')) ↦ absurd (omega (arith, inner, ap rank e'))
]

memory-IsSpace : IsSpace 0x8020_0000 root tables memory []
memory-IsSpace = record {
  pages = record { chain = refl; pages = tt; distinct = tt; count = refl };
  at_root = refl;
  kids = kids;
  aligned = λ t n at. elim (tables-cases t n at) [
    | inl (e, _) ↦ ap (λ s. s % 4096) e
    | inr (inl (e, _)) ↦ ap (λ s. s % 4096) e
    | inr (inr (e, _)) ↦ ap (λ s. s % 4096) e
  ];
  apart = λ t n at. refl;
}

page-apart : (s : ℕ) (n : Node) → tables s ≡ some n → s ≢ 0x80c0_3000
page-apart s n at e = elim (tables-cases s n at) [
  | inl (is, _) ↦ omega (arith, is, e)
  | inr (inl (is, _)) ↦ omega (arith, is, e)
  | inr (inr (is, _)) ↦ omega (arith, is, e)
]

pub memory-IsUserSpace : IsUserSpace 0x8020_0000 root tables memory []
unfolding pte_to_pa
memory-IsUserSpace = record {
  space = memory-IsSpace;
  readable = λ a pte (e, passes). ap unreadable (mapped a pte e).3;
  data_page = λ a pte (e, passes).
      let page : pte_to_pa pte ≡ 0x80c0_3000 = ap pte_to_pa (mapped a pte e).3 in
      record {
        aligned = ap (λ q. q % 4096) page;
        no_table = λ s n at same. page-apart s n at (same ∙ page);
        no_free = refl;
      };
  alone = λ a b pte pte' low low' (e, _) (e', _) same.
      let (e2, e1, e0, _) = mapped a pte e in
      let (f2, f1, f0, _) = mapped b pte' e' in
      indices-page a b low low' (e2 ∙ sym f2) (e1 ∙ sym f1) (e0 ∙ sym f0);
}
