-- ===== src/Vm/Laws.antt =====
-- The entry format, and what a walk without allocation finds.
use osmium.Prelude.{
  ℕ, ◌*◌, ◌/◌, ◌%◌, ◌^◌, ◌≤◌, ◌<◌, ◌≡◌, refl, ◌⊎◌, inl, inr, true, false, ◌==◌, none, some, bit_and,
  bit_or, arith, Bool-cases, lt→ltb, le→ltb_false, dec_lt, ltb, leb, ◌||◌,
}
use osmium.Prelude.Bits.{bit_or-fields}
use osmium.Machine.{ok, panic, page_size}
use osmium.Kalloc.{Kmem}
use osmium.Sched.{Process, Scheduler, put}
use osmium.Sched.Slots.{At}
use osmium.Sched.Keep.{with_current_lem}
use osmium.Vm.Tables.{switch_to, service_page_fault, fault_in}
use osmium.Vm.{
  pa_to_pte, pte_to_pa, vpn, entry, is_valid, walk_level, walk, translate, va_max, pte_v,
}

-- The physical address of a page below 2^56 comes back from an entry, whatever the ten bits of flags
-- beside it are.
pub pte_to_pa-pa_to_pte :
    (pa flags : ℕ)
    → pa % page_size ≡ 0
    → pa < 2 ^ 56
    → flags < 2 ^ 10
    → pte_to_pa (bit_or (pa_to_pte pa) flags) ≡ pa
unfolding pte_to_pa pa_to_pte
pte_to_pa-pa_to_pte pa flags aligned low small =
    let fits : pa / 2 ^ 12 * 2 ^ 10 % 2 ^ 64 ≡ pa / 2 ^ 12 * 2 ^ 10 = omega arith in
    rw (fits, bit_or-fields 10 (pa / 2 ^ 12) flags small) (omega arith)

abbrev pub entry2 : (root va : ℕ) → Kmem → ℕ
entry2 root va k = k.mem (entry root (vpn va 2))

abbrev pub entry1 : (root va : ℕ) → Kmem → ℕ
entry1 root va k = k.mem (entry (pte_to_pa (entry2 root va k)) (vpn va 1))

abbrev pub entry0 : (root va : ℕ) → Kmem → ℕ
entry0 root va k = k.mem (entry (pte_to_pa (entry1 root va k)) (vpn va 0))

level-there :
    (va level table : ℕ) (k : Kmem)
    → is_valid (k.mem (entry table (vpn va level))) ≡ true
    → walk_level false va level table k
      ≡ ok (some (pte_to_pa (k.mem (entry table (vpn va level)))), k)
unfolding walk_level
level-there va level table k t = rw (t, walk_level) refl

level-missing :
    (va level table : ℕ) (k : Kmem)
    → is_valid (k.mem (entry table (vpn va level))) ≡ false
    → walk_level false va level table k ≡ ok (none, k)
unfolding walk_level
level-missing va level table k t = rw (t, walk_level) refl

-- `translate` panics on an address beyond the bound of Sv39. Below it, it never panics and changes no
-- memory: it gives the address and the entry that three valid entries in a row lead to, and none
-- if one of the three is not valid.
pub translate-cases :
    (root va : ℕ) (k : Kmem)
    → ((va_max ≤ va) × (translate root va k ≡ panic))
      ⊎ ((va < va_max)
          × (((is_valid (entry2 root va k) ≡ true)
                × (is_valid (entry1 root va k) ≡ true)
                × (is_valid (entry0 root va k) ≡ true)
                × (translate root va k
                    ≡ ok (
                      some (
                        bit_or (pte_to_pa (entry0 root va k)) (va % page_size),
                        entry0 root va k,
                      ),
                      k,
                    )))
              ⊎ (((is_valid (entry2 root va k) ≡ false)
                    ⊎ (is_valid (entry1 root va k) ≡ false)
                    ⊎ (is_valid (entry0 root va k) ≡ false))
                  × (translate root va k ≡ ok (none, k)))))
unfolding translate walk
translate-cases root va k = elim (dec_lt va va_max) [
  | no l ↦ inl (omega arith, rw (le→ltb_false va va_max (omega arith)) refl)
  | yes l ↦ inr (
    l,
    elim (Bool-cases (is_valid (entry2 root va k))) [
      | inr z2 ↦ inr (inl z2, rw (lt→ltb va va_max l, level-missing va 2 root k z2) refl)
      | inl t2 ↦ elim (Bool-cases (is_valid (entry1 root va k))) [
        | inr z1 ↦ inr (
          inr (inl z1),
          rw
              (
                lt→ltb va va_max l,
                level-there va 2 root k t2,
                level-missing va 1 (pte_to_pa (entry2 root va k)) k z1,
              )
              refl,
        )
        | inl t1 ↦ elim (Bool-cases (bit_and (entry0 root va k) pte_v == 0)) [
          | inl z0 ↦ inr (
            inr (inr (rw z0 refl)),
            rw
                (
                  lt→ltb va va_max l,
                  level-there va 2 root k t2,
                  level-there va 1 (pte_to_pa (entry2 root va k)) k t1,
                  z0,
                )
                refl,
          )
          | inr t0 ↦ inl (
            t2,
            t1,
            rw t0 refl,
            rw
                (
                  lt→ltb va va_max l,
                  level-there va 2 root k t2,
                  level-there va 1 (pte_to_pa (entry2 root va k)) k t1,
                  t0,
                )
                refl,
          )
        ]
      ]
    ],
  )
]

fault_in-outside :
    (addr base brk table : ℕ) (k : Kmem)
    → (addr < base) ⊎ (brk ≤ addr)
    → fault_in addr base brk table k ≡ ok (false, k)
unfolding fault_in
fault_in-outside addr base brk table k out =
    let test : (ltb addr base || leb brk addr) ≡ true = ground (arith, out) in
    rw (test, fault_in) refl

-- A fault of the current process outside its heap maps nothing: the answer is no, and neither the
-- page tables nor the free pages change.
pub service_page_fault-outside :
    (addr : ℕ) (s : Scheduler) (k : Kmem) {cur : ℕ} (p : Process)
    → s.current ≡ some cur
    → At s.procs cur p
    → (addr < p.heap_base) ⊎ (p.heap_brk ≤ addr)
    → service_page_fault addr (s, k) ≡ ok (false, put cur p s, k)
unfolding service_page_fault
service_page_fault-outside addr s k p e a out =
    rw
      (
        with_current_lem {T = ℕ × ℕ × ℕ} (λ q. ((q.heap_base, q.heap_brk, q.page_table), q)) s e a,
        fault_in-outside addr p.heap_base p.heap_brk p.page_table k out,
      )
      refl

pub switch_to-ok :
    (root : ℕ) → ¬ (root ≡ 0) → switch_to root ≡ ok (bit_or (8 * 2 ^ 60) (root / 2 ^ 12))
unfolding switch_to
switch_to-ok root there = ground arith
