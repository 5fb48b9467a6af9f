-- ===== src/Vm/Tables.antt =====
-- vm.rs, the tables of the kernel and of the processes, and proc.rs, the demand-mapped heap page.
use osmium.Prelude.{
  ℕ, zero, suc, ◌+◌, ◌-◌, ◌*◌, ◌/◌, ◌^◌, Bool, true, false, not, ◌&&◌, ◌||◌, leb, ltb, ◌==◌,
  if◌then◌else◌, none, some, bit_and, bit_or,
}
use osmium.Machine.{
  Outcome, ok, ◌>>=◌, ◌>>◌, check, expect, sub, store, Mem, page_size, phys_top, plic, plic_size,
  uart0, complement,
}
use osmium.Kalloc.{Kmem, alloc, free}
use osmium.Sched.{Scheduler, with_current}
use osmium.Vm.{
  pte_r, pte_w, pte_x, pte_u, pte_v, perm_mask, pte_to_pa, entry, is_valid, map_pages, translate,
}

-- The section boundaries of the linker script.
pub record Sections : Type 0 where
  pub text_start : ℕ
  pub text_end : ℕ
  pub user_start : ℕ
  pub user_end : ℕ
  pub rodata_start : ℕ
  pub rodata_end : ℕ
  pub data_start : ℕ
  pub kernel_end : ℕ

pub kvmmake : Sections → Kmem → Outcome (ℕ × Kmem)
kvmmake l k = do
  (page, k0) ← alloc k
  root ← expect page
  k1 ← map_pages root uart0 uart0 page_size (bit_or pte_r pte_w) k0
  k2 ← map_pages root plic plic plic_size (bit_or pte_r pte_w) k1
  text ← sub l.text_end l.text_start
  k3 ← map_pages root l.text_start l.text_start text (bit_or pte_r pte_x) k2
  k4 ←
      (if ltb l.user_start l.user_end
        then map_pages root l.user_start l.user_start (l.user_end - l.user_start) pte_r k3
        else ok k3)
  rodata ← sub l.rodata_end l.rodata_start
  k5 ← map_pages root l.rodata_start l.rodata_start rodata pte_r k4
  data_size ← sub l.kernel_end l.data_start
  k6 ← map_pages root l.data_start l.data_start data_size (bit_or pte_r pte_w) k5
  rest ← sub phys_top l.kernel_end
  k7 ← map_pages root l.kernel_end l.kernel_end rest (bit_or pte_r pte_w) k6
  ok (root, k7)

-- `switch_to`: the value that satp gets.
unfoldable pub switch_to : ℕ → Outcome ℕ
switch_to root = do check (not (root == 0)); ok (bit_or (8 * 2 ^ 60) (root / 2 ^ 12))

abbrev pub user_l2_index : ℕ
user_l2_index = 0x4000_0000 / 2 ^ 30

-- The `n` entries from the `i`th on.
unfoldable pub copy_entries : (n i : ℕ) → (uroot kroot : ℕ) → Mem → Mem
copy_entries zero i uroot kroot m = m
copy_entries (suc n) i uroot kroot m =
    copy_entries n (suc i) uroot kroot (store m (entry uroot i) (m (entry kroot i)))

unfoldable pub make_user_table : ℕ → Kmem → Outcome (ℕ × Kmem)
make_user_table kroot k = do
  (page, k') ← alloc k
  root ← expect page
  let m = copy_entries 512 0 root kroot k'.mem
  check (bit_and (m (entry kroot user_l2_index)) pte_v == 0)
  ok (root, record k' { mem = m })

-- `copy_nonoverlapping` of a page.
pub copy_page : (src dst : ℕ) → Mem → Mem
copy_page src dst m a = if leb dst a && ltb a (dst + page_size) then m (src + (a - dst)) else m a

-- The loops of `clone_user_table`, over the `n` entries from the `j`th, or the `i`th, on.
pub clone_leaves : (n j : ℕ) → (child l0 i : ℕ) → Kmem → Outcome Kmem
clone_leaves zero j child l0 i k = ok k
clone_leaves (suc n) j child l0 i k =
    let e0 = k.mem (entry l0 j) in
    elim (is_valid e0) [
      | false ↦ clone_leaves n (suc j) child l0 i k
      | true ↦ do
        let va = bit_or (bit_or (user_l2_index * 2 ^ 30) (i * 2 ^ 21)) (j * 2 ^ 12)
        (page, k1) ← alloc k
        dst ← expect page
        let k2 = record k1 { mem = copy_page (pte_to_pa e0) dst k1.mem }
        k3 ← map_pages child va dst page_size (bit_and e0 perm_mask) k2
        clone_leaves n (suc j) child l0 i k3
    ]

pub clone_tables : (n i : ℕ) → (child l1 : ℕ) → Kmem → Outcome Kmem
clone_tables zero i child l1 k = ok k
clone_tables (suc n) i child l1 k =
    let e1 = k.mem (entry l1 i) in
    elim (is_valid e1) [
      | false ↦ clone_tables n (suc i) child l1 k
      | true ↦ do
        k' ← clone_leaves 512 0 child (pte_to_pa e1) i k
        clone_tables n (suc i) child l1 k'
    ]

unfoldable pub clone_user_table : (kroot parent : ℕ) → Kmem → Outcome (ℕ × Kmem)
clone_user_table kroot parent k = do
  (child, k1) ← make_user_table kroot k
  let e2 = k1.mem (entry parent user_l2_index)
  elim (is_valid e2) [
    | false ↦ ok (child, k1)
    | true ↦ do k2 ← clone_tables 512 0 child (pte_to_pa e2) k1; ok (child, k2)
  ]

-- The loops of `free_user_table`; `kernel_end` is the linker's, for the page allocator's range.
pub free_leaves : (n j : ℕ) → (kernel_end l0 : ℕ) → Kmem → Outcome Kmem
free_leaves zero j kernel_end l0 k = ok k
free_leaves (suc n) j kernel_end l0 k =
    let e0 = k.mem (entry l0 j) in
    elim (is_valid e0) [
      | false ↦ free_leaves n (suc j) kernel_end l0 k
      | true ↦ do k' ← free kernel_end (pte_to_pa e0) k; free_leaves n (suc j) kernel_end l0 k'
    ]

pub free_tables : (n i : ℕ) → (kernel_end l1 : ℕ) → Kmem → Outcome Kmem
free_tables zero i kernel_end l1 k = ok k
free_tables (suc n) i kernel_end l1 k =
    let e1 = k.mem (entry l1 i) in
    elim (is_valid e1) [
      | false ↦ free_tables n (suc i) kernel_end l1 k
      | true ↦ do
        k1 ← free_leaves 512 0 kernel_end (pte_to_pa e1) k
        k2 ← free kernel_end (pte_to_pa e1) k1
        free_tables n (suc i) kernel_end l1 k2
    ]

unfoldable pub free_user_table : (kernel_end root : ℕ) → Kmem → Outcome Kmem
free_user_table kernel_end root k =
    let e2 = k.mem (entry root user_l2_index) in
    elim (is_valid e2) [
      | false ↦ free kernel_end root k
      | true ↦ do
        k1 ← free_tables 512 0 kernel_end (pte_to_pa e2) k
        k2 ← free kernel_end (pte_to_pa e2) k1
        free kernel_end root k2
    ]

-- The page of `addr` in the heap of the process with these bounds and table is mapped, if it is not.
unfoldable pub map_heap_page : (addr table : ℕ) → Kmem → Outcome (Bool × Kmem)
map_heap_page addr table k = do
  let page_va = bit_and addr (complement (page_size - 1))
  (there, k1) ← translate table page_va k
  elim there [
    | some _ ↦ ok (false, k1)
    | none ↦ do
      (page, k2) ← alloc k1
      elim page [
        | none ↦ ok (false, k2)
        | some frame ↦ do
          k3 ← map_pages table page_va frame page_size (bit_or (bit_or pte_r pte_w) pte_u) k2
          ok (true, k3)
      ]
  ]

-- A fault at `addr` of a process with the heap [base, brk) and the table.
unfoldable pub fault_in : (addr base brk table : ℕ) → Kmem → Outcome (Bool × Kmem)
fault_in addr base brk table k = elim (ltb addr base || leb brk addr) [
  | true ↦ ok (false, k)
  | false ↦ map_heap_page addr table k
]

unfoldable pub service_page_fault : ℕ → Scheduler × Kmem → Outcome (Bool × Scheduler × Kmem)
service_page_fault addr (s, k) = do
  (r, s') ← with_current {T = ℕ × ℕ × ℕ} (λ p. ((p.heap_base, p.heap_brk, p.page_table), p)) s
  elim r [
    | none ↦ ok (false, s', k)
    | some (base, brk, table) ↦ do
      (mapped, k') ← fault_in addr base brk table k
      ok (mapped, s', k')
  ]
