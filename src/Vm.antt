-- ===== src/Vm.antt =====
-- vm.rs, Sv39 page tables over the page allocator's memory. A table is a page of 512 words, and an
-- entry is the word at `table + 8 * index`. The functions that fence or print have no effect here.
pub mod Tables
pub mod Laws
pub mod Find
pub mod Space
pub mod Grow
pub mod Walk
pub mod Leaf
pub mod Range
pub mod Translate
pub mod Demand
pub mod Keep
mod Tests
use osmium.Prelude.{
  ℕ, zero, suc, ◌+◌, ◌-◌, ◌*◌, ◌/◌, ◌%◌, ◌^◌, Bool, true, false, not, ◌&&◌, leb, ltb, ◌==◌,
  if◌then◌else◌, Option, none, some, bit_and, bit_or,
}
use osmium.Machine.{
  Outcome, ok, panic, spin, ◌>>=◌, ◌>>◌, check, expect, add, sub, store, page_size, phys_top, plic,
  plic_size, uart0,
}
use osmium.Kalloc.{Kmem, alloc}

abbrev pub pte_v : ℕ
pte_v = 2 ^ 0

abbrev pub pte_r : ℕ
pte_r = 2 ^ 1

abbrev pub pte_w : ℕ
pte_w = 2 ^ 2

abbrev pub pte_x : ℕ
pte_x = 2 ^ 3

abbrev pub pte_u : ℕ
pte_u = 2 ^ 4

abbrev pub pte_a : ℕ
pte_a = 2 ^ 6

abbrev pub pte_d : ℕ
pte_d = 2 ^ 7

abbrev pub perm_mask : ℕ
perm_mask = bit_or (bit_or (bit_or pte_r pte_w) pte_x) pte_u

abbrev pub va_max : ℕ
va_max = 2 ^ 38

pub pa_to_pte : ℕ → ℕ
pa_to_pte pa = pa / 2 ^ 12 * 2 ^ 10 % 2 ^ 64

unfoldable pub pte_to_pa : ℕ → ℕ
pte_to_pa pte = pte / 2 ^ 10 * 2 ^ 12 % 2 ^ 64

unfoldable pub vpn : (va level : ℕ) → ℕ
vpn va level = bit_and (va / 2 ^ (12 + 9 * level)) 0x1ff

-- `*table.add(i)`
abbrev pub entry : ℕ → ℕ → ℕ
entry table i = table + 8 * i

abbrev pub is_valid : ℕ → Bool
is_valid pte = not (bit_and pte pte_v == 0)

-- The body of the loop of `walk`: the table of the next level, or none.
unfoldable pub walk_level : (grow : Bool) → (va level table : ℕ) → Kmem → Outcome (Option ℕ × Kmem)
walk_level grow va level table k =
    let pte_ptr = entry table (vpn va level) in
    elim (is_valid (k.mem pte_ptr)) [
      | true ↦ ok (some (pte_to_pa (k.mem pte_ptr)), k)
      | false ↦ elim grow [
        | false ↦ ok (none, k)
        | true ↦ do
          (page, k') ← alloc k
          elim page [
            | none ↦ ok (none, k')
            | some p ↦
                ok (some p, record k' { mem = store k'.mem pte_ptr (bit_or (pa_to_pte p) pte_v) })
          ]
      ]
    ]

-- The address of the last entry for `va`, if there is one.
unfoldable pub walk : (root va : ℕ) → (grow : Bool) → Kmem → Outcome (Option ℕ × Kmem)
walk root va grow k = do
  check (ltb va va_max)
  (middle, k1) ← walk_level grow va 2 root k
  elim middle [
    | none ↦ ok (none, k1)
    | some t1 ↦ do
      (last, k2) ← walk_level grow va 1 t1 k1
      elim last [ none ↦ ok (none, k2) | some t0 ↦ ok (some (entry t0 (vpn va 0)), k2) ]
  ]

-- The body of the loop of `map_pages`.
pub map_page : (root va pa perm : ℕ) → Kmem → Outcome Kmem
map_page root va pa perm k = do
  (found, k') ← walk root va true k
  pte_ptr ← expect found
  check (bit_and (k'.mem pte_ptr) pte_v == 0)
  let pte = bit_or (bit_or (bit_or (bit_or (pa_to_pte pa) perm) pte_a) pte_d) pte_v
  ok (record k' { mem = store k'.mem pte_ptr pte })

pub map_loop : ℕ → (root va pa perm off : ℕ) → Kmem → Outcome Kmem
map_loop zero root va pa perm off k = ok k
map_loop (suc pages) root va pa perm off k = do
  v ← add va off
  p ← add pa off
  k' ← map_page root v p perm k
  map_loop pages root va pa perm (off + page_size) k'

pub map_pages : (root va pa size perm : ℕ) → Kmem → Outcome Kmem
map_pages root va pa size perm k = do
  check ((va % page_size == 0) && (pa % page_size == 0) && (size % page_size == 0))
  check (ltb 0 size)
  check (not (bit_and perm perm_mask == 0))
  map_loop (size / page_size) root va pa perm 0 k

-- The physical address and the entry that `va` has.
unfoldable pub translate : (root va : ℕ) → Kmem → Outcome (Option (ℕ × ℕ) × Kmem)
translate root va k = do
  (found, k') ← walk root va false k
  elim found [
    | none ↦ ok (none, k')
    | some pte_ptr ↦
        let pte = k'.mem pte_ptr in
        ok (
          if bit_and pte pte_v == 0
              then none
              else some (bit_or (pte_to_pa pte) (va % page_size), pte),
          k',
        )
  ]
