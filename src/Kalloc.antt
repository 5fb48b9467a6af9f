-- ===== src/Kalloc.antt =====
-- kalloc.rs, the physical page allocator: an intrusive free list whose nodes are the first words
-- of the free pages themselves. The lock is taken and released inside each call and only its
-- holder runs, so a call is one step here. `kernel_end` is the linker's symbol.
pub mod Chain
pub mod Count
pub mod Pages
pub mod Seed
mod Tests
use osmium.Prelude.{
  ℕ, zero, suc, ◌+◌, ◌-◌, ◌*◌, ◌/◌, ◌%◌, ◌^◌, Bool, true, false, ◌&&◌, ◌||◌, Option, none, some,
  leb, ltb, ◌==◌, if◌then◌else◌, bit_and,
}
use osmium.Machine.{
  Outcome, ok, panic, spin, ◌>>=◌, ◌>>◌, check, add, sub, complement, null, Mem, store, fill,
  page_size, phys_top, alloc_start,
}

-- `FreeList`, with the memory that holds the nodes.
pub record Kmem : Type 0 where
  pub mem : Mem
  pub head : ℕ
  pub free_pages : ℕ

-- A word of eight poison bytes 0x5a.
abbrev pub poison : ℕ
poison = 0x5a5a_5a5a_5a5a_5a5a

-- `next_multiple_of`: rounds up, and panics where the result does not fit.
abbrev pub next_multiple_of : ℕ → ℕ → Outcome ℕ
next_multiple_of x n = if x % n == 0 then ok x else add x (n - x % n)

unfoldable pub free : ℕ → ℕ → Kmem → Outcome Kmem
free kernel_end pa k = do
  check (pa % page_size == 0)
  end ← add pa page_size
  check (leb (alloc_start kernel_end) pa && leb end phys_top)
  let poisoned = fill k.mem pa page_size poison
  let linked = store poisoned pa k.head
  count ← add k.free_pages 1
  ok (record { mem = linked; head = pa; free_pages = count })

unfoldable pub alloc : Kmem → Outcome (Option ℕ × Kmem)
alloc k =
    let node = k.head in
    if node == null then ok (none, k) else do
      count ← sub k.free_pages 1
      ok (
        some node,
        record { mem = fill k.mem node page_size 0; head = k.mem node; free_pages = count },
      )

-- The reserved range, widened to whole pages; (0, 0) for none.
unfoldable pub reserved_pages : Option (ℕ × ℕ) → Outcome (ℕ × ℕ)
reserved_pages none = ok (0, 0)
reserved_pages (some (s, e)) = do
  res_end ← next_multiple_of e page_size
  ok (bit_and s (complement (page_size - 1)), res_end)

-- The body of the `while` loop of `init`: frees the page unless it is reserved.
unfoldable pub seed_page : ℕ → ℕ × ℕ → ℕ → Kmem → Outcome Kmem
seed_page kernel_end (res_start, res_end) page k = do
  end ← add page page_size
  if leb res_end page || leb end res_start then free kernel_end page k else ok k

unfoldable pub seed_loop : ℕ → ℕ → ℕ × ℕ → ℕ → Kmem → Outcome Kmem
seed_loop zero kernel_end res page k = spin
seed_loop (suc fuel) kernel_end res page k = do
  end ← add page page_size
  elim (leb end phys_top) [
    | true ↦ do k' ← seed_page kernel_end res page k; seed_loop fuel kernel_end res end k'
    | false ↦ ok k
  ]

-- One round for each page below `phys_top`, and one for the test that ends the loop.
abbrev pub seed_rounds : ℕ
seed_rounds = phys_top / page_size + 1

unfoldable pub init : ℕ → Option (ℕ × ℕ) → Kmem → Outcome Kmem
init kernel_end reserved k = do
  res ← reserved_pages reserved
  start ← next_multiple_of (alloc_start kernel_end) page_size
  seed_loop seed_rounds kernel_end res start k

pub empty_kmem : Mem → Kmem
empty_kmem m = record { mem = m; head = null; free_pages = 0 }
