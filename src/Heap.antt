-- ===== src/Heap.antt =====
-- heap.rs, the kernel heap: a first-fit, address-ordered, coalescing allocator. A free block holds
-- {size, next} in its first two words, and the 16 bytes before an allocated pointer hold
-- {block_start, block_size}. The walks of the free list run on fuel.
pub mod Alloc
pub mod Blocks
pub mod Carve
pub mod Dealloc
pub mod Free
pub mod Layout
pub mod Live
pub mod Release
pub mod Spec
mod Tests
use osmium.Prelude.{
  ℕ, zero, suc, ◌+◌, ◌-◌, ◌*◌, ◌%◌, ◌^◌, max, Bool, true, false, not, ◌&&◌, leb, ltb, ◌==◌,
  if◌then◌else◌, bit_and,
}
use osmium.Machine.{
  Outcome, ok, panic, spin, ◌>>=◌, ◌>>◌, check, add, sub, complement, null, Mem, store, heap_start,
  heap_size,
}

-- The smallest granule, the smallest free block, and the size of both headers.
abbrev pub granule : ℕ
granule = 16

abbrev pub min_block : ℕ
min_block = 32

abbrev pub header_size : ℕ
header_size = 16

-- `Heap`, with the memory that holds the headers.
pub record Heap : Type 0 where
  pub mem : Mem
  pub head : ℕ
  pub free_bytes : ℕ

-- `(x + align - 1) & !(align - 1)`
pub align_up : ℕ → ℕ → Outcome ℕ
align_up x align = do
  sum ← add x align
  top ← sub sum 1
  low ← sub align 1
  ok (bit_and top (complement low))

-- The two fields of a `FreeBlock`, and of an `AllocHeader`.
abbrev pub write_pair : Mem → ℕ → ℕ → ℕ → Mem
write_pair m p a b = store (store m p a) (p + 8) b

pub init : ℕ → Heap → Outcome Heap
init kernel_end h = do
  let start = heap_start kernel_end
  check ((start % granule == 0) && (heap_size % granule == 0))
  check (h.head == null)
  ok (record { mem = write_pair h.mem start heap_size null; head = start; free_bytes = heap_size })

-- The list's link to what stands behind `prev`: the head where there is no `prev`.
pub link : ℕ → ℕ → Heap → Heap
link prev p h =
    if prev == null then record h { head = p } else record h { mem = store h.mem (prev + 8) p }

-- The free list is rewired round the carved region: the remainders that are kept stand in for the
-- block.
pub rewire : Bool → Bool → (prev cur front_gap alloc_end block_end : ℕ) → Heap → Heap
rewire keep_front keep_back prev cur front_gap alloc_end block_end h =
    let next = h.mem (cur + 8) in
    let behind =
      if keep_back then write_pair h.mem alloc_end (block_end - alloc_end) next else h.mem in
    let after = if keep_back then alloc_end else next in
    let before = if keep_front then write_pair behind cur front_gap after else behind in
    let replacement = if keep_front then cur else after in
    link prev replacement (record h { mem = before })

-- The branch of the walk where the block fits.
pub carve : (prev cur block_end user_start user_end : ℕ) → Heap → Outcome (ℕ × Heap)
carve prev cur block_end user_start user_end h = do
  header ← sub user_start header_size
  front_gap ← sub header cur
  let keep_front = leb min_block front_gap
  alloc_start ← if keep_front then add cur front_gap else ok cur
  back_gap ← sub block_end user_end
  let keep_back = leb min_block back_gap
  let alloc_end = if keep_back then user_end else block_end
  let h' = rewire keep_front keep_back prev cur front_gap alloc_end block_end h
  taken ← sub alloc_end alloc_start
  left ← sub h'.free_bytes taken
  ok (user_start, record h' { mem = write_pair h'.mem header alloc_start taken; free_bytes = left })

-- The `while` loop of `alloc_inner`.
pub search_fit : ℕ → (need align prev cur : ℕ) → Heap → Outcome (ℕ × Heap)
search_fit zero need align prev cur h = spin
search_fit (suc fuel) need align prev cur h = elim (cur == null) [
  | true ↦ ok (null, h)
  | false ↦ do
    block_end ← add cur (h.mem cur)
    payload ← add cur header_size
    user_start ← align_up payload align
    user_end ← add user_start need
    elim (leb user_end block_end) [
      | true ↦ carve prev cur block_end user_start user_end h
      | false ↦ search_fit fuel need align cur (h.mem (cur + 8)) h
    ]
]

pub alloc_inner : ℕ → (size align : ℕ) → Heap → Outcome (ℕ × Heap)
alloc_inner fuel size align h = do
  need ← align_up (max size 1) granule
  search_fit fuel need (max align granule) null h.head h

-- The `while` loop of `dealloc_inner`: the last block below `start`, and the one behind it.
pub search_place : ℕ → (start prev cur : ℕ) → Heap → Outcome (ℕ × ℕ)
search_place zero start prev cur h = spin
search_place (suc fuel) start prev cur h = elim (not (cur == null) && ltb cur start) [
  | true ↦ search_place fuel start cur (h.mem (cur + 8)) h
  | false ↦ ok (prev, cur)
]

-- The block becomes free between `prev` and `cur`, and is merged with the neighbours that it touches.
pub insert : (start size end prev cur : ℕ) → Heap → Outcome Heap
insert start size end prev cur h = do
  let forward = not (cur == null) && (end == cur)
  size' ← if forward then add size (h.mem cur) else ok size
  let next = if forward then h.mem (cur + 8) else cur
  let m = write_pair h.mem start size' next
  elim (prev == null) [
    | true ↦ ok (record h { mem = m; head = start })
    | false ↦ do
      reach ← add prev (m prev)
      whole ← if reach == start then add (m prev) size' else ok 0
      ok (record h {
        mem = if reach == start then write_pair m prev whole next else store m (prev + 8) start;
      })
  ]

pub dealloc_inner : ℕ → ℕ → Heap → Outcome Heap
dealloc_inner fuel user_ptr h = do
  header ← sub user_ptr header_size
  let start = h.mem header
  let size = h.mem (header + 8)
  end ← add start size
  free_bytes ← add h.free_bytes size
  let h' = record h { free_bytes = free_bytes }
  (prev, cur) ← search_place fuel start null h'.head h'
  insert start size end prev cur h'
