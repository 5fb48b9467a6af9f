-- ===== src/Syscall.antt =====
-- syscall.rs, the kernel side of the system calls. The state is what the calls reach: the scheduler,
-- the physical memory with the page tables, the console's input and output, the files and the clock.
-- A call that blocks sleeps and runs on in the state that `resume` gives, which is what the others
-- have made of it until the thread is scheduled again.
pub mod Pages
pub mod Poke
pub mod Copy
pub mod CopyOut
pub mod Calls
pub mod Dispatch
pub mod Sample
pub mod Replies
pub mod Fread
pub mod Tests
use osmium.Prelude.{
  ℕ, zero, suc, ◌+◌, ◌-◌, ◌*◌, ◌/◌, ◌%◌, Bool, true, false, ◌||◌, ltb, leb, ◌==◌, if◌then◌else◌,
  Option, none, some, List, [], ◌∷◌, ◌++◌, length, take, replicate, min, max, bit_and,
}
use osmium.Machine.{
  Outcome, ok, panic, spin, ◌>>=◌, ◌>>◌, check, expect, add, page_size, usize_max, complement,
}
use osmium.Machine.Bytes.{read_byte, write_byte}
use osmium.Kalloc.{Kmem}
use osmium.Trap.{TrapFrame}
use osmium.Sched.{Scheduler}
use osmium.Sched.Break.{current_root}
use osmium.Vm.{translate, va_max, pte_u, pte_r, pte_w}
use osmium.Console.{Input}
use osmium.Fs.{Files}

abbrev pub path_max : ℕ
path_max = 64

abbrev pub write_max : ℕ
write_max = 1024

abbrev pub err : ℕ
err = usize_max

-- "osmium 0.1.0 riscv64\n"
abbrev pub uname_text : List ℕ
uname_text =
    111 ∷ 115 ∷ 109 ∷ 105 ∷ 117 ∷ 109 ∷ 32 ∷ 48 ∷ 46 ∷ 49 ∷ 46 ∷ 48 ∷ 32 ∷ 114 ∷ 105 ∷ 115 ∷ 99
    ∷ 118 ∷ 54 ∷ 52 ∷ 10 ∷ []

pub record Kernel : Type 0 where
  pub sched : Scheduler
  pub kmem : Kmem
  pub input : Input
  pub output : List ℕ
  pub fs : Files
  pub ticks : ℕ

-- The test of a page's flags: U for a copy from the user, U and W for one to the user.
abbrev pub lacks : (flag pte : ℕ) → Bool
lacks flag pte = bit_and pte flag == 0

abbrev pub refuses_read : ℕ → Bool
refuses_read pte = lacks pte_u pte

abbrev pub refuses_write : ℕ → Bool
refuses_write pte = lacks pte_u pte || lacks pte_w pte

-- The loop over the pages of a range, for at most `fuel` pages: whether each is mapped and passes.
unfoldable pub check_pages :
    (fuel : ℕ) → (refuses : ℕ → Bool) → (root page end : ℕ) → Kmem → Outcome (Bool × Kmem)
check_pages zero refuses root page end k = spin
check_pages (suc fuel) refuses root page end k = elim (ltb page end) [
  | false ↦ ok (true, k)
  | true ↦ do
    (found, k') ← translate root page k
    elim found [
      | none ↦ ok (false, k')
      | some (pa, pte) ↦ elim (refuses pte) [
        | true ↦ ok (false, k')
        | false ↦ do next ← add page page_size; check_pages fuel refuses root next end k'
      ]
    ]
]

-- The physical address at which the hart finds `va`; a page fault in the kernel is a panic.
unfoldable pub access : (refuses : ℕ → Bool) → (root va : ℕ) → Kmem → Outcome ℕ
access refuses root va k = do
  (found, k') ← translate root va k
  (pa, pte) ← expect found
  if refuses pte then panic else ok pa

abbrev pub unreadable : ℕ → Bool
unreadable pte = lacks pte_r pte

abbrev pub unwritable : ℕ → Bool
unwritable pte = lacks pte_w pte

-- The loop of `copy_from_user`, over the `n` bytes from the `i`th on.
unfoldable pub read_user : (n i : ℕ) → (root ptr : ℕ) → Kmem → Outcome (List ℕ)
read_user zero i root ptr k = ok []
read_user (suc n) i root ptr k = do
  va ← add ptr i
  pa ← access unreadable root va k
  rest ← read_user n (suc i) root ptr k
  ok (read_byte k.mem pa ∷ rest)

unfoldable pub write_user : (src : List ℕ) → (i : ℕ) → (root ptr : ℕ) → Kmem → Outcome Kmem
write_user [] i root ptr k = ok k
write_user (b ∷ src) i root ptr k = do
  va ← add ptr i
  pa ← access unwritable root va k
  write_user src (suc i) root ptr (record k { mem = write_byte k.mem pa b })

-- `ptr.checked_add(len)`, and the bound of the user's addresses.
abbrev pub end_of : (ptr len : ℕ) → Option ℕ
end_of ptr len =
    if ltb usize_max (ptr + len)
    then none
    else if ltb va_max (ptr + len)
    then none
    else some (ptr + len)

-- The pages that a range of `len` bytes can touch, and the last test of the loop.
abbrev pub page_fuel : ℕ → ℕ
page_fuel len = len / page_size + 3

unfoldable pub copy_from_user : (root ptr len : ℕ) → Kmem → Outcome (Option (List ℕ) × Kmem)
copy_from_user root ptr len k = elim (end_of ptr len) [
  | none ↦ ok (none, k)
  | some end ↦ do
    (fine, k') ←
        check_pages (page_fuel len) refuses_read root (bit_and ptr (complement (page_size - 1))) end
          k
    elim fine [
      | false ↦ ok (none, k')
      | true ↦ do buf ← read_user len 0 root ptr k'; ok (some buf, k')
    ]
]

unfoldable pub copy_to_user : (root ptr : ℕ) → (src : List ℕ) → Kmem → Outcome (Option ℕ × Kmem)
copy_to_user root ptr src k = elim (end_of ptr (length src)) [
  | none ↦ ok (none, k)
  | some end ↦ do
    (fine, k') ←
        check_pages (page_fuel (length src)) refuses_write root
          (bit_and ptr (complement (page_size - 1))) end k
    elim fine [
      | false ↦ ok (none, k')
      | true ↦ do k'' ← write_user src 0 root ptr k'; ok (some (length src), k'')
    ]
]
