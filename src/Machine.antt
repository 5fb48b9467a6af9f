-- ===== src/Machine.antt =====
-- The machine that the kernel's code runs on: `usize` arithmetic with the overflow checks of the
-- default (dev) profile, panics, and physical memory as 64-bit words at byte addresses. Only
-- words at multiples of 8 are read and written, so words never overlap; a byte is a part of the word
-- that it lies in.
-- memlayout.rs: the constants of the memory map.
pub mod Bytes
pub mod Returns
pub mod Words
use osmium.Prelude.{
  ℕ, zero, suc, ◌+◌, ◌-◌, ◌*◌, ◌/◌, ◌%◌, ◌^◌, Bool, true, false, ◌&&◌, List, [], ◌∷◌, ltb, leb,
  ◌==◌, if◌then◌else◌, bit_and, Option, none, some,
}

-- The result of code that can panic. `spin` is a loop that has used up the fuel of the model.
pub data Outcome (A : Type 0) : Type 0 where
  ok : A → Outcome A
  panic : Outcome A
  spin : Outcome A

infixl 5 ◌>>=◌ ◌>>◌
abbrev pub ◌>>=◌ : {A B : Type 0} → Outcome A → (A → Outcome B) → Outcome B
ok a >>= f = f a
panic >>= f = panic
spin >>= f = spin

abbrev pub ◌>>◌ : {B : Type 0} → Outcome (Unit {0}) → Outcome B → Outcome B
m >> k = m >>= λ _. k

abbrev pub check : Bool → Outcome (Unit {0})
check true = ok tt
check false = panic

-- `Option::expect` and `Option::unwrap`.
abbrev pub expect : {A : Type 0} → Option A → Outcome A
expect none = panic
expect (some a) = ok a

abbrev pub usize_max : ℕ
usize_max = 2 ^ 64 - 1

-- `a + b`, `a - b` and `a * b` on `usize`, which panic on overflow.
abbrev pub add : ℕ → ℕ → Outcome ℕ
add a b = if leb (a + b) usize_max then ok (a + b) else panic

abbrev pub sub : ℕ → ℕ → Outcome ℕ
sub a b = if leb b a then ok (a - b) else panic

abbrev pub mul : ℕ → ℕ → Outcome ℕ
mul a b = if leb (a * b) usize_max then ok (a * b) else panic

-- `!m` on `usize`.
abbrev pub complement : ℕ → ℕ
complement m = usize_max - m

abbrev pub null : ℕ
null = 0

abbrev pub Mem : Type 0
Mem = ℕ → ℕ

-- A store of one word.
abbrev pub store : Mem → ℕ → ℕ → Mem
store m p v a = if a == p then v else m a

-- `write_bytes`: every word of the `n` bytes from `p` on becomes `v`.
abbrev pub fill : Mem → ℕ → ℕ → ℕ → Mem
fill m p n v a = if leb p a && ltb a (p + n) then v else m a

-- memlayout.rs
abbrev pub page_size : ℕ
page_size = 4096

abbrev pub plic : ℕ
plic = 0x0c00_0000

abbrev pub plic_size : ℕ
plic_size = 0x40_0000

abbrev pub uart0 : ℕ
uart0 = 0x1000_0000

abbrev pub uart0_irq : ℕ
uart0_irq = 10

abbrev pub dram_base : ℕ
dram_base = 0x8000_0000

abbrev pub phys_top : ℕ
phys_top = dram_base + 128 * 1024 * 1024

abbrev pub heap_size : ℕ
heap_size = 8 * 1024 * 1024

-- The end of the kernel image is the linker's, so it is an argument.
abbrev pub heap_start : ℕ → ℕ
heap_start kernel_end = kernel_end

abbrev pub alloc_start : ℕ → ℕ
alloc_start kernel_end = heap_start kernel_end + heap_size
