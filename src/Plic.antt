-- ===== src/Plic.antt =====
-- plic.rs, the interrupt controller. Its registers are 32-bit words at byte addresses; a read of the
-- claim register is answered by the device, so its answer is an argument.
use osmium.Prelude.{ℕ, ◌+◌, ◌*◌, ◌/◌, ◌%◌, ◌^◌, ◌==◌, if◌then◌else◌, Option, none, some, bit_or}
use osmium.Machine.{Mem, store, plic, uart0_irq}

abbrev pub context : ℕ
context = 1

abbrev pub priority_base : ℕ
priority_base = plic

abbrev pub enable_base : ℕ
enable_base = plic + 0x2000 + 0x80 * context

abbrev pub threshold : ℕ
threshold = plic + 0x20_0000 + 0x1000 * context

abbrev pub claim_reg : ℕ
claim_reg = plic + 0x20_0004 + 0x1000 * context

unfoldable pub init : Mem → Mem
init regs = store regs (priority_base + 4 * uart0_irq) 1

unfoldable pub init_hart : Mem → Mem
init_hart regs =
    let enable_word = enable_base + 4 * (uart0_irq / 32) in
    let unmasked = store regs enable_word (bit_or (regs enable_word) (2 ^ (uart0_irq % 32))) in
    store unmasked threshold 0

-- `claim`, on the value that the device has for it.
unfoldable pub claim : ℕ → Option ℕ
claim answer = if answer == 0 then none else some answer

-- What `complete` writes to the claim register.
unfoldable pub complete : ℕ → Mem → Mem
complete irq regs = store regs claim_reg irq
