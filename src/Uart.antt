-- ===== src/Uart.antt =====
-- uart.rs, the receive side of the serial port. The device is a queue of received bytes: its status
-- register says whether there is one, and a read of the receive buffer takes it. The interrupt
-- handler empties the queue into the console's buffer. Transmitting, and the set-up of the line, only
-- write to the device.
mod Laws
mod Tests
use osmium.Prelude.{
  ℕ, zero, suc, ◌+◌, ◌^◌, Bool, true, false, not, ◌==◌, Option, none, some, List, [], ◌∷◌, bit_and,
}
use osmium.Machine.{Outcome, ok, panic, spin, ◌>>=◌}
use osmium.Sched.{Scheduler}
use osmium.Console.{Input, on_input}

abbrev pub lsr_rx_ready : ℕ
lsr_rx_ready = 2 ^ 0

-- The line status that a queue of bytes has; the other bits of the register are `rest`.
abbrev pub line_status : (rest : ℕ) → List ℕ → ℕ
line_status rest [] = rest
line_status rest (b ∷ fifo) = rest + lsr_rx_ready

-- `reg_read(RBR)`: the byte, and the queue without it. The register of an empty queue reads as 0.
abbrev pub receive : List ℕ → ℕ × List ℕ
receive [] = (0, [])
receive (b ∷ fifo) = (b, fifo)

-- `get`: the byte and the queue after it, or nothing.
unfoldable pub get : (rest : ℕ) → List ℕ → Option (ℕ × List ℕ)
get rest fifo = elim (bit_and (line_status rest fifo) lsr_rx_ready == 0) [
  | true ↦ none
  | false ↦ some (receive fifo)
]

-- The loop of `handle_interrupt`, for at most `fuel` rounds.
unfoldable pub handle_interrupt :
    (fuel rest chan : ℕ) → List ℕ × Input × Scheduler → Outcome (List ℕ × Input × Scheduler)
handle_interrupt zero rest chan w = spin
handle_interrupt (suc fuel) rest chan (fifo, input, s) = elim (get rest fifo) [
  | none ↦ ok (fifo, input, s)
  | some (b, fifo') ↦ do
    (input', s') ← on_input chan b (input, s)
    handle_interrupt fuel rest chan (fifo', input', s')
]
