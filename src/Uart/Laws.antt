-- ===== src/Uart/Laws.antt =====
-- The receive interrupt empties the device into the console.
use osmium.Prelude.{
  ℕ, zero, suc, ◌+◌, ◌%◌, ◌≤◌, ◌<◌, ◌≡◌, refl, sym, true, false, ltb, ◌==◌, if◌then◌else◌, none,
  some, List, [], ◌∷◌, ◌++◌, length, arith, bit_and,
}
use osmium.Prelude.Bits.{bit_and-flag}
use osmium.Machine.{usize_max}
use osmium.Machine.Returns
use osmium.Machine.Returns.{Returns, returns}
use osmium.Sched.{Scheduler}
use osmium.Console.{Input, input_cap, normalize}
use osmium.Console.Laws.{contents, IsValid, on_input-queue}
use osmium.Uart.{line_status, lsr_rx_ready, get, handle_interrupt}

-- What a queue with room for 256 bytes becomes when bytes arrive.
pub arrive : (queue bytes : List ℕ) → List ℕ
arrive queue [] = queue
arrive queue (b ∷ bytes) =
    arrive (if ltb (length queue) input_cap then queue ++ normalize b ∷ [] else queue) bytes

get-empty : (rest : ℕ) → rest % 2 ≡ 0 → get rest [] ≡ none
unfolding get
get-empty rest even =
    let bit : (bit_and (line_status rest []) lsr_rx_ready == 0) ≡ true =
      ground (arith, bit_and-flag 0 rest) in
    rw (bit, get) refl

get-byte : (rest b : ℕ) (fifo : List ℕ) → rest % 2 ≡ 0 → get rest (b ∷ fifo) ≡ some (b, fifo)
unfolding get
get-byte rest b fifo even =
    let bit : (bit_and (line_status rest (b ∷ fifo)) lsr_rx_ready == 0) ≡ false =
      ground (arith, bit_and-flag 0 (rest + 1)) in
    rw (bit, get) refl

-- On a valid ring buffer whose write position does not come to overflow, with fuel for each byte
-- that the device holds and one more, and the ready bit of the line status set only by a byte
-- that waits, the interrupt handler ends without a panic and leaves the device empty; the
-- console's queue has got the bytes in their order, each normalized, with those dropped for which
-- it had no room.
pub handle_interrupt-drains :
    (fuel rest chan : ℕ) (fifo : List ℕ) (i : Input) (s : Scheduler)
    → rest % 2 ≡ 0
    → IsValid i
    → i.w + length fifo ≤ usize_max
    → length fifo < fuel
    → Returns
        (λ (fifo', i', s'). (fifo' ≡ []) × IsValid i' × (contents i' ≡ arrive (contents i) fifo))
        (handle_interrupt fuel rest chan (fifo, i, s))
unfolding handle_interrupt arrive
handle_interrupt-drains zero rest chan fifo i s even v fits enough = absurd (omega arith)
handle_interrupt-drains (suc fuel) rest chan [] i s even v fits enough =
    rw (get-empty rest even, handle_interrupt) (returns (refl, v, refl))
handle_interrupt-drains (suc fuel) rest chan (b ∷ fifo) i s even v fits enough =
    rw (get-byte rest b fifo even, handle_interrupt)
      (Returns.bind (on_input-queue chan b s v (omega arith)) λ (i', s') (v', got, awake, step).
        rw (sym got)
          (handle_interrupt-drains fuel rest chan fifo i' s' even v' (omega arith) (omega arith)))
