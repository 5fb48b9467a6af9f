-- ===== src/Uart/Tests.antt =====
-- Two bytes that arrive, the second a carriage return.
use osmium.Prelude.{◌≡◌, refl, [], ◌∷◌, arith}
use osmium.Machine.Returns.{Returns}
use osmium.Sched.Tests.{busy}
use osmium.Console.{empty_input}
use osmium.Console.Laws.{IsValid, contents}
use osmium.Uart.{handle_interrupt}
use osmium.Uart.Laws.{arrive, handle_interrupt-drains}

handle_interrupt-drains_example :
    Returns
      (λ (fifo', i', s').
        (fifo' ≡ []) × IsValid i' × (contents i' ≡ arrive (contents empty_input) (104 ∷ 13 ∷ [])))
      (handle_interrupt 3 0x60 50 (104 ∷ 13 ∷ [], empty_input, busy))
handle_interrupt-drains_example =
    handle_interrupt-drains 3 0x60 50 (104 ∷ 13 ∷ []) empty_input busy refl
      (record { size = refl; order = omega arith; level = omega arith }) (omega arith) (omega arith)
