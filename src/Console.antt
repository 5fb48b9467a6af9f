-- ===== src/Console.antt =====
-- console.rs, the ring buffer between the receive interrupt and the readers, with the scheduler's
-- state, since both sides wake or sleep on it. `chan` is the buffer's address. Printing goes to the
-- serial port and is not modelled.
pub mod Laws
mod Tests
use osmium.Prelude.{
  ℕ, zero, suc, ◌+◌, ◌-◌, ◌%◌, Bool, true, false, ltb, ◌==◌, if◌then◌else◌, Option, none, some,
  List, [], ◌∷◌, get_or, set, replicate,
}
use osmium.Machine.{Outcome, ok, panic, spin, ◌>>=◌, add, sub}
use osmium.Sched.{Scheduler, wakeup, sleep}

abbrev pub input_cap : ℕ
input_cap = 256

pub record Input : Type 0 where
  pub buf : List ℕ
  pub r : ℕ
  pub w : ℕ

-- The static `INPUT`.
abbrev pub empty_input : Input
empty_input = record { buf = replicate input_cap 0; r = 0; w = 0 }

-- A carriage return becomes a newline.
abbrev pub normalize : ℕ → ℕ
normalize byte = if byte == 13 then 10 else byte

-- The part of `on_input` under the lock, on the normalized byte.
pub push_input : ℕ → Input → Outcome Input
push_input byte input = do
  level ← sub input.w input.r
  elim (ltb level input_cap) [
    | true ↦ do
      w ← add input.w 1
      ok (record input { buf = set input.buf (input.w % input_cap) byte; w = w })
    | false ↦ ok input
  ]

pub on_input : (chan byte : ℕ) → Input × Scheduler → Outcome (Input × Scheduler)
on_input chan byte (input, s) = do
  input' ← push_input (normalize byte) input
  ok (input', wakeup chan s)

pub getchar : Input → Outcome (Option ℕ × Input)
getchar input = elim (input.r == input.w) [
  | true ↦ ok (none, input)
  | false ↦ do
    let byte = get_or input.buf (input.r % input_cap) 0
    r ← add input.r 1
    ok (some byte, record input { r = r })
]

-- One round of the loop of `getchar_blocking`: a byte, or the caller has slept and tries again.
pub getchar_round : ℕ → Input × Scheduler → Outcome (Option ℕ × Input × Scheduler)
getchar_round chan (input, s) = do
  (byte, input') ← getchar input
  elim byte [ none ↦ do s' ← sleep chan s; ok (none, input', s') | some b ↦ ok (some b, input', s) ]
