-- ===== src/Console/Tests.antt =====
-- Runs of the input buffer, with the last slot and the first one in use.
use osmium.Prelude.{
  ℕ, ◌+◌, ◌≤◌, ◌≡◌, refl, ◌⊎◌, none, some, [], ◌∷◌, ◌++◌, length, ltb, if◌then◌else◌, replicate,
  set, arith, false,
}
use osmium.Machine.Returns.{Returns}
use osmium.Sched.{Scheduler, Process, sleeps_on}
use osmium.Sched.Slots.{At}
use osmium.Console.{Input, on_input, getchar, normalize, input_cap}
use osmium.Console.Laws.{IsValid, contents, on_input-queue, getchar-queue}

abbrev wrapped : Input
wrapped = record { buf = set (set (replicate 256 0) 255 104) 0 105; r = 255; w = 257 }

wrapped-IsValid : IsValid wrapped
wrapped-IsValid = record { size = refl; order = omega arith; level = omega arith }

abbrev nobody : Scheduler
nobody = record { procs = []; current = none; next_slot = 0; next_pid = 1 }

on_input-queue_example :
    Returns
      (λ (i', s').
        IsValid i'
        × (contents i' ≡ (
            if ltb (length (contents wrapped)) input_cap
            then contents wrapped ++ normalize 13 ∷ []
            else contents wrapped))
        × ((k : ℕ) (q : Process) → At s'.procs k q → sleeps_on 50 q.state ≡ false)
        × (i'.w ≤ wrapped.w + 1))
      (on_input 50 13 (wrapped, nobody))
on_input-queue_example = on_input-queue 50 13 nobody wrapped-IsValid (omega arith)

getchar-queue_example :
    Returns
      (λ (r, i').
        IsValid i'
        × (((r ≡ none) × (contents wrapped ≡ []) × (i' ≡ wrapped))
            ⊎ ((b : ℕ) × (r ≡ some b) × (contents wrapped ≡ b ∷ contents i'))))
      (getchar wrapped)
getchar-queue_example = getchar-queue wrapped-IsValid (omega arith)
