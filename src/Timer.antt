-- ===== src/Timer.antt =====
-- timer.rs, the clock of the scheduler: the tick counter and the threads that sleep until it has
-- moved on. The firmware arms the interrupts, so `init` and `on_tick` give the time that they ask for.
mod Laws
mod Tests
use osmium.Prelude.{ℕ, zero, suc, ◌+◌, ◌/◌, ◌%◌, ◌^◌, Bool, true, false, ltb}
use osmium.Machine.{Outcome, ok, panic, spin, ◌>>=◌, ◌>>◌, check, add}
use osmium.Sched.{Scheduler, sleep}
use osmium.Sbi.{Firmware, probe_time}

abbrev pub tick_chan : ℕ
tick_chan = 0x711c_c4a7

abbrev pub timebase_freq : ℕ
timebase_freq = 10_000_000

abbrev pub tick_hz : ℕ
tick_hz = 100

abbrev pub tick_interval : ℕ
tick_interval = timebase_freq / tick_hz

-- The static `TICKS`, with the scheduler on which the sleepers wait.
abbrev pub Clock : Type 0
Clock = ℕ × Scheduler

-- The time that the next tick is armed for, at the time `now`.
pub next_tick : ℕ → Outcome ℕ
next_tick now = add now tick_interval

-- The time for which the first tick is armed.
pub init : Firmware → (now : ℕ) → Outcome ℕ
init firmware now = do check (probe_time firmware); next_tick now

-- The counter wraps, as `fetch_add` does; the result has the time for which the firmware is asked.
pub on_tick : (now ticks : ℕ) → Outcome (ℕ × ℕ)
on_tick now ticks = do when ← next_tick now; ok ((ticks + 1) % 2 ^ 64, when)

pub uptime_ms : ℕ → ℕ
uptime_ms now = now / (timebase_freq / 1000)

-- A round of the loop of `sleep_ticks`: the time has come (true), or the caller has slept.
pub sleep_round : ℕ → Clock → Outcome (Bool × Clock)
sleep_round target (ticks, s) = elim (ltb ticks target) [
  | true ↦ do s' ← sleep tick_chan s; ok (false, (ticks, s'))
  | false ↦ ok (true, (ticks, s))
]

-- The loop, for at most `naps` sleeps. `resume` is what has become of the clock, and of all else that
-- there is, when the thread that sleeps runs again.
pub sleep_until :
    {R : Type 0}
    → (naps : ℕ) → (resume : Clock × R → Outcome (Clock × R)) → (target : ℕ) → Clock × R
    → Outcome (Clock × R)
sleep_until zero resume target w = spin
sleep_until (suc naps) resume target (c, rest) = do
  (over, c1) ← sleep_round target c
  elim over [
    | true ↦ ok (c1, rest)
    | false ↦ do w ← resume (c1, rest); sleep_until naps resume target w
  ]

pub sleep_ticks :
    {R : Type 0}
    → (naps : ℕ) → (resume : Clock × R → Outcome (Clock × R)) → (n : ℕ) → Clock × R
    → Outcome (Clock × R)
sleep_ticks naps resume n (c, rest) = do
  target ← add (c.0) n
  sleep_until naps resume target (c, rest)
