-- ===== src/Sync.antt =====
-- sync.rs, the semaphore and the bounded channel. Each definition is one critical section with
-- interrupts off, or one use of the buffer's lock, so it is one step of the hart; `at` is the address
-- of the semaphore, on which its waiters sleep.
mod Laws
mod Reach
mod Tests
use osmium.Prelude.{
  ℕ, zero, suc, ◌+◌, ◌-◌, Bool, true, false, ltb, Option, none, some, List, [], ◌∷◌, ◌++◌,
}
use osmium.Machine.{Outcome, ok, panic, spin, ◌>>=◌, add, expect}
use osmium.Sched.{Scheduler, sleep, wakeup}

pub record Semaphore : Type 0 where
  pub count : ℕ

-- A round of the loop of `wait`: it has taken one (true), or has slept and tries again (false).
pub wait_round : ℕ → Semaphore × Scheduler → Outcome (Bool × Semaphore × Scheduler)
wait_round at (sem, s) = elim (ltb 0 sem.count) [
  | true ↦ ok (true, record { count = sem.count - 1 }, s)
  | false ↦ do s' ← sleep at s; ok (false, sem, s')
]

-- The section of `signal` that increments the count; `proc::wakeup` is one of its own.
pub raise : Semaphore → Outcome Semaphore
raise sem = do count ← add sem.count 1; ok (record { count = count })

-- The two sections, where nothing comes between them.
pub signal : ℕ → Semaphore × Scheduler → Outcome (Semaphore × Scheduler)
signal at (sem, s) = do sem' ← raise sem; ok (sem', wakeup at s)

pub record Channel (T : Type 0) : Type 0 where
  pub buf : List T
  pub empty : Semaphore
  pub full : Semaphore

pub new_channel : {T : Type 0} → ℕ → Channel T
new_channel capacity = record {
  buf = [];
  empty = record { count = capacity };
  full = record { count = 0 };
}

-- The steps of `send`: `self.empty.wait()`, a round of it, the push, and the increment of
-- `self.full.signal()`, after which a wakeup follows, which is a step of the scheduler alone.
pub send_reserve : {T : Type 0} → ℕ → Channel T × Scheduler → Outcome (Bool × Channel T × Scheduler)
send_reserve at (c, s) = do
  (taken, sem, s') ← wait_round at (c.empty, s)
  ok (taken, record c { empty = sem }, s')

pub send_push : {T : Type 0} → T → Channel T → Channel T
send_push item c = record c { buf = c.buf ++ item ∷ [] }

pub send_publish : {T : Type 0} → Channel T → Outcome (Channel T)
send_publish c = do sem ← raise c.full; ok (record c { full = sem })

-- The steps of `recv`: `self.full.wait()`, a round of it, the pop, which panics on an empty buffer,
-- and the increment of `self.empty.signal()`, after which a wakeup follows.
pub recv_reserve : {T : Type 0} → ℕ → Channel T × Scheduler → Outcome (Bool × Channel T × Scheduler)
recv_reserve at (c, s) = do
  (taken, sem, s') ← wait_round at (c.full, s)
  ok (taken, record c { full = sem }, s')

-- `VecDeque::pop_front`
abbrev pub pop_front : {T : Type 0} → List T → Option (T × List T)
pop_front [] = none
pop_front (x ∷ xs) = some (x, xs)

pub recv_pop : {T : Type 0} → Channel T → Outcome (T × Channel T)
recv_pop c = do (item, rest) ← expect (pop_front c.buf); ok (item, record c { buf = rest })

pub recv_release : {T : Type 0} → Channel T → Outcome (Channel T)
recv_release c = do sem ← raise c.empty; ok (record c { empty = sem })
