-- ===== src/Spinlock.antt =====
-- spinlock.rs: the nesting of sections with interrupts off, and the lock built on it. The hart has
-- its interrupt-enable bit (SIE) and the two statics. A lock that is already taken is spun on for
-- ever, since only this hart could release it.
mod Laws
mod Tests
use osmium.Prelude.{ℕ, ◌+◌, ◌-◌, ◌%◌, ◌^◌, Bool, true, false, not, ◌&&◌, ltb, ◌==◌, if◌then◌else◌}
use osmium.Machine.{Outcome, ok, panic, spin, ◌>>=◌, ◌>>◌, check}

pub record Hart : Type 0 where
  pub sie : Bool
  pub noff : ℕ
  pub intena : Bool

pub push_off : Hart → Hart
push_off h =
    let old = h.sie in
    record {
      sie = false;
      noff = (h.noff + 1) % 2 ^ 64;
      intena = if h.noff == 0 then old else h.intena;
    }

pub pop_off : Hart → Outcome Hart
pop_off h = do
  check (not h.sie)
  let n = h.noff
  let h' = record h { noff = (n + (2 ^ 64 - 1)) % 2 ^ 64 }
  check (ltb 0 n)
  ok (if (n == 1) && h.intena then record h' { sie = true } else h')

pub holding_one : Hart → Bool
holding_one h = h.noff == 1

pub saved_intena : Hart → Bool
saved_intena h = h.intena

pub set_intena : Bool → Hart → Hart
set_intena value h = record h { intena = value }

-- What `sched` does with the hart: the nesting must be one section deep, and the saved intent goes
-- over the switch. `resume` is what the hart has come to when the thread runs again.
pub sched : (resume : Hart → Hart) → Hart → Outcome Hart
sched resume h = do
  check (holding_one h)
  let intena = saved_intena h
  ok (set_intena intena (resume h))

-- The section in which `yield_now` and `sleep` give up the hart.
pub give_up : (resume : Hart → Hart) → Hart → Outcome Hart
give_up resume h = do h' ← sched resume (push_off h); pop_off h'

pub record SpinLock (T : Type 0) : Type 0 where
  pub locked : Bool
  pub value : T

pub new : {T : Type 0} → T → SpinLock T
new v = record { locked = false; value = v }

-- `lock`, and the drop of its guard.
pub lock : {T : Type 0} → Hart × SpinLock T → Outcome (Hart × SpinLock T)
lock (h, l) = let h' = push_off h in if l.locked then spin else ok (h', record l { locked = true })

pub unlock : {T : Type 0} → Hart × SpinLock T → Outcome (Hart × SpinLock T)
unlock (h, l) = do h' ← pop_off h; ok (h', record l { locked = false })
