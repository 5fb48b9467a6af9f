-- ===== src/Sched/Reach.antt =====
-- All runs of the kernel, as sequences of the scheduler's operations from boot on. A spawn is two
-- steps, since it takes its pid before the section in which the process comes into the table, and
-- other operations may come between them. `sleep` and `exit` are called on a thread, the round on
-- the scheduler's own stack; `with_current` stands for all that changes the current process and
-- neither its pid nor its state.
use osmium.Prelude.{
  ℕ, ◌+◌, ◌^◌, ◌≤◌, ◌<◌, ◌≡◌, ◌≢◌, refl, sym, ap, ◌∙◌, inl, inr, Bool, true, false, ◌==◌,
  if◌then◌else◌, Option, none, some, List, [], arith, Bool-cases, ==_iff, eq→==,
}
use osmium.Machine.{ok}
use osmium.Machine.Returns.{Returns-ok, ensured}
use osmium.Kalloc.{Kmem}
use osmium.Sched.{
  Process, Scheduler, runnable, take_pid, new_process, publish, yield_now, on_tick_preempt, sleep,
  wakeup, exit, with_current,
}
use osmium.Sched.Loop.{round}
use osmium.Sched.Slots.{At-place, none≢some, true≢false}
use osmium.Sched.Inv.{IsValid}
use osmium.Sched.Keep.{
  yield_now-IsValid, on_tick_preempt-IsValid, sleep-IsValid, exit-IsValid, wakeup-IsValid,
  with_current-IsValid, Keeps,
}
use osmium.Sched.Pids.{
  IsSub, IsSub-IsAbsent, wakeup-IsSub, yield_now-IsSub, on_tick_preempt-IsSub, sleep-IsSub,
  exit-IsSub, with_current-IsSub,
}
use osmium.Sched.Start.{Configures, IsAbsent, take_pid-fresh, publish-IsValid}
use osmium.Sched.Round.{round-IsValid}

-- The static `SCHED`, and `NEXT_PID`.
abbrev pub boot : Scheduler
boot = record { procs = []; current = none; next_slot = 0; next_pid = 1 }

-- The scheduler, the pids that spawns have taken and not yet brought into the table, and how many
-- have been taken since boot.
pub record Run : Type 0 where
  pub sched : Scheduler
  pub flying : ℕ → Bool
  pub taken : ℕ

abbrev pub start : Run
start = record { sched = boot; flying = λ pid. false; taken = 0 }

abbrev pub take : Run → Run
take r = record {
  sched = (take_pid r.sched).1;
  flying = λ pid. if pid == (take_pid r.sched).0 then true else r.flying pid;
  taken = r.taken + 1;
}

abbrev pub land : Process → Run → Run
land q r = record {
  sched = publish q r.sched;
  flying = λ pid. if pid == q.pid then false else r.flying pid;
  taken = r.taken;
}

pub data Step (r : Run) : Run → Type 1 where
  takes : Step r (take r)
  lands :
      (thread_entry kernel_root stack_top pid : ℕ) (name : List ℕ) (entry : ℕ)
      (configure : Process → Process)
      → Configures configure
      → r.flying pid ≡ true
      → Step r (land (new_process thread_entry kernel_root stack_top pid name entry configure) r)
  yields : {s' : Scheduler} → yield_now r.sched ≡ ok s' → Step r (record r { sched = s' })
  ticks : {s' : Scheduler} → on_tick_preempt r.sched ≡ ok s' → Step r (record r { sched = s' })
  sleeps :
      (chan cur : ℕ) {s' : Scheduler}
      → r.sched.current ≡ some cur
      → sleep chan r.sched ≡ ok s'
      → Step r (record r { sched = s' })
  wakes : (chan : ℕ) → Step r (record r { sched = wakeup chan r.sched })
  exits :
      (cur : ℕ) {s' : Scheduler}
      → r.sched.current ≡ some cur
      → exit r.sched ≡ ok s'
      → Step r (record r { sched = s' })
  changes :
      {T : Type 0} (f : Process → T × Process) {t : Option T} {s' : Scheduler}
      → Keeps f
      → with_current f r.sched ≡ ok (t, s')
      → Step r (record r { sched = s' })
  schedules :
      (kernel_end kernel_root : ℕ) (k k' : Kmem) {tables : Option (ℕ × ℕ)} {s' : Scheduler}
      → r.sched.current ≡ none
      → round kernel_end kernel_root r.sched k ≡ ok (tables, s', k')
      → Step r (record r { sched = s' })

pub data Reachable : Run → Type 1 where
  booted : Reachable start
  after : {r r' : Run} → Reachable r → Step r r' → Reachable r'

-- The scheduler is valid, and each pid in flight is one that it has given and nobody in the table has.
pub record IsSound (r : Run) : Type 0 where
  pub valid : IsValid r.sched
  pub counted : r.sched.next_pid ≡ r.taken + 1
  pub fresh :
      (pid : ℕ)
      → r.flying pid ≡ true
      → (0 < pid) × (pid < r.sched.next_pid) × IsAbsent pid r.sched.procs

boot-IsValid : IsValid boot
boot-IsValid = record {
  runs = λ i p a. absurd (none≢some a);
  current_runs = λ i e. absurd (none≢some e);
  pid_range = λ i p a. absurd (none≢some a);
  pid_once = λ i j p q a. absurd (none≢some a);
  pid_first = omega arith;
  position = omega arith;
}

start-IsSound : IsSound start
start-IsSound = record {
  valid = boot-IsValid;
  counted = refl;
  fresh = λ pid f. absurd (true≢false (sym f));
}

-- An operation that keeps the invariant and brings no pid.
Sub-IsSound :
    {r : Run} {s' : Scheduler}
    → IsSound r
    → IsValid s'
    → IsSub r.sched s'
    → IsSound (record r { sched = s' })
Sub-IsSound {r} w v sub = record {
  valid = v;
  counted = sub.next ∙ w.counted;
  fresh = λ pid f.
      let (low, high, absent) = w.fresh pid f in
      (low, omega (arith, sub.next), IsSub-IsAbsent pid sub absent);
}

take-IsSound : {r : Run} → r.taken + 2 < 2 ^ 64 → IsSound r → IsSound (take r)
unfolding take_pid
take-IsSound {r} few w =
    let (v, next, low, high, absent) = take_pid-fresh (omega (arith, w.counted)) w.valid in
    record {
      valid = v;
      counted = omega (arith, next, w.counted);
      fresh = λ pid f. elim (Bool-cases (pid == r.sched.next_pid)) [
        | inl t ↦
            let e : pid ≡ r.sched.next_pid = (==_iff pid r.sched.next_pid).0 t in
            (omega (arith, low), omega (arith, high), λ i p a g. absent i p a (g ∙ e))
        | inr z ↦ let (lo, hi, old) = w.fresh pid (rw z at f) in (lo, omega (arith, next), old)
      ];
    }

land-IsSound :
    {r : Run} (q : Process)
    → r.flying q.pid ≡ true
    → q.state ≡ runnable
    → IsSound r
    → IsSound (land q r)
unfolding publish
land-IsSound {r} q up ready w =
    let (low, high, absent) = w.fresh q.pid up in
    record {
      valid = publish-IsValid q low high absent ready w.valid;
      counted = w.counted;
      fresh = λ pid f. elim (Bool-cases (pid == q.pid)) [
        | inl t ↦ absurd (true≢false (sym (rw t at f)))
        | inr z ↦
            let (lo, hi, old) = w.fresh pid (rw z at f) in
            (
              lo,
              hi,
              λ i p a e. elim (At-place q r.sched.procs i a) [
                | inl (vacant, same) ↦ absurd (pid_ne pid z (sym e ∙ ap (λ x. x.pid) same))
                | inr b ↦ old i p b e
              ],
            )
      ];
    }
  where
    pid_ne : (pid : ℕ) → (pid == q.pid) ≡ false → pid ≢ q.pid
    pid_ne pid z e = absurd (true≢false (sym (eq→== pid q.pid e) ∙ z))

Step-taken : {r r' : Run} → Step r r' → r.taken ≤ r'.taken
Step-taken takes = omega arith
Step-taken (lands thread_entry kernel_root stack_top pid name entry configure keeps up) =
    omega arith
Step-taken (yields e) = omega arith
Step-taken (ticks e) = omega arith
Step-taken (sleeps chan cur on e) = omega arith
Step-taken (wakes chan) = omega arith
Step-taken (exits cur on e) = omega arith
Step-taken (changes f keeps e) = omega arith
Step-taken (schedules kernel_end kernel_root k k' idle e) = omega arith

Step-IsSound : {r r' : Run} → Step r r' → r'.taken + 1 < 2 ^ 64 → IsSound r → IsSound r'
Step-IsSound takes few w = take-IsSound (omega arith) w
Step-IsSound {r} (lands thread_entry kernel_root stack_top pid name entry configure keeps up) few
      w =
    land-IsSound _ (ap r.flying (keeps _).0 ∙ up) (keeps _).1 w
Step-IsSound (yields e) few w =
    Sub-IsSound w (Returns-ok (yield_now-IsValid w.valid) e)
      (Returns-ok (yield_now-IsSub w.valid) e)
Step-IsSound (ticks e) few w =
    Sub-IsSound w (Returns-ok (on_tick_preempt-IsValid w.valid) e)
      (Returns-ok (on_tick_preempt-IsSub w.valid) e)
Step-IsSound (sleeps chan cur on e) few w =
    Sub-IsSound w (Returns-ok (sleep-IsValid chan w.valid on) e)
      (Returns-ok (sleep-IsSub chan w.valid on) e)
Step-IsSound {r} (wakes chan) few w =
    Sub-IsSound w (wakeup-IsValid chan w.valid) (wakeup-IsSub chan r.sched)
Step-IsSound (exits cur on e) few w =
    Sub-IsSound w (Returns-ok (exit-IsValid w.valid on) e) (Returns-ok (exit-IsSub w.valid on) e)
Step-IsSound (changes f keeps e) few w =
    Sub-IsSound w (Returns-ok (with_current-IsValid f keeps w.valid) e)
      (Returns-ok (with_current-IsSub f keeps w.valid) e)
Step-IsSound (schedules kernel_end kernel_root k k' idle e) few w =
    let (v, sub) = ensured (round-IsValid kernel_end kernel_root k w.valid idle) e in
    Sub-IsSound w v sub

-- After every sequence of the scheduler's operations from boot on in which fewer than 2^64 - 1 pids
-- have been taken, where other operations may come between the two steps of a spawn: a process that
-- is running is the current one, the current one is running, the pids of the table are all
-- different, positive and below the next pid, the round-robin position lies in the table or at its
-- end, and a pid that a spawn has taken and not yet used is held by nobody in the table.
pub Reachable-IsSound : {r : Run} → Reachable r → r.taken + 1 < 2 ^ 64 → IsSound r
Reachable-IsSound booted few = start-IsSound
Reachable-IsSound (after run step) few =
    Step-IsSound step few (Reachable-IsSound run (omega (arith, Step-taken step)))
