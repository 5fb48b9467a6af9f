-- ===== src/Sched/Break.antt =====
-- proc.rs, the address space of the current process: `attach_user_space`, `current_root` and `sbrk`.
use osmium.Prelude.{
  ℕ, ◌+◌, ◌≤◌, ◌<◌, ◌≡◌, refl, ◌⊎◌, inl, inr, Option, none, some, ltb, if◌then◌else◌, arith,
  le→ltb_false, lt→ltb, dec_lt,
}
use osmium.Machine.{Outcome, ok, ◌>>=◌, usize_max}
use osmium.Sched.{Process, Scheduler, with_current, put}
use osmium.Sched.Slots.{At}
use osmium.Sched.Keep.{with_current_lem}

-- vm.rs: the bounds of the user heap.
abbrev pub user_heap_base : ℕ
user_heap_base = 0x5000_0000

abbrev pub user_heap_max : ℕ
user_heap_max = 0x6000_0000

unfoldable pub attach_user_space : (table entry sp : ℕ) → Process → Process
attach_user_space table entry sp p = record p {
  page_table = table;
  user_table = some table;
  user_entry = entry;
  user_sp = sp;
  heap_base = user_heap_base;
  heap_brk = user_heap_base;
}

-- `unwrap_or`
abbrev pub unwrap_or : {A : Type 0} → A → Option A → A
unwrap_or d none = d
unwrap_or d (some a) = a

unfoldable pub current_root : ℕ → Scheduler → Outcome ℕ
current_root kernel_root s = do
  (r, s') ← with_current (λ p. (p.page_table, p)) s
  ok (unwrap_or kernel_root r)

-- The closure of `sbrk`.
pub grow : ℕ → Process → ℕ × Process
grow delta p =
    let old = p.heap_brk in
    if ltb usize_max (old + delta)
    then (usize_max, p)
    else if ltb user_heap_max (old + delta)
    then (usize_max, p)
    else (old, record p { heap_brk = old + delta })

pub sbrk : ℕ → Scheduler → Outcome (ℕ × Scheduler)
sbrk delta s = do (r, s') ← with_current (grow delta) s; ok (unwrap_or usize_max r, s')

grow-fits :
    (delta : ℕ) (p : Process)
    → p.heap_brk + delta ≤ user_heap_max
    → grow delta p ≡ (p.heap_brk, record p { heap_brk = p.heap_brk + delta })
unfolding grow
grow-fits delta p fits =
    rw
      (
        le→ltb_false usize_max (p.heap_brk + delta) (omega arith),
        le→ltb_false user_heap_max (p.heap_brk + delta) fits,
      )
      refl

grow-over :
    (delta : ℕ) (p : Process) → user_heap_max < p.heap_brk + delta → grow delta p ≡ (usize_max, p)
unfolding grow
grow-over delta p over = elim (dec_lt usize_max (p.heap_brk + delta)) [
  | yes l ↦ rw (lt→ltb usize_max (p.heap_brk + delta) l) refl
  | no l ↦
      rw
        (
          le→ltb_false usize_max (p.heap_brk + delta) (omega arith),
          lt→ltb user_heap_max (p.heap_brk + delta) over,
        )
        refl
]

-- `sbrk` on a process whose heap lies within its bounds: the break moves by the whole of the given
-- amount and the old one is returned, if the new one is within the bound; otherwise, also where the
-- sum does not fit a usize, the process stays as it is and the result is the error value, which is
-- no break. The heap is within its bounds afterwards.
pub sbrk_lem :
    (delta : ℕ) (s : Scheduler) {cur : ℕ} (p : Process)
    → s.current ≡ some cur
    → At s.procs cur p
    → p.heap_base ≤ p.heap_brk
    → p.heap_brk ≤ user_heap_max
    → ((p.heap_brk + delta ≤ user_heap_max)
        × (p.heap_base ≤ p.heap_brk + delta)
        × (p.heap_brk < usize_max)
        × (sbrk delta s ≡ ok (p.heap_brk, put cur (record p { heap_brk = p.heap_brk + delta }) s)))
      ⊎ ((user_heap_max < p.heap_brk + delta) × (sbrk delta s ≡ ok (usize_max, put cur p s)))
unfolding sbrk
sbrk_lem delta s {cur} p e a low high = elim (dec_lt user_heap_max (p.heap_brk + delta)) [
  | yes l ↦ inr (l, rw (with_current_lem (grow delta) s e a, grow-over delta p l) refl)
  | no l ↦ inl (
    omega arith,
    omega arith,
    omega arith,
    rw (with_current_lem (grow delta) s e a, grow-fits delta p (omega arith)) refl,
  )
]
