-- ===== src/Syscall/Replies.antt =====
-- What the system calls return, and what they do to the kernel's state.
use osmium.Prelude.{
  ℕ, ◌+◌, ◌*◌, ◌^◌, ◌≤◌, ◌<◌, ◌≡◌, refl, ap, ◌⊎◌, inl, inr, true, false, Option, none, some, List,
  ◌++◌, arith, dec_lt, lt→ltb, le→ltb_false, Bool-cases,
}
use osmium.Machine.{ok, usize_max}
use osmium.Machine.Returns
use osmium.Machine.Returns.{Returns, returns}
use osmium.Sched.Break.{current_root}
use osmium.Vm.Space.{Owner}
use osmium.Syscall.{Kernel, write_max, err, refuses_read}
use osmium.Syscall.Pages.{user_bytes}
use osmium.Syscall.Poke.{IsUserSpace}
use osmium.Syscall.Copy.{Accepted, Rejected, copy_from_user-exact}
use osmium.Syscall.Calls.{Platform, fetch, sys_write}
use osmium.Syscall.Dispatch.{sleep_ms_ticks}

-- The caller runs on the table `root` of a sound address space.
pub record IsCaller (p : Platform) (k : Kernel) (root : ℕ) (own : Owner) (free : List ℕ)
    : Type 0 where
  pub at_root : current_root p.kroot k.sched ≡ ok root
  pub space : IsUserSpace p.kernel_end root own k.kmem free

-- What `fetch` gives.
abbrev pub Fetched : (root ptr len : ℕ) → Kernel → Option (List ℕ) × Kernel → Type 0
Fetched root ptr len k (r, k') =
    (k' ≡ k)
    × (((r ≡ some (user_bytes len root ptr k.kmem)) × Accepted refuses_read root ptr len k.kmem)
        ⊎ ((r ≡ none) × Rejected refuses_read root ptr len k.kmem))

pub fetch_lem :
    (p : Platform) (ptr len : ℕ) (k : Kernel) {root : ℕ} {own : Owner} {free : List ℕ}
    → IsCaller p k root own free
    → Returns (λ r. Fetched root ptr len k r) (fetch p ptr len k)
unfolding fetch
fetch_lem p ptr len k {root} c =
    rw (c.at_root, fetch)
      (Returns.bind (copy_from_user-exact ptr len c.space)
        λ (r, kmem) (same, out). returns (ap (λ m. record k { kmem = m }) same, out))

-- The state after bytes were printed.
abbrev pub printed : List ℕ → Kernel → Kernel
printed bytes k = record k { output = k.output ++ bytes }

-- What the write call returns and does.
abbrev pub SysWrote : (p : Platform) → (root ptr len : ℕ) → Kernel → ℕ × Kernel → Type 0
SysWrote p root ptr len k (n, k') =
    let bytes = user_bytes len root ptr k.kmem in
    ((n ≡ len)
      × (len ≤ write_max)
      × Accepted refuses_read root ptr len k.kmem
      × (p.from_utf8 bytes ≡ true)
      × (k' ≡ printed bytes k))
    ⊎ ((n ≡ err)
        × (k' ≡ k)
        × ((write_max < len)
            ⊎ (Rejected refuses_read root ptr len k.kmem ⊎ (p.from_utf8 bytes ≡ false))))

-- On a caller whose table is the root of a sound address space, the write call never panics. It
-- prints the bytes of the range and returns their number if they are at most 1024, their pages
-- are the user's and they are a text in UTF-8; in every other case it returns the error value and
-- prints nothing.
pub sys_write-exact :
    (p : Platform) (ptr len : ℕ) (k : Kernel) {root : ℕ} {own : Owner} {free : List ℕ}
    → IsCaller p k root own free
    → Returns (λ r. SysWrote p root ptr len k r) (sys_write p ptr len k)
unfolding sys_write
sys_write-exact p ptr len k {root} c = elim (dec_lt write_max len) [
  | yes long ↦ rw (lt→ltb write_max len long, sys_write) (returns (inr (refl, refl, inl long)))
  | no fits ↦
      rw (le→ltb_false write_max len (omega arith), sys_write)
        (Returns.bind (fetch_lem p ptr len k c) λ (r, k') (same, out). elim out [
          | inr (is, bad) ↦ rw is (returns (inr (refl, same, inr (inl bad))))
          | inl (is, fine) ↦ elim (Bool-cases (p.from_utf8 (user_bytes len root ptr k.kmem))) [
            | inl text ↦
                rw (is, text)
                  (returns (
                    inl (
                      refl,
                      omega arith,
                      fine,
                      text,
                      ap (printed (user_bytes len root ptr k.kmem)) same,
                    )))
            | inr garbage ↦ rw (is, garbage) (returns (inr (refl, same, inr (inr garbage))))
          ]
        ])
]

-- The ticks for which the sleep call sleeps, of 10 ms each, are at least one; they last at least as
-- long as was asked for, where the product with the tick rate fits a usize, and less than one tick
-- longer if not none was asked for; and no number of milliseconds gives so many that they could not be
-- added to a counter below 2^63.
pub sleep_ms_ticks-bounds :
    (ms : ℕ)
    → (0 < sleep_ms_ticks ms)
      × (sleep_ms_ticks ms + 2 ^ 63 ≤ usize_max)
      × (ms * 100 ≤ usize_max → ms ≤ 10 * sleep_ms_ticks ms)
      × (0 < ms → 10 * sleep_ms_ticks ms < ms + 10)
unfolding sleep_ms_ticks
sleep_ms_ticks-bounds ms = (ground arith, ground arith, λ h. ground arith, λ h. ground arith)
