-- ===== src/Sched/Loop.antt =====
-- proc.rs, one round of the scheduler's loop, with the memory in which it frees the tables of the
-- zombies. `kernel_end` is the linker's symbol and `kernel_root` the kernel's table.
use osmium.Prelude.{
  ℕ, ◌≡◌, refl, sym, ap, ◌∙◌, true, false, Option, none, some, List, [], ◌∷◌, ◌++◌, map,
}
use osmium.Machine.{Outcome, ok, panic, spin, ◌>>=◌}
use osmium.Kalloc.{Kmem}
use osmium.Vm.Tables.{free_user_table, switch_to}
use osmium.Sched.{
  Process, State, runnable, running, zombie, Slots, Scheduler, is_zombie, reap_slot, table_of,
  freed_tables, cleared, pick, dispatch,
}

-- The body of the pass over the zombies.
unfoldable pub reap_one : (kernel_end : ℕ) → Option Process → Kmem → Outcome (Option Process × Kmem)
reap_one kernel_end none k = ok (none, k)
reap_one kernel_end (some p) k = elim (is_zombie p.state) [
  | false ↦ ok (some p, k)
  | true ↦ elim p.user_table [
    | none ↦ ok (none, k)
    | some table ↦ do k' ← free_user_table kernel_end table k; ok (none, k')
  ]
]

unfoldable pub reap_slots : (kernel_end : ℕ) → Slots → Kmem → Outcome (Slots × Kmem)
reap_slots kernel_end [] k = ok ([], k)
reap_slots kernel_end (slot ∷ slots) k = do
  (slot', k1) ← reap_one kernel_end slot k
  (slots', k2) ← reap_slots kernel_end slots k1
  ok (slot' ∷ slots', k2)

unfoldable pub reap : (kernel_end : ℕ) → Scheduler → Kmem → Outcome (Scheduler × Kmem)
reap kernel_end s k = do
  (procs, k') ← reap_slots kernel_end s.procs k
  ok (record s { procs = procs }, k')

-- The round: what satp gets for the thread, and again when it is back, or none where the hart idles.
-- The kernel's table does not change, so the assertion on it for the way back is made beforehand.
unfoldable pub round :
    (kernel_end kernel_root : ℕ) → Scheduler → Kmem → Outcome (Option (ℕ × ℕ) × Scheduler × Kmem)
round kernel_end kernel_root s k = do
  (s1, k1) ← reap kernel_end s k
  elim (pick s1) [
    | none ↦ ok (none, s1, k1)
    | some idx ↦ do
      (table, s2) ← dispatch idx s1
      satp ← switch_to table
      back ← switch_to kernel_root
      ok (some (satp, back), s2, k1)
  ]

-- Freeing tables, one after the other.
unfoldable pub free_all : (kernel_end : ℕ) → List ℕ → Kmem → Outcome Kmem
free_all kernel_end [] k = ok k
free_all kernel_end (t ∷ ts) k = do k' ← free_user_table kernel_end t k; free_all kernel_end ts k'

bind_assoc :
    {A B C : Type 0} (m : Outcome A) (f : A → Outcome B) (g : B → Outcome C)
    → (m >>= f >>= g) ≡ (m >>= λ a. f a >>= g)
bind_assoc (ok a) f g = refl
bind_assoc panic f g = refl
bind_assoc spin f g = refl

bind_cong :
    {A B : Type 0} (m : Outcome A) {f g : A → Outcome B}
    → ((a : A) → f a ≡ g a)
    → (m >>= f) ≡ (m >>= g)
bind_cong (ok a) e = e a
bind_cong panic e = refl
bind_cong spin e = refl

free_all-append :
    (kernel_end : ℕ) (ts us : List ℕ) (k : Kmem)
    → free_all kernel_end (ts ++ us) k ≡ (free_all kernel_end ts k >>= free_all kernel_end us)
unfolding free_all
free_all-append kernel_end [] us k = refl
free_all-append kernel_end (t ∷ ts) us k =
    bind_cong (free_user_table kernel_end t k) (free_all-append kernel_end ts us)
    ∙ sym (bind_assoc (free_user_table kernel_end t k) _ _)

free_all-one :
    (kernel_end t : ℕ) (k : Kmem)
    → ◌>>=◌ {B = Option Process × Kmem} (free_all kernel_end (t ∷ []) k) (λ k'. ok (none, k'))
      ≡ (free_user_table kernel_end t k >>= λ k'. ok (none, k'))
unfolding free_all
free_all-one kernel_end t k = bind_assoc (free_user_table kernel_end t k) _ _

reap_one-some :
    (kernel_end : ℕ) (p : Process) (st : State) (u : Option ℕ) (k : Kmem)
    → reap_one kernel_end (some (record p { state = st; user_table = u })) k ≡ (
        free_all kernel_end (table_of (some (record p { state = st; user_table = u }))) k >>= λ k'.
        ok (reap_slot (some (record p { state = st; user_table = u })), k'))
unfolding reap_one free_all
reap_one-some kernel_end p runnable u k = refl
reap_one-some kernel_end p running u k = refl
reap_one-some kernel_end p (State.sleeping c) u k = refl
reap_one-some kernel_end p zombie none k = refl
reap_one-some kernel_end p zombie (some t) k = sym (free_all-one kernel_end t k)

reap_one_lem :
    (kernel_end : ℕ) (slot : Option Process) (k : Kmem)
    → reap_one kernel_end slot k
      ≡ (free_all kernel_end (table_of slot) k >>= λ k'. ok (reap_slot slot, k'))
unfolding reap_one free_all
reap_one_lem kernel_end none k = refl
reap_one_lem kernel_end (some p) k = reap_one-some kernel_end p p.state p.user_table k

free_all-nil :
    (kernel_end : ℕ) (k : Kmem)
    → ◌>>=◌ {B = Slots × Kmem} (free_all kernel_end (freed_tables []) k) (λ k'. ok ([], k'))
      ≡ ok ([], k)
unfolding free_all freed_tables
free_all-nil kernel_end k = refl

freed_tables-cons :
    (slot : Option Process) (slots : Slots)
    → freed_tables (slot ∷ slots) ≡ table_of slot ++ freed_tables slots
unfolding freed_tables
freed_tables-cons slot slots = refl

-- The pass over the slots frees the tables of the zombies in order, and clears their slots.
reap_slots_lem :
    (kernel_end : ℕ) (slots : Slots) (k : Kmem)
    → reap_slots kernel_end slots k
      ≡ (free_all kernel_end (freed_tables slots) k >>= λ k'. ok (map reap_slot slots, k'))
unfolding reap_slots
reap_slots_lem kernel_end [] k = sym (free_all-nil kernel_end k)
reap_slots_lem kernel_end (slot ∷ slots) k =
    ap
      (λ m. m >>= λ (slot', k1).
        reap_slots kernel_end slots k1 >>= λ (slots', k2). ok (slot' ∷ slots', k2))
      (reap_one_lem kernel_end slot k)
    ∙ bind_assoc (free_all kernel_end (table_of slot) k) _ _
    ∙ bind_cong (free_all kernel_end (table_of slot) k) (λ k1.
      ap (λ m. m >>= λ (slots', k2). ok (reap_slot slot ∷ slots', k2))
        (reap_slots_lem kernel_end slots k1)
      ∙ bind_assoc (free_all kernel_end (freed_tables slots) k1) _ _)
    ∙ sym (bind_assoc (free_all kernel_end (table_of slot) k) _ _)
    ∙ ap (λ m. m >>= λ k'. ok (map reap_slot (slot ∷ slots), k'))
        (sym (free_all-append kernel_end (table_of slot) (freed_tables slots) k)
          ∙ sym (ap (λ ts. free_all kernel_end ts k) (freed_tables-cons slot slots)))

-- The pass does to the table what `cleared` says, whatever memory comes out.
pub reap-cleared :
    (kernel_end : ℕ) (s : Scheduler) (k : Kmem)
    → reap kernel_end s k
      ≡ (free_all kernel_end (freed_tables s.procs) k >>= λ k'. ok (cleared s, k'))
unfolding reap cleared
reap-cleared kernel_end s k =
    ap (λ m. m >>= λ (procs, k'). ok (record s { procs = procs }, k'))
      (reap_slots_lem kernel_end s.procs k)
    ∙ bind_assoc (free_all kernel_end (freed_tables s.procs) k) _ _

-- Where the frees end well, so does the pass.
pub reap_lem :
    (kernel_end : ℕ) (s : Scheduler) (k : Kmem) {k' : Kmem}
    → free_all kernel_end (freed_tables s.procs) k ≡ ok k'
    → reap kernel_end s k ≡ ok (cleared s, k')
reap_lem kernel_end s k e = reap-cleared kernel_end s k ∙ ap (λ m. m >>= λ k'. ok (cleared s, k')) e
