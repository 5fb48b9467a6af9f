-- ===== src/Spinlock/Tests.antt =====
-- Nested sections on a hart with interrupts on.
use osmium.Prelude.{ℕ, ◌+◌, ◌≡◌, refl, inl, ◌==◌, if◌then◌else◌, true, false, arith}
use osmium.Machine.{ok, ◌>>=◌}
use osmium.Machine.Returns.{Returns}
use osmium.Spinlock.{Hart, SpinLock, lock, unlock, give_up}
use osmium.Spinlock.Laws.{
  IsValid, Same, Code, done, section, depth, run, run-Same, lock-unlock, give_up_lem,
}

abbrev hart : Hart
hart = record { sie = true; noff = 0; intena = false }

hart-IsValid : IsValid hart
hart-IsValid = record { off = inl refl }

abbrev nested : Code
nested = section (section done done) (section done done)

run-Same_example : Returns (λ h'. IsValid h' × Same hart h') (run nested hart)
unfolding depth
run-Same_example = run-Same nested hart hart-IsValid (omega arith)

abbrev free_lock : SpinLock ℕ
free_lock = record { locked = false; value = 4 }

lock-unlock_example :
    (lock (hart, free_lock) >>= λ (h', l'). unlock (h', record l' { value = l'.value + 1 }))
    ≡ ok (
      record hart { intena = if hart.noff == 0 then hart.sie else hart.intena },
      record { locked = false; value = 5 },
    )
lock-unlock_example = lock-unlock hart free_lock (λ n. n + 1) hart-IsValid (omega arith) refl

-- Another thread has run, with the intent to keep interrupts off.
abbrev other : Hart → Hart
other h = record h { sie = false; intena = false }

give_up_lem_example : give_up other hart ≡ ok (record { sie = true; noff = 0; intena = true })
give_up_lem_example = give_up_lem other hart refl λ h' one. (one, refl)
