-- ===== src/Spinlock/Laws.antt =====
-- Sections with interrupts off, the lock, and giving up the hart: how the hart is when they end.
use osmium.Prelude.{
  ℕ, suc, ◌+◌, ◌-◌, ◌%◌, ◌^◌, ◌<◌, ◌≡◌, refl, sym, ap, ap₂, ◌∙◌, ◌⊎◌, inl, inr, false, ◌==◌, arith,
  if◌then◌else◌, Bool-cases, max, dec_lt, ne→==_false, eq→==, lt→ltb,
}
use osmium.Machine.{Outcome, ok, ◌>>=◌}
use osmium.Machine.Returns
use osmium.Machine.Returns.{Returns, returns, Returns-eq}
use osmium.Spinlock.{
  Hart, SpinLock, push_off, pop_off, holding_one, saved_intena, set_intena, sched, give_up, lock,
  unlock,
}

-- Inside a section interrupts are off.
pub record IsValid (h : Hart) : Type 0 where
  pub off : (h.noff ≡ 0) ⊎ (h.sie ≡ false)

-- Code with sections in it: what stands between `push_off` and `pop_off`, and what follows.
pub data Code : Type 0 where
  done : Code
  section : Code → Code → Code

unfoldable pub depth : Code → ℕ
depth done = 0
depth (section body rest) = max (suc (depth body)) (depth rest)

pub run : Code → Hart → Outcome Hart
run done h = ok h
run (section body rest) h = do inner ← run body (push_off h); h' ← pop_off inner; run rest h'

-- Two harts that agree in all that matters outside of a section, or in it.
pub record Same (h h' : Hart) : Type 0 where
  pub sie : h'.sie ≡ h.sie
  pub noff : h'.noff ≡ h.noff
  pub intena : (h.noff ≡ 0) ⊎ (h'.intena ≡ h.intena)

noff-push_off : (h : Hart) → (push_off h).noff ≡ (h.noff + 1) % 2 ^ 64
unfolding push_off
noff-push_off h = refl

pub push_off-IsValid : (h : Hart) → IsValid (push_off h)
unfolding push_off
push_off-IsValid h = record { off = inr refl }

pop_off-last :
    (h : Hart)
    → h.sie ≡ false
    → h.noff ≡ 1
    → pop_off h ≡ ok (record { sie = h.intena; noff = 0; intena = h.intena })
unfolding pop_off
pop_off-last h off one = elim (Bool-cases h.intena) [
  | inl t ↦ rw (off, one, t) refl
  | inr t ↦ rw (off, one, t) refl
]

pop_off-inner :
    (h : Hart)
    → h.sie ≡ false
    → 1 < h.noff
    → h.noff < 2 ^ 64
    → pop_off h ≡ ok (record h { noff = h.noff - 1 })
unfolding pop_off
pop_off-inner h off deep small =
    let n : (h.noff + (2 ^ 64 - 1)) % 2 ^ 64 ≡ h.noff - 1 = omega arith in
    rw (off, n, lt→ltb 0 h.noff (omega arith), ne→==_false h.noff 1 (omega arith)) refl

pop_off-Same :
    (h inner : Hart)
    → IsValid h
    → h.noff + 1 < 2 ^ 64
    → Same (push_off h) inner
    → Returns (λ h'. IsValid h' × Same h h') (pop_off inner)
unfolding push_off
pop_off-Same h inner v small s = elim (dec_lt 0 h.noff) [
  | yes l ↦
      let off : h.sie ≡ false = elim v.off [ inl z ↦ absurd (omega arith) | inr o ↦ o ] in
      let n : inner.noff ≡ h.noff + 1 = omega (arith, s.noff) in
      let kept : inner.intena ≡ (if h.noff == 0 then h.sie else h.intena) = elim s.intena [
        | inl z ↦ absurd (omega arith)
        | inr o ↦ o
      ] in
      Returns-eq (pop_off-inner inner s.sie (omega arith) (omega arith)) (
        record { off = inr s.sie },
        record {
          sie = s.sie ∙ sym off;
          noff = omega arith;
          intena = inr (rw (ne→==_false h.noff 0 (omega arith)) at kept);
        },
      )
  | no l ↦
      let z : h.noff ≡ 0 = omega arith in
      let n : inner.noff ≡ 1 = omega (arith, s.noff) in
      let kept : inner.intena ≡ (if h.noff == 0 then h.sie else h.intena) = elim s.intena [
        | inl z ↦ absurd (omega arith)
        | inr o ↦ o
      ] in
      Returns-eq (pop_off-last inner s.sie n) (
        record { off = inl refl },
        record { sie = rw (eq→== h.noff 0 z) at kept; noff = sym z; intena = inl z },
      )
]

Same-trans : {a b c : Hart} → Same a b → Same b c → Same a c
Same-trans s t = record {
  sie = t.sie ∙ s.sie;
  noff = t.noff ∙ s.noff;
  intena = elim s.intena [
    | inl z ↦ inl z
    | inr e ↦ elim t.intena [ inl z ↦ inl (sym s.noff ∙ z) | inr f ↦ inr (f ∙ e) ]
  ];
}

-- Code whose `push_off`s and `pop_off`s match, nested at most so deep that the counter does not wrap,
-- never panics, and leaves interrupts on or off as they were, with the counter back where it was and,
-- inside a section, the recorded intent as well.
pub run-Same :
    (c : Code) (h : Hart)
    → IsValid h
    → h.noff + depth c < 2 ^ 64
    → Returns (λ h'. IsValid h' × Same h h') (run c h)
unfolding run depth
run-Same done h v small = returns (v, record { sie = refl; noff = refl; intena = inr refl })
run-Same (section body rest) h v small =
    Returns.bind (run-Same body (push_off h) (push_off-IsValid h) (omega (arith, pushed)))
      λ inner (w, s). Returns.bind (pop_off-Same h inner v (omega arith) s) λ h' (u, t).
        Returns.mono (run-Same rest h' u (omega (arith, t.noff))) λ h'' (x, y). (x, Same-trans t y)
  where
    pushed : (push_off h).noff ≡ (h.noff + 1) % 2 ^ 64
    pushed = noff-push_off h

-- A section with nothing nested in it: the recorded intent is then that of the outermost section.
pop_off-push_off :
    (h : Hart)
    → IsValid h
    → h.noff + 1 < 2 ^ 64
    → pop_off (push_off h) ≡ ok (record h { intena = if h.noff == 0 then h.sie else h.intena })
unfolding push_off
pop_off-push_off h v small = elim (dec_lt 0 h.noff) [
  | yes l ↦
      let off : h.sie ≡ false = elim v.off [ inl z ↦ absurd (omega arith) | inr o ↦ o ] in
      let n : (h.noff + 1) % 2 ^ 64 ≡ h.noff + 1 = omega arith in
      let n' : h.noff + 1 - 1 ≡ h.noff = omega arith in
      let deep : 1 < (push_off h).noff = omega arith in
      let bound : (push_off h).noff < 2 ^ 64 = omega arith in
      pop_off-inner (push_off h) refl deep bound
      ∙ ap₂
          (λ b m.
            ok (record { sie = b; noff = m - 1; intena = if h.noff == 0 then h.sie else h.intena }))
          (sym off) n
      ∙ ap
          (λ m.
            ok (record { sie = h.sie; noff = m; intena = if h.noff == 0 then h.sie else h.intena }))
          n'
  | no l ↦
      let z : h.noff ≡ 0 = omega arith in
      let one : (push_off h).noff ≡ 1 = omega arith in
      let kept : (push_off h).intena ≡ h.sie = rw (eq→== h.noff 0 z) refl in
      pop_off-last (push_off h) refl one
      ∙ ap₂ (λ b m. ok (record { sie = b; noff = m; intena = (push_off h).intena })) kept (sym z)
]

-- Taking a free lock and dropping its guard, with any change of the value in between, on a hart with
-- interrupts off inside sections and a counter that does not wrap, ends without a panic. The lock is
-- then free with the changed value; interrupts and the counter are as before, and so is the recorded
-- intent inside a section, while outside of one it is what the interrupts were.
pub lock-unlock :
    {T : Type 0} (h : Hart) (l : SpinLock T) (change : T → T)
    → IsValid h
    → h.noff + 1 < 2 ^ 64
    → l.locked ≡ false
    → (lock (h, l) >>= λ (h', l'). unlock (h', record l' { value = change l'.value }))
      ≡ ok (
        record h { intena = if h.noff == 0 then h.sie else h.intena },
        record { locked = false; value = change l.value },
      )
unfolding lock unlock
lock-unlock h l change v small e = rw (e, pop_off-push_off h v small) refl

-- A thread that gives up the hart outside of every section passes the assertion on the depth and ends
-- without a panic, if the hart is one section deep with interrupts off when the thread runs again.
-- Interrupts are then on if and only if they were before, whatever intent the others have left.
pub give_up_lem :
    (resume : Hart → Hart) (h : Hart)
    → h.noff ≡ 0
    → ((h' : Hart) → h'.noff ≡ 1 → ((resume h').noff ≡ 1) × ((resume h').sie ≡ false))
    → give_up resume h ≡ ok (record { sie = h.sie; noff = 0; intena = h.sie })
unfolding give_up sched push_off holding_one saved_intena set_intena
give_up_lem resume h outside back =
    let inside : Hart = record { sie = false; noff = 1; intena = h.sie } in
    let (one, off) = back inside refl in
    rw (outside) (pop_off-last (record (resume inside) { intena = h.sie }) off one)
