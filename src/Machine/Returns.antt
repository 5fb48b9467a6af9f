-- ===== src/Machine/Returns.antt =====
-- Total correctness of a run: it ends, with no panic, in a value with the stated property.
use osmium.Prelude.{◌≡◌, subst}
use osmium.Machine.{Outcome, ok, panic, spin, ◌>>=◌}

pub data Returns {A : Type 0} (P : A → Type 0) : Outcome A → Type 0 where
  returns : {a : A} → P a → Returns P (ok a)

module _ {A : Type 0} {P : A → Type 0} where
  pub bind :
      {B : Type 0} {Q : B → Type 0} {m : Outcome A} {f : A → Outcome B}
      → Returns P m
      → ((a : A) → P a → Returns Q (f a))
      → Returns Q (m >>= f)
  bind (returns p) next = next _ p

  pub mono : {Q : A → Type 0} {m : Outcome A} → Returns P m → ((a : A) → P a → Q a) → Returns Q m
  mono (returns p) weaken = returns (weaken _ p)

-- A run whose value is known.
pub Returns-eq :
    {A : Type 0} {P : A → Type 0} {m : Outcome A} {a : A} → m ≡ ok a → P a → Returns P m
Returns-eq {P} e p = rw e (returns p)

-- Partial correctness of a run: its value, if it has one, has the property.
pub data Ensures {A : Type 0} (P : A → Type 0) : Outcome A → Type 0 where
  ensures : {a : A} → P a → Ensures P (ok a)
  panics : Ensures P panic
  spins : Ensures P spin

Held : {A : Type 0} → (A → Type 0) → Outcome A → Type 0
Held P (ok a) = P a
Held P panic = Unit
Held P spin = Unit

module _ {A : Type 0} {P : A → Type 0} where
  held : {m : Outcome A} → Ensures P m → Held P m
  unfolding Held
  held (ensures p) = p
  held panics = tt
  held spins = tt

  pub ensured : {m : Outcome A} {a : A} → Ensures P m → m ≡ ok a → P a
  unfolding Held
  ensured p e = subst (λ o. Held P o) e (held p)

  pub Ensures-bind :
      {B : Type 0} {Q : B → Type 0} {m : Outcome A} {f : A → Outcome B}
      → Ensures P m
      → ((a : A) → P a → Ensures Q (f a))
      → Ensures Q (m >>= f)
  Ensures-bind (ensures p) next = next _ p
  Ensures-bind panics next = panics
  Ensures-bind spins next = spins

  pub Ensures-mono :
      {Q : A → Type 0} {m : Outcome A} → Ensures P m → ((a : A) → P a → Q a) → Ensures Q m
  Ensures-mono (ensures p) weaken = ensures (weaken _ p)
  Ensures-mono panics weaken = panics
  Ensures-mono spins weaken = spins

  pub Ensures-of_Returns : {m : Outcome A} → Returns P m → Ensures P m
  Ensures-of_Returns (returns p) = ensures p

  pub Returns-ok : {m : Outcome A} {a : A} → Returns P m → m ≡ ok a → P a
  Returns-ok r e = ensured (Ensures-of_Returns r) e

pub Ensures-any : {A : Type 0} (m : Outcome A) → Ensures (λ a. Unit) m
Ensures-any (ok a) = ensures tt
Ensures-any panic = panics
Ensures-any spin = spins
