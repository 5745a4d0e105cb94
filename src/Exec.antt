-- ===== src/Exec.antt =====
-- Methods that change a state and may fail. What was written before a failure stays written, so
-- the state comes back with each outcome.
use sharding_p2p_poc.Prelude.{Option, none, some}
use sharding_p2p_poc.Outcome.{Outcome, ok, fail, panic, Error}

abbrev pub Exec {ℓ κ} : Type ℓ → Type κ → Type (ℓ ⊔ κ)
Exec S A = S → Outcome A × S

module _ {ℓ κ} {S : Type ℓ} {A : Type κ} where
  abbrev pub pure : A → Exec S A
  pure a s = (ok a, s)

  abbrev pub raise : Error → Exec S A
  raise e s = (fail e, s)

  -- A computation that reads and writes nothing.
  abbrev pub lift : Outcome A → Exec S A
  lift r s = (r, s)

  abbrev pub gets : (S → A) → Exec S A
  gets f s = (ok (f s), s)

  -- `if err := m(); err != nil { … }`: the error as a value.
  abbrev pub seen : Outcome A → S → Outcome (Option Error) × S
  seen (ok a) s = (ok none, s)
  seen (fail e) s = (ok (some e), s)
  seen panic s = (panic, s)

  abbrev pub attempt : Exec S A → Exec S (Option Error)
  attempt m s = seen (m s).0 (m s).1

  -- `if err != nil { return fmt.Errorf(text, err) }`
  abbrev pub wrapping : (Error → Error) → Exec S A → Exec S A
  wrapping f m s = (wrapped_outcome (m s).0, (m s).1)
    where
      wrapped_outcome : Outcome A → Outcome A
      wrapped_outcome (ok a) = ok a
      wrapped_outcome (fail e) = fail (f e)
      wrapped_outcome panic = panic

abbrev pub modify {ℓ} : {S : Type ℓ} → (S → S) → Exec S (Unit {0})
modify f s = (ok tt, f s)

module _ {ℓ κ μ} {S : Type ℓ} {A : Type κ} {B : Type μ} where
  abbrev pub continue : Outcome A → (A → Exec S B) → S → Outcome B × S
  continue (ok a) f s = f a s
  continue (fail e) f s = (fail e, s)
  continue panic f s = (panic, s)

  infixl 5 ◌>>=◌
  abbrev pub ◌>>=◌ : Exec S A → (A → Exec S B) → Exec S B
  ◌>>=◌ m f s = continue (m s).0 f (m s).1

infixl 5 ◌>>◌
abbrev pub ◌>>◌ {ℓ κ} : {S : Type ℓ} {B : Type κ} → Exec S (Unit {0}) → Exec S B → Exec S B
m >> k = m >>= λ _. k
