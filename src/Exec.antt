-- ===== src/Exec.antt =====
-- Code that reads and writes a state and may fail. What was written before an error stays written,
-- as it does in Go, so the state comes back beside the error too; a transaction undoes that.
pub mod Keeps
pub mod Steps
pub mod Ends
use certhold.Base.{Bool, true, false, List, [], ◌∷◌}
use certhold.Errors.{Error, Result, ok, err}

abbrev pub Exec {ℓ} : Type ℓ → Type ℓ → Type ℓ
Exec S A = S → Result A × S

module _ {ℓ} {S A : Type ℓ} where
  abbrev pub pure : A → Exec S A
  pure a s = (ok a, s)

  abbrev pub fail : Error → Exec S A
  fail e s = (err e, s)

  abbrev pub lift : Result A → Exec S A
  lift r s = (r, s)

  abbrev pub gets : (S → A) → Exec S A
  gets f s = (ok (f s), s)

module _ {ℓ} {S A B : Type ℓ} where
  abbrev pub continue : Result A × S → (A → Exec S B) → Result B × S
  continue (ok a, s) f = f a s
  continue (err e, s) f = (err e, s)

  infixl 5 ◌>>=◌
  abbrev pub ◌>>=◌ : Exec S A → (A → Exec S B) → Exec S B
  ◌>>=◌ m f s = continue (m s) f

module _ {ℓ} {S B : Type ℓ} where
  infixl 5 ◌>>◌
  abbrev pub ◌>>◌ : Exec S (Unit {ℓ}) → Exec S B → Exec S B
  m >> k = m >>= λ _. k

module _ {S : Type 0} where
  abbrev pub modify : (S → S) → Exec S (Unit {0})
  modify f s = (ok tt, f s)

  -- `if b { return err }`
  abbrev pub refuse_if : Bool → Error → Exec S (Unit {0})
  refuse_if true e s = (err e, s)
  refuse_if false e s = (ok tt, s)

  -- `for _, x := range xs { if err := f(x); err != nil { return err } }`
  unfoldable pub for_each : {A : Type 0} → List A → (A → Exec S (Unit {0})) → Exec S (Unit {0})
  for_each [] f s = (ok tt, s)
  for_each (x ∷ xs) f s = continue (f x s) (λ _. for_each xs f)

  abbrev pub settle : {A : Type 0} → S → Result A × S → Result A × S
  settle s (ok a, s') = (ok a, s')
  settle s (err e, s') = (err e, s)

  -- BEGIN … COMMIT, or ROLLBACK when the body fails.
  unfoldable pub in_tx : {A : Type 0} → Exec S A → Exec S A
  in_tx m s = settle s (m s)
