-- ===== src/Exec/Steps.antt =====
-- How a sequence of steps goes on after a step whose result is known, and what a rolled back
-- transaction leaves.
use certhold.Base.{Bool, true, false, ◌≡◌, refl, ap}
use certhold.Errors.{Error, Result, ok, err, IsErr}
use certhold.Exec.{Exec, continue, settle, in_tx, refuse_if}

module _ {S A : Type 0} where
  pub with_result : (r : Result A × S) (x : Result A) → r.0 ≡ x → r ≡ (x, r.1)
  with_result (y, s) x h = ap (λ z. (z, s)) h

module _ {S A B : Type 0} where
  pub continue_ok :
      (r : Result A × S) (k : A → Exec S B) (a : A) → r.0 ≡ ok a → continue r k ≡ k a r.1
  continue_ok (ok b, s) k a h = cc h
  continue_ok (err e, s) k a h = cc h

  pub continue_err :
      (r : Result A × S) (k : A → Exec S B) (e : Error) → r.0 ≡ err e → continue r k ≡ (err e, r.1)
  continue_err (ok b, s) k e h = cc h
  continue_err (err f, s) k e h = cc h

  -- A sequence that fails by its first step, or by its rest.
  pub continue-IsErr :
      (r : Result A × S) (k : A → Exec S B)
      → ((a : A) → r.0 ≡ ok a → IsErr (k a r.1).0)
      → IsErr (continue r k).0
  continue-IsErr (ok a, s) k h = h a refl
  continue-IsErr (err e, s) k h = tt

  pub continue-IsErr_first :
      (r : Result A × S) (k : A → Exec S B) → IsErr r.0 → IsErr (continue r k).0
  continue-IsErr_first (ok a, s) k h = absurd h
  continue-IsErr_first (err e, s) k h = tt

  -- A sequence that succeeds has a first step that does.
  pub continue_eq_ok :
      (r : Result A × S) (k : A → Exec S B) (b : B)
      → (continue r k).0 ≡ ok b
      → (a : A) × (r.0 ≡ ok a) × (continue r k ≡ k a r.1)
  continue_eq_ok (ok a, s) k b h = (a, refl, refl)
  continue_eq_ok (err e, s) k b h = cc h

module _ {S B : Type 0} where
  pub refuse_passes :
      (b : Bool) (e : Error) (s : S) (k : Unit {0} → Exec S B)
      → b ≡ false
      → continue (refuse_if b e s) k ≡ k tt s
  refuse_passes true e s k h = cc h
  refuse_passes false e s k h = refl

  pub refuse_stops :
      (b : Bool) (e : Error) (s : S) (k : Unit {0} → Exec S B)
      → b ≡ true
      → continue (refuse_if b e s) k ≡ (err e, s)
  refuse_stops true e s k h = refl
  refuse_stops false e s k h = cc h

module _ {S A : Type 0} where
  settle_ok : (s : S) (r : Result A × S) (a : A) → r.0 ≡ ok a → settle s r ≡ (ok a, r.1)
  settle_ok s (ok b, s') a h = cc h
  settle_ok s (err e, s') a h = cc h

  pub in_tx_commits : (m : Exec S A) (s : S) (a : A) → (m s).0 ≡ ok a → in_tx m s ≡ (ok a, (m s).1)
  unfolding in_tx
  in_tx_commits m s a h = settle_ok s (m s) a h

  settle_eq_ok :
      (s : S) (r : Result A × S) (a : A) → (settle s r).0 ≡ ok a → (r.0 ≡ ok a) × (settle s r ≡ r)
  settle_eq_ok s (ok b, s') a h = (h, refl)
  settle_eq_ok s (err e, s') a h = cc h

  pub in_tx_eq_ok :
      (m : Exec S A) (s : S) (a : A) → (in_tx m s).0 ≡ ok a → ((m s).0 ≡ ok a) × (in_tx m s ≡ m s)
  unfolding in_tx
  in_tx_eq_ok m s a h = settle_eq_ok s (m s) a h

  settle_rolls_back :
      (s : S) (r : Result A × S) → IsErr r.0 → IsErr (settle s r).0 × ((settle s r).1 ≡ s)
  settle_rolls_back s (ok a, s') h = absurd h
  settle_rolls_back s (err e, s') h = (tt, refl)

  pub in_tx_rolls_back :
      (m : Exec S A) (s : S) → IsErr (m s).0 → IsErr (in_tx m s).0 × ((in_tx m s).1 ≡ s)
  unfolding in_tx
  in_tx_rolls_back m s h = settle_rolls_back s (m s) h

  settle_err : (s : S) (r : Result A × S) (e : Error) → (settle s r).0 ≡ err e → (settle s r).1 ≡ s
  settle_err s (ok a, s') e h = cc h
  settle_err s (err f, s') e h = refl

  pub in_tx_err : (m : Exec S A) (s : S) (e : Error) → (in_tx m s).0 ≡ err e → (in_tx m s).1 ≡ s
  unfolding in_tx
  in_tx_err m s e h = settle_err s (m s) e h
