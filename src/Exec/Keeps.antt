-- ===== src/Exec/Keeps.antt =====
-- Invariants of code: a rule for each way to put steps together.
use certhold.Base.{Bool, true, false, List, [], ◌∷◌, if◌then◌else◌}
use certhold.Errors.{Error, Result, ok, err}
use certhold.Exec.{Exec, continue, settle, in_tx, for_each, refuse_if, ◌>>=◌, pure}

-- Whether `m` returns or fails, the state that it leaves satisfies `P` if the first one does.
pub record Keeps {S A : Type 0} (P : S → Type 0) (m : Exec S A) : Type 0 where
  pub at : (s : S) → P s → P (m s).1

module _ {S : Type 0} (P : S → Type 0) where
  pub Keeps-if :
      {A : Type 0} (b : Bool) (m n : Exec S A)
      → Keeps P m
      → Keeps P n
      → Keeps P (λ s. if b then m s else n s)
  Keeps-if true m n km kn = record { at = km.at }
  Keeps-if false m n km kn = record { at = kn.at }

  pub Keeps-refuse : (b : Bool) (e : Error) → Keeps P (refuse_if b e)
  Keeps-refuse true e = record { at = λ s h. h }
  Keeps-refuse false e = record { at = λ s h. h }

  pub Keeps-pure : {A : Type 0} (a : A) → Keeps P (pure a)
  Keeps-pure a = record { at = λ s h. h }

  pub continue_keeps :
      {A B : Type 0} (r : Result A × S) (f : A → Exec S B)
      → ((a : A) → Keeps P (f a))
      → P r.1
      → P (continue r f).1
  continue_keeps (ok a, s) f k h = (k a).at s h
  continue_keeps (err e, s) f k h = h

  pub Keeps-bind :
      {A B : Type 0} (m : Exec S A) (f : A → Exec S B)
      → Keeps P m
      → ((a : A) → Keeps P (f a))
      → Keeps P (m >>= f)
  Keeps-bind m f km kf = record { at = λ s h. continue_keeps (m s) f kf (km.at s h) }

  pub Keeps-for_each :
      {A : Type 0} (xs : List A) (f : A → Exec S (Unit {0}))
      → ((a : A) → Keeps P (f a))
      → Keeps P (for_each xs f)
  unfolding for_each
  Keeps-for_each [] f k = record { at = λ s h. h }
  Keeps-for_each (x ∷ xs) f k = record {
    at = λ s h.
        continue_keeps (f x s) (λ _. for_each xs f) (λ _. Keeps-for_each xs f k) ((k x).at s h);
  }

  settle_keeps : {A : Type 0} (s : S) (r : Result A × S) → P s → P r.1 → P (settle s r).1
  settle_keeps s (ok a, s') h k = k
  settle_keeps s (err e, s') h k = h

  pub Keeps-in_tx : {A : Type 0} (m : Exec S A) → Keeps P m → Keeps P (in_tx m)
  unfolding in_tx
  Keeps-in_tx m k = record { at = λ s h. settle_keeps s (m s) h (k.at s h) }
