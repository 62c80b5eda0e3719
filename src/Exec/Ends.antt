-- ===== src/Exec/Ends.antt =====
-- Code whose last step decides: as long as it fails one property of the state is kept, and when it
-- succeeds another holds.
use certhold.Base.{Bool, true, false, if◌then◌else◌}
use certhold.Errors.{Result, ok, err, IsOk, IsErr}
use certhold.Exec.{Exec, continue, ◌>>=◌}
use certhold.Exec.Keeps.{Keeps}

pub record Ends {S A : Type 0} (P Q : S → Type 0) (m : Exec S A) : Type 0 where
  pub fails : (s : S) → P s → IsErr (m s).0 → P (m s).1
  pub works : (s : S) → P s → IsOk (m s).0 → Q (m s).1

module _ {S A B : Type 0} (P Q : S → Type 0) where
  continue_fails :
      (r : Result A × S) (f : A → Exec S B)
      → ((a : A) → Ends P Q (f a))
      → P r.1
      → IsErr (continue r f).0
      → P (continue r f).1
  continue_fails (ok a, s) f k h e = (k a).fails s h e
  continue_fails (err e', s) f k h e = h

  continue_works :
      (r : Result A × S) (f : A → Exec S B)
      → ((a : A) → Ends P Q (f a))
      → P r.1
      → IsOk (continue r f).0
      → Q (continue r f).1
  continue_works (ok a, s) f k h o = (k a).works s h o
  continue_works (err e', s) f k h o = absurd o

  pub Ends-bind :
      (m : Exec S A) (f : A → Exec S B)
      → Keeps P m
      → ((a : A) → Ends P Q (f a))
      → Ends P Q (m >>= f)
  Ends-bind m f km kf = record {
    fails = λ s h e. continue_fails (m s) f kf (km.at s h) e;
    works = λ s h o. continue_works (m s) f kf (km.at s h) o;
  }

module _ {S A : Type 0} (P Q : S → Type 0) where
  pub Ends-if :
      (b : Bool) (m n : Exec S A) → Ends P Q m → Ends P Q n → Ends P Q (λ s. if b then m s else n s)
  Ends-if true m n km kn = record { fails = km.fails; works = km.works }
  Ends-if false m n km kn = record { fails = kn.fails; works = kn.works }

-- What follows a deciding step, once it keeps what the step established.
module _ {S A B : Type 0} (P Q : S → Type 0) where
  then_fails :
      (r : Result A × S) (f : A → Exec S B)
      → ((a : A) → Keeps Q (f a))
      → ((s : S) → Q s → P s)
      → (IsErr r.0 → P r.1)
      → (IsOk r.0 → Q r.1)
      → P (continue r f).1
  then_fails (ok a, s) f k q e o = q (f a s).1 ((k a).at s (o tt))
  then_fails (err e', s) f k q e o = e tt

  then_works :
      (r : Result A × S) (f : A → Exec S B)
      → ((a : A) → Keeps Q (f a))
      → (IsOk r.0 → Q r.1)
      → IsOk (continue r f).0
      → Q (continue r f).1
  then_works (ok a, s) f k o h = (k a).at s (o tt)
  then_works (err e', s) f k o h = absurd h

  pub Ends-then :
      (m : Exec S A) (f : A → Exec S B)
      → Ends P Q m
      → ((a : A) → Keeps Q (f a))
      → ((s : S) → Q s → P s)
      → Ends P Q (m >>= f)
  Ends-then m f e k q = record {
    fails = λ s h _. then_fails (m s) f k q (e.fails s h) (e.works s h);
    works = λ s h o. then_works (m s) f k (e.works s h) o;
  }
