-- ===== src/Ops/Contact.antt =====
-- Steps that act outside of the database.
use certhold.Base.{Text, ◌≡◌, ◌∙◌, refl}
use certhold.Errors.{Error, Result, ok, err}
use certhold.Exec.{Exec, lift, continue}
use certhold.Exec.Keeps.{Keeps}
use certhold.Db.{Db}
use certhold.Ops.{World, Op, Event, on_remote, emit, reporting, failed}

-- The database is `db`.
abbrev pub Unwritten : {R : Type 0} → Db → World R → Type 0
Unwritten db w = w.db ≡ db

module _ {R : Type 0} (db : Db) where
  pub Keeps-remote : {A : Type 0} (m : Exec R A) → Keeps (Unwritten db) (on_remote m)
  Keeps-remote m = record { at = λ w h. h }

  pub Keeps-emit : (e : Event) → Keeps (Unwritten {R = R} db) (emit e)
  Keeps-emit e = record { at = λ w h. h }

  pub Keeps-lift : {A : Type 0} (r : Result A) → Keeps (Unwritten {R = R} db) (lift r)
  Keeps-lift r = record { at = λ w h. h }

  failed-db : {A : Type 0} (name : Text) (x : Result A × World R) → (failed name x).1.db ≡ x.1.db
  failed-db name (ok a, w) = refl
  failed-db name (err e, w) = refl

  pub Keeps-reporting :
      {A : Type 0} (name : Text) (m : Op R A)
      → Keeps (Unwritten db) m
      → Keeps (Unwritten db) (reporting name m)
  Keeps-reporting name m k = record { at = λ w h. failed-db name (m w) ∙ k.at w h }

module _ {R A B : Type 0} where
  -- How a sequence goes on after a step that reports its failure.
  pub reporting_fails :
      (name : Text) (x : Result A × World R) (k : A → Op R B) (e : Error)
      → x.0 ≡ err e
      → ((continue (failed name x) k).0 ≡ err e) × ((continue (failed name x) k).1.db ≡ x.1.db)
  reporting_fails name (ok a, w) k e h = absurd (cc h)
  reporting_fails name (err f, w) k e h = (cc h, refl)

  pub reporting_goes :
      (name : Text) (x : Result A × World R) (k : A → Op R B) (a : A)
      → x.0 ≡ ok a
      → continue (failed name x) k ≡ k a x.1
  reporting_goes name (ok b, w) k a h = cc h
  reporting_goes name (err f, w) k a h = absurd (cc h)
