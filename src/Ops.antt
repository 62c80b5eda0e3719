-- ===== src/Ops.antt =====
-- internal/ops: the operations that the CLI and the TUI call. An operation reads and writes the
-- database, acts on what is outside of it (the CA key, the peers over SSH), and reports events.
pub mod Outside
pub mod SelfName
pub mod Guarded
pub mod Contact
pub mod Push
pub mod Edit
pub mod Revoke
pub mod Update
pub mod Groups
pub mod Enroll
pub mod Unlocker
pub mod Rekey
use certhold.Base.{ℕ, Text, Bool, Option, List, ◌∷◌}
use certhold.Errors.{Error, Result, ok, err}
use certhold.Exec.{Exec}
use certhold.Db.{Db}

-- ops.go: `Event`, without its message; the newest stands first.
pub data Event : Type 0 where
  info peer_start peer_done warn : Text → Event
  peer_failed : Text → Error → Event

-- What an operation works on; `R` is the state of what is outside of the manager's database.
pub record World (R : Type 0) : Type 0 where
  pub db : Db
  pub remote : R
  pub events : List Event

abbrev pub Op : Type 0 → Type 0 → Type 0
Op R A = Exec (World R) A

module _ {R : Type 0} where
  abbrev pub with_db : {A : Type 0} → World R → Result A × Db → Result A × World R
  with_db w (r, db) = (r, record w { db = db })

  abbrev pub with_remote : {A : Type 0} → World R → Result A × R → Result A × World R
  with_remote w (r, s) = (r, record w { remote = s })

  abbrev pub on_db : {A : Type 0} → Exec Db A → Op R A
  on_db m w = with_db w (m w.db)

  abbrev pub on_remote : {A : Type 0} → Exec R A → Op R A
  on_remote m w = with_remote w (m w.remote)

  -- `emit`
  abbrev pub emit : Event → Op R (Unit {0})
  emit e w = (ok tt, record w { events = e ∷ w.events })

  -- `deps.emit(EventPeerFailed); return err`
  abbrev pub failed : {A : Type 0} → Text → Result A × World R → Result A × World R
  failed name (ok a, w) = (ok a, w)
  failed name (err e, w) = (err e, record w { events = peer_failed name e ∷ w.events })

  abbrev pub reporting : {A : Type 0} → Text → Op R A → Op R A
  reporting name m w = failed name (m w)

  abbrev pub logged : {A : Type 0} → Text → Result A × World R → Result (Unit {0}) × World R
  logged name (ok a, w) = (ok tt, w)
  logged name (err e, w) = (ok tt, record w { events = warn name ∷ w.events })

  -- `if err := …; err != nil { deps.warn(…) }`
  abbrev pub warning : {A : Type 0} → Text → Op R A → Op R (Unit {0})
  warning name m w = logged name (m w)
