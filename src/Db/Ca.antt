-- ===== src/Db/Ca.antt =====
-- internal/db/ca.go: the versions of the CA, of which one is active.
pub mod Active
use certhold.Base.{
  ℕ, Bool, true, false, nat_eq, Option, none, some, List, [], ◌∷◌, map, any, filter, find?, length,
  if◌then◌else◌,
}
use certhold.Errors.{constraint, no_active_ca, ca_version_missing, Result, ok, err}
use certhold.Exec.{Exec, ◌>>=◌, ◌>>◌, in_tx}
use certhold.Db.{Db, CaVersion}

abbrev pub has_version : Db → ℕ → Bool
has_version db v = any (λ c. nat_eq c.version v) db.ca

-- `InsertCAVersion`
unfoldable pub insert_ca_version : ℕ → ℕ → Exec Db (Unit {0})
insert_ca_version now v db = if has_version db v then (err constraint, db) else (
  ok tt,
  record db { ca = record { version = v; active = false; created_at = now } ∷ db.ca },
)

abbrev pub or_no_active : Option CaVersion → Result ℕ
or_no_active none = err no_active_ca
or_no_active (some c) = ok c.version

-- `ActiveCAVersion`
unfoldable pub active_ca_version : Exec Db ℕ
active_ca_version db = (or_no_active (find? (λ c. c.active) db.ca), db)

-- `CountCAVersions`
unfoldable pub count_ca_versions : Exec Db ℕ
count_ca_versions db = (ok (length db.ca), db)

abbrev pub cleared : CaVersion → CaVersion
cleared c = if c.active then record c { active = false } else c

abbrev pub activated : ℕ → CaVersion → CaVersion
activated v c = if nat_eq c.version v then record c { active = true } else c

-- `SetActiveCAVersion`
unfoldable pub set_active_ca_version : ℕ → Exec Db (Unit {0})
unfolding in_tx
set_active_ca_version v = in_tx λ db.
    if has_version db v
    then (ok tt, record db { ca = map (activated v) (map cleared db.ca) })
    else (err ca_version_missing, db)
