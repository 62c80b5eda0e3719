-- ===== src/Db/Meta.antt =====
-- internal/db/meta.go: the key-value pairs of the instance, and the fleet revision.
-- The revision is exact below 2^63, where the column's integer and Go's int64 hold it.
use certhold.Base.{ℕ, ◌+◌, Text, text, ◌==◌, Option, none, some, ◌∷◌, find?, filter, not}
use certhold.Errors.{ok}
use certhold.Exec.{Exec}
use certhold.Db.{Db}

abbrev pub instance_key : Text
instance_key = text "instance_key"

abbrev pub self_name : Text
self_name = text "self_name"

abbrev value_of : Option (Text × Text) → Option Text
value_of none = none
value_of (some (k, v)) = some v

-- `GetMeta`: the value, if the key is there.
unfoldable pub get_meta : Text → Exec Db (Option Text)
get_meta key db = (ok (value_of (find? (λ e. e.0 == key) db.meta)), db)

-- `SetMeta`: INSERT OR REPLACE.
unfoldable pub set_meta : Text → Text → Exec Db (Unit {0})
set_meta key value db =
    (ok tt, record db { meta = (key, value) ∷ filter (λ e. not (e.0 == key)) db.meta })

abbrev pub rev_of : Option ℕ → ℕ
rev_of none = 0
rev_of (some n) = n

-- `fleetRevTx`
unfoldable pub fleet_rev : Exec Db ℕ
fleet_rev db = (ok (rev_of db.fleet_rev), db)

-- `bumpFleetRevTx`: 1 when absent, else one more.
unfoldable pub bump_fleet_rev : Exec Db (Unit {0})
bump_fleet_rev db = (ok tt, record db { fleet_rev = some (rev_of db.fleet_rev + 1) })
