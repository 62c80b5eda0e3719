-- ===== src/Ops/Rekey/Version.antt =====
-- internal/ops/rekey.go: the CA version that a rotation records.
use certhold.Base.{ℕ, Option, none, some, find?}
use certhold.Db.{Db, CaVersion}

-- The active version, or 0 when there is none.
abbrev version_or_zero : Option CaVersion → ℕ
version_or_zero none = 0
version_or_zero (some c) = c.version

abbrev pub current_version : Db → ℕ
current_version db = version_or_zero (find? (λ c. c.active) db.ca)
