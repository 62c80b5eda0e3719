-- ===== src/Db/Ca/Active.antt =====
-- The switch of the active CA version.
use certhold.Base.{ℕ, true, false, nat_eq, List, [], ◌∷◌, map, any, find?, ◌≡◌, arith, All}
use certhold.Errors.{ok, err, ca_version_missing}
use certhold.Db.{Db, CaVersion}
use certhold.Db.Ca.{
  insert_ca_version, active_ca_version, set_active_ca_version, has_version, cleared, activated,
  or_no_active,
}

-- After the two updates, exactly the rows of the version are active.
active-activated :
    (v : ℕ) (cs : List CaVersion)
    → All (λ c. c.active ≡ nat_eq c.version v) (map (activated v) (map cleared cs))
active-activated v [] = tt
active-activated v (c ∷ cs) = (ground arith, active-activated v cs)

pub find_active :
    (v : ℕ) (cs : List CaVersion)
    → any (λ c. nat_eq c.version v) cs ≡ true
    → or_no_active (find? (λ c. c.active) (map (activated v) (map cleared cs))) ≡ ok v
find_active v [] h = cc
find_active v (c ∷ cs) h = ground (arith, find_active v cs)

-- Activating a version that is there makes it the active one and every other inactive; activating
-- one that is not there changes nothing.
pub set_active_ca_version_switches :
    (v : ℕ) (db : Db)
    → (has_version db v ≡ true
        → ((set_active_ca_version v db).0 ≡ ok tt)
          × ((active_ca_version (set_active_ca_version v db).1).0 ≡ ok v)
          × All (λ c. c.active ≡ nat_eq c.version v) (set_active_ca_version v db).1.ca)
      × (has_version db v ≡ false → set_active_ca_version v db ≡ (err ca_version_missing, db))
unfolding set_active_ca_version active_ca_version
set_active_ca_version_switches v db = (
  λ h. ground (arith, h, find_active v db.ca h, active-activated v db.ca),
  λ h. ground (arith, h),
)

-- A new version starts inactive: the active version stays what it was.
pub insert_ca_version_keeps_active :
    (now v : ℕ) (db : Db)
    → (active_ca_version (insert_ca_version now v db).1).0 ≡ (active_ca_version db).0
unfolding insert_ca_version active_ca_version
insert_ca_version_keeps_active now v db = ground arith
