-- ===== src/Ops/Groups/Reserved.antt =====
-- `GroupCreate` and the reserved name.
use certhold.Base.{Text, true, false, ◌==◌, ==_refl, ◌∷◌, trim_space, ◌≡◌, refl, arith}
use certhold.Errors.{ok}
use certhold.Db.{Db, has_group, manager_principal}
use certhold.Db.Groups.{create_group, group_exists_tx, insert_group}
use certhold.Db.Meta.{bump_fleet_rev}
use certhold.Ops.{World}
use certhold.Ops.Groups.{group_create}

create_trimmed :
    (raw : Text) (db : Db)
    → trim_space raw ≡ manager_principal
    → has_group db manager_principal ≡ false
    → create_group raw db ≡ (ok tt, record db { groups = manager_principal ∷ db.groups })
unfolding create_group group_exists_tx insert_group
create_trimmed raw db h fresh = rw (h, fresh) (rw fresh refl)

-- The name is compared with the reserved one before it is trimmed: a name that is the reserved one with
-- spaces around it passes, and the reserved group is made.
pub group_create_reserved :
    {R : Type 0} (raw : Text) (w : World R)
    → trim_space raw ≡ manager_principal
    → (raw == manager_principal) ≡ false
    → has_group w.db manager_principal ≡ false
    → ((group_create raw w).0 ≡ ok tt)
      × (has_group (group_create raw w).1.db manager_principal ≡ true)
unfolding group_create bump_fleet_rev
group_create_reserved raw w h other fresh =
    let made = create_trimmed raw w.db h fresh in
    (rw other (rw made refl), rw other (rw made (ground (arith, ==_refl manager_principal))))
