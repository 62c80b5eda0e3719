-- ===== src/Db/Groups/Rename.antt =====
-- `RenameGroup` of internal/db/groups.go.
use certhold.Base.{
  Text, true, false, not, ◌&&◌, ◌||◌, ◌==◌, ==_iff, List, [], ◌∷◌, map, any, filter, if◌then◌else◌,
  ◌≡◌, refl, sym, subst, arith, trim_space, is_empty,
}
use certhold.Errors.{ok}
use certhold.Exec.{in_tx}
use certhold.Db.{
  Db, Membership, Table, peer_groups, peer_allowed_groups, has_row, in_rows, has_group, RefsValid,
}
use certhold.Db.Groups.{
  rename_group, rename_group_tx, of_group, retarget_rows, group_exists_tx, unless_same,
  ensure_group, add_group, delete_group_row,
}

abbrev retarget : Text → Text → List Membership → List Membership
retarget old new = map (λ r. if of_group old r then record r { group_name = new } else r)

-- The rows after the update, read at any peer and group.
in_rows-retarget :
    (old new : Text) (rs : List Membership) (p g : Text)
    → in_rows rs p new ≡ false
    → in_rows (retarget old new rs) p g
      ≡ (if g == new then in_rows rs p old else if g == old then false else in_rows rs p g)
in_rows-retarget old new [] p g h = ground arith
in_rows-retarget old new (r ∷ rs) p g h = ground (
  arith,
  in_rows-retarget old new rs p g,
  ==_iff r.group_name old,
  ==_iff r.group_name new,
  ==_iff r.group_name g,
  ==_iff new g,
  ==_iff g new,
  ==_iff g old,
  ==_iff old g,
)

no_conflict :
    (old new : Text) (rs all_rows : List Membership)
    → ((p : Text) → in_rows all_rows p new ≡ false)
    → any (λ r. of_group old r && not (old == new) && in_rows all_rows r.peer_name new) rs ≡ false
no_conflict old new [] all_rows h = refl
no_conflict old new (r ∷ rs) all_rows h =
    ground (arith, h r.peer_name, no_conflict old new rs all_rows h)

no_old_left :
    (old new : Text) (rs : List Membership)
    → (old == new) ≡ false
    → any (of_group old) (retarget old new rs) ≡ false
no_old_left old new [] h = refl
no_old_left old new (r ∷ rs) h =
    ground (arith, no_old_left old new rs, ==_iff old new, ==_iff new old)

-- The groups after the insertion and the deletion.
has-renamed :
    (old new g : Text) (gs : List Text)
    → (old == new) ≡ false
    → any (λ x. x == g) (filter (λ x. not (x == old)) (new ∷ gs))
      ≡ (new == g || (not (old == g) && any (λ x. x == g) gs))
has-renamed old new g [] h = ground (arith, ==_iff old new, ==_iff new old)
has-renamed old new g (x ∷ gs) h = ground (
  arith,
  has-renamed old new g gs h,
  ==_iff old new,
  ==_iff new old,
  ==_iff x old,
  ==_iff x g,
  ==_iff old g,
)

-- `db'` is `db` with the memberships of `old` under `new`, and `old` itself renamed.
pub record Renamed (old new : Text) (db db' : Db) : Type 0 where
  pub rows :
      (t : Table) (p g : Text)
      → has_row t db' p g
        ≡ (if g == new then has_row t db p old else if g == old then false else has_row t db p g)
  pub groups : (g : Text) → has_group db' g ≡ (new == g || (not (old == g) && has_group db g))
  pub peers : db'.peers ≡ db.peers
  pub tokens : db'.tokens ≡ db.tokens

abbrev renamed : Text → Text → Db → Db
renamed old new db = record db {
  groups = filter (λ x. not (x == old)) (new ∷ db.groups);
  peer_groups_rows = retarget old new db.peer_groups_rows;
  peer_allowed_rows = retarget old new db.peer_allowed_rows;
}

-- No membership has a group that is not there.
unreferenced :
    (db : Db)
    → RefsValid db
    → (t : Table) (g : Text) → has_group db g ≡ false
    → (p : Text) → has_row t db p g ≡ false
unreferenced db v t g h p = ground (arith, v.group_refs t p g)

-- A group that is there and one that is not are two.
differ :
    (db : Db) (old new : Text)
    → has_group db old ≡ true
    → has_group db new ≡ false
    → (old == new) ≡ false
differ db old new found fresh = ground (arith, ==_iff old new)

rename_eq :
    (raw_old raw_new : Text) (db : Db)
    → RefsValid db
    → is_empty (trim_space raw_new) ≡ false
    → has_group db (trim_space raw_old) ≡ true
    → has_group db (trim_space raw_new) ≡ false
    → rename_group raw_old raw_new db
      ≡ (ok tt, renamed (trim_space raw_old) (trim_space raw_new) db)
unfolding rename_group rename_group_tx in_tx group_exists_tx unless_same ensure_group add_group
    retarget_rows delete_group_row
rename_eq raw_old raw_new db v named found fresh = ground (
  arith,
  two,
  no_conflict old new db.peer_groups_rows db.peer_groups_rows
      (unreferenced db v peer_groups new fresh),
  no_conflict old new db.peer_allowed_rows db.peer_allowed_rows
      (unreferenced db v peer_allowed_groups new fresh),
  no_old_left old new db.peer_groups_rows two,
  no_old_left old new db.peer_allowed_rows two,
  ==_iff new new,
)
  where
    old : Text
    old = trim_space raw_old

    new : Text
    new = trim_space raw_new

    two : (old == new) ≡ false
    two = differ db old new found fresh

renamed-Renamed :
    (old new : Text) (db : Db)
    → RefsValid db
    → has_group db old ≡ true
    → has_group db new ≡ false
    → Renamed old new db (renamed old new db)
unfolding in_rows-retarget
renamed-Renamed old new db v found fresh = record {
  rows = elim [
    | peer_groups ↦ λ p g.
        in_rows-retarget old new db.peer_groups_rows p g (unreferenced db v peer_groups new fresh p)
    | peer_allowed_groups ↦ λ p g.
        in_rows-retarget old new db.peer_allowed_rows p g
          (unreferenced db v peer_allowed_groups new fresh p)
  ];
  groups = λ g. has-renamed old new g db.groups (differ db old new found fresh);
  peers = refl;
  tokens = refl;
}

-- Renaming a group that is there to a name that is not taken succeeds: no constraint refuses it,
-- because no membership of the new name can be there. Afterwards the new name has the memberships
-- of the old one in both tables, the old name has none and is no group, and every other group,
-- every other membership, the peers and the tokens are as before.
pub rename_group_moves :
    (raw_old raw_new : Text) (db : Db)
    → RefsValid db
    → is_empty (trim_space raw_new) ≡ false
    → has_group db (trim_space raw_old) ≡ true
    → has_group db (trim_space raw_new) ≡ false
    → ((rename_group raw_old raw_new db).0 ≡ ok tt)
      × Renamed (trim_space raw_old) (trim_space raw_new) db (rename_group raw_old raw_new db).1
rename_group_moves raw_old raw_new db v named found fresh =
    subst (λ r. (r.0 ≡ ok tt) × Renamed (trim_space raw_old) (trim_space raw_new) db r.1)
      (sym (rename_eq raw_old raw_new db v named found fresh))
      (refl, renamed-Renamed (trim_space raw_old) (trim_space raw_new) db v found fresh)
