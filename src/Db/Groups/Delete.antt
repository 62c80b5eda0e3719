-- ===== src/Db/Groups/Delete.antt =====
-- `DeleteGroup` of internal/db/groups.go.
use certhold.Base.{
  Text, true, false, not, ◌&&◌, ◌==◌, ==_iff, List, [], ◌∷◌, any, filter, ◌≡◌, refl, sym, subst,
  arith,
}
use certhold.Errors.{ok, err, group_not_found}
use certhold.Exec.{in_tx}
use certhold.Db.{
  Db, Membership, Table, peer_groups, peer_allowed_groups, has_row, in_rows, has_group,
}
use certhold.Db.Groups.{
  delete_group, of_group, delete_group_tx, group_exists_tx, clear_group, delete_group_row,
}

pub in_rows-drop_group :
    (n p g : Text) (rs : List Membership)
    → in_rows (filter (λ r. not (of_group n r)) rs) p g ≡ (not (n == g) && in_rows rs p g)
in_rows-drop_group n p g [] = ground arith
in_rows-drop_group n p g (r ∷ rs) =
    ground
      (arith, in_rows-drop_group n p g rs, ==_iff n g, ==_iff r.group_name n, ==_iff r.group_name g)

none_of_group :
    (n : Text) (rs : List Membership)
    → any (of_group n) (filter (λ r. not (of_group n r)) rs) ≡ false
none_of_group n [] = refl
none_of_group n (r ∷ rs) = ground (arith, none_of_group n rs)

pub any-drop_group :
    (n g : Text) (gs : List Text)
    → any (λ x. x == g) (filter (λ x. not (x == n)) gs) ≡ (not (n == g) && any (λ x. x == g) gs)
any-drop_group n g [] = ground arith
any-drop_group n g (x ∷ gs) =
    ground (arith, any-drop_group n g gs, ==_iff n g, ==_iff x n, ==_iff x g)

-- `db'` is `db` without the group and its memberships.
pub record GroupGone (n : Text) (db db' : Db) : Type 0 where
  pub rows : (t : Table) (p g : Text) → has_row t db' p g ≡ (not (n == g) && has_row t db p g)
  pub groups : (g : Text) → has_group db' g ≡ (not (n == g) && has_group db g)
  pub peers : db'.peers ≡ db.peers
  pub tokens : db'.tokens ≡ db.tokens

abbrev without_group : Text → Db → Db
without_group n db = record db {
  groups = filter (λ g. not (g == n)) db.groups;
  peer_groups_rows = filter (λ r. not (of_group n r)) db.peer_groups_rows;
  peer_allowed_rows = filter (λ r. not (of_group n r)) db.peer_allowed_rows;
}

delete_group_eq :
    (n : Text) (db : Db) → has_group db n ≡ true → delete_group n db ≡ (ok tt, without_group n db)
unfolding delete_group delete_group_tx in_tx group_exists_tx clear_group delete_group_row
delete_group_eq n db h =
    ground (arith, none_of_group n db.peer_groups_rows, none_of_group n db.peer_allowed_rows)

without_group-GroupGone : (n : Text) (db : Db) → GroupGone n db (without_group n db)
unfolding in_rows-drop_group
without_group-GroupGone n db = record {
  rows = elim [
    | peer_groups ↦ λ p g. in_rows-drop_group n p g db.peer_groups_rows
    | peer_allowed_groups ↦ λ p g. in_rows-drop_group n p g db.peer_allowed_rows
  ];
  groups = λ g. any-drop_group n g db.groups;
  peers = refl;
  tokens = refl;
}

-- Deleting a group that is there succeeds: no foreign key refuses it. Afterwards neither the group
-- nor a membership of it is left in either table, and every other group and membership, the peers
-- and the tokens are as before.
pub delete_group_removes :
    (n : Text) (db : Db)
    → has_group db n ≡ true
    → ((delete_group n db).0 ≡ ok tt) × GroupGone n db (delete_group n db).1
delete_group_removes n db h =
    subst (λ r. (r.0 ≡ ok tt) × GroupGone n db r.1) (sym (delete_group_eq n db h))
      (refl, without_group-GroupGone n db)

pub delete_group_missing :
    (n : Text) (db : Db) → has_group db n ≡ false → delete_group n db ≡ (err group_not_found, db)
unfolding delete_group delete_group_tx in_tx group_exists_tx clear_group delete_group_row
delete_group_missing n db h = ground arith
