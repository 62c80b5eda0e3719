-- ===== src/Db/Groups/Sets.antt =====
-- The setting of a peer's list of groups, in the form that makes missing groups; the strict form is in
-- the module below.
pub mod Strict
use certhold.Base.{
  Text, Bool, true, false, not, ◌&&◌, ◌||◌, ◌==◌, ==_iff, ==_refl, List, [], ◌∷◌, any, filter,
  if◌then◌else◌, ◌≡◌, refl, sym, subst, ap, ◌∙◌, arith, contains, Distinct, Bool-cases, inl, inr,
  ◌≢◌,
}
use certhold.Errors.{Result, ok, err, group_gone, constraint, IsOk}
use certhold.Exec.{Exec, in_tx, settle, for_each, continue, refuse_if}
use certhold.Db.{
  Db, Membership, Table, peer_groups, peer_allowed_groups, has_row, in_rows, has_peer, has_group,
  rows_of, with_rows,
}
use certhold.Db.Groups.{
  insert_row, clear_rows, group_exists_tx, ensure_group, add_group, set_peer_groups_table_tx,
  set_peer_groups_table_strict_tx, set_peer_groups_table,
}
use certhold.Db.Groups.Rows.{
  other_table, SameRest, Added, Fresh, Adds, body, has_group-add_group, put_row, strict_body,
  body_eq, put_row-rest, put_row-Added, SameRest-trans, Added-cons, has_peer_of_rest, Fresh-step,
  cons_Adds, loop_Adds, cleared, in_rows-cleared, has_row-cleared, has_peer-cleared,
}

-- `db'` has for the peer exactly the given groups in the table.
pub record Assigned (t : Table) (peer : Text) (groups : List Text) (db db' : Db) : Type 0 where
  pub rows :
      (p g : Text) → has_row t db' p g ≡ (if peer == p then contains groups g else has_row t db p g)
  pub has_groups : (g : Text) → has_group db' g ≡ (contains groups g || has_group db g)
  pub rest : SameRest t db db'

Assigned-of_Added :
    (t : Table) (peer : Text) (gs : List Text) (db db' : Db)
    → Added t peer gs (cleared t peer db) db'
    → Assigned t peer gs db db'
Assigned-of_Added peer_groups peer gs db db' h = record {
  rows = λ p g. ground (arith, h.rows p g, has_row-cleared peer_groups peer p g db);
  has_groups = h.has_groups;
  rest = record {
    peers = h.rest.peers;
    other = h.rest.other;
    tokens = h.rest.tokens;
    meta = h.rest.meta;
    fleet_rev = h.rest.fleet_rev;
  };
}
Assigned-of_Added peer_allowed_groups peer gs db db' h = record {
  rows = λ p g. ground (arith, h.rows p g, has_row-cleared peer_allowed_groups peer p g db);
  has_groups = h.has_groups;
  rest = record {
    peers = h.rest.peers;
    other = h.rest.other;
    tokens = h.rest.tokens;
    meta = h.rest.meta;
    fleet_rev = h.rest.fleet_rev;
  };
}

settle-Assigned :
    (t : Table) (peer : Text) (gs : List Text) (db : Db) (r : Result (Unit {0}) × Db)
    → Adds t peer gs (cleared t peer db) r
    → ((settle db r).0 ≡ ok tt) × Assigned t peer gs db (settle db r).1
settle-Assigned t peer gs db (ok a, db') h = (refl, Assigned-of_Added t peer gs db db' h.1)
settle-Assigned t peer gs db (err e, db') h = cc (h.0)

cleared-Fresh :
    (t : Table) (peer : Text) (gs : List Text) (db : Db) → Fresh t peer gs (cleared t peer db)
cleared-Fresh t peer gs db g m = ground (arith, has_row-cleared t peer peer g db, ==_refl peer)

-- For a peer that is there and a list without repetitions, the peer ends up with exactly the listed
-- groups in the table, whatever it had before; groups that were missing are made; the rows of other
-- peers, the other table, the peers, the tokens and the fleet revision are as before.
pub set_peer_groups_table_assigns :
    (t : Table) (peer : Text) (groups : List Text) (db : Db)
    → has_peer db peer ≡ true
    → Distinct groups
    → ((set_peer_groups_table t peer groups db).0 ≡ ok tt)
      × Assigned t peer groups db (set_peer_groups_table t peer groups db).1
unfolding set_peer_groups_table set_peer_groups_table_tx in_tx clear_rows
set_peer_groups_table_assigns t peer groups db there d = settle-Assigned t peer groups db _ (
    loop_Adds t peer groups (cleared t peer db) (has_peer-cleared t peer peer db ∙ there) d
      (cleared-Fresh t peer groups db))

strict_body_eq :
    (t : Table) (peer g : Text) (db : Db)
    → has_group db g ≡ true
    → strict_body t peer g db ≡ body t peer g db
unfolding group_exists_tx ensure_group add_group insert_row
strict_body_eq t peer g db h = ground (arith, h)
