-- ===== src/Db/Integrity/Ops.antt =====
-- The references of the membership tables under the operations of internal/db.
use certhold.Base.{Text, Bool, List, [], Option, none, some, ◌≡◌, refl, arith}
use certhold.Exec.{Exec}
use certhold.Exec.Keeps.{Keeps, Keeps-refuse, Keeps-pure, Keeps-bind, Keeps-for_each, Keeps-in_tx}
use certhold.Db.{
  Db, Peer, Table, peer_groups, peer_allowed_groups, RefsValid, StagedReenroll, Token,
}
use certhold.Db.Peers.{
  update_peer, delete_peer_row, forget_peer, delete_peer, delete_peer_tx, get_peer,
}
use certhold.Db.Peers.Delete.{any-drop_peers, in_rows-drop_peer}
use certhold.Db.Groups.{
  set_peer_groups_table, set_peer_groups_table_tx, set_peer_groups_table_strict_tx, group_exists_tx,
  create_group, delete_group, delete_group_tx, rename_group, rename_group_tx, unless_same,
}
use certhold.Db.Meta.{bump_fleet_rev}
use certhold.Db.Tokens.{
  lookup_token, mark_consumed, commit_if_staged, commit_staged_reenroll, consume_token,
  consume_token_tx, write_staged, settle_allowed, restaged, staged_of,
}
use certhold.Db.Integrity.{
  Valid-insert_group, Valid-ensure_group, Valid-insert_row, Valid-clear_rows, Valid-clear_group,
  Valid-delete_group_row, Valid-retarget_rows, Valid-update_rows, of_rows, rows_valid,
}

Valid-group_exists_tx : (g : Text) → Keeps RefsValid (group_exists_tx g)
unfolding group_exists_tx
Valid-group_exists_tx g = record { at = λ db v. v }

Valid-get_peer : (n : Text) → Keeps RefsValid (get_peer n)
unfolding get_peer
Valid-get_peer n = record { at = λ db v. v }

Valid-bump_fleet_rev : Keeps RefsValid bump_fleet_rev
unfolding bump_fleet_rev
Valid-bump_fleet_rev = record {
  at = λ db v. of_rows _ (rows_valid peer_groups db v) (rows_valid peer_allowed_groups db v);
}

Valid-unless_same :
    (old new : Text) (m : Exec Db (Unit {0}))
    → Keeps RefsValid m
    → Keeps RefsValid (unless_same old new m)
unfolding unless_same
Valid-unless_same old new m k = record { at = λ db v. ground (arith, v, k.at db v) }

Valid-delete_peer_tx : (n : Text) → Keeps RefsValid (delete_peer_tx n)
unfolding delete_peer_tx forget_peer delete_peer_row
Valid-delete_peer_tx n = record {
  at = λ db v.
      of_rows _
        (λ p g m. ground (
          arith,
          rows_valid peer_groups db v p g,
          in_rows-drop_peer n p g db.peer_groups_rows,
          any-drop_peers n p db.peers,
        ))
        (λ p g m. ground (
          arith,
          rows_valid peer_allowed_groups db v p g,
          in_rows-drop_peer n p g db.peer_allowed_rows,
          any-drop_peers n p db.peers,
        ));
}

pub Valid-update_peer :
    (n : Text) (f : Peer → Peer)
    → ((p : Peer) → (f p).name ≡ p.name)
    → Keeps RefsValid (update_peer n f)
unfolding update_peer
Valid-update_peer n f keeps = record {
  at = λ db v. ground (arith, v, Valid-update_rows n f db keeps v);
}

Valid-lookup_token : (token : Text) → Keeps RefsValid (lookup_token token)
unfolding lookup_token
Valid-lookup_token token = record { at = λ db v. v }

Valid-mark_consumed : (token : Text) → Keeps RefsValid (mark_consumed token)
unfolding mark_consumed
Valid-mark_consumed token = record {
  at = λ db v.
      of_rows _ (λ p g m. ground (arith, rows_valid peer_groups db v p g))
        (λ p g m. ground (arith, rows_valid peer_allowed_groups db v p g));
}

Valid-write_staged :
    (n key : Text) (staged : StagedReenroll) → Keeps RefsValid (write_staged n key staged)
unfolding write_staged
Valid-write_staged n key staged = record {
  at = λ db v. Valid-update_rows n (restaged key staged) db (λ p. refl) v;
}

ruleset valid_rules = (
  Keeps-refuse, Keeps-pure, Keeps-bind, Keeps-for_each, Keeps-in_tx, Valid-insert_group,
  Valid-ensure_group, Valid-insert_row, Valid-clear_rows, Valid-clear_group, Valid-delete_group_row,
  Valid-retarget_rows, Valid-group_exists_tx, Valid-get_peer, Valid-bump_fleet_rev,
  Valid-unless_same,
)

pub Valid-set_peer_groups_table :
    (t : Table) (peer : Text) (gs : List Text) → Keeps RefsValid (set_peer_groups_table t peer gs)
unfolding set_peer_groups_table set_peer_groups_table_tx
Valid-set_peer_groups_table t peer gs = search valid_rules depth 9

pub Valid-strict :
    (t : Table) (peer : Text) (gs : List Text)
    → Keeps RefsValid (set_peer_groups_table_strict_tx t peer gs)
unfolding set_peer_groups_table_strict_tx
Valid-strict t peer gs = search valid_rules depth 9

pub Valid-create_group : (name : Text) → Keeps RefsValid (create_group name)
unfolding create_group
Valid-create_group name = search valid_rules depth 9

pub Valid-delete_group : (name : Text) → Keeps RefsValid (delete_group name)
unfolding delete_group delete_group_tx
Valid-delete_group name = search valid_rules depth 9

pub Valid-rename_group : (old new : Text) → Keeps RefsValid (rename_group old new)
unfolding rename_group rename_group_tx
Valid-rename_group old new = search valid_rules depth 12

pub Valid-delete_peer : (name : Text) → Keeps RefsValid (delete_peer name)
unfolding delete_peer
Valid-delete_peer name = Keeps-in_tx RefsValid (delete_peer_tx name) (Valid-delete_peer_tx name)

Valid-settle_allowed :
    (name : Text) (gs : List Text) (staged : StagedReenroll) (was_inbound : Bool)
    → Keeps RefsValid (settle_allowed name gs staged was_inbound)
unfolding settle_allowed
Valid-settle_allowed name gs staged was_inbound = record {
  at = λ db v. ground (
    arith,
    v,
    (Valid-strict peer_allowed_groups name []).at db v,
    (Valid-strict peer_allowed_groups name staged.allowed).at db v,
    (Valid-strict peer_allowed_groups name gs).at db v,
  );
}

ruleset redeem_rules = (
  valid_rules, Valid-strict, Valid-settle_allowed, Valid-lookup_token, Valid-mark_consumed,
  Valid-write_staged,
)

Valid-commit_staged_reenroll :
    (name csv key : Text) (staged : StagedReenroll)
    → Keeps RefsValid (commit_staged_reenroll name csv key staged)
unfolding commit_staged_reenroll
Valid-commit_staged_reenroll name csv key staged = search redeem_rules depth 12

Valid-commit_if_staged : (t : Token) (key : Option Text) → Keeps RefsValid (commit_if_staged t key)
unfolding commit_if_staged
Valid-commit_if_staged t none = record { at = λ db v. v }
Valid-commit_if_staged t (some key) = record {
  at = (Valid-commit_staged_reenroll t.peer_name t.groups key (staged_of t)).at;
}

pub Valid-consume_token : (token : Text) → Keeps RefsValid (consume_token token)
unfolding consume_token consume_token_tx
Valid-consume_token token = search (redeem_rules, Valid-commit_if_staged) depth 12
