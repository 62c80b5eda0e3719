-- ===== src/Ops/Revoke.antt =====
-- internal/ops/revoke.go. `Rekey` is the parameter `rekey`, on the name of the manager's own peer.
pub mod Order
use certhold.Base.{Text, text, Bool, true, false, not, Option, List, [], if◌then◌else◌}
use certhold.Errors.{Error, client_peer, Result, ok, err}
use certhold.Exec.{Exec, ◌>>=◌, ◌>>◌, refuse_if}
use certhold.Db.{Db, Peer}
use certhold.Db.Peers.{dial_host, get_peer, set_peer_revoked, delete_peer}
use certhold.Db.Meta.{bump_fleet_rev}
use certhold.Ops.{World, Op, info, peer_start, peer_done, on_db, on_remote, emit, reporting}
use certhold.Ops.Outside.{Outside}
use certhold.Ops.SelfName.{resolve_self_name, guard_not_self_peer, ensure_instance_key}
use certhold.Ops.Push.{push_user}

module _ {R : Type 0} (out : Outside R) (rekey : Text → Op R (Unit {0})) where
  -- What `revokeClear` does on the peer, and the failures that it reports.
  unfoldable pub clear_remote : Peer → Text → List Text → Op R (Unit {0})
  unfolding push_user
  clear_remote p key cas = do
    emit (peer_start p.name)
    reporting p.name (on_remote (out.dial (dial_host p) (push_user p)))
    reporting p.name (on_remote (out.clear_peer (dial_host p) p.target_user key cas))

  -- The end of `revokeClear`.
  unfoldable pub drop_cleared : Peer → Op R (Unit {0})
  drop_cleared p = do
    on_db (delete_peer p.name)
    on_db bump_fleet_rev
    emit (peer_done p.name)
    emit (info p.name)

  -- `revokeClear`
  unfoldable pub revoke_clear : Peer → Op R (Unit {0})
  unfolding ensure_instance_key clear_remote drop_cleared
  revoke_clear p = do
    refuse_if (not p.inbound) client_peer
    cas ← on_remote out.instance_ca_pubs
    key ← ensure_instance_key out
    clear_remote p key cas
    drop_cleared p

  -- `revokeRekey`
  unfoldable pub revoke_rekey : Text → Text → Op R (Unit {0})
  unfolding resolve_self_name
  revoke_rekey name given = do
    hostname ← resolve_self_name out given
    on_db (set_peer_revoked name)
    rekey hostname
    on_db (delete_peer name)
    emit (info name)

  abbrev revoke_mode : Bool → Text → Text → Peer → Op R (Unit {0})
  revoke_mode true name given p w = revoke_rekey name given w
  revoke_mode false name given p w = revoke_clear p w

  -- `RevokePeer`
  unfoldable pub revoke_peer : Text → Text → Bool → Op R (Unit {0})
  unfolding guard_not_self_peer
  revoke_peer name given by_rekey = do
    guard_not_self_peer out name given
    p ← on_db (get_peer name)
    revoke_mode by_rekey name given p
