-- ===== src/Ops/Update.antt =====
-- internal/ops/update.go.
use certhold.Base.{Text, false, not, List, is_empty, if◌then◌else◌}
use certhold.Errors.{peer_revoked, missing_group}
use certhold.Exec.{◌>>=◌, ◌>>◌, refuse_if, for_each}
use certhold.Db.{Peer}
use certhold.Db.Peers.{dial_host, get_peer, set_peer_cert}
use certhold.Db.Groups.{group_exists_tx, set_peer_groups}
use certhold.Db.Meta.{bump_fleet_rev}
use certhold.Peerfiles.Principals.{cert_principals}
use certhold.Ops.{Op, info, peer_start, peer_done, on_db, on_remote, emit, reporting}
use certhold.Ops.Outside.{Outside}
use certhold.Ops.SelfName.{guard_not_self_peer, ensure_instance_key}
use certhold.Ops.Push.{skip_push, push_user, peer_cert_path, splice_peer_config}

-- The loop that refuses a group that is not there.
unfoldable pub check_groups : {R : Type 0} → List Text → Op R (Unit {0})
check_groups groups =
    for_each groups
      λ g. do exists ← on_db (group_exists_tx g); refuse_if (not exists) (missing_group g)

module _ {R : Type 0} (out : Outside R) where
  -- The push of the new certificate; each failure is reported.
  unfoldable pub push_cert : Text → Peer → Text → Text → Text → Op R (Unit {0})
  unfolding push_user peer_cert_path splice_peer_config
  push_cert name p host key cert = do
    on_remote (out.dial host (push_user p))
    on_remote (out.write_file host (peer_cert_path p key) cert)
    splice_peer_config out host p key
    on_remote (out.verify_health host)

  abbrev host_or : Text → Peer → Text
  host_or host p = if is_empty host then dial_host p else host

  abbrev update_push : Text → Peer → Text → Text → Text → Op R (Unit {0})
  update_push name p host key cert w =
      if skip_push p
      then (do emit (info name); emit (peer_done name)) w
      else (do
        emit (peer_start name)
        reporting name (push_cert name p (host_or host p) key cert)
        emit (peer_done name))
          w

  -- `UpdatePeer`
  unfoldable pub update_peer_groups : Text → List Text → Text → Text → Op R (Unit {0})
  unfolding guard_not_self_peer cert_principals check_groups ensure_instance_key push_cert skip_push
  update_peer_groups name groups host hostname = do
    guard_not_self_peer out name hostname
    on_remote out.load_ca
    p ← on_db (get_peer name)
    refuse_if p.revoked (peer_revoked name)
    signed ← on_remote (out.sign p.authorized_key name (cert_principals name groups false))
    check_groups groups
    on_db (set_peer_groups name groups)
    on_db (set_peer_cert name signed.0 signed.1)
    key ← ensure_instance_key out
    on_db bump_fleet_rev
    update_push name p host key signed.0
