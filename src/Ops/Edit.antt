-- ===== src/Ops/Edit.antt =====
-- internal/ops/peeredit.go and remove.go.
pub mod Client
pub mod Removal
use certhold.Base.{
  Text, text, Bool, true, false, not, Option, none, some, List, [], ◌∷◌, is_empty, if◌then◌else◌,
}
use certhold.Errors.{Error, push_unreachable, Result, ok, err}
use certhold.Exec.{Exec, ◌>>=◌, ◌>>◌, pure, lift, refuse_if}
use certhold.Db.{Db, Peer}
use certhold.Db.Peers.{dial_host, get_peer, set_peer_address, set_peer_inbound, delete_peer}
use certhold.Db.Meta.{bump_fleet_rev}
use certhold.Peerfiles.Address.{validate_dial_address}
use certhold.Peerfiles.AuthorizedKeys.{ParsedKey, strip_ca_line}
use certhold.Ops.{
  World, Op, Event, info, peer_start, peer_done, on_db, on_remote, emit, reporting, warning,
}
use certhold.Ops.Outside.{Outside}
use certhold.Ops.SelfName.{resolve_self_name, guard_not_self_peer}
use certhold.Ops.Push.{push_user, peer_authorized_keys_path}

module _ {R : Type 0} (out : Outside R) where
  -- `SetPeerAddress`
  unfoldable pub edit_peer_address : Text → Text → Op R (Unit {0})
  unfolding validate_dial_address
  edit_peer_address name address = do
    lift (validate_dial_address address)
    p ← on_db (get_peer name)
    on_db (set_peer_address name address)
    on_db bump_fleet_rev
    emit (info name)

  -- `RemovePeer`
  unfoldable pub remove_peer : Text → Op R (Unit {0})
  unfolding guard_not_self_peer
  remove_peer name = do
    guard_not_self_peer out name []
    p ← on_db (get_peer name)
    on_db (delete_peer name)
    on_db bump_fleet_rev
    emit (info name)

module _ {R : Type 0} (out : Outside R) (parse : Text → Option ParsedKey) where
  -- `MakeClient` from the read of the CA key to the write of the stripped file.
  unfoldable pub strip_remote : Peer → Op R (Unit {0})
  unfolding peer_authorized_keys_path
  strip_remote p = do
    ca ← on_remote out.ca_pub
    existing ← on_remote (out.read_file (dial_host p) (peer_authorized_keys_path p))
    on_remote (
        out.write_file (dial_host p) (peer_authorized_keys_path p)
          (strip_ca_line parse existing (ca ∷ [])))

  -- What `MakeClient` does once the stripped file stands on the host.
  unfoldable pub record_client : Text → Peer → Op R (Unit {0})
  record_client name p = do
    reporting name (on_db (set_peer_inbound name false))
    reporting name (on_db bump_fleet_rev)
    warning name (on_remote (out.verify_health (dial_host p)))
    emit (peer_done name)

  -- The rest of `MakeClient`, from the dial, for a peer that takes inbound logins.
  unfoldable pub convert_peer : Text → Peer → Op R (Unit {0})
  unfolding strip_remote push_user record_client
  convert_peer name p = do
    emit (peer_start name)
    reporting name (on_remote (out.dial (dial_host p) (push_user p)))
    reporting name (strip_remote p)
    record_client name p

  abbrev pub make_client_of : Text → Peer → Op R (Unit {0})
  make_client_of name p w =
      if not p.inbound
      then emit (info name) w
      else if not p.push_reachable
      then (err push_unreachable, w)
      else convert_peer name p w

  -- `MakeClient`
  unfoldable pub make_client : Text → Text → Op R (Unit {0})
  unfolding guard_not_self_peer resolve_self_name
  make_client name given = do
    hostname ← resolve_self_name out given
    guard_not_self_peer out name hostname
    p ← on_db (get_peer name)
    make_client_of name p
