-- ===== src/Ops/Push.antt =====
-- The pushes of internal/ops to one peer: helpers.go, reachability.go, and `signAndStorePeerCert` and
-- `pushGroupCascade` of group.go.
use certhold.Base.{Text, text, Bool, true, false, not, ◌||◌, Option, List, map}
use certhold.Errors.{Result, ok, err}
use certhold.Exec.{◌>>=◌, ◌>>◌, pure, lift}
use certhold.Db.{Peer}
use certhold.Db.Peers.{dial_host, set_peer_cert, set_peer_reachable}
use certhold.Db.Hosts.{ReachableHost, reachable_hosts}
use certhold.Peerfiles.Principals.{cert_principals}
use certhold.Peerfiles.AuthorizedKeys.{ParsedKey, rewrite_principals}
use certhold.Peerfiles.Layout.{HostEntry, paths_for, client_block, or_root}
use certhold.Ops.{World, Op, on_db, on_remote}
use certhold.Ops.Outside.{Outside}

-- `skipPushNotice`: whether the peer is not dialed.
unfoldable pub skip_push : Peer → Bool
skip_push p = not p.inbound || not p.push_reachable

-- `pushUser`
unfoldable pub push_user : Peer → Text
push_user p = or_root p.target_user

-- `PeerCertRemotePath`
unfoldable pub peer_cert_path : Peer → Text → Text
unfolding paths_for
peer_cert_path p key = (paths_for p.target_user key).cert

-- `PeerAuthorizedKeysRemotePath`
unfoldable pub peer_authorized_keys_path : Peer → Text
unfolding paths_for
peer_authorized_keys_path p = (paths_for p.target_user (text "")).authorized_keys

abbrev to_entry : ReachableHost → HostEntry
to_entry h = record { name = h.name; address = h.address; user = h.target_user }

-- `v2ConfigBlockForHosts`
unfoldable pub config_block_for_hosts : Text → List ReachableHost → Text
unfolding client_block
config_block_for_hosts key hosts = client_block key (map to_entry hosts)

module _ {R : Type 0} (out : Outside R) where
  -- `if b { if err := m(); err != nil { return err } }`
  abbrev pub when : Bool → Op R (Unit {0}) → Op R (Unit {0})
  when true m w = m w
  when false m w = (ok tt, w)

  -- `SplicePeerConfig`, over the connection to the host.
  unfoldable pub splice_peer_config : Text → Peer → Text → Op R (Unit {0})
  unfolding config_block_for_hosts paths_for
  splice_peer_config host p key = do
    hosts ← on_db (reachable_hosts p.name)
    on_remote (
        out.splice_config host (paths_for p.target_user key).config_target key
          (config_block_for_hosts key hosts))

  -- `signAndStorePeerCert`
  unfoldable pub sign_and_store_peer_cert : Peer → List Text → Bool → Op R Text
  unfolding cert_principals
  sign_and_store_peer_cert p groups self = do
    signed ← on_remote (out.sign p.authorized_key p.name (cert_principals p.name groups self))
    on_db (set_peer_cert p.name signed.0 signed.1)
    pure signed.0

  -- The rewrite of the principals in the peer's authorized_keys.
  unfoldable pub rewrite_remote :
      (Text → Option ParsedKey) → Text → Peer → Text → List Text → Op R (Unit {0})
  unfolding rewrite_principals peer_authorized_keys_path
  rewrite_remote parse host p ca allowed = do
    existing ← on_remote (out.read_file host (peer_authorized_keys_path p))
    content ← lift (rewrite_principals parse existing ca allowed)
    on_remote (out.write_file host (peer_authorized_keys_path p) content)

  -- `pushGroupCascade`
  unfoldable pub push_group_cascade :
      (Text → Option ParsedKey)
      → Peer
      → Text
      → Text
      → Bool
      → Text
      → Bool
      → List Text
      → Bool
      → Op R (Unit {0})
  unfolding splice_peer_config rewrite_remote push_user peer_cert_path
  push_group_cascade parse p key ca is_member cert is_allow allowed splice = do
    let host = dial_host p
    on_remote (out.dial host (push_user p))
    when is_member (on_remote (out.write_file host (peer_cert_path p key) cert))
    when is_allow (rewrite_remote parse host p ca allowed)
    when splice (splice_peer_config host p key)
    on_remote (out.verify_health host)

  abbrev is_ok : {A : Type 0} → Result A → Bool
  is_ok (ok a) = true
  is_ok (err e) = false

  -- The verdict of the dial is recorded, and given back after it.
  abbrev recorded : Text → Result (Unit {0}) × World R → Result (Unit {0}) × World R
  recorded name (r, w) = (on_db (set_peer_reachable name (is_ok r)) >>= λ _. lift r) w

  -- `ProbeAndCaptureHostKey`; the verdict that it returns is that of the error.
  unfoldable pub probe_and_capture_host_key : Text → Text → Text → Op R (Unit {0})
  probe_and_capture_host_key name host user w =
      recorded name (on_remote (out.dial host (or_root user)) w)
