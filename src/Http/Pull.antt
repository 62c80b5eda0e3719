-- ===== src/Http/Pull.antt =====
-- internal/httpserver/pull.go and health.go: the refresh channel, and the health report.
pub mod Serves
use certhold.Base.{
  ℕ, Text, text, Bool, true, false, Option, none, some, List, [], is_empty, if◌then◌else◌,
}
use certhold.Errors.{Error, Result, ok, err}
use certhold.Db.{Db, Peer}
use certhold.Db.Peers.{get_peer_by_pull_token}
use certhold.Db.Hosts.{ReachableHost, reachable_hosts}
use certhold.Db.Meta.{get_meta, instance_key, fleet_rev}
use certhold.Db.Ca.{active_ca_version}
use certhold.Http.{Bundle, Body, bundle, rev, health, Handler, write_err, reply}

-- `pullPeer`: the peer, or the answer.
abbrev pub live_peer : (Peer → Handler) → Result Peer → Handler
live_peer serve (err e) db = write_err 404 (text "token not found") db
live_peer serve (ok p) db = if p.revoked then write_err 410 (text "peer revoked") db else serve p db

unfoldable pub pull_peer : Text → (Peer → Handler) → Handler
pull_peer token serve db = live_peer serve (get_peer_by_pull_token token db).0 db

abbrev key_of : Result (Option Text) → Text
key_of (ok (some k)) = k
key_of _ = text ""

abbrev pub hosts_of : Result (List ReachableHost) → List ReachableHost
hosts_of (ok hs) = hs
hosts_of (err e) = []

abbrev number : Result ℕ → ℕ
number (ok n) = n
number (err e) = 0

-- The bundle that `pullHandler` builds.
unfoldable pub bundle_for : Text → Peer → Db → Bundle
bundle_for key p db = record {
  instance_key = key;
  peer_name = p.name;
  cert_pub = p.cert;
  hosts = hosts_of (reachable_hosts p.name db).0;
  fleet_rev = number (fleet_rev db).0;
  cert_serial = p.serial;
}

abbrev refresh_unavailable : Text
refresh_unavailable =
    text
      "refresh bundle unavailable for this peer: re-enroll it or run `certhold update` on the manager"

unfoldable pub serve_bundle : Peer → Handler
unfolding bundle_for
serve_bundle p db =
    let key = key_of (get_meta instance_key db).0 in
    if is_empty p.cert
    then write_err 409 refresh_unavailable db
    else if is_empty key
    then write_err 500 (text "instance key not available") db
    else reply (bundle (bundle_for key p db)) db

-- `pullHandler`
unfoldable pub pull : Text → Handler
pull token = pull_peer token serve_bundle

abbrev pub serve_rev : Peer → Handler
serve_rev p db = reply (rev (number (fleet_rev db).0)) db

-- `pullRevHandler`
unfoldable pub pull_rev : Text → Handler
pull_rev token = pull_peer token serve_rev

-- `healthzHandler`: version 0 when no CA is active.
unfoldable pub healthz : Handler
healthz db = reply (health (number (fleet_rev db).0) (number (active_ca_version db).0)) db
