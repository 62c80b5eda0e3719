-- ===== src/Tests/Groups.antt =====
-- Groups, peers, the CA and histories at concrete inputs.
use certhold.Base.{Text, text, true, ◌&&◌, List, [], ◌∷◌, any, trim_space, ◌==◌, ◌≡◌, ◌↔◌, refl}
use certhold.Errors.{ok}
use certhold.Db.{Peer, peer_groups}
use certhold.Db.Peers.{delete_peer}
use certhold.Db.Peers.Delete.{PeerGone, delete_peer_removes}
use certhold.Db.Groups.{rename_group, delete_group}
use certhold.Db.Groups.Rename.{Renamed, rename_group_moves}
use certhold.Db.Groups.Delete.{GroupGone, delete_group_removes}
use certhold.Db.Hosts.{reaches, reachable_hosts}
use certhold.Db.Hosts.Reach.{CanReach, hosts_of, reachable_hosts_are}
use certhold.Db.Integrity.History.{Call}
use certhold.Tests.Data.{fleet, fleet-RefsValid}

delete_peer_removes_example :
    ((delete_peer (text "web") fleet).0 ≡ ok tt)
    × PeerGone (text "web") fleet (delete_peer (text "web") fleet).1
    × ((delete_peer (text "web") fleet).1.fleet_rev ≡ fleet.fleet_rev)
unfolding ◌==◌
delete_peer_removes_example = delete_peer_removes (text "web") fleet refl

delete_group_removes_example :
    ((delete_group (text "ops") fleet).0 ≡ ok tt)
    × GroupGone (text "ops") fleet (delete_group (text "ops") fleet).1
unfolding ◌==◌
delete_group_removes_example = delete_group_removes (text "ops") fleet refl

rename_group_moves_example :
    ((rename_group (text "ops") (text " sre") fleet).0 ≡ ok tt)
    × Renamed
        (trim_space (text "ops"))
        (trim_space (text " sre"))
        fleet
        (rename_group (text "ops") (text " sre") fleet).1
unfolding ◌==◌ trim_space
rename_group_moves_example =
    rename_group_moves (text "ops") (text " sre") fleet fleet-RefsValid refl refl refl

reachable_hosts_are_example :
    ((n : Text)
      → any (λ h. h.name == n) (hosts_of (reachable_hosts (text "db1") fleet).0)
        ≡ any (λ q. reaches fleet (text "db1") q && (q.name == n)) fleet.peers)
    × ((q : Peer) → (reaches fleet (text "db1") q ≡ true) ↔ CanReach fleet (text "db1") q)
reachable_hosts_are_example = reachable_hosts_are (text "db1") fleet

abbrev some_calls : List Call
some_calls =
    Call.ensures (text "ops")
    ∷ Call.assigns peer_groups (text "web") (text "ops" ∷ [])
    ∷ Call.deletes_group (text "ops")
    ∷ []
