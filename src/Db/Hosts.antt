-- ===== src/Db/Hosts.antt =====
-- internal/db/peers_hosts.go: the peers that a peer may log into.
pub mod Reach
use certhold.Base.{Text, Bool, not, ◌&&◌, ◌||◌, ◌==◌, List, map, any, filter, sort_by}
use certhold.Errors.{Result, ok}
use certhold.Exec.{Exec}
use certhold.Db.{Db, Peer, Membership, peer_groups, has_row, in_rows, manager_principal}

-- `ReachableHost`
pub record ReachableHost : Type 0 where
  pub name : Text
  pub address : Text
  pub target_user : Text

-- The second EXISTS: a row of `peer_allowed_groups` of `q` joined with a row of `peer_groups` of the
-- peer on the group.
abbrev pub shares_group : Db → Text → Text → Bool
shares_group db peer q =
    any
      (λ a.
        a.peer_name == q
        && any (λ m. m.group_name == a.group_name && m.peer_name == peer) db.peer_groups_rows)
      db.peer_allowed_rows

-- The WHERE clause.
abbrev pub reaches : Db → Text → Peer → Bool
reaches db peer q =
    not (q.name == peer)
    && not q.revoked
    && q.inbound
    && (has_row peer_groups db peer manager_principal || shares_group db peer q.name)

abbrev pub to_host : Peer → ReachableHost
to_host q = record { name = q.name; address = q.address; target_user = q.target_user }

-- `ReachableHosts`. The names are the key of `peers`, so DISTINCT drops nothing.
unfoldable pub reachable_hosts : Text → Exec Db (List ReachableHost)
reachable_hosts peer db =
    (ok (map to_host (filter (reaches db peer) (sort_by (λ q. q.name) db.peers))), db)
