-- ===== src/Db/Peers.antt =====
-- internal/db/peers.go: the operations on rows of `peers`.
pub mod Laws
pub mod Delete
use certhold.Base.{
  ℕ, Text, text, Bool, true, false, not, ◌&&◌, ◌||◌, ◌==◌, Option, none, some, List, [], ◌∷◌, map,
  any, filter, find?, is_empty, sort_by, if◌then◌else◌,
}
use certhold.Errors.{Error, constraint, peer_not_found, Result, ok, err}
use certhold.Exec.{Exec, ◌>>=◌, ◌>>◌, in_tx}
use certhold.Db.{Db, Peer, Membership, has_peer, peer_of}

-- `DialHost`
unfoldable pub dial_host : Peer → Text
dial_host p = if is_empty p.address then p.name else p.address

-- `InsertPeer`; the columns that it does not name take their defaults.
unfoldable pub insert_peer : ℕ → Text → ℕ → Text → Text → Text → Bool → Text → Exec Db (Unit {0})
insert_peer now name serial fingerprint authorized_key target_user inbound pull_token db =
    if has_peer db name then (err constraint, db) else (
      ok tt,
      record db {
        peers =
            record {
              name = name;
              serial = serial;
              fingerprint = fingerprint;
              authorized_key = authorized_key;
              revoked = false;
              created_at = now;
              target_user = target_user;
              address = [];
              inbound = inbound;
              pull_token = pull_token;
              cert = [];
              push_reachable = true;
            }
            ∷ db.peers;
      },
    )

abbrev pub or_peer_not_found : Option Peer → Result Peer
or_peer_not_found none = err peer_not_found
or_peer_not_found (some p) = ok p

unfoldable pub get_peer : Text → Exec Db Peer
get_peer name db = (or_peer_not_found (peer_of db name), db)

-- An empty token is the default of the column, and is never looked up.
unfoldable pub get_peer_by_pull_token : Text → Exec Db Peer
get_peer_by_pull_token token db =
    if is_empty token
    then (err peer_not_found, db)
    else (or_peer_not_found (find? (λ p. p.pull_token == token) db.peers), db)

unfoldable pub list_peers : Exec Db (List Peer)
list_peers db = (ok (sort_by (λ p. p.name) db.peers), db)

-- `UPDATE peers SET … WHERE name = ?`
unfoldable pub update_rows : Text → (Peer → Peer) → List Peer → List Peer
update_rows name f = map (λ p. if p.name == name then f p else p)

-- The update followed by the test on `RowsAffected`.
unfoldable pub update_peer : Text → (Peer → Peer) → Exec Db (Unit {0})
unfolding update_rows
update_peer name f db =
    if has_peer db name
    then (ok tt, record db { peers = update_rows name f db.peers })
    else (err peer_not_found, db)

unfoldable pub set_peer_revoked : Text → Exec Db (Unit {0})
unfolding update_peer
set_peer_revoked name = update_peer name (λ p. record p { revoked = true })

unfoldable pub update_peer_cert_serial : Text → ℕ → Exec Db (Unit {0})
unfolding update_peer
update_peer_cert_serial name serial = update_peer name (λ p. record p { serial = serial })

unfoldable pub set_peer_cert : Text → Text → ℕ → Exec Db (Unit {0})
unfolding update_peer
set_peer_cert name cert serial = update_peer name (λ p. record p { cert = cert; serial = serial })

unfoldable pub set_peer_target_user : Text → Text → Exec Db (Unit {0})
unfolding update_peer
set_peer_target_user name user = update_peer name (λ p. record p { target_user = user })

unfoldable pub set_peer_address : Text → Text → Exec Db (Unit {0})
unfolding update_peer
set_peer_address name address = update_peer name (λ p. record p { address = address })

unfoldable pub set_peer_inbound : Text → Bool → Exec Db (Unit {0})
unfolding update_peer
set_peer_inbound name inbound = update_peer name (λ p. record p { inbound = inbound })

-- `… WHERE name = ? AND address = ''`; no row is no error.
unfoldable pub set_peer_address_if_empty : Text → Text → Exec Db (Unit {0})
unfolding update_rows
set_peer_address_if_empty name address db = (
  ok tt,
  record db {
    peers =
        update_rows name (λ p. if is_empty p.address then record p { address = address } else p)
          db.peers;
  },
)

-- No row is no error.
unfoldable pub set_peer_reachable : Text → Bool → Exec Db (Unit {0})
unfolding update_rows
set_peer_reachable name reachable db = (
  ok tt,
  record db { peers = update_rows name (λ p. record p { push_reachable = reachable }) db.peers },
)

abbrev pub of_peer : Text → Membership → Bool
of_peer name r = r.peer_name == name

-- `DELETE FROM peers WHERE name = ?`, refused while a row of another table refers to the peer.
unfoldable pub delete_peer_row : Text → Exec Db (Unit {0})
delete_peer_row name db =
    if has_peer db name
    then if any (of_peer name) db.peer_groups_rows || any (of_peer name) db.peer_allowed_rows
      then (err constraint, db)
      else (ok tt, record db { peers = filter (λ p. not (p.name == name)) db.peers })
    else (err peer_not_found, db)

-- The three deletes of `deletePeerTx` on the tables that name a peer.
unfoldable pub forget_peer : Text → Db → Db
forget_peer name db = record db {
  peer_groups_rows = filter (λ r. not (of_peer name r)) db.peer_groups_rows;
  peer_allowed_rows = filter (λ r. not (of_peer name r)) db.peer_allowed_rows;
  tokens = filter (λ t. not (t.peer_name == name)) db.tokens;
}

unfoldable pub delete_peer_tx : Text → Exec Db (Unit {0})
unfolding forget_peer delete_peer_row
delete_peer_tx name db = delete_peer_row name (forget_peer name db)

unfoldable pub delete_peer : Text → Exec Db (Unit {0})
unfolding delete_peer_tx in_tx
delete_peer name = in_tx (delete_peer_tx name)
