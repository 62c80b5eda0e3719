-- ===== src/Db/Tokens.antt =====
-- internal/db/tokens.go, and the token operations of tx.go: enrollment tokens and their redemption.
pub mod Redeem
pub mod Csv
pub mod Closed
use certhold.Base.{
  ℕ, Text, text, Bool, true, false, not, ◌&&◌, ◌||◌, ◌==◌, Option, none, some, List, [], ◌∷◌, map,
  any, filter, find?, is_empty, trim_space, split, join, if◌then◌else◌,
}
use certhold.Errors.{
  Error, constraint, token_not_found, token_already_consumed, reenroll_revoked, Result, ok, err,
}
use certhold.Exec.{Exec, ◌>>=◌, ◌>>◌, pure, refuse_if, modify, in_tx}
use certhold.Db.{
  Db, Peer, Token, StagedReenroll, peer_groups, peer_allowed_groups, has_peer, token_of,
}
use certhold.Db.Peers.{get_peer, update_rows}
use certhold.Db.Groups.{set_peer_groups_table_strict_tx}
use certhold.Db.Meta.{bump_fleet_rev}

abbrev pub comma : ℕ
comma = b','

-- `splitGroupsCSV`
unfoldable pub split_groups_csv : Text → List Text
split_groups_csv csv = filter (λ g. not (is_empty g)) (map trim_space (split comma csv))

insert_token_row : Token → Exec Db (Unit {0})
insert_token_row t db =
    if any (λ u. u.token == t.token) db.tokens
    then (err constraint, db)
    else (ok tt, record db { tokens = t ∷ db.tokens })

-- `InsertToken`
unfoldable pub insert_token : ℕ → Text → Text → Text → Text → Option Text → Exec Db (Unit {0})
unfolding insert_token_row
insert_token now token peer_name groups_csv target_user tarball = insert_token_row (record {
  token = token;
  peer_name = peer_name;
  groups = groups_csv;
  tarball = tarball;
  consumed = false;
  created_at = now;
  target_user = target_user;
  staged_authorized_key = none;
  staged_fingerprint = [];
  staged_serial = 0;
  staged_cert = [];
  staged_pull_token = [];
  staged_inbound = true;
  staged_address = [];
  staged_allowed = none;
})

-- `InsertReenrollToken`
unfoldable pub insert_reenroll_token :
    ℕ → Text → Text → Text → Text → Option Text → StagedReenroll → Exec Db (Unit {0})
unfolding insert_token_row
insert_reenroll_token now token peer_name groups_csv target_user tarball staged =
    insert_token_row (record {
      token = token;
      peer_name = peer_name;
      groups = groups_csv;
      tarball = tarball;
      consumed = false;
      created_at = now;
      target_user = target_user;
      staged_authorized_key = staged.authorized_key;
      staged_fingerprint = staged.fingerprint;
      staged_serial = staged.serial;
      staged_cert = staged.cert;
      staged_pull_token = staged.pull_token;
      staged_inbound = staged.inbound;
      staged_address = staged.address;
      staged_allowed = if staged.allowed_set then some (join comma staged.allowed) else none;
    })

-- `DeleteUnconsumedPeerTokens`
unfoldable pub delete_unconsumed_peer_tokens : Text → Exec Db (Unit {0})
delete_unconsumed_peer_tokens peer db = (
  ok tt,
  record db { tokens = filter (λ t. not (t.peer_name == peer && not t.consumed)) db.tokens },
)

abbrev pub or_token_not_found : Option Token → Result Token
or_token_not_found none = err token_not_found
or_token_not_found (some t) = ok t

-- `LookupToken`; its four results are fields of the row.
unfoldable pub lookup_token : Text → Exec Db Token
lookup_token token db = (or_token_not_found (token_of db token), db)

-- The columns that the redemption resets.
abbrev pub spent : Token → Token
spent t = record t {
  tarball = none;
  consumed = true;
  staged_authorized_key = none;
  staged_fingerprint = [];
  staged_serial = 0;
  staged_cert = [];
  staged_pull_token = [];
  staged_address = [];
  staged_allowed = none;
}

abbrev pub is_open : Text → Token → Bool
is_open token t = t.token == token && not t.consumed

-- `UPDATE tokens SET consumed = 1, … WHERE token = ? AND consumed = 0`, and its row count.
unfoldable pub mark_consumed : Text → Exec Db (Unit {0})
mark_consumed token db =
    if any (is_open token) db.tokens
    then (ok tt, record db { tokens = map (λ t. if is_open token t then spent t else t) db.tokens })
    else (err token_already_consumed, db)

abbrev csv_or_empty : Option Text → Text
csv_or_empty none = []
csv_or_empty (some s) = s

abbrev is_some : Option Text → Bool
is_some none = false
is_some (some s) = true

-- What `ConsumeToken` scans from the staged columns.
unfoldable pub staged_of : Token → StagedReenroll
staged_of t = record {
  authorized_key = t.staged_authorized_key;
  fingerprint = t.staged_fingerprint;
  serial = t.staged_serial;
  cert = t.staged_cert;
  pull_token = t.staged_pull_token;
  inbound = t.staged_inbound;
  address = t.staged_address;
  allowed = split_groups_csv (csv_or_empty t.staged_allowed);
  allowed_set = is_some t.staged_allowed;
}

-- The two updates of the peer's row.
abbrev pub restaged : Text → StagedReenroll → Peer → Peer
restaged key staged p = record p {
  authorized_key = key;
  fingerprint = staged.fingerprint;
  cert = staged.cert;
  serial = staged.serial;
  pull_token = staged.pull_token;
  inbound = staged.inbound;
  address = if is_empty staged.address then p.address else staged.address;
}

unfoldable pub write_staged : Text → Text → StagedReenroll → Exec Db (Unit {0})
unfolding update_rows
write_staged name key staged db =
    (ok tt, record db { peers = update_rows name (restaged key staged) db.peers })

-- The switch on the allowed groups.
unfoldable pub settle_allowed : Text → List Text → StagedReenroll → Bool → Exec Db (Unit {0})
settle_allowed name groups staged was_inbound db =
    if not staged.inbound
    then set_peer_groups_table_strict_tx peer_allowed_groups name [] db
    else if staged.allowed_set
    then set_peer_groups_table_strict_tx peer_allowed_groups name staged.allowed db
    else if not was_inbound
    then set_peer_groups_table_strict_tx peer_allowed_groups name groups db
    else (ok tt, db)

-- `commitStagedReenroll`; `key` is the staged key, which is not nil here.
unfoldable pub commit_staged_reenroll : Text → Text → Text → StagedReenroll → Exec Db (Unit {0})
commit_staged_reenroll name groups_csv key staged = do
  p ← get_peer name
  refuse_if p.revoked (reenroll_revoked name)
  write_staged name key staged
  set_peer_groups_table_strict_tx peer_groups name (split_groups_csv groups_csv)
  settle_allowed name (split_groups_csv groups_csv) staged p.inbound
  bump_fleet_rev

-- `if staged.AuthorizedKey != nil { … }`
unfoldable pub commit_if_staged : Token → Option Text → Exec Db (Unit {0})
commit_if_staged t none db = (ok tt, db)
commit_if_staged t (some key) db = commit_staged_reenroll t.peer_name t.groups key (staged_of t) db

unfoldable pub consume_token_tx : Text → Exec Db Token
consume_token_tx token = do
  t ← lookup_token token
  refuse_if t.consumed token_already_consumed
  mark_consumed token
  commit_if_staged t t.staged_authorized_key
  pure t

-- `ConsumeToken`; its results are fields of the row as it was.
unfoldable pub consume_token : Text → Exec Db Token
consume_token token = in_tx (consume_token_tx token)
