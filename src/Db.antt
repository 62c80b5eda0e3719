-- ===== src/Db.antt =====
-- internal/db: the tables of the SQLite schema as lists of rows, the statements that several
-- operations share, and the reads by key. The proofs are in the modules below.
-- A statement either takes effect whole or is refused by a PRIMARY KEY or REFERENCES constraint
-- (the connection has `foreign_keys(1)`); failures of the disk or of the driver are not modelled.
pub mod Peers
pub mod Groups
pub mod Meta
pub mod Tokens
pub mod Ca
pub mod Hosts
pub mod Integrity
use certhold.Base.{
  ℕ, Text, text, Bool, true, false, not, ◌&&◌, ◌||◌, ◌==◌, Option, none, some, List, [], ◌∷◌, map,
  any, filter, find?, Distinct, if◌then◌else◌, ◌≡◌,
}
use certhold.Errors.{Error, constraint, Result, ok, err}
use certhold.Exec.{Exec}

-- peers.go: `Peer`, a row of `peers`. A NULL and an empty `cert` are both [], which the code does
-- not tell apart.
pub record Peer : Type 0 where
  pub name : Text
  pub serial : ℕ
  pub fingerprint : Text
  pub authorized_key : Text
  pub revoked : Bool
  pub created_at : ℕ
  pub target_user : Text
  pub address : Text
  pub inbound : Bool
  pub pull_token : Text
  pub cert : Text
  pub push_reachable : Bool

-- A row of `peer_groups` or of `peer_allowed_groups`.
pub record Membership : Type 0 where
  pub peer_name : Text
  pub group_name : Text

-- The two tables of that shape, which the code names by a string.
pub data Table : Type 0 where
  peer_groups peer_allowed_groups : Table

-- tokens.go: `StagedReenroll`, and the staged_* columns of a token.
pub record StagedReenroll : Type 0 where
  pub authorized_key : Option Text
  pub fingerprint : Text
  pub serial : ℕ
  pub cert : Text
  pub pull_token : Text
  pub inbound : Bool
  pub address : Text
  pub allowed : List Text
  pub allowed_set : Bool

-- A row of `tokens`; `none` is NULL. `staged_allowed` is the stored CSV.
pub record Token : Type 0 where
  pub token : Text
  pub peer_name : Text
  pub groups : Text
  pub tarball : Option Text
  pub consumed : Bool
  pub created_at : ℕ
  pub target_user : Text
  pub staged_authorized_key : Option Text
  pub staged_fingerprint : Text
  pub staged_serial : ℕ
  pub staged_cert : Text
  pub staged_pull_token : Text
  pub staged_inbound : Bool
  pub staged_address : Text
  pub staged_allowed : Option Text

pub record CaVersion : Type 0 where
  pub version : ℕ
  pub active : Bool
  pub created_at : ℕ

-- `fleet_rev` is the row of `meta` with that key: only `bumpFleetRevTx` writes it, so its text is
-- the numeral of a number. The other keys of `meta` are the entries of `meta`.
pub record Db : Type 0 where
  pub peers : List Peer
  pub groups : List Text
  pub peer_groups_rows : List Membership
  pub peer_allowed_rows : List Membership
  pub tokens : List Token
  pub meta : List (Text × Text)
  pub fleet_rev : Option ℕ
  pub ca : List CaVersion

abbrev pub empty_db : Db
empty_db = record {
  peers = [];
  groups = [];
  peer_groups_rows = [];
  peer_allowed_rows = [];
  tokens = [];
  meta = [];
  fleet_rev = none;
  ca = [];
}

-- peerfiles/manager.go
abbrev pub manager_principal : Text
manager_principal = text "manager"

abbrev pub rows_of : Table → Db → List Membership
rows_of peer_groups db = db.peer_groups_rows
rows_of peer_allowed_groups db = db.peer_allowed_rows

abbrev pub with_rows : Table → List Membership → Db → Db
with_rows peer_groups rows db = record db { peer_groups_rows = rows }
with_rows peer_allowed_groups rows db = record db { peer_allowed_rows = rows }

abbrev pub has_peer : Db → Text → Bool
has_peer db name = any (λ p. p.name == name) db.peers

abbrev pub has_group : Db → Text → Bool
has_group db name = any (λ g. g == name) db.groups

abbrev pub in_rows : List Membership → Text → Text → Bool
in_rows rows peer group = any (λ r. r.peer_name == peer && r.group_name == group) rows

-- The peer has the group in the table.
abbrev pub has_row : Table → Db → Text → Text → Bool
has_row t db peer group = in_rows (rows_of t db) peer group

-- The row of `peers` with the key.
abbrev pub peer_of : Db → Text → Option Peer
peer_of db name = find? (λ p. p.name == name) db.peers

abbrev pub token_of : Db → Text → Option Token
token_of db token = find? (λ t. t.token == token) db.tokens

-- REFERENCES: every row of the two tables names a peer and a group that are there.
pub record RefsValid (db : Db) : Type 0 where
  pub peer_refs : (t : Table) (p g : Text) → has_row t db p g ≡ true → has_peer db p ≡ true
  pub group_refs : (t : Table) (p g : Text) → has_row t db p g ≡ true → has_group db g ≡ true
