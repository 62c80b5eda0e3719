-- ===== src/Tests/Data.antt =====
-- A small fleet: the peer "web" in the group "ops", which it also allows, a token that re-enrolls it,
-- and a token of a new peer.
use certhold.Base.{text, true, false, none, some, [], ◌∷◌, arith}
use certhold.Db.{Db, Peer, Token, Membership, RefsValid}
use certhold.Db.Integrity.{of_rows}

abbrev pub web : Peer
web = record {
  name = text "web";
  serial = 1;
  fingerprint = text "SHA256:old";
  authorized_key = text "ssh-ed25519 OLD";
  revoked = false;
  created_at = 0;
  target_user = text "root";
  address = [];
  inbound = true;
  pull_token = text "p1";
  cert = text "CERT1";
  push_reachable = true;
}

-- Re-enrolls "web" into the group "dev".
abbrev pub staged : Token
staged = record {
  token = text "t1";
  peer_name = text "web";
  groups = text "dev";
  tarball = some (text "TAR");
  consumed = false;
  created_at = 0;
  target_user = text "root";
  staged_authorized_key = some (text "ssh-ed25519 NEW");
  staged_fingerprint = text "SHA256:new";
  staged_serial = 2;
  staged_cert = text "CERT2";
  staged_pull_token = text "p2";
  staged_inbound = true;
  staged_address = [];
  staged_allowed = some (text "ops,dev");
}

-- Stages nothing.
abbrev pub plain : Token
plain = record staged { token = text "t2"; staged_authorized_key = none; staged_allowed = none }

-- Names the one group "ops,b".
abbrev pub with_comma : Token
with_comma = record staged { token = text "t3"; groups = text "ops,b" }

abbrev pub in_ops : Membership
in_ops = record { peer_name = text "web"; group_name = text "ops" }

abbrev pub fleet : Db
fleet = record {
  peers = web ∷ [];
  groups = text "ops" ∷ text "dev" ∷ [];
  peer_groups_rows = in_ops ∷ [];
  peer_allowed_rows = in_ops ∷ [];
  tokens = staged ∷ plain ∷ with_comma ∷ [];
  meta = (text "self_name", text "mgr") ∷ (text "instance_key", text "k1") ∷ [];
  fleet_rev = some 3;
  ca = record { version = 1; active = true; created_at = 0 } ∷ [];
}

-- "web" moved to "dev" only after its token was minted for a group that is gone.
abbrev pub without_dev : Db
without_dev = record fleet { groups = text "ops" ∷ [] }

pub fleet-RefsValid : RefsValid fleet
fleet-RefsValid = of_rows fleet (λ p g m. ground (arith, m)) (λ p g m. ground (arith, m))
