-- ===== src/Ops/Enroll.antt =====
-- internal/ops/enroll.go: the minting of an enrollment. The packing of an archive by gzip and tar is
-- the parameter `pack`, the text of the client script `cli_script`, and the time `now`.
pub mod Hosts
pub mod Mint
pub mod Reads
pub mod Stages
use certhold.Base.{
  ℕ, Text, text, Bool, true, false, not, ◌&&◌, ◌||◌, ◌==◌, Option, none, some, List, [], ◌∷◌, ◌++◌,
  map, filter, is_empty, join, sort, contains, distinct, if◌then◌else◌,
}
use certhold.Errors.{
  Error, peer_not_found, self_guard, peer_revoked, groups_required, no_groups, missing_group,
  Result, ok, err,
}
use certhold.Exec.{Exec, ◌>>=◌, ◌>>◌, pure, fail, lift, refuse_if, for_each, in_tx}
use certhold.Db.{Db, Peer, StagedReenroll, peer_groups, peer_allowed_groups, manager_principal}
use certhold.Db.Peers.{get_peer, list_peers, insert_peer, set_peer_cert, set_peer_address}
use certhold.Db.Groups.{
  group_exists_tx, get_group_peers, get_peer_groups_table, set_peer_groups_table_tx,
}
use certhold.Db.Meta.{bump_fleet_rev}
use certhold.Db.Tokens.{comma, insert_token, insert_reenroll_token, delete_unconsumed_peer_tokens}
use certhold.Peerfiles.Address.{validate_dial_address}
use certhold.Peerfiles.Principals.{cert_principals}
use certhold.Peerfiles.Layout.{HostEntry, FileEntry, user_file_entries}
use certhold.Peerfiles.Lines.{newline, unlines}
use certhold.Ops.{World, Op, on_db, on_remote}
use certhold.Ops.Outside.{Outside}
use certhold.Ops.SelfName.{guard_not_self_peer, ensure_instance_key}
use certhold.Ops.Push.{when}

-- `EnrollSpec`
pub record EnrollSpec : Type 0 where
  pub name : Text
  pub groups : List Text
  pub allowed : List Text
  pub user : Text
  pub address : Text
  pub client : Bool
  pub client_set : Bool
  pub allowed_set : Bool
  pub base_url : Text

-- `EnrollResult`
pub record EnrollResult : Type 0 where
  pub token : Text
  pub one_liner : Text
  pub peer_name : Text
  pub reenroll : Bool
  pub client : Bool

-- The names that `reachableHostEntries` collects: of the peers that allow one of the groups.
unfoldable pub allowing : List Text → Exec Db (List Text)
allowing [] = pure []
allowing (g ∷ gs) = do
  names ← get_group_peers peer_allowed_groups g
  rest ← allowing gs
  pure (names ++ rest)

abbrev pub inbound_names : List Peer → List Text
inbound_names ps = map (λ p. p.name) (filter (λ p. p.inbound && not p.revoked) ps)

-- The names that the manager's group adds.
unfoldable pub manager_names : List Text → Exec Db (List Text)
unfolding contains
manager_names groups db =
    if contains groups manager_principal
    then (do peers ← list_peers; pure (inbound_names peers)) db
    else (ok [], db)

abbrev pub host_entry : Peer → HostEntry
host_entry p = record { name = p.name; address = p.address; user = p.target_user }

-- The loop that reads the peers, and skips those that cannot be reached.
unfoldable pub live_hosts : List Text → Exec Db (List HostEntry)
live_hosts [] = pure []
live_hosts (n ∷ ns) = do
  p ← get_peer n
  rest ← live_hosts ns
  pure (if p.revoked || not p.inbound then rest else host_entry p ∷ rest)

-- `reachableHostEntries`
unfoldable pub reachable_host_entries : Text → List Text → Exec Db (List HostEntry)
unfolding allowing manager_names live_hosts distinct sort
reachable_host_entries peer groups = do
  names ← allowing groups
  managed ← manager_names groups
  live_hosts (sort (filter (λ n. not (n == peer)) (distinct [] (names ++ managed))))

-- What the enrollment comes to, after the defaults of a re-enroll.
pub record Choice : Type 0 where
  pub groups : List Text
  pub allowed : List Text
  pub client : Bool
  pub user : Text

-- What was made for the peer.
pub record Material : Type 0 where
  pub token : Text
  pub pull_token : Text
  pub public_key : Text
  pub fingerprint : Text
  pub cert : Text
  pub serial : ℕ
  pub tarball : Text

-- The check of the names, each once.
unfoldable pub check_names : List Text → Exec Db (Unit {0})
unfolding distinct
check_names names =
    for_each (distinct [] names)
      λ g. do exists ← group_exists_tx g; refuse_if (not exists) (missing_group g)

-- The statements of the transaction for a name that has a peer.
unfoldable pub stage_reenroll : ℕ → EnrollSpec → Choice → Material → Exec Db (Unit {0})
unfolding delete_unconsumed_peer_tokens insert_reenroll_token
stage_reenroll now spec c m = do
  delete_unconsumed_peer_tokens spec.name
  insert_reenroll_token now m.token spec.name (join comma c.groups) c.user (some m.tarball)
      (record {
        authorized_key = some m.public_key;
        fingerprint = m.fingerprint;
        serial = m.serial;
        cert = m.cert;
        pull_token = m.pull_token;
        inbound = not c.client;
        address = spec.address;
        allowed = c.allowed;
        allowed_set = spec.allowed_set;
      })

abbrev unless : Bool → Exec Db (Unit {0}) → Exec Db (Unit {0})
unless true m db = (ok tt, db)
unless false m db = m db

-- The statements for a new name.
unfoldable pub insert_enrolled : ℕ → EnrollSpec → Choice → Material → Exec Db (Unit {0})
unfolding insert_peer set_peer_cert set_peer_address insert_token
insert_enrolled now spec c m = do
  insert_peer now spec.name m.serial m.fingerprint m.public_key c.user (not c.client) m.pull_token
  set_peer_cert spec.name m.cert m.serial
  unless (is_empty spec.address) (set_peer_address spec.name spec.address)
  set_peer_groups_table_tx peer_groups spec.name c.groups
  unless c.client (set_peer_groups_table_tx peer_allowed_groups spec.name c.allowed)
  insert_token now m.token spec.name (join comma c.groups) c.user (some m.tarball)
  bump_fleet_rev

abbrev pub is_some : Option Peer → Bool
is_some none = false
is_some (some p) = true

-- The transaction of `MintEnroll`.
unfoldable pub mint_tx : ℕ → EnrollSpec → Option Peer → Choice → Material → Exec Db (Unit {0})
unfolding check_names stage_reenroll insert_enrolled
mint_tx now spec existing c m = in_tx do
  check_names (if spec.allowed_set then c.groups ++ c.allowed else c.groups)
  λ db. if is_some existing then stage_reenroll now spec c m db else insert_enrolled now spec c m db

module _ {R : Type 0} (out : Outside R) (pack : List FileEntry → Text) (cli_script : Text) where
  abbrev pub for_new : EnrollSpec → Result Peer × World R → Result (Option Peer) × World R
  for_new spec (ok p, w) = (ok (some p), w)
  for_new spec (err peer_not_found, w) =
      if is_empty spec.groups then (err groups_required, w) else (ok none, w)
  for_new spec (err e, w) = (err e, w)

  abbrev pub admitted : Text → EnrollSpec → Option Peer → Op R (Unit {0})
  admitted key spec none = pure tt
  admitted key spec (some p) = do
    guard_not_self_peer out spec.name []
    self ← on_remote (out.self_cert_key_id key)
    refuse_if (not (is_empty self) && (self == spec.name)) (self_guard spec.name)
    refuse_if p.revoked (peer_revoked spec.name)

  abbrev pub kept_groups : EnrollSpec → Op R (List Text)
  kept_groups spec w =
      if is_empty spec.groups
      then (do
        groups ← on_db (get_peer_groups_table peer_groups spec.name)
        refuse_if (is_empty groups) no_groups
        pure groups)
          w
      else (ok spec.groups, w)

  abbrev pub kept_allowed : EnrollSpec → Peer → Bool → List Text → Op R (List Text)
  kept_allowed spec p client groups w =
      if spec.allowed_set
      then (ok spec.allowed, w)
      else if p.inbound && not client
      then on_db (get_peer_groups_table peer_allowed_groups spec.name) w
      else (ok groups, w)

  -- The defaults of a re-enroll.
  unfoldable pub choose : EnrollSpec → Option Peer → Op R Choice
  choose spec none = pure (record {
    groups = spec.groups;
    allowed = spec.allowed;
    client = spec.client;
    user = spec.user;
  })
  choose spec (some p) = do
    let client = if spec.client_set then spec.client else not p.inbound
    groups ← kept_groups spec
    allowed ← kept_allowed spec p client groups
    pure (record {
      groups = groups;
      allowed = allowed;
      client = client;
      user = if is_empty spec.user then p.target_user else spec.user;
    })

  abbrev conf : EnrollSpec → Text → Text → Text
  conf spec pull_token key = unlines (
      (text "BASE_URL=" ++ spec.base_url)
      ∷ (text "PULL_TOKEN=" ++ pull_token)
      ∷ (text "INSTANCE_KEY=" ++ key)
      ∷ (text "PEER_NAME=" ++ spec.name)
      ∷ text "LAST_REV=0"
      ∷ [])

  -- From the unlocking of the CA to the building of the archive.
  unfoldable pub make_material : EnrollSpec → Choice → Text → Op R Material
  unfolding cert_principals reachable_host_entries user_file_entries
  make_material spec c key = do
    on_remote out.load_ca
    pair ← on_remote out.new_peer_key
    signed ← on_remote (out.sign pair.1 spec.name (cert_principals spec.name c.groups false))
    pull_token ← on_remote out.new_token
    token ← on_remote out.new_token
    hosts ← on_db (reachable_host_entries spec.name c.groups)
    ca ← on_remote out.ca_pub
    pure (record {
      token = token;
      pull_token = pull_token;
      public_key = pair.1;
      fingerprint = pair.2;
      cert = signed.0;
      serial = signed.1;
      tarball = pack (
          user_file_entries (record {
            priv_key = pair.0;
            cert_pub = signed.0;
            ca_pub = ca;
            principals = c.allowed;
            known_hosts_lines = [];
            instance_key = key;
            no_inbound = c.client;
            hosts = hosts;
            cli_script = some cli_script;
            conf = some (conf spec pull_token key);
          }));
    })

  abbrev pub one_liner : Text → Text → Text
  one_liner base_url token =
      text "curl -kfsSL " ++ (base_url ++ (text "/enroll/" ++ (token ++ text ".sh | bash")))

  -- `MintEnroll`
  unfoldable pub mint_enroll : ℕ → EnrollSpec → Op R EnrollResult
  unfolding validate_dial_address ensure_instance_key guard_not_self_peer choose make_material
      mint_tx
  mint_enroll now spec = do
    lift (validate_dial_address spec.address)
    key ← ensure_instance_key out
    existing ← λ w. for_new spec (on_db (get_peer spec.name) w)
    admitted key spec existing
    c ← choose spec existing
    m ← make_material spec c key
    on_db (mint_tx now spec existing c m)
    pure (record {
      token = m.token;
      one_liner = one_liner spec.base_url m.token;
      peer_name = spec.name;
      reenroll = is_some existing;
      client = c.client;
    })
