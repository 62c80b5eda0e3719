-- ===== src/Ops/Groups.antt =====
-- internal/ops/group.go: the life of a group, and the pushes to the peers that it concerns.
pub mod Reserved
pub mod Keep
pub mod Loop
pub mod Delete
use certhold.Base.{
  Text, Bool, true, false, not, ◌||◌, ◌==◌, Option, none, some, List, [], ◌∷◌, ◌++◌, filter,
  is_empty, trim_space, sort, contains, distinct, if◌then◌else◌,
}
use certhold.Errors.{peer_not_found, reserved_group, missing_group, stragglers, Result, ok, err}
use certhold.Exec.{◌>>=◌, ◌>>◌, pure, fail, refuse_if}
use certhold.Db.{Peer, peer_groups, peer_allowed_groups, manager_principal}
use certhold.Db.Peers.{get_peer, dial_host}
use certhold.Db.Groups.{
  create_group, rename_group, delete_group, group_exists_tx, get_group_peers, get_peer_groups_table,
  set_peer_groups, set_peer_allowed_groups,
}
use certhold.Db.Meta.{bump_fleet_rev}
use certhold.Peerfiles.AuthorizedKeys.{ParsedKey}
use certhold.Ops.{
  World, Op, info, warn, peer_start, peer_done, peer_failed, on_db, on_remote, emit, reporting,
}
use certhold.Ops.Outside.{Outside}
use certhold.Ops.SelfName.{resolve_self_name, ensure_instance_key}
use certhold.Ops.Push.{
  skip_push, push_user, push_group_cascade, sign_and_store_peer_cert, rewrite_remote,
  splice_peer_config, when,
}

-- `GroupCreate`
unfoldable pub group_create : {R : Type 0} → Text → Op R (Unit {0})
group_create name = do
  refuse_if (name == manager_principal) (reserved_group name)
  on_db (create_group name)
  on_db bump_fleet_rev
  emit (info [])

-- `groupCascade`
pub record GroupCascade : Type 0 where
  pub members : List Text
  pub allowed_by : List Text
  pub affected : List Text

-- `loadGroupCascade`
unfoldable pub load_group_cascade : {R : Type 0} → Text → Op R GroupCascade
unfolding distinct sort
load_group_cascade name = do
  members ← on_db (get_group_peers peer_groups name)
  allowed_by ← on_db (get_group_peers peer_allowed_groups name)
  pure (record {
    members = members;
    allowed_by = allowed_by;
    affected = sort (distinct [] (members ++ allowed_by));
  })

-- `removeStr`
unfoldable pub remove_str : List Text → Text → List Text
remove_str xs v = filter (λ x. not (x == v)) xs

-- `if errors.Is(err, db.ErrPeerNotFound) { continue }`
abbrev pub found_or_gone : {R : Type 0} → Result Peer × World R → Result (Option Peer) × World R
found_or_gone (ok p, w) = (ok (some p), w)
found_or_gone (err peer_not_found, w) = (ok none, w)
found_or_gone (err e, w) = (err e, w)

-- What the two loops know of the operation: the group, the CA key, the instance key, the own name.
pub record Cascade : Type 0 where
  pub cascade : GroupCascade
  pub ca : Text
  pub key : Text
  pub self : Text

module _ {R : Type 0} (out : Outside R) (parse : Text → Option ParsedKey) where
  -- What a push gives to the loop: the straggler, or no one.
  abbrev pub straggling : Text → Result (Unit {0}) × World R → Result (List Text) × World R
  straggling name (ok u, w) = (ok [], record w { events = peer_done name ∷ w.events })
  straggling name (err e, w) = (ok (name ∷ []), record w { events = peer_failed name e ∷ w.events })

  abbrev pub push_step : Text → Peer → Op R (Unit {0}) → Op R (List Text)
  push_step name p push w =
      if skip_push p
      then (do emit (info name); pure []) w
      else straggling name ((do emit (peer_start name); push) w)

  abbrev pub unless_revoked : Peer → Op R (List Text) → Op R (List Text)
  unless_revoked p m w = if p.revoked then (ok [], w) else m w

  -- `if isMember { … }` of the rename: the new certificate.
  abbrev resigned : Bool → Text → Peer → Text → Op R Text
  resigned false name p self w = (ok [], w)
  resigned true name p self w =
      (do
        groups ← on_db (get_peer_groups_table peer_groups name)
        sign_and_store_peer_cert out p groups (name == self))
        w

  abbrev allowed_of : Bool → Text → Op R (List Text)
  allowed_of false name w = (ok [], w)
  allowed_of true name w = on_db (get_peer_groups_table peer_allowed_groups name) w

  abbrev renamed_peer : Cascade → Text → Option Peer → Op R (List Text)
  renamed_peer c name none = pure []
  renamed_peer c name (some p) = unless_revoked p do
    let is_member = contains c.cascade.members name
    let is_allow = contains c.cascade.allowed_by name
    cert ← resigned is_member name p c.self
    allowed ← allowed_of is_allow name
    push_step name p
        (push_group_cascade out parse p c.key c.ca is_member cert is_allow allowed true)

  -- `if isMember { … }` of the delete: the certificate without the group, and the row.
  abbrev pub dropped : Bool → Text → Text → Peer → Text → Op R Text
  dropped false group name p self w = (ok [], w)
  dropped true group name p self w =
      (do
        groups ← on_db (get_peer_groups_table peer_groups name)
        cert ← sign_and_store_peer_cert out p (remove_str groups group) (name == self)
        on_db (set_peer_groups name (remove_str groups group))
        pure cert)
        w

  abbrev pub disallowed : Bool → Text → Text → Op R (List Text)
  disallowed false group name w = (ok [], w)
  disallowed true group name w =
      (do
        allowed ← on_db (get_peer_groups_table peer_allowed_groups name)
        on_db (set_peer_allowed_groups name (remove_str allowed group))
        pure (remove_str allowed group))
        w

  abbrev pub deleted_peer : Text → Cascade → Text → Option Peer → Op R (List Text)
  deleted_peer group c name none = pure []
  deleted_peer group c name (some p) = unless_revoked p do
    let is_member = contains c.cascade.members name
    let is_allow = contains c.cascade.allowed_by name
    cert ← dropped is_member group name p c.self
    allowed ← disallowed is_allow group name
    push_step name p
        (push_group_cascade out parse p c.key c.ca is_member cert is_allow allowed false)

  -- The loop over the affected peers: the names of the stragglers.
  unfoldable pub over_affected :
      (Text → Option Peer → Op R (List Text)) → List Text → Op R (List Text)
  over_affected step [] = pure []
  over_affected step (name ∷ names) = do
    p ← λ w. found_or_gone (on_db (get_peer name) w)
    late ← step name p
    later ← over_affected step names
    pure (late ++ later)

  -- The CA key is unlocked only when a member is to be signed again.
  abbrev pub prepare : GroupCascade → Text → Op R Cascade
  prepare g self = do
    when out (not (is_empty g.members)) (on_remote out.load_ca)
    ca ← on_remote out.ca_pub
    key ← ensure_instance_key out
    pure (record { cascade = g; ca = ca; key = key; self = self })

  abbrev pub finish : List Text → Op R (Unit {0}) → Op R (Unit {0})
  finish late m w = if is_empty late then m w else (do emit (warn []); fail stragglers) w

  unfoldable pub rename_cascade : GroupCascade → Text → Op R (Unit {0})
  unfolding push_group_cascade sign_and_store_peer_cert over_affected skip_push
  rename_cascade g self w =
      if is_empty g.affected
      then emit (info []) w
      else (do
        c ← prepare g self
        late ← over_affected (renamed_peer c) g.affected
        finish late (emit (info [])))
          w

  abbrev rename_other : Text → Text → Text → Op R (Unit {0})
  rename_other old new hostname = do
    g ← load_group_cascade old
    self ← resolve_self_name out hostname
    on_db (rename_group old new)
    on_db bump_fleet_rev
    rename_cascade g self

  abbrev rename_same : Text → Op R (Unit {0})
  rename_same old = do
    exists ← on_db (group_exists_tx old)
    refuse_if (not exists) (missing_group old)
    emit (info [])

  -- `GroupRename`
  unfoldable pub group_rename : Text → Text → Text → Op R (Unit {0})
  unfolding load_group_cascade resolve_self_name rename_cascade
  group_rename old raw_new hostname = do
    let new = trim_space raw_new
    refuse_if (old == manager_principal || new == manager_principal)
        (reserved_group manager_principal)
    λ w. if old == new then rename_same old w else rename_other old new hostname w

  -- The end of `GroupDelete`.
  unfoldable pub drop_group : Text → Op R (Unit {0})
  drop_group name = do on_db (delete_group name); on_db bump_fleet_rev; emit (info [])

  unfoldable pub delete_cascade : Text → GroupCascade → Text → Op R (Unit {0})
  unfolding push_group_cascade sign_and_store_peer_cert over_affected skip_push drop_group
  delete_cascade name g self w =
      if is_empty g.affected
      then drop_group name w
      else (do
        c ← prepare g self
        late ← over_affected (deleted_peer name c) g.affected
        finish late (drop_group name))
          w

  -- `GroupDelete`
  unfoldable pub group_delete : Text → Text → Op R (Unit {0})
  unfolding load_group_cascade resolve_self_name delete_cascade
  group_delete name hostname = do
    refuse_if (name == manager_principal) (reserved_group name)
    exists ← on_db (group_exists_tx name)
    refuse_if (not exists) (missing_group name)
    g ← load_group_cascade name
    self ← resolve_self_name out hostname
    delete_cascade name g self

  abbrev or_dial_host : Text → Peer → Text
  or_dial_host host p = if is_empty host then dial_host p else host

  abbrev push_allowed : Text → Text → Peer → Text → List Text → Op R (Unit {0})
  push_allowed name host p key groups = do
    ca ← on_remote out.ca_pub
    rewrite_remote out parse host p ca groups
    splice_peer_config out host p key
    on_remote (out.verify_health host)

  abbrev allowed_push : Text → Text → Text → Peer → List Text → Op R (Unit {0})
  allowed_push name host hostname p groups w =
      if skip_push p
      then emit (info name) w
      else (do
        key ← ensure_instance_key out
        self ← resolve_self_name out hostname
        emit (peer_start name)
        reporting name (on_remote (out.dial (or_dial_host host p) (push_user p)))
        reporting name (push_allowed name (or_dial_host host p) p key groups)
        emit (peer_done name))
          w

  -- `SetPeerAllowedGroups`
  unfoldable pub edit_allowed_groups : Text → List Text → Text → Text → Op R (Unit {0})
  unfolding skip_push push_user resolve_self_name ensure_instance_key rewrite_remote
      splice_peer_config
  edit_allowed_groups name groups host hostname = do
    p ← on_db (get_peer name)
    on_db (set_peer_allowed_groups name groups)
    on_db bump_fleet_rev
    allowed_push name host hostname p groups
