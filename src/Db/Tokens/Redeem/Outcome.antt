-- ===== src/Db/Tokens/Redeem/Outcome.antt =====
-- `ConsumeToken` for a token that stages a re-enroll.
use certhold.Base.{
  Text, Bool, true, false, not, ◌==◌, none, some, any, ◌≡◌, refl, sym, ap, ◌∙◌, subst, arith,
  Distinct,
}
use certhold.Errors.{Error, ok, reenroll_revoked, IsErr}
use certhold.Exec.{continue, refuse_if, pure}
use certhold.Exec.Steps.{
  continue_ok, continue-IsErr, continue-IsErr_first, in_tx_commits, in_tx_rolls_back, refuse_stops,
}
use certhold.Db.{Db, Peer, Token, peer_groups, token_of, peer_of, has_group}
use certhold.Db.Peers.{get_peer, or_peer_not_found}
use certhold.Db.Groups.Sets.Strict.{AllThere, strict_assigns, strict_fails}
use certhold.Db.Tokens.{
  consume_token, consume_token_tx, mark_consumed, lookup_token, commit_if_staged,
  commit_staged_reenroll, write_staged, staged_of, split_groups_csv,
}
use certhold.Db.Tokens.Redeem.{marked, any-open}
use certhold.Db.Tokens.Redeem.Reenroll.{
  commit_eq, has_peer-written, found-has, IsFit-same, finished-Reconfigured, settle_Settles,
  with_members, with_allowed, written, Reconfigured, IsFit, allowed_choice,
}

-- The hypotheses under which a staged commit goes through.
pub record IsReady (t : Token) (p : Peer) (db : Db) : Type 0 where
  pub found : peer_of db t.peer_name ≡ some p
  pub live : p.revoked ≡ false
  pub distinct_groups : Distinct (split_groups_csv t.groups)
  pub groups_there : AllThere (split_groups_csv t.groups) db
  pub allowed_fit : IsFit (allowed_choice (staged_of t) p.inbound (split_groups_csv t.groups)) db

commit_Reconfigured :
    (t : Token) (key : Text) (p : Peer) (db : Db)
    → IsReady t p db
    → ((commit_staged_reenroll t.peer_name t.groups key (staged_of t) db).0 ≡ ok tt)
      × Reconfigured t key p db (commit_staged_reenroll t.peer_name t.groups key (staged_of t) db).1
commit_Reconfigured t key p db r =
    let here = found-has t.peer_name db.peers p r.found in
    let (done, members, same) =
      strict_assigns peer_groups t.peer_name (split_groups_csv t.groups) (written t key db)
        (has_peer-written t key db t.peer_name ∙ here) r.distinct_groups r.groups_there in
    let (settled, allowed) =
      settle_Settles t.peer_name (split_groups_csv t.groups) (staged_of t) p.inbound
        (with_members t key db).1
        (ap (any (λ q. q.name == t.peer_name)) members.rest.peers
          ∙ has_peer-written t key db t.peer_name
          ∙ here)
        (IsFit-same (allowed_choice (staged_of t) p.inbound (split_groups_csv t.groups)) db
          (with_members t key db).1 same r.allowed_fit) in
    subst (λ x. (x.0 ≡ ok tt) × Reconfigured t key p db x.1)
      (sym (commit_eq t key p db r.found r.live done settled))
      (
        refl,
        finished-Reconfigured t key p db (with_members t key db).1 (with_allowed t key p db).1
            r.found members same allowed,
      )

abbrev with_marked : Text → Db → Db
with_marked token db = record db { tokens = marked token db.tokens }

-- The redemption up to the commit of what is staged.
consume_tx_eq :
    (token : Text) (db : Db) (t : Token) (key : Text)
    → token_of db token ≡ some t
    → t.consumed ≡ false
    → t.staged_authorized_key ≡ some key
    → consume_token_tx token db
      ≡ continue
          (commit_staged_reenroll t.peer_name t.groups key (staged_of t) (with_marked token db))
          (λ _. pure t)
unfolding consume_token_tx lookup_token mark_consumed commit_if_staged
consume_tx_eq token db t key found fresh staged =
    ground (arith, found, fresh, staged, any-open token db.tokens t found fresh)

-- A reconfiguration does not look at the tokens.
unmarked :
    (token : Text) (t : Token) (key : Text) (p : Peer) (db db' : Db)
    → Reconfigured t key p (with_marked token db) db'
    → Reconfigured t key p db db'
unmarked token t key p db db' r = record {
  peer = r.peer;
  other_peers = r.other_peers;
  members = r.members;
  allowed = r.allowed;
  groups = r.groups;
  fleet_rev = r.fleet_rev;
}

-- Redeeming an open re-enroll token whose peer is there and not revoked, and whose groups are
-- distinct and all still there, succeeds and commits everything it staged: the peer's row has the
-- staged key, fingerprint, certificate, serial, pull token and inbound flag, and the staged address
-- if there is one; its groups are the token's; its allowed groups are none for a client, the chosen
-- ones if they were chosen, the groups for a client that becomes inbound, and otherwise the old
-- ones; no group is made, every other peer and membership is as before, and the fleet revision
-- grows by one.
pub consume_token_reconfigures :
    (token : Text) (db : Db) (t : Token) (key : Text) (p : Peer)
    → token_of db token ≡ some t
    → t.consumed ≡ false
    → t.staged_authorized_key ≡ some key
    → IsReady t p db
    → ((consume_token token db).0 ≡ ok t) × Reconfigured t key p db (consume_token token db).1
unfolding consume_token
consume_token_reconfigures token db t key p found fresh staged r =
    let (done, reconfigured) = commit_Reconfigured t key p (with_marked token db) (record {
      found = r.found;
      live = r.live;
      distinct_groups = r.distinct_groups;
      groups_there = r.groups_there;
      allowed_fit =
          IsFit-same (allowed_choice (staged_of t) p.inbound (split_groups_csv t.groups)) db
            (with_marked token db) refl r.allowed_fit;
    }) in
    let whole =
      consume_tx_eq token db t key found fresh staged
      ∙ continue_ok
          (commit_staged_reenroll t.peer_name t.groups key (staged_of t) (with_marked token db))
          (λ _. pure t) tt done in
    subst (λ x. (x.0 ≡ ok t) × Reconfigured t key p db x.1)
      (sym (in_tx_commits (consume_token_tx token) db t (ap (λ x. x.0) whole)))
      (
        refl,
        subst (λ x. Reconfigured t key p db x.1) (sym whole)
            (unmarked token t key p db _ reconfigured),
      )

-- Why a staged commit cannot go through.
pub data Obstacle (t : Token) (db : Db) : Type 0 where
  no_peer : peer_of db t.peer_name ≡ none → Obstacle t db
  revoked : (p : Peer) → peer_of db t.peer_name ≡ some p → p.revoked ≡ true → Obstacle t db
  group_missing : any (λ g. not (has_group db g)) (split_groups_csv t.groups) ≡ true → Obstacle t db

refuse_if-state : (b : Bool) (e : Error) (db : Db) → (refuse_if b e db).1 ≡ db
refuse_if-state true e db = refl
refuse_if-state false e db = refl

commit_fails :
    (t : Token) (key : Text) (db : Db)
    → Obstacle t db
    → IsErr (commit_staged_reenroll t.peer_name t.groups key (staged_of t) db).0
unfolding commit_staged_reenroll get_peer write_staged
commit_fails t key db (no_peer h) =
    continue-IsErr_first (or_peer_not_found (peer_of db t.peer_name), db) _
      (subst (λ o. IsErr (or_peer_not_found o)) (sym h) tt)
commit_fails t key db (revoked p h r) =
    subst (λ x. IsErr x.0)
      (sym (
        continue_ok (or_peer_not_found (peer_of db t.peer_name), db) _ p (ap or_peer_not_found h)
        ∙ refuse_stops p.revoked _ db _ r))
      tt
commit_fails t key db (group_missing h) =
    continue-IsErr (or_peer_not_found (peer_of db t.peer_name), db) _
      λ p _. continue-IsErr (refuse_if p.revoked (reenroll_revoked t.peer_name) db) _ λ _ passed.
        continue-IsErr_first
          (with_members t key (refuse_if p.revoked (reenroll_revoked t.peer_name) db).1) _
          (strict_fails peer_groups t.peer_name (split_groups_csv t.groups) _
            (ground (arith, h, refuse_if-state p.revoked (reenroll_revoked t.peer_name) db)))

-- The mark on the token moves no obstacle.
move : (token : Text) (t : Token) (db : Db) → Obstacle t db → Obstacle t (with_marked token db)
move token t db (no_peer h) = no_peer h
move token t db (revoked p h r) = revoked p h r
move token t db (group_missing h) = group_missing h

-- Redeeming an open re-enroll token fails when its peer is gone or was revoked since, or when one of
-- its groups was deleted or renamed since; nothing is written, so the token stays redeemable and
-- the missing group is not made again.
pub consume_token_refuses_stale :
    (token : Text) (db : Db) (t : Token) (key : Text)
    → token_of db token ≡ some t
    → t.consumed ≡ false
    → t.staged_authorized_key ≡ some key
    → Obstacle t db
    → IsErr (consume_token token db).0 × ((consume_token token db).1 ≡ db)
unfolding consume_token
consume_token_refuses_stale token db t key found fresh staged o =
    in_tx_rolls_back (consume_token_tx token) db (
      subst (λ x. IsErr x.0) (sym (consume_tx_eq token db t key found fresh staged))
        (continue-IsErr_first
          (commit_staged_reenroll t.peer_name t.groups key (staged_of t) (with_marked token db)) _
          (commit_fails t key (with_marked token db) (move token t db o))))
