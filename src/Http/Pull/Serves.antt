-- ===== src/Http/Pull/Serves.antt =====
-- What the refresh channel serves, and to whom.
use certhold.Base.{
  Text, text, true, false, ◌==◌, ==_iff, some, List, [], ◌∷◌, any, find?, is_empty, ◌≡◌, refl, ap,
  ◌∙◌, subst, arith, inl, inr, Option-cases,
}
use certhold.Errors.{Result, ok, err}
use certhold.Db.{Db, Peer}
use certhold.Db.Peers.{get_peer_by_pull_token, set_peer_revoked, update_peer, update_rows}
use certhold.Http.{bundle, message}
use certhold.Http.Pull.{
  pull, pull_rev, pull_peer, live_peer, serve_bundle, serve_rev, bundle_for, key_of,
}
use certhold.Db.Meta.{get_meta, instance_key}

-- What a refresh that was served says of the asking peer.
pub record Pulled (token : Text) (db : Db) : Type 0 where
  pub peer : Peer
  pub key : Text
  pub named : is_empty token ≡ false
  pub found : (get_peer_by_pull_token token db).0 ≡ ok peer
  pub row : find? (λ q. q.pull_token == token) db.peers ≡ some peer
  pub own : peer.pull_token ≡ token
  pub live : peer.revoked ≡ false
  pub certified : is_empty peer.cert ≡ false
  pub keyed : is_empty key ≡ false
  pub body : (pull token db).0.body ≡ bundle (bundle_for key peer db)

by_token_named :
    (token : Text) (db : Db) (p : Peer)
    → (get_peer_by_pull_token token db).0 ≡ ok p
    → is_empty token ≡ false
unfolding get_peer_by_pull_token
by_token_named token db p h = ground (arith, h)

by_token_find :
    (token : Text) (db : Db) (p : Peer)
    → (get_peer_by_pull_token token db).0 ≡ ok p
    → find? (λ q. q.pull_token == token) db.peers ≡ some p
unfolding get_peer_by_pull_token
by_token_find token db p h = elim (Option-cases (find? (λ q. q.pull_token == token) db.peers)) [
  | inl missing ↦ absurd (ground (arith, h, missing, by_token_named token db p h))
  | inr (q, found) ↦ ground (arith, h, found, by_token_named token db p h)
]

found_token :
    (token : Text) (ps : List Peer) (p : Peer)
    → find? (λ q. q.pull_token == token) ps ≡ some p
    → p.pull_token ≡ token
found_token token [] p h = cc h
found_token token (q ∷ ps) p h = ground (arith, found_token token ps p, ==_iff q.pull_token token)

live_peer_serves :
    (token : Text) (db : Db) (r : Result Peer)
    → (live_peer serve_bundle r db).0.status ≡ 200
    → (p : Peer) × (r ≡ ok p)
      × (p.revoked ≡ false)
      × (live_peer serve_bundle r db ≡ serve_bundle p db)
live_peer_serves token db (err e) h = absurd (ground arith)
live_peer_serves token db (ok p) h = (p, refl, ground (arith, h), ground (arith, h))

bundle_serves :
    (p : Peer) (db : Db)
    → (serve_bundle p db).0.status ≡ 200
    → (is_empty p.cert ≡ false)
      × (is_empty (key_of (get_meta instance_key db).0) ≡ false)
      × ((serve_bundle p db).0.body
          ≡ bundle (bundle_for (key_of (get_meta instance_key db).0) p db))
unfolding serve_bundle
bundle_serves p db h = (ground (arith, h), ground (arith, h), ground (arith, h))

-- A refresh that is answered 200 was asked with a token that is not empty; the first peer's row that has
-- this pull token is not revoked and has a certificate, and the answer is the bundle of that peer.
pub pull_serves : (token : Text) (db : Db) → (pull token db).0.status ≡ 200 → Pulled token db
unfolding pull pull_peer
pull_serves token db h =
    let (p, found, live, same) = live_peer_serves token db (get_peer_by_pull_token token db).0 h in
    let (certified, keyed, body) = bundle_serves p db (subst (λ x. x.0.status ≡ 200) same h) in
    record {
      peer = p;
      key = key_of (get_meta instance_key db).0;
      named = by_token_named token db p found;
      found = found;
      row = by_token_find token db p found;
      own = found_token token db.peers p (by_token_find token db p found);
      live = live;
      certified = certified;
      keyed = keyed;
      body = ap (λ x. x.0.body) same ∙ body;
    }

find-revoked :
    (token : Text) (ps : List Peer) (p : Peer)
    → find? (λ q. q.pull_token == token) ps ≡ some p
    → find? (λ q. q.pull_token == token) (update_rows p.name (λ q. record q { revoked = true }) ps)
      ≡ some (record p { revoked = true })
unfolding update_rows
find-revoked token [] p h = cc h
find-revoked token (q ∷ ps) p h = ground (arith, find-revoked token ps p, ==_iff q.name p.name)

found_has_peer :
    (token : Text) (ps : List Peer) (p : Peer)
    → find? (λ q. q.pull_token == token) ps ≡ some p
    → any (λ q. q.name == p.name) ps ≡ true
found_has_peer token [] p h = cc h
found_has_peer token (q ∷ ps) p h = ground (arith, found_has_peer token ps p, ==_iff q.name p.name)

revoked_found :
    (token : Text) (db : Db) (p : Peer)
    → (get_peer_by_pull_token token db).0 ≡ ok p
    → (get_peer_by_pull_token token (set_peer_revoked p.name db).1).0
      ≡ ok (record p { revoked = true })
unfolding get_peer_by_pull_token set_peer_revoked update_peer
revoked_found token db p h =
    let found = by_token_find token db p h in
    ground (
      arith,
      by_token_named token db p h,
      found_has_peer token db.peers p found,
      find-revoked token db.peers p found,
    )

-- From the moment its row is flagged revoked, a peer is answered 410 by both calls of the channel,
-- and the answer carries no bundle.
pub pull_revoked :
    (token : Text) (db : Db) (p : Peer)
    → (get_peer_by_pull_token token db).0 ≡ ok p
    → ((pull token (set_peer_revoked p.name db).1).0
        ≡ record { status = 410; body = message (text "peer revoked") })
      × ((pull_rev token (set_peer_revoked p.name db).1).0
          ≡ record { status = 410; body = message (text "peer revoked") })
unfolding pull pull_rev pull_peer
pull_revoked token db p h =
    let revoked = (set_peer_revoked p.name db).1 in
    let found = revoked_found token db p h in
    (
      ap (λ x. (live_peer serve_bundle x revoked).0) found,
      ap (λ x. (live_peer serve_rev x revoked).0) found,
    )
