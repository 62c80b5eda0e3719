-- ===== src/Ops/Edit/Removal.antt =====
-- `RemovePeer`.
use certhold.Base.{
  ◌+◌, Text, true, ◌==◌, some, List, [], ◌∷◌, any, find?, ◌≡◌, refl, ap, Bool-cases, inl, inr, sym,
  subst, arith,
}
use certhold.Errors.{ok}
use certhold.Exec.Steps.{with_result}
use certhold.Db.{Db, Peer, peer_groups, peer_allowed_groups, has_peer, peer_of}
use certhold.Db.Peers.{get_peer, delete_peer}
use certhold.Db.Peers.Delete.{PeerGone, delete_peer_removes}
use certhold.Db.Meta.{bump_fleet_rev, rev_of}
use certhold.Ops.{World, info}
use certhold.Ops.Outside.{Outside}
use certhold.Ops.SelfName.{guard_not_self_peer}
use certhold.Ops.Edit.{remove_peer}

pub find_there :
    (name : Text) (ps : List Peer)
    → any (λ p. p.name == name) ps ≡ true
    → (p : Peer) × (find? (λ p. p.name == name) ps ≡ some p)
find_there name [] h = cc h
find_there name (p ∷ ps) h = elim (Bool-cases (p.name == name)) [
  | inl e ↦ (p, ground (arith, e))
  | inr e ↦ let (q, f) = find_there name ps (ground (arith, h, e)) in (q, ground (arith, e, f))
]

-- The revision moves on; the tables stay.
abbrev pub bumped : Db → Db
bumped db = record db { fleet_rev = some (rev_of db.fleet_rev + 1) }

pub PeerGone-bumped :
    (n : Text) (db after : Db) → PeerGone n db after → PeerGone n db (bumped after)
PeerGone-bumped n db after g = record {
  peers = g.peers;
  rows = elim [
    | peer_groups ↦ g.rows peer_groups
    | peer_allowed_groups ↦ g.rows peer_allowed_groups
  ];
  tokens = g.tokens;
  groups = g.groups;
  others = g.others;
  others_tokens = g.others_tokens;
  rest = g.rest;
}

module _ {R : Type 0} (out : Outside R) where
  remove_peer_eq :
      (w : World R) (name : Text) (p : Peer)
      → guard_not_self_peer out name [] w ≡ (ok tt, w)
      → peer_of w.db name ≡ some p
      → (delete_peer name w.db).0 ≡ ok tt
      → remove_peer out name w
        ≡ (ok tt, record w { db = bumped (delete_peer name w.db).1; events = info name ∷ w.events })
  unfolding remove_peer get_peer bump_fleet_rev
  remove_peer_eq w name p guard found deleted =
      rw guard (rw found (rw (with_result (delete_peer name w.db) (ok tt) deleted) refl))

-- Removing a peer that is there and is not the manager's own succeeds without any contact: what is
-- outside of the database is as it was. The peer, its memberships and its tokens are gone, all other
-- rows stand, and the revision is one more, so that the other peers refresh.
pub remove_peer_forgets :
    {R : Type 0} (out : Outside R) (w : World R) (name : Text)
    → guard_not_self_peer out name [] w ≡ (ok tt, w)
    → has_peer w.db name ≡ true
    → ((remove_peer out name w).0 ≡ ok tt)
      × ((remove_peer out name w).1.remote ≡ w.remote)
      × PeerGone name w.db (remove_peer out name w).1.db
      × ((remove_peer out name w).1.db.fleet_rev ≡ some (rev_of w.db.fleet_rev + 1))
remove_peer_forgets out w name guard there =
    let (p, found) = find_there name w.db.peers there in
    let (deleted, gone, rev) = delete_peer_removes name w.db there in
    subst
      (λ r.
        (r.0 ≡ ok tt)
        × (r.1.remote ≡ w.remote)
        × PeerGone name w.db r.1.db
        × (r.1.db.fleet_rev ≡ some (rev_of w.db.fleet_rev + 1)))
      (sym (remove_peer_eq out w name p guard found deleted))
      (
        refl,
        refl,
        PeerGone-bumped name w.db (delete_peer name w.db).1 gone,
        ap (λ v. some (rev_of v + 1)) rev,
      )
