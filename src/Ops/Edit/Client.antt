-- ===== src/Ops/Edit/Client.antt =====
-- The order of the steps of `MakeClient`.
use certhold.Base.{
  Text, true, false, ◌==◌, Option, some, List, [], ◌∷◌, any, find?, ◌≡◌, refl, ap, sym, subst, ◌∙◌,
  arith, ◌⊎◌, inl, inr,
}
use certhold.Errors.{Error, Result, ok, err}
use certhold.Exec.{continue}
use certhold.Exec.Keeps.{Keeps, Keeps-bind}
use certhold.Db.{Db, Peer, peer_of, has_peer}
use certhold.Db.Peers.{get_peer, set_peer_inbound, dial_host, update_peer}
use certhold.Db.Meta.{bump_fleet_rev}
use certhold.Peerfiles.AuthorizedKeys.{ParsedKey}
use certhold.Ops.{World, peer_start, on_db, emit, peer_done, on_remote, logged}
use certhold.Ops.Contact.{Unwritten, Keeps-remote, reporting_fails, reporting_goes}
use certhold.Ops.Edit.Removal.{bumped}
use certhold.Ops.Outside.{Outside}
use certhold.Ops.Push.{push_user}
use certhold.Ops.SelfName.{resolve_self_name, guard_not_self_peer}
use certhold.Ops.Edit.{make_client, convert_peer, strip_remote, record_client}

pub has_of_find :
    (name : Text) (ps : List Peer) (p : Peer)
    → find? (λ q. q.name == name) ps ≡ some p
    → any (λ q. q.name == name) ps ≡ true
has_of_find name [] p h = cc h
has_of_find name (q ∷ ps) p h = ground (arith, has_of_find name ps p)

ruleset rules = (Keeps-bind, Keeps-remote)

module _ {R : Type 0} (out : Outside R) (parse : Text → Option ParsedKey) where
  -- The world when the dial begins, the dial, and the strip after it.
  abbrev pub started : Text → World R → World R
  started name w = record w { events = peer_start name ∷ w.events }

  abbrev pub dialed : Text → Peer → World R → Result (Unit {0}) × World R
  dialed name p w = on_remote (out.dial (dial_host p) (push_user p)) (started name w)

  abbrev pub stripped : Text → Peer → World R → Result (Unit {0}) × World R
  stripped name p w = strip_remote out parse p (dialed name p w).1

  strip_remote-Unwritten : (p : Peer) (db : Db) → Keeps (Unwritten db) (strip_remote out parse p)
  unfolding strip_remote
  strip_remote-Unwritten p db = search rules depth 9

  logged_eq :
      (name : Text) (x : Result (Unit {0}) × World R) (v : World R)
      → x.1.db ≡ v.db
      → ((continue (logged name x) (λ _. emit (peer_done name))).0 ≡ ok tt)
        × ((continue (logged name x) (λ _. emit (peer_done name))).1.db ≡ v.db)
  logged_eq name (ok u, w) v h = (refl, h)
  logged_eq name (err e, w) v h = (refl, h)

  set_inbound_ok :
      (name : Text) (db : Db) → has_peer db name ≡ true → (set_peer_inbound name false db).0 ≡ ok tt
  unfolding set_peer_inbound update_peer
  set_inbound_ok name db h = ground (arith, h)

  record_client_db :
      (name : Text) (p : Peer) (v : World R)
      → has_peer v.db name ≡ true
      → ((record_client out parse name p v).0 ≡ ok tt)
        × ((record_client out parse name p v).1.db ≡ bumped (set_peer_inbound name false v.db).1)
  unfolding record_client bump_fleet_rev
  record_client_db name p v there =
      let set = on_db (set_peer_inbound name false) v in
      let bump = on_db bump_fleet_rev set.1 in
      subst (λ r. (r.0 ≡ ok tt) × (r.1.db ≡ bumped (set_peer_inbound name false v.db).1))
        (sym (reporting_goes name set _ tt (set_inbound_ok name v.db there)))
        (logged_eq name (on_remote (out.verify_health (dial_host p)) bump.1) bump.1 refl)

  -- How the conversion ends, by how the dial and the strip end.
  convert_undialed :
      (name : Text) (p : Peer) (w : World R) (e : Error)
      → (dialed name p w).0 ≡ err e
      → ((convert_peer out parse name p w).0 ≡ err e)
        × ((convert_peer out parse name p w).1.db ≡ w.db)
  unfolding convert_peer
  convert_undialed name p w e h = reporting_fails name (dialed name p w) _ e h

  convert_unstripped :
      (name : Text) (p : Peer) (w : World R) (e : Error)
      → (dialed name p w).0 ≡ ok tt
      → (stripped name p w).0 ≡ err e
      → ((convert_peer out parse name p w).0 ≡ err e)
        × ((convert_peer out parse name p w).1.db ≡ w.db)
  unfolding convert_peer
  convert_unstripped name p w e d h =
      let (fails, kept) = reporting_fails name (stripped name p w) _ e h in
      subst (λ r. (r.0 ≡ err e) × (r.1.db ≡ w.db))
        (sym (reporting_goes name (dialed name p w) _ tt d))
        (fails, kept ∙ (strip_remote-Unwritten p w.db).at (dialed name p w).1 refl)

  convert_stripped :
      (name : Text) (p : Peer) (w : World R)
      → (dialed name p w).0 ≡ ok tt
      → (stripped name p w).0 ≡ ok tt
      → has_peer w.db name ≡ true
      → ((convert_peer out parse name p w).0 ≡ ok tt)
        × ((convert_peer out parse name p w).1.db ≡ bumped (set_peer_inbound name false w.db).1)
  unfolding convert_peer bump_fleet_rev
  convert_stripped name p w d h there =
      let kept = (strip_remote-Unwritten p w.db).at (dialed name p w).1 refl in
      subst (λ r. (r.0 ≡ ok tt) × (r.1.db ≡ bumped (set_peer_inbound name false w.db).1))
        (sym (
          reporting_goes name (dialed name p w) _ tt d
          ∙ reporting_goes name (stripped name p w) _ tt h))
        (subst
          (λ db.
            ((record_client out parse name p (stripped name p w).1).0 ≡ ok tt)
            × ((record_client out parse name p (stripped name p w).1).1.db
                ≡ bumped (set_peer_inbound name false db).1))
          kept
          (record_client_db name p (stripped name p w).1
            (ap (λ db. has_peer db name) kept ∙ there)))

-- The conversion of a peer that takes inbound logins and can be reached, for which the guard passes.
-- If the dial fails, or the strip of the trust line on the host fails, the conversion fails with that
-- error and the database is as it was, so the row still says inbound. If both succeed the conversion
-- succeeds whatever the health check says, the row says not inbound, and the revision is one more.
pub make_client_strips_first :
    {R : Type 0} (out : Outside R) (parse : Text → Option ParsedKey) (w : World R)
    (name given self : Text) (p : Peer)
    → resolve_self_name out given w ≡ (ok self, w)
    → guard_not_self_peer out name self w ≡ (ok tt, w)
    → peer_of w.db name ≡ some p
    → p.inbound ≡ true
    → p.push_reachable ≡ true
    → ((e : Error)
        → ((dialed out parse name p w).0 ≡ err e)
          ⊎ (((dialed out parse name p w).0 ≡ ok tt) × ((stripped out parse name p w).0 ≡ err e))
        → ((make_client out parse name given w).0 ≡ err e)
          × ((make_client out parse name given w).1.db ≡ w.db))
      × ((dialed out parse name p w).0 ≡ ok tt
          → (stripped out parse name p w).0 ≡ ok tt
          → ((make_client out parse name given w).0 ≡ ok tt)
            × ((make_client out parse name given w).1.db
                ≡ bumped (set_peer_inbound name false w.db).1))
unfolding make_client get_peer
make_client_strips_first out parse w name given self p named guard found inbound reachable =
    let same : make_client out parse name given w ≡ convert_peer out parse name p w =
      rw (named, guard, found, inbound, reachable) refl in
    (
      λ e h. elim h [
        | inl d ↦
            subst (λ r. (r.0 ≡ err e) × (r.1.db ≡ w.db)) (sym same)
              (convert_undialed out parse name p w e d)
        | inr (d, s) ↦
            subst (λ r. (r.0 ≡ err e) × (r.1.db ≡ w.db)) (sym same)
              (convert_unstripped out parse name p w e d s)
      ],
      λ d s.
          subst (λ r. (r.0 ≡ ok tt) × (r.1.db ≡ bumped (set_peer_inbound name false w.db).1))
            (sym same)
            (convert_stripped out parse name p w d s (has_of_find name w.db.peers p found)),
    )
