-- ===== src/Ops/Revoke/Order.antt =====
-- The order of the steps of `revokeClear`.
use certhold.Base.{Text, true, List, ◌≡◌, refl, ap, sym, subst, ◌∙◌}
use certhold.Errors.{Error, ok, err}
use certhold.Exec.{continue}
use certhold.Exec.Keeps.{Keeps, Keeps-bind}
use certhold.Exec.Steps.{with_result, continue_err, continue_ok}
use certhold.Db.{Db, Peer, has_peer}
use certhold.Db.Peers.{delete_peer}
use certhold.Db.Peers.Delete.{PeerGone, delete_peer_removes}
use certhold.Db.Meta.{bump_fleet_rev}
use certhold.Ops.{World, Op, on_remote}
use certhold.Ops.Contact.{Unwritten, Keeps-remote, Keeps-emit, Keeps-reporting}
use certhold.Ops.Edit.Removal.{bumped, PeerGone-bumped}
use certhold.Ops.Outside.{Outside}
use certhold.Ops.SelfName.{ensure_instance_key}
use certhold.Ops.Revoke.{revoke_clear, clear_remote, drop_cleared}

ruleset rules = (Keeps-bind, Keeps-remote, Keeps-emit, Keeps-reporting)

module _ {R : Type 0} (out : Outside R) (rekey : Text → Op R (Unit {0})) where
  clear_remote-Unwritten :
      (p : Peer) (key : Text) (cas : List Text) (db : Db)
      → Keeps (Unwritten db) (clear_remote out rekey p key cas)
  unfolding clear_remote
  clear_remote-Unwritten p key cas db = search rules depth 9

  -- The row is deleted, and the revision moves on.
  deleted_gone :
      (name : Text) (db : Db)
      → has_peer db name ≡ true
      → PeerGone name db (bumped (delete_peer name db).1)
  deleted_gone name db there =
      PeerGone-bumped name db (delete_peer name db).1 (delete_peer_removes name db there).1

  drop_cleared_gone :
      (p : Peer) (v : World R)
      → has_peer v.db p.name ≡ true
      → ((drop_cleared out rekey p v).0 ≡ ok tt)
        × PeerGone p.name v.db (drop_cleared out rekey p v).1.db
  unfolding drop_cleared bump_fleet_rev
  drop_cleared_gone p v there =
      let deleted =
        with_result (delete_peer p.name v.db) (ok tt) (delete_peer_removes p.name v.db there).0 in
      (rw deleted refl, rw deleted (deleted_gone p.name v.db there))

  clear_then :
      (p : Peer) (w keyed : World R) (cas : List Text) (key : Text)
      → p.inbound ≡ true
      → (on_remote out.instance_ca_pubs w).0 ≡ ok cas
      → ensure_instance_key out (on_remote out.instance_ca_pubs w).1 ≡ (ok key, keyed)
      → revoke_clear out rekey p w
        ≡ continue (clear_remote out rekey p key cas keyed) (λ _. drop_cleared out rekey p)
  unfolding revoke_clear
  clear_then p w keyed cas key inbound listed ensured =
      let keys = with_result (out.instance_ca_pubs w.remote) (ok cas) listed in
      rw (inbound, keys, ensured) refl

-- Revoking a peer by clearing it, once the keys of the instance are at hand. If the dial or the clear
-- fails the revocation fails with that error and the database is as it was before the dial: the row is
-- still there. If the clear succeeds the revocation succeeds, and the peer, its memberships and its
-- tokens are gone.
pub revoke_clear_last :
    {R : Type 0} (out : Outside R) (rekey : Text → Op R (Unit {0})) (p : Peer) (w keyed : World R)
    (cas : List Text) (key : Text)
    → p.inbound ≡ true
    → (on_remote out.instance_ca_pubs w).0 ≡ ok cas
    → ensure_instance_key out (on_remote out.instance_ca_pubs w).1 ≡ (ok key, keyed)
    → ((e : Error)
        → (clear_remote out rekey p key cas keyed).0 ≡ err e
        → ((revoke_clear out rekey p w).0 ≡ err e) × ((revoke_clear out rekey p w).1.db ≡ keyed.db))
      × ((clear_remote out rekey p key cas keyed).0 ≡ ok tt
          → has_peer keyed.db p.name ≡ true
          → ((revoke_clear out rekey p w).0 ≡ ok tt)
            × PeerGone p.name keyed.db (revoke_clear out rekey p w).1.db)
revoke_clear_last {R = R} out rekey p w keyed cas key inbound listed ensured =
    let same = clear_then out rekey p w keyed cas key inbound listed ensured in
    let kept = (clear_remote-Unwritten out rekey p key cas keyed.db).at keyed refl in
    let cleared = clear_remote out rekey p key cas keyed in
    let rest : Unit {0} → Op R (Unit {0}) = λ _. drop_cleared out rekey p in
    (
      λ e h.
          subst (λ r. (r.0 ≡ err e) × (r.1.db ≡ keyed.db))
            (sym (same ∙ continue_err cleared rest e h)) (refl, kept),
      λ h there.
          subst (λ r. (r.0 ≡ ok tt) × PeerGone p.name keyed.db r.1.db)
            (sym (same ∙ continue_ok cleared rest tt h))
            (subst
              (λ db.
                (((drop_cleared out rekey p cleared.1).0 ≡ ok tt)
                  × PeerGone p.name db (drop_cleared out rekey p cleared.1).1.db))
              kept
              (drop_cleared_gone out rekey p cleared.1
                (ap (λ db. has_peer db p.name) kept ∙ there))),
    )
