-- ===== src/Ops/Guarded.antt =====
-- The operations on one peer, called for the manager's own.
use certhold.Base.{
  Text, Bool, false, ◌||◌, ◌==◌, ==_iff, ==_refl, true, Option, some, List, [], ◌∷◌, is_empty, ◌≡◌,
  ap, ◌∙◌, refl, arith,
}
use certhold.Errors.{self_guard, ok, err}
use certhold.Db.Meta.{get_meta, self_name}
use certhold.Peerfiles.AuthorizedKeys.{ParsedKey}
use certhold.Ops.{World, Op}
use certhold.Ops.Outside.{Outside}
use certhold.Ops.SelfName.{resolve_self_name, guard_not_self_peer}
use certhold.Ops.Edit.{remove_peer, make_client}
use certhold.Ops.Update.{update_peer_groups}
use certhold.Ops.Revoke.{revoke_peer}

module _ {R : Type 0} (out : Outside R) where
  resolves :
      (w : World R) (self : Text)
      → (get_meta self_name w.db).0 ≡ ok (some self)
      → is_empty self ≡ false
      → resolve_self_name out [] w ≡ (ok self, w)
  unfolding resolve_self_name get_meta
  resolves w self h n = ground (arith, h, n)

  resolves_given :
      (w : World R) (h : Text) → is_empty h ≡ false → resolve_self_name out h w ≡ (ok h, w)
  unfolding resolve_self_name
  resolves_given w h n = ground (arith, n)

  resolves_self :
      (w : World R) (self h : Text)
      → (get_meta self_name w.db).0 ≡ ok (some self)
      → is_empty self ≡ false
      → (is_empty h || (h == self)) ≡ true
      → resolve_self_name out h w ≡ (ok self, w)
  resolves_self w self [] recorded n same = resolves w self recorded n
  resolves_self w self (c ∷ h) recorded n same =
      let e = (==_iff (c ∷ h) self).0 (ground (arith, same)) in
      resolves_given w (c ∷ h) refl ∙ ap (λ s. (ok s, w)) e

  guard_stops :
      (w : World R) (self hostname : Text)
      → resolve_self_name out hostname w ≡ (ok self, w)
      → guard_not_self_peer out self hostname w ≡ (err (self_guard self), w)
  unfolding guard_not_self_peer
  guard_stops w self hostname h = ground (arith, h, ==_refl self)

-- The peer whose name was recorded as the manager's own is guarded: removing it fails, and so does
-- updating, converting or revoking it, in either mode of revocation, when the operation is called with
-- that name as the host name or with none. The error is the guard's, and the database, the outside and
-- the events stay as they were.
pub self_row_guarded :
    {R : Type 0} (out : Outside R) (parse : Text → Option ParsedKey)
    (rekey : Text → Op R (Unit {0})) (w : World R) (self h : Text)
    → (get_meta self_name w.db).0 ≡ ok (some self)
    → is_empty self ≡ false
    → (is_empty h || (h == self)) ≡ true
    → (remove_peer out self w ≡ (err (self_guard self), w))
      × ((groups : List Text) (host : Text)
          → update_peer_groups out self groups host h w ≡ (err (self_guard self), w))
      × (make_client out parse self h w ≡ (err (self_guard self), w))
      × ((by_rekey : Bool) → revoke_peer out rekey self h by_rekey w ≡ (err (self_guard self), w))
unfolding remove_peer update_peer_groups make_client revoke_peer
self_row_guarded out parse rekey w self h recorded n same =
    let named = resolves_self out w self h recorded n same in
    let stops = guard_stops out w self h named in
    (
      rw (guard_stops out w self [] (resolves out w self recorded n)) refl,
      λ groups host. rw stops refl,
      rw (named, guard_stops out w self self (resolves_given out w self n)) refl,
      λ b. rw stops refl,
    )
