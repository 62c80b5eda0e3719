-- ===== src/Ops/Groups/Delete.antt =====
-- The end of `GroupDelete`.
use certhold.Base.{
  Text, true, false, not, ◌&&◌, ◌==◌, ==_refl, Option, List, [], is_empty, ◌≡◌, refl, ap, ◌∙◌,
}
use certhold.Errors.{Error, Result, ok, err, IsOk, IsErr, stragglers, reserved_group, missing_group}
use certhold.Exec.{◌>>◌, refuse_if, fail}
use certhold.Exec.Ends.{Ends, Ends-bind, Ends-if}
use certhold.Exec.Steps.{with_result}
use certhold.Exec.Keeps.{Keeps-refuse}
use certhold.Db.{manager_principal, has_group}
use certhold.Db.Groups.{delete_group, group_exists_tx}
use certhold.Db.Groups.Delete.{delete_group_removes}
use certhold.Db.Meta.{bump_fleet_rev}
use certhold.Peerfiles.AuthorizedKeys.{ParsedKey}
use certhold.Ops.{World, warn, on_db, emit}
use certhold.Ops.Outside.{Outside}
use certhold.Ops.SelfName.{resolve_self_name}
use certhold.Ops.Groups.{
  group_delete, delete_cascade, drop_group, load_group_cascade, over_affected, deleted_peer,
  prepare, finish, GroupCascade,
}
use certhold.Ops.Groups.Keep.{StillThere, reads_group_exists, Still-on_db}
use certhold.Ops.Groups.Loop.{Still-over_affected, Still-load, Still-self_name, Still-prepare}

module _ {R : Type 0} (out : Outside R) (parse : Text → Option ParsedKey) (g : Text) where
  -- The group is gone.
  abbrev Gone : World R → Type 0
  Gone w = has_group w.db g ≡ false

  drop_group_drops :
      (w : World R)
      → StillThere g w
      → ((drop_group out parse g w).0 ≡ ok tt) × Gone (drop_group out parse g w).1
  unfolding drop_group bump_fleet_rev
  drop_group_drops w h =
      let (done, gone) = delete_group_removes g w.db h in
      let same = with_result (delete_group g w.db) (ok tt) done in
      (rw same refl, rw same (gone.groups g ∙ ap (λ b. not b && has_group w.db g) (==_refl g)))

  ok_not_err : {A : Type 0} (r : Result A) (a : A) → r ≡ ok a → IsErr r → ⊥
  ok_not_err (ok b) a h e = e
  ok_not_err (err f) a h e = cc h

  Ends-drop_group : Ends (StillThere g) Gone (drop_group out parse g)
  Ends-drop_group = record {
    fails = λ w h e. absurd (ok_not_err (drop_group out parse g w).0 tt (drop_group_drops w h).0 e);
    works = λ w h o. (drop_group_drops w h).1;
  }

  Ends-fail :
      (e : Error) → Ends (StillThere {R = R} g) Gone (do emit (warn []); fail {A = Unit {0}} e)
  Ends-fail e = record { fails = λ w h i. h; works = λ w h o. absurd o }

  Ends-finish :
      (late : List Text) → Ends (StillThere g) Gone (finish out parse late (drop_group out parse g))
  Ends-finish late =
      let k =
        Ends-if (StillThere g) Gone (is_empty late) (drop_group out parse g) _ Ends-drop_group
          (Ends-fail stragglers) in
      record { fails = k.fails; works = k.works }

  Ends-delete_cascade :
      (c : GroupCascade) (self : Text)
      → Ends (StillThere g) Gone (delete_cascade out parse g c self)
  unfolding delete_cascade
  Ends-delete_cascade c self =
      let P = StillThere {R = R} g in
      let looped =
        Ends-bind P Gone (prepare out parse c self) _ (Still-prepare out parse g c self) (λ k.
          Ends-bind P Gone (over_affected out parse (deleted_peer out parse g k) c.affected) _
            (Still-over_affected out parse g k c.affected) (λ late. Ends-finish late)) in
      let k =
        Ends-if P Gone (is_empty c.affected) (drop_group out parse g) _ Ends-drop_group looped in
      record { fails = k.fails; works = k.works }

  Ends-group_delete :
      (hostname : Text) → Ends (StillThere g) Gone (group_delete out parse g hostname)
  unfolding group_delete
  Ends-group_delete hostname =
      let P = StillThere {R = R} g in
      Ends-bind P Gone (refuse_if (g == manager_principal) (reserved_group g)) _
        (Keeps-refuse P _ _)
        (λ _.
          Ends-bind P Gone (on_db (group_exists_tx g)) _ (Still-on_db g _ (reads_group_exists g g))
            (λ exists.
              Ends-bind P Gone (refuse_if (not exists) (missing_group g)) _ (Keeps-refuse P _ _)
                (λ _. Ends-bind P Gone (load_group_cascade g) _ (Still-load out parse g g) (λ c.
                  Ends-bind P Gone (resolve_self_name out hostname) _
                    (Still-self_name out parse g hostname) (λ self. Ends-delete_cascade c self)))))

-- Deleting a group that is there, with all the pushes to the peers that it concerns. If the operation
-- fails, be it by a straggler, a CA that stays locked or an error of a peer's rewrite, the group is
-- still there, so the deletion can be run again; if it succeeds the group is gone.
pub group_delete_last :
    {R : Type 0} (out : Outside R) (parse : Text → Option ParsedKey) (name hostname : Text)
    (w : World R)
    → has_group w.db name ≡ true
    → (IsErr (group_delete out parse name hostname w).0
        → has_group (group_delete out parse name hostname w).1.db name ≡ true)
      × (IsOk (group_delete out parse name hostname w).0
          → has_group (group_delete out parse name hostname w).1.db name ≡ false)
group_delete_last out parse name hostname w h =
    let k = Ends-group_delete out parse name hostname in (λ e. k.fails w h e, λ o. k.works w h o)
