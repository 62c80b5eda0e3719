-- ===== src/Ops/Rekey/Marks.antt =====
-- internal/ops/rekey.go: the steps of a rotation, which keep it undoable until it is marked.
use certhold.Base.{ℕ, Text, true, Option, List, All, ◌≡◌, inl, refl, ◌∙◌, arith}
use certhold.Errors.{Result, ok, err, IsOk, IsErr}
use certhold.Exec.{for_each, continue}
use certhold.Exec.Keeps.{Keeps, Keeps-bind}
use certhold.Exec.Ends.{Ends, Ends-bind}
use certhold.Db.{Db, Peer}
use certhold.Ops.{World, on_remote}
use certhold.Ops.Contact.{Unwritten, Keeps-remote}
use certhold.Ops.Outside.{Outside}
use certhold.Peerfiles.AuthorizedKeys.{ParsedKey}
use certhold.Ops.Rekey.Rotate.{
  Staging, Rotation, Fixed, in_world, mark_rotated, record_cert, rotate_peer, rotate_self,
  write_self_rekey, rotate_all, abort_rekey, abort_warnings, or_empty,
}
use certhold.Ops.Rekey.Undoable.{
  Undoable, IsRotated, Current, undone, Undoable-in_world, Undoable-sign, Undoable-peers,
  IsRotated-mark, IsRotated-record_cert,
}

module _ {R : Type 0} (out : Outside R) (staging : Staging R) (parse : Text → Option ParsedKey)
    (fixed : Fixed) (start : Db) where
  or_empty-db : (x : Result Text × World R) → (or_empty out staging parse fixed x).1.db ≡ x.1.db
  or_empty-db (ok content, w) = refl
  or_empty-db (err e, w) = refl

  Keeps-or_empty :
      (path : Text) (db : Db)
      → Keeps
          (Unwritten db)
          (λ w. or_empty out staging parse fixed (on_remote (staging.read_local path) w))
  Keeps-or_empty path db = record { at = λ w h. or_empty-db _ ∙ h }

  write_self-Unwritten :
      (self : Peer) (cert : Text) (db : Db)
      → Keeps (Unwritten db) (write_self_rekey out staging parse fixed self cert)
  unfolding write_self_rekey
  write_self-Unwritten self cert db = search (Keeps-bind, Keeps-remote, Keeps-or_empty) depth 9

  Undoable-write_self :
      (self : Peer) (cert : Text)
      → Keeps (Undoable start) (in_world (write_self_rekey out staging parse fixed self cert))
  Undoable-write_self self cert =
      Undoable-in_world start _ (λ w. (write_self-Unwritten self cert w.db).at w refl)

  IsRotated-then :
      (name : Text) (signed : Text × ℕ) (s : Rotation R)
      → IsRotated (continue (mark_rotated true s) (λ _. record_cert name signed)).1
  IsRotated-then name signed s =
      (IsRotated-record_cert name signed).at (mark_rotated true s).1 (IsRotated-mark start s)

  -- The manager's own files are the last step, and set the mark.
  Ends-rotate_self :
      (self : Peer) → Ends (Undoable start) IsRotated (rotate_self out staging parse fixed self)
  unfolding rotate_self
  Ends-rotate_self self =
      Ends-bind (Undoable start) IsRotated _ _
        (Undoable-sign out staging parse fixed start fixed.hostname self.authorized_key true)
        (λ signed.
          Ends-bind (Undoable start) IsRotated _ _ (Undoable-write_self self signed.0) (λ _.
            record {
              fails = λ s u e. inl (IsRotated-then fixed.hostname signed s);
              works = λ s u o. IsRotated-then fixed.hostname signed s;
            }))

  abort_fails :
      (x : Result (Unit {0}) × Rotation R)
      → (IsErr x.0 → Undoable start x.1)
      → IsErr (abort_rekey out staging parse fixed x).0
      → Undoable start (abort_rekey out staging parse fixed x).1
  abort_fails (ok u, s) h e = absurd e
  abort_fails (err f, s) h e =
      undone start s (abort_warnings out staging parse fixed s) (ground arith) (h tt)

  abort_works :
      (x : Result (Unit {0}) × Rotation R)
      → (IsOk x.0 → IsRotated x.1)
      → IsOk (abort_rekey out staging parse fixed x).0
      → IsRotated (abort_rekey out staging parse fixed x).1
  abort_works (ok u, s) h o = h tt
  abort_works (err f, s) h o = absurd o

  pub Ends-rotate_all :
      (others : List Peer) (self : Peer)
      → All (Current start) others
      → Ends (Undoable start) IsRotated (rotate_all out staging parse fixed others self)
  unfolding rotate_all
  Ends-rotate_all others self current =
      let ends =
        Ends-bind (Undoable start) IsRotated (for_each others (rotate_peer out staging parse fixed))
          (λ _. rotate_self out staging parse fixed self)
          (Undoable-peers out staging parse fixed start others current)
          (λ _. Ends-rotate_self self) in
      record {
        fails = λ s u. abort_fails _ (ends.fails s u);
        works = λ s u. abort_works _ (ends.works s u);
      }
