-- ===== src/Ops/Rekey/Undoable.antt =====
-- internal/ops/rekey.go: the invariant of a rotation that can still be undone.
use certhold.Base.{
  ℕ, Text, Bool, true, false, Option, List, [], ◌∷◌, ◌++◌, map, All, ◌≡◌, ◌⊎◌, inl, inr, refl, ap,
  ◌∙◌, arith,
}
use certhold.Errors.{Result, ok, err}
use certhold.Exec.{Exec, modify, for_each}
use certhold.Exec.Keeps.{continue_keeps, Keeps, Keeps-bind, Keeps-if, Keeps-refuse, Keeps-pure}
use certhold.Db.{Db, Peer, peer_allowed_groups}
use certhold.Db.Peers.{set_peer_cert}
use certhold.Ops.{World, Op, Event, on_db, on_remote, emit, peer_failed}
use certhold.Ops.Contact.{Unwritten, Keeps-remote}
use certhold.Db.Groups.{get_peer_groups_table}
use certhold.Db.Hosts.{reachable_hosts}
use certhold.Ops.Outside.{Outside}
use certhold.Peerfiles.AuthorizedKeys.{ParsedKey}
use certhold.Ops.Rekey.Rotate.{
  Staging, Prior, Rotation, Fixed, in_world, mark_rotated, record_cert, rotate_unpushed, after_push,
  rotate_pushed, push_peer_rekey, new_trust, deliver, issued, sign_peer, rotate_peer,
}
use certhold.Ops.Rekey.Restore.{restored, Holds, restored_steps, set_peer_cert-db}

-- Putting back what was noted gives the database at the start, and the directories are not swapped.
abbrev pub Restorable : {R : Type 0} → Db → Rotation R → Type 0
Restorable start s =
    (map (restored s.prior) s.world.db.peers ≡ start.peers)
    × (record s.world.db { peers = start.peers } ≡ start)
    × (s.committed ≡ false)

abbrev pub IsRotated : {R : Type 0} → Rotation R → Type 0
IsRotated s = s.rotated ≡ true

-- The invariant of the rotation: until a trust line may have been written, the start can be restored.
abbrev pub Undoable : {R : Type 0} → Db → Rotation R → Type 0
Undoable start s = IsRotated s ⊎ Restorable start s

-- What is noted beside a certificate that is stored.
abbrev pub noted : Peer → Prior
noted p = record { name = p.name; cert = p.cert; serial = p.serial }

-- The peer is as the row of its name at the start.
abbrev pub Current : Db → Peer → Type 0
Current start p = All (Holds (noted p)) start.peers

module _ {R : Type 0} (start : Db) where
  pub undone :
      (s : Rotation R) (w : World R)
      → w.db ≡ s.world.db
      → Undoable start s
      → Undoable start (record s { world = w })
  undone s w e (inl r) = inl r
  undone s w e (inr u) = inr (ground (arith, u, e))

  -- Code that does not write the database.
  pub Undoable-in_world :
      {A : Type 0} (m : Op R A)
      → ((w : World R) → (m w).1.db ≡ w.db)
      → Keeps (Undoable start) (in_world m)
  Undoable-in_world m h = record { at = λ s u. undone s (m s.world).1 (h s.world) u }

  pub Undoable-remote :
      {A : Type 0} (m : Exec R A) → Keeps (Undoable start) (in_world (on_remote m))
  Undoable-remote m = Undoable-in_world (on_remote m) (λ w. refl)

  pub Undoable-emit : (e : Event) → Keeps (Undoable {R = R} start) (in_world (emit e))
  Undoable-emit e = Undoable-in_world (emit e) (λ w. refl)

  Undoable-mark : (b : Bool) → Keeps (Undoable {R = R} start) (mark_rotated b)
  Undoable-mark b = record { at = λ s. elim [ inl r ↦ inl (rw r refl) | inr u ↦ inr u ] }

  pub IsRotated-mark : (s : Rotation R) → IsRotated (mark_rotated true s).1
  IsRotated-mark s = ground (arith)

  Undoable-noted :
      (p : Peer) (signed : Text × ℕ) (s : Rotation R)
      → Current start p
      → Undoable start s
      → Undoable start (record s {
        prior = s.prior ++ (noted p ∷ []);
        world = record s.world { db = (set_peer_cert p.name signed.0 signed.1 s.world.db).1 };
      })
  Undoable-noted p signed s c (inl r) = inl r
  Undoable-noted p signed s c (inr u) = inr (
    ap (λ (db : Db). map (restored (s.prior ++ (noted p ∷ []))) db.peers)
          (set_peer_cert-db p.name signed.0 signed.1 s.world.db)
        ∙ restored_steps s.prior (noted p) signed.0 signed.1 s.world.db.peers (rw u.0 c)
        ∙ u.0,
    rw (set_peer_cert-db p.name signed.0 signed.1 s.world.db) u.1,
    u.2,
  )

  Undoable-updated :
      (name : Text)
      → Keeps (Undoable {R = R} start) (modify λ s. record s { updated = s.updated ++ (name ∷ []) })
  Undoable-updated name = record { at = λ s. elim [ inl r ↦ inl r | inr u ↦ inr u ] }

  Undoable-straggler :
      (name : Text)
      → Keeps
          (Undoable {R = R} start)
          (modify λ s. record s { stragglers = s.stragglers ++ (name ∷ []) })
  Undoable-straggler name = record { at = λ s. elim [ inl r ↦ inl r | inr u ↦ inr u ] }

  Undoable-unpushed :
      (p : Peer) (signed : Text × ℕ)
      → Current start p
      → Keeps (Undoable {R = R} start) (rotate_unpushed p signed)
  unfolding rotate_unpushed
  Undoable-unpushed p signed c = record {
    at = λ s u.
        let kept : Rotation R = record s { prior = s.prior ++ (noted p ∷ []) } in
        continue_keeps (Undoable start)
          (in_world (on_db (set_peer_cert p.name signed.0 signed.1)) kept) _
          (λ _. search (Keeps-bind, Undoable-updated, Undoable-emit) depth 5)
          (Undoable-noted p signed s c u);
  }

-- A rotation that has written a trust line keeps the mark.
module _ {R : Type 0} where
  pub IsRotated-in_world : {A : Type 0} (m : Op R A) → Keeps IsRotated (in_world m)
  IsRotated-in_world m = record { at = λ s h. h }

  IsRotated-updated :
      (name : Text)
      → Keeps (IsRotated {R = R}) (modify λ s. record s { updated = s.updated ++ (name ∷ []) })
  IsRotated-updated name = record { at = λ s h. h }

  pub IsRotated-record_cert :
      (name : Text) (signed : Text × ℕ) → Keeps (IsRotated {R = R}) (record_cert name signed)
  unfolding record_cert
  IsRotated-record_cert name signed =
      search (Keeps-bind, IsRotated-updated, IsRotated-in_world) depth 7

  -- A certificate is stored after a push only when the mark is set.
  Undoable-after_push :
      (start : Db) (p : Peer) (signed : Text × ℕ) (outcome : Bool × Result (Unit {0}))
      → Keeps (Undoable {R = R} start) (after_push p signed outcome)
  unfolding after_push
  Undoable-after_push start p signed (wrote, err e) =
      search
        (
          Keeps-bind,
          Undoable-mark start wrote,
          Undoable-straggler start p.name,
          Undoable-emit start (peer_failed p.name e),
        )
        depth 5
  Undoable-after_push start p signed (wrote, ok u) = record {
    at = λ s h.
        inl (
          (IsRotated-record_cert p.name signed).at (mark_rotated true s).1
            (IsRotated-mark start s));
  }

module _ {R : Type 0} (out : Outside R) (staging : Staging R) (parse : Text → Option ParsedKey)
    (fixed : Fixed) (start : Db) where
  new_trust-Unwritten :
      (p : Peer) (allowed : List Text) (db : Db)
      → Keeps (Unwritten db) (new_trust out staging parse fixed p allowed)
  unfolding new_trust
  new_trust-Unwritten p allowed db =
      search (Keeps-bind, Keeps-refuse, Keeps-remote, Keeps-pure) depth 9

  deliver-Unwritten :
      (p : Peer) (cert block content : Text) (db : Db)
      → Keeps (Unwritten db) (deliver out staging parse fixed p cert block content)
  unfolding deliver
  deliver-Unwritten p cert block content db = search (Keeps-bind, Keeps-remote) depth 9

  issued-db :
      (p : Peer) (cert block : Text) (x : Result Text × World R)
      → (issued out staging parse fixed p cert block x).1.db ≡ x.1.db
  issued-db p cert block (ok content, w) = (deliver-Unwritten p cert block content w.db).at w refl
  issued-db p cert block (err e, w) = refl

  -- A push does not write the database.
  pub push_peer_rekey-db :
      (p : Peer) (allowed : List Text) (cert block : Text) (w : World R)
      → (push_peer_rekey out staging parse fixed p allowed cert block w).1.db ≡ w.db
  unfolding push_peer_rekey
  push_peer_rekey-db p allowed cert block w =
      issued-db p cert block (new_trust out staging parse fixed p allowed w)
      ∙ (new_trust-Unwritten p allowed w.db).at w refl

  Undoable-push :
      (p : Peer) (allowed : List Text) (cert block : Text)
      → Keeps
          (Undoable start)
          (in_world (push_peer_rekey out staging parse fixed p allowed cert block))
  Undoable-push p allowed cert block =
      Undoable-in_world start _ (push_peer_rekey-db p allowed cert block)

  Undoable-allowed :
      (p : Peer)
      → Keeps
          (Undoable {R = R} start)
          (in_world (on_db (get_peer_groups_table peer_allowed_groups p.name)))
  Undoable-allowed p = Undoable-in_world start _ (λ w. unfold get_peer_groups_table in refl)

  Undoable-hosts :
      (p : Peer) → Keeps (Undoable {R = R} start) (in_world (on_db (reachable_hosts p.name)))
  Undoable-hosts p = Undoable-in_world start _ (λ w. unfold reachable_hosts in refl)

  Undoable-pushed :
      (p : Peer) (signed : Text × ℕ)
      → Keeps (Undoable start) (rotate_pushed out staging parse fixed p signed)
  unfolding rotate_pushed
  Undoable-pushed p signed =
      search
        (
          Keeps-bind, Undoable-allowed, Undoable-hosts, Undoable-emit, Undoable-push,
          Undoable-after_push,
        )
        depth 9

  sign_peer-db :
      (name pub_key : Text) (self : Bool) (w : World R)
      → (sign_peer out staging parse fixed name pub_key self w).1.db ≡ w.db
  unfolding sign_peer get_peer_groups_table
  sign_peer-db name pub_key self w = refl

  pub Undoable-sign :
      (name pub_key : Text) (self : Bool)
      → Keeps (Undoable start) (in_world (sign_peer out staging parse fixed name pub_key self))
  Undoable-sign name pub_key self = Undoable-in_world start _ (sign_peer-db name pub_key self)

  Undoable-rotate_peer :
      (p : Peer) → Current start p → Keeps (Undoable start) (rotate_peer out staging parse fixed p)
  unfolding rotate_peer
  Undoable-rotate_peer p c =
      search (Keeps-bind, Undoable-sign, Keeps-if, Undoable-unpushed, Undoable-pushed) depth 9

  pub Undoable-peers :
      (ps : List Peer)
      → All (Current start) ps
      → Keeps (Undoable start) (for_each ps (rotate_peer out staging parse fixed))
  unfolding for_each
  Undoable-peers [] cs = record { at = λ s u. u }
  Undoable-peers (p ∷ ps) cs = record {
    at = λ s u.
        continue_keeps (Undoable start) (rotate_peer out staging parse fixed p s)
          (λ _. for_each ps (rotate_peer out staging parse fixed)) (λ _. Undoable-peers ps cs.1)
          ((Undoable-rotate_peer p cs.0).at s u);
  }
