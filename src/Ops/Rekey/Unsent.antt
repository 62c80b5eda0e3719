-- ===== src/Ops/Rekey/Unsent.antt =====
-- internal/ops/rekey.go: until the rotation is marked, no file of another peer was written.
use certhold.Base.{
  ℕ, Text, Bool, true, false, Option, List, [], ◌∷◌, ◌++◌, ◌⊎◌, inl, inr, ◌≡◌, refl, arith,
}
use certhold.Errors.{Result, ok, err}
use certhold.Exec.{Exec, ◌>>=◌, continue, modify, for_each}
use certhold.Exec.Keeps.{Keeps, Keeps-bind, Keeps-if, Keeps-refuse, Keeps-pure, Keeps-for_each}
use certhold.Db.{Db, Peer}
use certhold.Ops.{World, Op, Event, on_db, on_remote, emit}
use certhold.Ops.Outside.{Outside}
use certhold.Peerfiles.AuthorizedKeys.{ParsedKey}
use certhold.Ops.Rekey.Rotate.{
  Staging, Prior, Rotation, Fixed, in_world, put_world, mark_rotated, record_cert, rotate_unpushed,
  after_push, rotate_pushed, push_peer_rekey, new_trust, deliver, issued, delivered, sign_peer,
  rotate_peer, write_self_rekey, rotate_self, rotate_all, abort_rekey, or_empty,
}
use certhold.Ops.Rekey.Undoable.{IsRotated, IsRotated-mark, IsRotated-record_cert}

-- What the rotation calls outside before its directories are swapped keeps `P`, but for the write of a
-- file on a peer and what comes after it.
pub record KeepsUnsent {R : Type 0} (P : R → Type 0) (out : Outside R) (staging : Staging R)
    : Type 0 where
  pub generate : (pass : Option Text) → Keeps P (staging.generate pass)
  pub ca_pubs : Keeps P out.instance_ca_pubs
  pub sign :
      (key name : Text) (principals : List Text) → Keeps P (staging.sign_next key name principals)
  pub dials : (host user : Text) → Keeps P (out.dial host user)
  pub reads : (host path : Text) → Keeps P (out.read_file host path)
  pub makes_dir : (path : Text) → Keeps P (staging.make_dir path)
  pub reads_own : (path : Text) → Keeps P (staging.read_local path)
  pub writes_own : (path content : Text) → Keeps P (staging.write_local path content)

-- Either the rotation is marked, or the outside is still as `P` says.
abbrev pub Unsent : {R : Type 0} → (R → Type 0) → Rotation R → Type 0
Unsent P s = IsRotated s ⊎ P s.world.remote

abbrev Quiet : {R : Type 0} → (R → Type 0) → World R → Type 0
Quiet P w = P w.remote

module _ {R : Type 0} (P : R → Type 0) where
  Quiet-remote : {A : Type 0} (m : Exec R A) → Keeps P m → Keeps (Quiet P) (on_remote m)
  Quiet-remote m k = record { at = λ w h. k.at w.remote h }

  Quiet-on_db : {A : Type 0} (m : Exec Db A) → Keeps (Quiet P) (on_db m)
  Quiet-on_db m = record { at = λ w h. h }

  Quiet-emit : (e : Event) → Keeps (Quiet P) (emit e)
  Quiet-emit e = record { at = λ w h. h }

  pub Unsent-in_world :
      {A : Type 0} (m : Op R A) → Keeps (Quiet P) m → Keeps (Unsent P) (in_world m)
  Unsent-in_world m k = record { at = λ s. elim [ inl r ↦ inl r | inr u ↦ inr (k.at s.world u) ] }

  pub Unsent-remote :
      {A : Type 0} (m : Exec R A) → Keeps P m → Keeps (Unsent P) (in_world (on_remote m))
  Unsent-remote m k = Unsent-in_world (on_remote m) (Quiet-remote m k)

  Unsent-mark : (b : Bool) → Keeps (Unsent P) (mark_rotated b)
  Unsent-mark b = record { at = λ s. elim [ inl r ↦ inl (rw r refl) | inr u ↦ inr u ] }

  Unsent-updated :
      (name : Text) → Keeps (Unsent P) (modify λ s. record s { updated = s.updated ++ (name ∷ []) })
  Unsent-updated name = record { at = λ s u. u }

  Unsent-straggler :
      (name : Text)
      → Keeps (Unsent P) (modify λ s. record s { stragglers = s.stragglers ++ (name ∷ []) })
  Unsent-straggler name = record { at = λ s u. u }

  Unsent-noted :
      (p : Prior) → Keeps (Unsent P) (modify λ s. record s { prior = s.prior ++ (p ∷ []) })
  Unsent-noted p = record { at = λ s u. u }

  ruleset unsent_rules = (
    Keeps-bind, Keeps-if, Keeps-refuse, Keeps-pure, Quiet-remote, Quiet-on_db, Quiet-emit,
    Unsent-in_world, Unsent-mark, Unsent-updated, Unsent-straggler, Unsent-noted,
  )

  Unsent-record_cert :
      (name : Text) (signed : Text × ℕ) → Keeps (Unsent P) (record_cert name signed)
  unfolding record_cert
  Unsent-record_cert name signed = search unsent_rules depth 9

  Unsent-unpushed : (p : Peer) (signed : Text × ℕ) → Keeps (Unsent P) (rotate_unpushed p signed)
  unfolding rotate_unpushed
  Unsent-unpushed p signed = search unsent_rules depth 12

  -- A push that failed before the write leaves the outside as it was.
  after_early :
      (p : Peer) (signed : Text × ℕ) (e : _) → Keeps (Unsent P) (after_push p signed (false, err e))
  unfolding after_push
  after_early p signed e = search unsent_rules depth 9

-- A push whose write was issued is marked, whatever came of it.
after_issued :
    {R : Type 0} (p : Peer) (signed : Text × ℕ) (r : Result (Unit {0})) (s : Rotation R)
    → IsRotated (after_push p signed (true, r) s).1
unfolding after_push
after_issued p signed (ok u) s =
    (IsRotated-record_cert p.name signed).at (mark_rotated true s).1 (IsRotated-mark s.world.db s)
after_issued p signed (err e) s = IsRotated-mark s.world.db s

module _ {R : Type 0} (P : R → Type 0) (out : Outside R) (staging : Staging R)
    (parse : Text → Option ParsedKey) (fixed : Fixed) (keeps : KeepsUnsent P out staging) where
  Quiet-new_trust :
      (p : Peer) (allowed : List Text)
      → Keeps (Quiet P) (new_trust out staging parse fixed p allowed)
  unfolding new_trust
  Quiet-new_trust p allowed =
      search (Keeps-bind, Keeps-refuse, Keeps-pure, Quiet-remote, keeps.dials, keeps.reads) depth 9

  after_all :
      (p : Peer) (signed : Text × ℕ) (r : Result (Unit {0}) × World R) (s : Rotation R)
      → IsRotated
          (continue (put_world s (delivered out staging parse fixed r)) (after_push p signed)).1
  after_all p signed (r, w) s = after_issued p signed r (record s { world = w })

  Unsent-issued :
      (p : Peer) (signed : Text × ℕ) (block : Text) (x : Result Text × World R) (s : Rotation R)
      → IsRotated s ⊎ P x.1.remote
      → Unsent P
          (continue
            (put_world s (issued out staging parse fixed p signed.0 block x))
            (after_push p signed)).1
  Unsent-issued p signed block (err e, w) s u =
      (after_early P p signed e).at (record s { world = w }) u
  Unsent-issued p signed block (ok content, w) s u =
      inl (after_all p signed (deliver out staging parse fixed p signed.0 block content w) s)

  Unsent-push :
      (p : Peer) (allowed : List Text) (signed : Text × ℕ) (block : Text)
      → Keeps (Unsent P) (
          in_world (push_peer_rekey out staging parse fixed p allowed signed.0 block)
          >>= after_push p signed)
  unfolding push_peer_rekey
  Unsent-push p allowed signed block = record {
    at = λ s u.
        Unsent-issued p signed block (new_trust out staging parse fixed p allowed s.world) s
          (elim u [ inl r ↦ inl r | inr q ↦ inr ((Quiet-new_trust p allowed).at s.world q) ]);
  }

  Unsent-pushed :
      (p : Peer) (signed : Text × ℕ)
      → Keeps (Unsent P) (rotate_pushed out staging parse fixed p signed)
  unfolding rotate_pushed
  Unsent-pushed p signed =
      search (Unsent-push, Keeps-bind, Unsent-in_world, Quiet-on_db, Quiet-emit) depth 9

  Unsent-sign :
      (name key : Text) (self : Bool)
      → Keeps (Unsent P) (in_world (sign_peer out staging parse fixed name key self))
  unfolding sign_peer
  Unsent-sign name key self =
      search (Unsent-in_world, Keeps-bind, Quiet-on_db, Quiet-remote, keeps.sign) depth 9

  Unsent-rotate_peer : (p : Peer) → Keeps (Unsent P) (rotate_peer out staging parse fixed p)
  unfolding rotate_peer
  Unsent-rotate_peer p =
      search (Keeps-bind, Unsent-sign, Keeps-if, Unsent-unpushed, Unsent-pushed) depth 9

  or_empty-remote :
      (x : Result Text × World R) → (or_empty out staging parse fixed x).1.remote ≡ x.1.remote
  or_empty-remote (ok content, w) = refl
  or_empty-remote (err e, w) = refl

  Quiet-or_empty :
      (path : Text)
      → Keeps
          (Quiet P)
          (λ w. or_empty out staging parse fixed (on_remote (staging.read_local path) w))
  Quiet-or_empty path = record {
    at = λ w h. rw (or_empty-remote _) ((keeps.reads_own path).at w.remote h);
  }

  Quiet-write_self :
      (self : Peer) (cert : Text)
      → Keeps (Quiet P) (write_self_rekey out staging parse fixed self cert)
  unfolding write_self_rekey
  Quiet-write_self self cert =
      search (Keeps-bind, Quiet-or_empty, Quiet-remote, keeps.makes_dir, keeps.writes_own) depth 9

  Unsent-rotate_self : (self : Peer) → Keeps (Unsent P) (rotate_self out staging parse fixed self)
  unfolding rotate_self
  Unsent-rotate_self self =
      search
        (
          Keeps-bind, Unsent-sign, Unsent-in_world, Quiet-write_self, Unsent-mark,
          Unsent-record_cert,
        )
        depth 9

  aborted :
      (x : Result (Unit {0}) × Rotation R)
      → Unsent P x.1
      → Unsent P (abort_rekey out staging parse fixed x).1
  aborted (ok u, s) h = h
  aborted (err e, s) h = elim h [ inl r ↦ inl r | inr q ↦ inr (ground (arith, q)) ]

  pub Unsent-rotate_all :
      (others : List Peer) (self : Peer)
      → Keeps (Unsent P) (rotate_all out staging parse fixed others self)
  unfolding rotate_all
  Unsent-rotate_all others self =
      let all =
        Keeps-bind (Unsent P) (for_each others (rotate_peer out staging parse fixed))
          (λ _. rotate_self out staging parse fixed self)
          (Keeps-for_each (Unsent P) others (rotate_peer out staging parse fixed)
            Unsent-rotate_peer)
          (λ _. Unsent-rotate_self self) in
      record { at = λ s u. aborted _ (all.at s u) }
