-- ===== src/Ops/Groups/Loop.antt =====
-- The loop of `GroupDelete` and what goes before it, as code that does not drop the group.
use certhold.Base.{
  Text, Bool, true, false, not, ◌==◌, Option, none, some, List, [], ◌∷◌, ◌++◌, is_empty, contains,
  arith,
}
use certhold.Errors.{peer_not_found, Result, ok, err}
use certhold.Exec.{◌>>=◌, ◌>>◌, pure, lift}
use certhold.Exec.Keeps.{Keeps, Keeps-bind, Keeps-if, Keeps-refuse, Keeps-pure}
use certhold.Db.{Peer, peer_groups, peer_allowed_groups}
use certhold.Db.Peers.{get_peer}
use certhold.Db.Groups.{set_peer_groups, set_peer_allowed_groups, get_peer_groups_table}
use certhold.Db.Meta.{get_meta, self_name}
use certhold.Peerfiles.AuthorizedKeys.{ParsedKey}
use certhold.Ops.{World, Op, info, peer_start, on_db, on_remote, emit}
use certhold.Ops.Outside.{Outside}
use certhold.Ops.Push.{
  skip_push, push_group_cascade, sign_and_store_peer_cert, when, rewrite_remote,
}
use certhold.Ops.SelfName.{resolve_self_name, ensure_instance_key, persisted_or, key_or_new}
use certhold.Ops.Groups.{
  load_group_cascade, over_affected, deleted_peer, dropped, disallowed, unless_revoked, prepare,
  push_step, straggling, found_or_gone, GroupCascade, Cascade, remove_str,
}
use certhold.Ops.Groups.Keep.{
  StillThere, reads_get_peer, reads_get_group_peers, reads_get_peer_groups, reads_group_exists,
  reads_get_meta, There-set_meta, There-set_peer_cert, There-set_peer_groups,
  There-set_peer_allowed_groups, Still-on_db, Still-on_remote, Still-emit,
}

module _ {R : Type 0} (out : Outside R) (parse : Text → Option ParsedKey) (g : Text) where
  Still-when :
      (b : Bool) (m : Op R (Unit {0}))
      → Keeps (StillThere g) m
      → Keeps (StillThere g) (when out b m)
  Still-when true m k = record { at = k.at }
  Still-when false m k = record { at = λ w h. h }

  Still-lift : {A : Type 0} (r : Result A) → Keeps (StillThere {R = R} g) (lift r)
  Still-lift r = record { at = λ w h. h }

  ruleset steps = (
    Keeps-bind, Keeps-pure, Keeps-refuse, Still-when, Still-lift, Still-emit, Still-on_remote,
    Still-on_db, reads_get_peer, reads_get_group_peers, reads_get_peer_groups, reads_group_exists,
    reads_get_meta, There-set_meta, There-set_peer_cert, There-set_peer_groups,
    There-set_peer_allowed_groups,
  )

  Still-rewrite_remote :
      (host : Text) (p : Peer) (ca : Text) (allowed : List Text)
      → Keeps (StillThere g) (rewrite_remote out parse host p ca allowed)
  unfolding rewrite_remote
  Still-rewrite_remote host p ca allowed = search steps depth 9

  Still-push :
      (p : Peer) (key ca : Text) (is_member : Bool) (cert : Text) (is_allow : Bool)
      (allowed : List Text)
      → Keeps
          (StillThere g)
          (push_group_cascade out parse p key ca is_member cert is_allow allowed false)
  unfolding push_group_cascade
  Still-push p key ca is_member cert is_allow allowed =
      search (steps, Still-rewrite_remote) depth 12

  Still-sign :
      (p : Peer) (groups : List Text) (self : Bool)
      → Keeps (StillThere g) (sign_and_store_peer_cert out p groups self)
  unfolding sign_and_store_peer_cert
  Still-sign p groups self = search steps depth 9

  straggling_still :
      (name : Text) (x : Result (Unit {0}) × World R)
      → StillThere g x.1
      → StillThere g (straggling out parse name x).1
  straggling_still name (ok u, w) h = h
  straggling_still name (err e, w) h = h

  found_still : (x : Result Peer × World R) → StillThere g x.1 → StillThere g (found_or_gone x).1
  found_still (ok p, w) h = h
  found_still (err peer_not_found, w) h = h
  found_still (err _, w) h = h

  Still-dropped :
      (b : Bool) (name : Text) (p : Peer) (self : Text)
      → Keeps (StillThere g) (dropped out parse b g name p self)
  Still-dropped true name p self =
      let k : Keeps (StillThere {R = R} g) (do
        groups ← on_db (get_peer_groups_table peer_groups name)
        cert ← sign_and_store_peer_cert out p (remove_str groups g) (name == self)
        on_db (set_peer_groups name (remove_str groups g))
        pure cert) =
        search (steps, Still-sign) depth 9 in
      record { at = k.at }
  Still-dropped false name p self = record { at = λ w h. h }

  Still-disallowed : (b : Bool) (name : Text) → Keeps (StillThere g) (disallowed out parse b g name)
  Still-disallowed true name =
      let k : Keeps (StillThere {R = R} g) (do
        allowed ← on_db (get_peer_groups_table peer_allowed_groups name)
        on_db (set_peer_allowed_groups name (remove_str allowed g))
        pure (remove_str allowed g)) =
        search steps depth 9 in
      record { at = k.at }
  Still-disallowed false name = record { at = λ w h. h }

  Still-push_step :
      (name : Text) (p : Peer) (push : Op R (Unit {0}))
      → Keeps (StillThere g) push
      → Keeps (StillThere g) (push_step out parse name p push)
  Still-push_step name p push k =
      let skipped : Op R (List Text) = (do emit (info name); pure []) in
      let started : Op R (Unit {0}) = (do emit (peer_start name); push) in
      let tried : Op R (List Text) = λ w. straggling out parse name (started w) in
      let ks : Keeps (StillThere g) skipped = search steps depth 5 in
      let kt : Keeps (StillThere g) tried = record {
        at = λ w h.
            straggling_still name (started w)
              (k.at (record w { events = peer_start name ∷ w.events }) h);
      } in
      record { at = (Keeps-if (StillThere g) (skip_push p) skipped tried ks kt).at }

  Still-unless_revoked :
      (p : Peer) (m : Op R (List Text))
      → Keeps (StillThere g) m
      → Keeps (StillThere g) (unless_revoked out parse p m)
  Still-unless_revoked p m k = record {
    at = (Keeps-if (StillThere g) p.revoked (pure []) m (Keeps-pure (StillThere g) []) k).at;
  }

  Still-deleted_peer :
      (c : Cascade) (name : Text) (o : Option Peer)
      → Keeps (StillThere g) (deleted_peer out parse g c name o)
  Still-deleted_peer c name none = record { at = λ w h. h }
  Still-deleted_peer c name (some p) =
      let is_member = contains c.cascade.members name in
      let is_allow = contains c.cascade.allowed_by name in
      let k : Keeps (StillThere g) (do
        cert ← dropped out parse is_member g name p c.self
        allowed ← disallowed out parse is_allow g name
        push_step out parse name p
            (push_group_cascade out parse p c.key c.ca is_member cert is_allow allowed false)) =
        search (steps, Still-dropped, Still-disallowed, Still-push_step, Still-push) depth 9 in
      record { at = (Still-unless_revoked p _ k).at }

  Still-found :
      (name : Text) → Keeps (StillThere {R = R} g) (λ w. found_or_gone (on_db (get_peer name) w))
  Still-found name = record {
    at = λ w h.
        found_still (on_db (get_peer name) w)
          ((Still-on_db g (get_peer name) (reads_get_peer g name)).at w h);
  }

  pub Still-over_affected :
      (c : Cascade) (names : List Text)
      → Keeps (StillThere g) (over_affected out parse (deleted_peer out parse g c) names)
  unfolding over_affected
  Still-over_affected c [] = record { at = λ w h. h }
  Still-over_affected c (name ∷ names) =
      let P = StillThere {R = R} g in
      let tail = Still-over_affected c names in
      let k =
        Keeps-bind P (λ w. found_or_gone (on_db (get_peer name) w)) _ (Still-found name)
          (λ p.
            Keeps-bind P (deleted_peer out parse g c name p) _ (Still-deleted_peer c name p)
              (λ late.
                Keeps-bind P (over_affected out parse (deleted_peer out parse g c) names) _ tail
                  (λ later. Keeps-pure P (late ++ later)))) in
      record { at = k.at }

  pub Still-load : (name : Text) → Keeps (StillThere {R = R} g) (load_group_cascade name)
  unfolding load_group_cascade
  Still-load name = search steps depth 9

  Still-persisted_or : (o : Option Text) → Keeps (StillThere g) (persisted_or out o)
  Still-persisted_or none = record { at = λ w h. h }
  Still-persisted_or (some v) = record { at = λ w h. ground (arith, h) }

  pub Still-self_name : (hostname : Text) → Keeps (StillThere g) (resolve_self_name out hostname)
  unfolding resolve_self_name
  Still-self_name hostname =
      let stored : Op R Text = on_db (get_meta self_name) >>= persisted_or out in
      let ks : Keeps (StillThere g) stored = search (steps, Still-persisted_or) depth 9 in
      record {
        at =
            (Keeps-if (StillThere g) (is_empty hostname) stored (pure hostname) ks
              (Keeps-pure (StillThere g) hostname)).at;
      }

  Still-key_or_new : (o : Option Text) → Keeps (StillThere g) (key_or_new out o)
  Still-key_or_new none = search steps depth 9
  Still-key_or_new (some k) = record { at = λ w h. h }

  Still-ensure_key : Keeps (StillThere g) (ensure_instance_key out)
  unfolding ensure_instance_key
  Still-ensure_key = search (steps, Still-key_or_new) depth 9

  pub Still-prepare :
      (c : GroupCascade) (self : Text) → Keeps (StillThere g) (prepare out parse c self)
  Still-prepare c self =
      let k : Keeps (StillThere {R = R} g) (do
        when out (not (is_empty c.members)) (on_remote out.load_ca)
        ca ← on_remote out.ca_pub
        key ← ensure_instance_key out
        pure (record { cascade = c; ca = ca; key = key; self = self })) =
        search (steps, Still-ensure_key) depth 9 in
      record { at = k.at }
