-- ===== src/Ops/Rekey/Rotate.antt =====
-- internal/ops/rekey.go: the rotation of the peers and of the manager's own files, over the variables
-- that the clean-up of a failed rotation reads.
use certhold.Base.{
  ℕ, Text, text, Bool, true, false, ◌||◌, Option, List, [], ◌∷◌, ◌++◌, is_empty, if◌then◌else◌,
}
use certhold.Errors.{external, Result, ok, err}
use certhold.Exec.{Exec, ◌>>=◌, ◌>>◌, pure, modify, refuse_if, for_each}
use certhold.Db.{Peer, peer_groups, peer_allowed_groups}
use certhold.Db.Peers.{dial_host, set_peer_cert}
use certhold.Db.Groups.{get_peer_groups_table}
use certhold.Db.Hosts.{reachable_hosts}
use certhold.Peerfiles.AuthorizedKeys.{ParsedKey, replace_ca_lines}
use certhold.Peerfiles.Layout.{home_of, or_root, cert_file_name, paths_for}
use certhold.Peerfiles.Principals.{cert_principals}
use certhold.Ops.{World, Op, info, peer_start, peer_done, peer_failed, warn, on_db, on_remote, emit}
use certhold.Ops.Outside.{Outside}
use certhold.Ops.Push.{
  skip_push, push_user, peer_cert_path, peer_authorized_keys_path, config_block_for_hosts,
}
use certhold.Ops.Rekey.{user_authorized_keys_line}

-- What the rotation calls outside, beside `Outside`: the data directory, the passphrases, and the CA
-- that is staged in ca.next.
pub record Staging (R : Type 0) : Type 0 where
  -- `os.Stat` of an entry of the data directory: whether it is there
  pub stat : Text → R → Result Bool
  -- `os.Rename`, `os.RemoveAll`, `os.MkdirAll`, `os.ReadFile` and `writeFileAtomicLocal`
  pub rename : Text → Text → Exec R (Unit {0})
  pub remove_all : Text → Exec R (Unit {0})
  pub make_dir : Text → Exec R (Unit {0})
  pub read_local : Text → Exec R Text
  pub write_local : Text → Text → Exec R (Unit {0})
  -- `time.Now` as a time stamp
  pub stamp : R → Text
  -- `NewPassphrase`, `CAKeyEncrypted` and `CAUnlock`
  pub new_passphrase : Exec R Text
  pub ca_key_encrypted : Exec R Bool
  pub ca_unlock : Option (Exec R Text)
  -- `generateCA` in ca.next: the line of the new public key
  pub generate : Option Text → Exec R Text
  -- `ssh.ParseAuthorizedKey`, and `SignCert` of the new CA
  pub sign_next : Text → Text → List Text → Exec R (Text × ℕ)

-- `dbOnlyCert`
pub record Prior : Type 0 where
  pub name : Text
  pub cert : Text
  pub serial : ℕ

-- The variables of `Rekey` that the loop, the clean-up and the report share.
pub record Rotation (R : Type 0) : Type 0 where
  pub world : World R
  pub committed : Bool
  pub rotated : Bool
  pub prior : List Prior
  pub updated : List Text
  pub stragglers : List Text

-- What is fixed for the whole rotation.
pub record Fixed : Type 0 where
  pub key : Text
  pub hostname : Text
  pub new_ca : Text
  pub retired : List Text

module _ {R A : Type 0} where
  abbrev pub put_world : Rotation R → Result A × World R → Result A × Rotation R
  put_world s (r, w) = (r, record s { world = w })

  abbrev pub in_world : Op R A → Exec (Rotation R) A
  in_world m s = put_world s (m s.world)

module _ {R : Type 0} where
  abbrev pub mark_rotated : Bool → Exec (Rotation R) (Unit {0})
  mark_rotated b = modify λ s. record s { rotated = s.rotated || b }

  -- `SetPeerCert`, and what follows it when it succeeds.
  unfoldable pub record_cert : Text → Text × ℕ → Exec (Rotation R) (Unit {0})
  record_cert name signed = do
    in_world (on_db (set_peer_cert name signed.0 signed.1))
    modify λ s. record s { updated = s.updated ++ (name ∷ []) }
    in_world (emit (peer_done name))

  -- The branch of `skipPushNotice`.
  unfoldable pub rotate_unpushed : Peer → Text × ℕ → Exec (Rotation R) (Unit {0})
  rotate_unpushed p signed = do
    modify λ s. record s {
      prior = s.prior ++ (record { name = p.name; cert = p.cert; serial = p.serial } ∷ []);
    }
    in_world (on_db (set_peer_cert p.name signed.0 signed.1))
    in_world (emit (info p.name))
    modify λ s. record s { updated = s.updated ++ (p.name ∷ []) }
    in_world (emit (peer_done p.name))

  -- What the loop does with the outcome of a push: whether the trust line may have been written, and
  -- the result.
  unfoldable pub after_push :
      Peer → Text × ℕ → Bool × Result (Unit {0}) → Exec (Rotation R) (Unit {0})
  unfolding record_cert
  after_push p signed (wrote, err e) = do
    mark_rotated wrote
    modify λ s. record s { stragglers = s.stragglers ++ (p.name ∷ []) }
    in_world (emit (peer_failed p.name e))
  after_push p signed (wrote, ok u) = do mark_rotated true; record_cert p.name signed

module _ {R : Type 0} (out : Outside R) (staging : Staging R) (parse : Text → Option ParsedKey)
    (fixed : Fixed) where
  -- `pushPeerRekey` up to the write of the trust line.
  unfoldable pub new_trust : Peer → List Text → Op R Text
  unfolding push_user peer_authorized_keys_path user_authorized_keys_line replace_ca_lines
  new_trust p allowed = do
    refuse_if (is_empty p.name) external
    on_remote (out.dial (dial_host p) (push_user p))
    existing ← on_remote (out.read_file (dial_host p) (peer_authorized_keys_path p))
    pure (
        replace_ca_lines parse existing fixed.retired
          (user_authorized_keys_line fixed.new_ca allowed))

  -- `pushPeerRekey` from the write of the trust line on.
  unfoldable pub deliver : Peer → Text → Text → Text → Op R (Unit {0})
  unfolding peer_authorized_keys_path peer_cert_path paths_for
  deliver p cert block content = do
    on_remote (out.write_file (dial_host p) (peer_authorized_keys_path p) content)
    on_remote (out.write_file (dial_host p) (peer_cert_path p fixed.key) cert)
    on_remote (
        out.splice_config (dial_host p) (paths_for p.target_user fixed.key).config_target fixed.key
          block)
    on_remote (out.verify_health (dial_host p))

  abbrev pub delivered : Result (Unit {0}) × World R → Result (Bool × Result (Unit {0})) × World R
  delivered (r, w) = (ok (true, r), w)

  abbrev pub issued :
      Peer → Text → Text → Result Text × World R → Result (Bool × Result (Unit {0})) × World R
  issued p cert block (err e, w) = (ok (false, err e), w)
  issued p cert block (ok content, w) = delivered (deliver p cert block content w)

  -- `pushPeerRekey`: whether the write of the trust line was issued, and the result.
  unfoldable pub push_peer_rekey : Peer → List Text → Text → Text → Op R (Bool × Result (Unit {0}))
  unfolding new_trust deliver
  push_peer_rekey p allowed cert block w = issued p cert block (new_trust p allowed w)

  -- The branch that pushes.
  unfoldable pub rotate_pushed : Peer → Text × ℕ → Exec (Rotation R) (Unit {0})
  unfolding push_peer_rekey config_block_for_hosts after_push
  rotate_pushed p signed = do
    allowed ← in_world (on_db (get_peer_groups_table peer_allowed_groups p.name))
    hosts ← in_world (on_db (reachable_hosts p.name))
    in_world (emit (peer_start p.name))
    outcome ← in_world (push_peer_rekey p allowed signed.0 (config_block_for_hosts fixed.key hosts))
    after_push p signed outcome

  -- The new certificate of a peer.
  unfoldable pub sign_peer : Text → Text → Bool → Op R (Text × ℕ)
  unfolding cert_principals
  sign_peer name pub_key self = do
    groups ← on_db (get_peer_groups_table peer_groups name)
    on_remote (staging.sign_next pub_key name (cert_principals name groups self))

  -- The body of the loop over the peers.
  unfoldable pub rotate_peer : Peer → Exec (Rotation R) (Unit {0})
  unfolding sign_peer rotate_unpushed rotate_pushed skip_push
  rotate_peer p = do
    signed ← in_world (sign_peer p.name p.authorized_key false)
    λ s. if skip_push p then rotate_unpushed p signed s else rotate_pushed p signed s

  abbrev pub or_empty : Result Text × World R → Result Text × World R
  or_empty (ok content, w) = (ok content, w)
  or_empty (err e, w) = (ok [], w)

  -- `writeSelfRekey`; a file that cannot be read counts as empty.
  unfoldable pub write_self_rekey : Peer → Text → Op R (Unit {0})
  unfolding home_of cert_file_name user_authorized_keys_line replace_ca_lines
  write_self_rekey self cert = do
    let base = text "self" ++ (home_of (or_root self.target_user) ++ text "/.ssh")
    on_remote (staging.make_dir base)
    existing ← λ w. or_empty (on_remote (staging.read_local (base ++ text "/authorized_keys")) w)
    on_remote (
        staging.write_local (base ++ text "/authorized_keys") (
          replace_ca_lines parse existing fixed.retired
            (user_authorized_keys_line fixed.new_ca [])))
    on_remote (staging.write_local (base ++ (text "/" ++ cert_file_name fixed.key)) cert)

  -- The manager's own row and files, after the loop.
  unfoldable pub rotate_self : Peer → Exec (Rotation R) (Unit {0})
  unfolding sign_peer write_self_rekey record_cert
  rotate_self self = do
    signed ← in_world (sign_peer fixed.hostname self.authorized_key true)
    in_world (write_self_rekey self signed.0)
    mark_rotated true
    record_cert fixed.hostname signed

  -- `abortRekey`: the error is given back after the warnings.
  abbrev pub abort_warnings : Rotation R → World R
  abort_warnings s =
      let told = record s.world { events = warn [] ∷ s.world.events } in
      if is_empty s.updated then told else record told { events = warn [] ∷ told.events }

  abbrev pub abort_rekey : Result (Unit {0}) × Rotation R → Result (Unit {0}) × Rotation R
  abort_rekey (ok u, s) = (ok u, s)
  abort_rekey (err e, s) = (err e, record s { world = abort_warnings s })

  -- The part of `Rekey` whose failures go through `abortRekey`.
  unfoldable pub rotate_all : List Peer → Peer → Exec (Rotation R) (Unit {0})
  unfolding rotate_peer rotate_self for_each
  rotate_all others self s = abort_rekey ((do for_each others rotate_peer; rotate_self self) s)
