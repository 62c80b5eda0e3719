-- ===== src/Tests/Rekey.antt =====
-- The rotation of the CA at concrete inputs: a client "web", and a manager whose own files cannot be
-- written.
use certhold.Base.{
  true, false, none, some, decimal, sort_by, arith, ==_iff, text, Text, [], ◌∷◌, ◌==◌, contains,
  join, ◌≡◌, refl,
}
use certhold.Errors.{external, ok, err, IsErr}
use certhold.Db.{Db, Peer}
use certhold.Db.Groups.{get_peer_groups_table}
use certhold.Db.Peers.{set_peer_cert}
use certhold.Ops.{World}
use certhold.Ops.Rekey.Rotate.{Staging}
use certhold.Ops.Rekey.Run.{rotation, rotation_of, rotate_cleanly, peers_to_rotate, next_dir}
use certhold.Ops.Rekey.Abort.{rotate_cleanly_undoes}
use certhold.Ops.Rekey.Unsent.{KeepsUnsent}
use certhold.Ops.Rekey.Archive.{free_archive, free_archive_ends, Ended}
use certhold.Tests.Data.{web, fleet}
use certhold.Tests.Ops.{outside, parse}
use certhold.Ops.Rekey.{user_authorized_keys_line}

abbrev ca_line : Text
ca_line = text "ssh-ed25519 K\n"

rekey_line :
    user_authorized_keys_line ca_line (text "ops" ∷ text "ops" ∷ [])
    ≡ text "cert-authority,principals=\"manager,ops\" ssh-ed25519 K\n"
unfolding user_authorized_keys_line join contains ◌==◌
rekey_line = refl

abbrev mgr : Peer
mgr = record web { name = text "mgr" }

abbrev clients : Db
clients = record fleet { peers = record web { inbound = false } ∷ mgr ∷ [] }

abbrev world : World Text
world = record { db = clients; remote = text "ssh-rsa A"; events = [] }

abbrev staging : Staging Text
staging = record {
  stat = λ name s. ok (name == text "ca.old.T");
  rename = λ from to s. (ok tt, s);
  remove_all = λ name s. (ok tt, text "removed");
  make_dir = λ path s. (ok tt, s);
  read_local = λ path s. (err external, s);
  write_local = λ path content s. (err external, s);
  stamp = λ s. text "T";
  new_passphrase = λ s. (ok (text "pass"), s);
  ca_key_encrypted = λ s. (ok false, s);
  ca_unlock = none;
  generate = λ pass s. (ok (text "NEW"), s);
  sign_next = λ key id ps s. (ok (text "CERT9", 9), s);
}

-- Here only the write of a file on a peer changes the outside, before the directories are swapped.
writes_only : KeepsUnsent (λ r. r ≡ text "ssh-rsa A") outside staging
writes_only = record {
  generate = λ pass. record { at = λ r h. h };
  ca_pubs = record { at = λ r h. h };
  sign = λ key name ps. record { at = λ r h. h };
  dials = λ host user. record { at = λ r h. h };
  reads = λ host path. record { at = λ r h. h };
  makes_dir = λ path. record { at = λ r h. h };
  reads_own = λ path. record { at = λ r h. h };
  writes_own = λ path content. record { at = λ r h. h };
}

rotate_cleanly_undoes_example :
    let others = peers_to_rotate (text "mgr") [] (sort_by (λ p. p.name) clients.peers) in
    let last =
      rotation outside staging parse 7 2
        (text "k9")
        (text "mgr")
        others
        mgr
        none
        (rotation_of world) in
    let result =
      rotate_cleanly outside staging parse 7 2 (text "k9") (text "mgr") others mgr none world in
    (last.1.rotated ≡ false
      → IsErr result.0
        × (last.1.world.remote ≡ text "ssh-rsa A")
        × (result.1.db ≡ clients)
        × (result.1.remote ≡ (staging.remove_all next_dir last.1.world.remote).1))
    × (last.1.rotated ≡ true
        → (result.1.db ≡ last.1.world.db) × (result.1.remote ≡ last.1.world.remote))
unfolding ◌==◌ contains
rotate_cleanly_undoes_example =
    rotate_cleanly_undoes outside staging parse 7 2 (text "k9") (text "mgr") mgr none [] world
      (λ r. r ≡ text "ssh-rsa A") (refl, (refl, tt)) writes_only refl

-- The certificate of "web" was stored, and is put back.
undone_run :
    (rotation outside staging parse 7 2
      (text "k9")
      (text "mgr")
      (record web { inbound = false } ∷ [])
      mgr
      none
      (rotation_of world)).1.prior
    ≡ record { name = text "web"; cert = text "CERT1"; serial = 1 } ∷ []
unfolding rotation ◌==◌ get_peer_groups_table set_peer_cert
undone_run = refl

contains_one : (name x : Text) → (name == x) ≡ true → contains (x ∷ []) name ≡ true
unfolding contains
contains_one name x h = ground (arith, ==_iff name x, ==_iff x name)

free_archive_ends_example :
    Ended
      (λ name. ok (name == text "ca.old.T"))
      (free_archive (λ name. ok (name == text "ca.old.T")) (text "T") 2 0)
free_archive_ends_example =
    free_archive_ends (λ name. ok (name == text "ca.old.T")) (text "T") (text "ca.old.T" ∷ []) 2
      (λ name h. ground (arith, contains_one name (text "ca.old.T"), h)) (omega arith)

second_name :
    free_archive (λ name. ok (name == text "ca.old.T")) (text "T") 2 0
    ≡ some (ok (text "ca.old.T.1"))
unfolding free_archive decimal ◌==◌
second_name = refl
