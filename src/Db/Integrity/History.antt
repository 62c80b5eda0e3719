-- ===== src/Db/Integrity/History.antt =====
-- Histories of calls on the database, and the references of the membership tables.
use certhold.Base.{Text, Bool, List, [], ◌∷◌, Option, ℕ, if◌then◌else◌, is_empty, refl, ◌≡◌, arith}
use certhold.Db.{
  Db, Peer, Table, RefsValid, StagedReenroll, empty_db, peer_groups, peer_allowed_groups,
}
use certhold.Db.Peers.{
  insert_peer, set_peer_revoked, update_peer_cert_serial, set_peer_cert, set_peer_target_user,
  set_peer_address, set_peer_inbound, set_peer_address_if_empty, set_peer_reachable, delete_peer,
}
use certhold.Db.Groups.{
  ensure_group, set_peer_groups_table, create_group, delete_group, rename_group,
}
use certhold.Db.Tokens.{
  insert_token, insert_reenroll_token, delete_unconsumed_peer_tokens, consume_token,
}
use certhold.Db.Integrity.{
  Valid-insert_peer, Valid-ensure_group, Valid-update_rows, of_rows, rows_valid,
}
use certhold.Db.Integrity.Ops.{
  Valid-update_peer, Valid-delete_peer, Valid-set_peer_groups_table, Valid-create_group,
  Valid-delete_group, Valid-rename_group, Valid-consume_token,
}

-- A call of an operation that writes to the peers, the groups, the memberships or the tokens.
pub data Call : Type 0 where
  inserts_peer : ℕ → Text → ℕ → Text → Text → Text → Bool → Text → Call
  revokes deletes_peer ensures creates deletes_group redeems supersedes : Text → Call
  recerts : Text → Text → ℕ → Call
  reserials : Text → ℕ → Call
  retargets readdresses backfills renames : Text → Text → Call
  flips_inbound flips_reachable : Text → Bool → Call
  assigns : Table → Text → List Text → Call
  mints : ℕ → Text → Text → Text → Text → Option Text → Call
  stages : ℕ → Text → Text → Text → Text → Option Text → StagedReenroll → Call

-- The state after the call, which an error does not excuse.
unfoldable pub after : Call → Db → Db
after (inserts_peer now name serial fp key user inbound pull) db =
    (insert_peer now name serial fp key user inbound pull db).1
after (revokes n) db = (set_peer_revoked n db).1
after (deletes_peer n) db = (delete_peer n db).1
after (ensures g) db = (ensure_group g db).1
after (creates g) db = (create_group g db).1
after (deletes_group g) db = (delete_group g db).1
after (redeems t) db = (consume_token t db).1
after (supersedes n) db = (delete_unconsumed_peer_tokens n db).1
after (recerts n cert serial) db = (set_peer_cert n cert serial db).1
after (reserials n serial) db = (update_peer_cert_serial n serial db).1
after (retargets n user) db = (set_peer_target_user n user db).1
after (readdresses n address) db = (set_peer_address n address db).1
after (backfills n address) db = (set_peer_address_if_empty n address db).1
after (renames old new) db = (rename_group old new db).1
after (flips_inbound n b) db = (set_peer_inbound n b db).1
after (flips_reachable n b) db = (set_peer_reachable n b db).1
after (assigns t n gs) db = (set_peer_groups_table t n gs db).1
after (mints now t n csv user tarball) db = (insert_token now t n csv user tarball db).1
after (stages now t n csv user tarball staged) db =
    (insert_reenroll_token now t n csv user tarball staged db).1

unfoldable pub run : List Call → Db → Db
run [] db = db
run (c ∷ cs) db = run cs (after c db)

name_if_empty :
    (address : Text) (p : Peer)
    → (if is_empty p.address then record p { address = address } else p).name ≡ p.name
name_if_empty address p = ground arith

after-RefsValid : (c : Call) (db : Db) → RefsValid db → RefsValid (after c db)
unfolding after set_peer_revoked update_peer_cert_serial set_peer_cert set_peer_target_user
    set_peer_address set_peer_inbound set_peer_address_if_empty set_peer_reachable
    delete_unconsumed_peer_tokens insert_token insert_reenroll_token
after-RefsValid (inserts_peer now name serial fp key user inbound pull) db v =
    (Valid-insert_peer now name serial fp key user inbound pull).at db v
after-RefsValid (revokes n) db v = (Valid-update_peer n _ (λ p. refl)).at db v
after-RefsValid (deletes_peer n) db v = (Valid-delete_peer n).at db v
after-RefsValid (ensures g) db v = (Valid-ensure_group g).at db v
after-RefsValid (creates g) db v = (Valid-create_group g).at db v
after-RefsValid (deletes_group g) db v = (Valid-delete_group g).at db v
after-RefsValid (redeems t) db v = (Valid-consume_token t).at db v
after-RefsValid (recerts n cert serial) db v = (Valid-update_peer n _ (λ p. refl)).at db v
after-RefsValid (reserials n serial) db v = (Valid-update_peer n _ (λ p. refl)).at db v
after-RefsValid (retargets n user) db v = (Valid-update_peer n _ (λ p. refl)).at db v
after-RefsValid (readdresses n address) db v = (Valid-update_peer n _ (λ p. refl)).at db v
after-RefsValid (backfills n address) db v = Valid-update_rows n _ db (name_if_empty address) v
after-RefsValid (renames old new) db v = (Valid-rename_group old new).at db v
after-RefsValid (flips_inbound n b) db v = (Valid-update_peer n _ (λ p. refl)).at db v
after-RefsValid (flips_reachable n b) db v = Valid-update_rows n _ db (λ p. refl) v
after-RefsValid (assigns t n gs) db v = (Valid-set_peer_groups_table t n gs).at db v
after-RefsValid _ db v =
    of_rows _ (λ p g m. ground (arith, rows_valid peer_groups db v p g))
      (λ p g m. ground (arith, rows_valid peer_allowed_groups db v p g))

-- From a state whose references are valid, every history of calls, failed ones included, leads to
-- one whose references are valid: each membership names a peer and a group that are there.
pub run-RefsValid : (cs : List Call) (db : Db) → RefsValid db → RefsValid (run cs db)
unfolding run
run-RefsValid [] db v = v
run-RefsValid (c ∷ cs) db v = run-RefsValid cs (after c db) (after-RefsValid c db v)

pub empty_db-RefsValid : RefsValid empty_db
empty_db-RefsValid = of_rows empty_db (λ p g m. cc) (λ p g m. cc)
