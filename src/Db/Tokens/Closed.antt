-- ===== src/Db/Tokens/Closed.antt =====
-- A token without an open row: what the operations of internal/db leave of it.
use certhold.Base.{
  Text, Bool, false, not, ◌&&◌, ◌==◌, Option, none, some, List, [], ◌∷◌, any, filter, ◌≡◌, refl,
  arith,
}
use certhold.Exec.{Exec}
use certhold.Exec.Keeps.{Keeps, Keeps-refuse, Keeps-pure, Keeps-bind, Keeps-for_each, Keeps-in_tx}
use certhold.Db.{Db, Peer, Token, Table, peer_groups, peer_allowed_groups, StagedReenroll}
use certhold.Db.Peers.{
  get_peer, insert_peer, update_peer, set_peer_revoked, update_peer_cert_serial, set_peer_cert,
  set_peer_target_user, set_peer_address, set_peer_inbound, set_peer_address_if_empty,
  set_peer_reachable, delete_peer, delete_peer_tx, delete_peer_row, forget_peer,
}
use certhold.Db.Groups.{
  ensure_group, insert_row, clear_rows, insert_group, group_exists_tx, clear_group,
  delete_group_row, retarget_rows, unless_same, create_group, delete_group, delete_group_tx,
  rename_group, rename_group_tx, set_peer_groups_table, set_peer_groups_table_tx,
  set_peer_groups_table_strict_tx,
}
use certhold.Db.Meta.{bump_fleet_rev}
use certhold.Db.Tokens.{
  lookup_token, mark_consumed, commit_if_staged, commit_staged_reenroll, write_staged,
  settle_allowed, staged_of, consume_token, consume_token_tx, insert_token, insert_reenroll_token,
  delete_unconsumed_peer_tokens, is_open,
}
use certhold.Db.Tokens.Redeem.{marked}
use certhold.Db.Integrity.History.{
  Call, inserts_peer, revokes, deletes_peer, ensures, creates, deletes_group, redeems, supersedes,
  recerts, reserials, retargets, readdresses, backfills, renames, flips_inbound, flips_reachable,
  assigns, mints, stages, after, run,
}

-- No row of the token can be redeemed.
abbrev pub IsClosed : Text → Db → Type 0
IsClosed k db = any (is_open k) db.tokens ≡ false

any-filtered :
    {A : Type 0} (p q : A → Bool) (xs : List A) → any p xs ≡ false → any p (filter q xs) ≡ false
any-filtered p q [] h = refl
any-filtered p q (x ∷ xs) h = ground (arith, h, any-filtered p q xs)

any-marked :
    (k token : Text) (ts : List Token)
    → any (is_open k) ts ≡ false
    → any (is_open k) (marked token ts) ≡ false
any-marked k token [] h = refl
any-marked k token (t ∷ ts) h = ground (arith, h, any-marked k token ts)

-- The mark closes the token.
pub marked-closes : (k : Text) (ts : List Token) → any (is_open k) (marked k ts) ≡ false
marked-closes k [] = refl
marked-closes k (t ∷ ts) = ground (arith, marked-closes k ts)

module _ (k : Text) where
  Closed-insert_row : (t : Table) (p g : Text) → Keeps (IsClosed k) (insert_row t p g)
  unfolding insert_row
  Closed-insert_row peer_groups p g = record { at = λ db h. ground (arith, h) }
  Closed-insert_row peer_allowed_groups p g = record { at = λ db h. ground (arith, h) }

  Closed-clear_rows : (t : Table) (p : Text) → Keeps (IsClosed k) (clear_rows t p)
  unfolding clear_rows
  Closed-clear_rows peer_groups p = record { at = λ db h. h }
  Closed-clear_rows peer_allowed_groups p = record { at = λ db h. h }

  Closed-clear_group : (t : Table) (g : Text) → Keeps (IsClosed k) (clear_group t g)
  unfolding clear_group
  Closed-clear_group peer_groups g = record { at = λ db h. h }
  Closed-clear_group peer_allowed_groups g = record { at = λ db h. h }

  Closed-retarget_rows : (t : Table) (old new : Text) → Keeps (IsClosed k) (retarget_rows t old new)
  unfolding retarget_rows
  Closed-retarget_rows peer_groups old new = record { at = λ db h. ground (arith, h) }
  Closed-retarget_rows peer_allowed_groups old new = record { at = λ db h. ground (arith, h) }

  Closed-insert_group : (g : Text) → Keeps (IsClosed k) (insert_group g)
  unfolding insert_group
  Closed-insert_group g = record { at = λ db h. ground (arith, h) }

  Closed-ensure_group : (g : Text) → Keeps (IsClosed k) (ensure_group g)
  unfolding ensure_group
  Closed-ensure_group g = record { at = λ db h. ground (arith, h) }

  Closed-delete_group_row : (g : Text) → Keeps (IsClosed k) (delete_group_row g)
  unfolding delete_group_row
  Closed-delete_group_row g = record { at = λ db h. ground (arith, h) }

  Closed-group_exists_tx : (g : Text) → Keeps (IsClosed k) (group_exists_tx g)
  unfolding group_exists_tx
  Closed-group_exists_tx g = record { at = λ db h. h }

  Closed-unless_same :
      (old new : Text) (m : Exec Db (Unit {0}))
      → Keeps (IsClosed k) m
      → Keeps (IsClosed k) (unless_same old new m)
  unfolding unless_same
  Closed-unless_same old new m keeps = record { at = λ db h. ground (arith, h, keeps.at db h) }

  Closed-get_peer : (n : Text) → Keeps (IsClosed k) (get_peer n)
  unfolding get_peer
  Closed-get_peer n = record { at = λ db h. h }

  Closed-bump_fleet_rev : Keeps (IsClosed k) bump_fleet_rev
  unfolding bump_fleet_rev
  Closed-bump_fleet_rev = record { at = λ db h. h }

  Closed-write_staged :
      (n key : Text) (staged : StagedReenroll) → Keeps (IsClosed k) (write_staged n key staged)
  unfolding write_staged
  Closed-write_staged n key staged = record { at = λ db h. h }

  Closed-lookup_token : (token : Text) → Keeps (IsClosed k) (lookup_token token)
  unfolding lookup_token
  Closed-lookup_token token = record { at = λ db h. h }

  Closed-mark_consumed : (token : Text) → Keeps (IsClosed k) (mark_consumed token)
  unfolding mark_consumed
  Closed-mark_consumed token = record {
    at = λ db h. ground (arith, h, any-marked k token db.tokens h);
  }

  Closed-update_peer : (n : Text) (f : Peer → Peer) → Keeps (IsClosed k) (update_peer n f)
  unfolding update_peer
  Closed-update_peer n f = record { at = λ db h. ground (arith, h) }

  Closed-delete_peer_tx : (n : Text) → Keeps (IsClosed k) (delete_peer_tx n)
  unfolding delete_peer_tx delete_peer_row forget_peer
  Closed-delete_peer_tx n = record {
    at = λ db h. ground (arith, any-filtered (is_open k) (λ t. not (t.peer_name == n)) db.tokens h);
  }

ruleset closed_rules = (
  Keeps-refuse, Keeps-pure, Keeps-bind, Keeps-for_each, Keeps-in_tx, Closed-insert_row,
  Closed-clear_rows, Closed-clear_group, Closed-retarget_rows, Closed-insert_group,
  Closed-ensure_group, Closed-delete_group_row, Closed-group_exists_tx, Closed-unless_same,
  Closed-get_peer, Closed-bump_fleet_rev, Closed-write_staged, Closed-lookup_token,
  Closed-mark_consumed, Closed-update_peer, Closed-delete_peer_tx,
)

module _ (k : Text) where
  Closed-table :
      (t : Table) (p : Text) (gs : List Text) → Keeps (IsClosed k) (set_peer_groups_table t p gs)
  unfolding set_peer_groups_table set_peer_groups_table_tx
  Closed-table t p gs = search closed_rules depth 9

  Closed-strict :
      (t : Table) (p : Text) (gs : List Text)
      → Keeps (IsClosed k) (set_peer_groups_table_strict_tx t p gs)
  unfolding set_peer_groups_table_strict_tx
  Closed-strict t p gs = search closed_rules depth 9

  Closed-settle_allowed :
      (n : Text) (gs : List Text) (staged : StagedReenroll) (b : Bool)
      → Keeps (IsClosed k) (settle_allowed n gs staged b)
  unfolding settle_allowed
  Closed-settle_allowed n gs staged b = record {
    at = λ db h. ground (
      arith,
      h,
      (Closed-strict peer_allowed_groups n []).at db h,
      (Closed-strict peer_allowed_groups n staged.allowed).at db h,
      (Closed-strict peer_allowed_groups n gs).at db h,
    );
  }

  Closed-create_group : (g : Text) → Keeps (IsClosed k) (create_group g)
  unfolding create_group
  Closed-create_group g = search closed_rules depth 9

  Closed-delete_group : (g : Text) → Keeps (IsClosed k) (delete_group g)
  unfolding delete_group delete_group_tx
  Closed-delete_group g = search closed_rules depth 9

  Closed-rename_group : (old new : Text) → Keeps (IsClosed k) (rename_group old new)
  unfolding rename_group rename_group_tx
  Closed-rename_group old new = search closed_rules depth 12

module _ (k : Text) where
  Closed-commit :
      (n csv key : Text) (staged : StagedReenroll)
      → Keeps (IsClosed k) (commit_staged_reenroll n csv key staged)
  unfolding commit_staged_reenroll
  Closed-commit n csv key staged =
      search (closed_rules, Closed-strict, Closed-settle_allowed) depth 12

  Closed-commit_if_staged :
      (t : Token) (key : Option Text) → Keeps (IsClosed k) (commit_if_staged t key)
  unfolding commit_if_staged
  Closed-commit_if_staged t none = record { at = λ db h. h }
  Closed-commit_if_staged t (some key) = record {
    at = (Closed-commit t.peer_name t.groups key (staged_of t)).at;
  }

  Closed-consume_token : (token : Text) → Keeps (IsClosed k) (consume_token token)
  unfolding consume_token consume_token_tx
  Closed-consume_token token = search (closed_rules, Closed-commit_if_staged) depth 12

-- The token that a call makes.
abbrev pub makes : Text → Call → Bool
makes k (mints now t n csv user tarball) = t == k
makes k (stages now t n csv user tarball staged) = t == k
makes k _ = false

after-IsClosed :
    (k : Text) (c : Call) (db : Db) → makes k c ≡ false → IsClosed k db → IsClosed k (after c db)
unfolding after insert_peer set_peer_revoked update_peer_cert_serial set_peer_cert
    set_peer_target_user set_peer_address set_peer_inbound set_peer_address_if_empty
    set_peer_reachable delete_unconsumed_peer_tokens insert_token insert_reenroll_token delete_peer
after-IsClosed k (inserts_peer now name serial fp key user inbound pull) db m h = ground (arith, h)
after-IsClosed k (revokes n) db m h = (Closed-update_peer k n _).at db h
after-IsClosed k (deletes_peer n) db m h =
    (Keeps-in_tx (IsClosed k) (delete_peer_tx n) (Closed-delete_peer_tx k n)).at db h
after-IsClosed k (ensures g) db m h = (Closed-ensure_group k g).at db h
after-IsClosed k (creates g) db m h = (Closed-create_group k g).at db h
after-IsClosed k (deletes_group g) db m h = (Closed-delete_group k g).at db h
after-IsClosed k (redeems t) db m h = (Closed-consume_token k t).at db h
after-IsClosed k (supersedes n) db m h =
    any-filtered (is_open k) (λ t. not (t.peer_name == n && not t.consumed)) db.tokens h
after-IsClosed k (recerts n cert serial) db m h = (Closed-update_peer k n _).at db h
after-IsClosed k (reserials n serial) db m h = (Closed-update_peer k n _).at db h
after-IsClosed k (retargets n user) db m h = (Closed-update_peer k n _).at db h
after-IsClosed k (readdresses n address) db m h = (Closed-update_peer k n _).at db h
after-IsClosed k (backfills n address) db m h = h
after-IsClosed k (renames old new) db m h = (Closed-rename_group k old new).at db h
after-IsClosed k (flips_inbound n b) db m h = (Closed-update_peer k n _).at db h
after-IsClosed k (flips_reachable n b) db m h = h
after-IsClosed k (assigns t n gs) db m h = (Closed-table k t n gs).at db h
after-IsClosed k (mints now t n csv user tarball) db m h = ground (arith, h, m)
after-IsClosed k (stages now t n csv user tarball staged) db m h = ground (arith, h, m)

-- A token that is closed stays so, whatever is called, unless the same token is made anew.
pub run-IsClosed :
    (k : Text) (cs : List Call) (db : Db)
    → any (makes k) cs ≡ false
    → IsClosed k db
    → IsClosed k (run cs db)
unfolding run
run-IsClosed k [] db m h = h
run-IsClosed k (c ∷ cs) db m h =
    run-IsClosed k cs (after c db) (ground (arith, m)) (after-IsClosed k c db (ground (arith, m)) h)
