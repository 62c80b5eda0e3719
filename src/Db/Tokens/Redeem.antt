-- ===== src/Db/Tokens/Redeem.antt =====
-- `ConsumeToken` of internal/db/tokens.go, on every branch.
pub mod Reenroll
pub mod Outcome
use certhold.Base.{
  Text, Bool, true, false, not, ◌&&◌, ◌||◌, ◌==◌, ==_iff, ==_refl, Option, none, some, List, [],
  ◌∷◌, map, any, find?, if◌then◌else◌, ◌≡◌, refl, sym, ap, ◌∙◌, subst, arith, Option-cases, inl,
  inr,
}
use certhold.Errors.{Error, Result, ok, err, token_not_found, token_already_consumed, IsErr}
use certhold.Exec.{Exec, in_tx, continue, refuse_if, pure}
use certhold.Exec.Keeps.{Keeps, Keeps-refuse, Keeps-pure, Keeps-bind, Keeps-for_each}
use certhold.Exec.Steps.{continue_ok, continue_eq_ok, in_tx_err, in_tx_eq_ok, in_tx_rolls_back}
use certhold.Db.{Db, Token, Table, peer_groups, peer_allowed_groups, token_of, StagedReenroll}
use certhold.Db.Peers.{get_peer}
use certhold.Db.Groups.{set_peer_groups_table_strict_tx, insert_row, clear_rows, group_exists_tx}
use certhold.Db.Meta.{bump_fleet_rev}
use certhold.Db.Tokens.{
  consume_token, consume_token_tx, mark_consumed, lookup_token, commit_if_staged,
  commit_staged_reenroll, write_staged, settle_allowed, spent, is_open, staged_of,
}

-- The tokens are the given ones.
abbrev TokensAre : List Token → Db → Type 0
TokensAre ts db = db.tokens ≡ ts

module _ (ts : List Token) where
  Tokens-insert_row : (t : Table) (p g : Text) → Keeps (TokensAre ts) (insert_row t p g)
  unfolding insert_row
  Tokens-insert_row peer_groups p g = record { at = λ db h. ground arith }
  Tokens-insert_row peer_allowed_groups p g = record { at = λ db h. ground arith }

  Tokens-clear_rows : (t : Table) (p : Text) → Keeps (TokensAre ts) (clear_rows t p)
  unfolding clear_rows
  Tokens-clear_rows peer_groups p = record { at = λ db h. h }
  Tokens-clear_rows peer_allowed_groups p = record { at = λ db h. h }

  Tokens-group_exists_tx : (g : Text) → Keeps (TokensAre ts) (group_exists_tx g)
  unfolding group_exists_tx
  Tokens-group_exists_tx g = record { at = λ db h. h }

  Tokens-get_peer : (n : Text) → Keeps (TokensAre ts) (get_peer n)
  unfolding get_peer
  Tokens-get_peer n = record { at = λ db h. h }

  Tokens-bump_fleet_rev : Keeps (TokensAre ts) bump_fleet_rev
  unfolding bump_fleet_rev
  Tokens-bump_fleet_rev = record { at = λ db h. h }

  Tokens-write_staged :
      (n key : Text) (staged : StagedReenroll) → Keeps (TokensAre ts) (write_staged n key staged)
  unfolding write_staged
  Tokens-write_staged n key staged = record { at = λ db h. h }

ruleset token_rules = (
  Keeps-refuse, Keeps-pure, Keeps-bind, Keeps-for_each, Tokens-insert_row, Tokens-clear_rows,
  Tokens-group_exists_tx, Tokens-get_peer, Tokens-bump_fleet_rev, Tokens-write_staged,
)

module _ (ts : List Token) where
  Tokens-strict :
      (t : Table) (p : Text) (gs : List Text)
      → Keeps (TokensAre ts) (set_peer_groups_table_strict_tx t p gs)
  unfolding set_peer_groups_table_strict_tx
  Tokens-strict t p gs = search token_rules depth 9

  Tokens-settle_allowed :
      (n : Text) (gs : List Text) (staged : StagedReenroll) (b : Bool)
      → Keeps (TokensAre ts) (settle_allowed n gs staged b)
  unfolding settle_allowed
  Tokens-settle_allowed n gs staged b = record {
    at = λ db h. ground (
      arith,
      (Tokens-strict peer_allowed_groups n []).at db h,
      (Tokens-strict peer_allowed_groups n staged.allowed).at db h,
      (Tokens-strict peer_allowed_groups n gs).at db h,
    );
  }

module _ (ts : List Token) where
  Tokens-commit :
      (n csv key : Text) (staged : StagedReenroll)
      → Keeps (TokensAre ts) (commit_staged_reenroll n csv key staged)
  unfolding commit_staged_reenroll
  Tokens-commit n csv key staged =
      search (token_rules, Tokens-strict, Tokens-settle_allowed) depth 12

  Tokens-commit_if_staged :
      (t : Token) (key : Option Text) → Keeps (TokensAre ts) (commit_if_staged t key)
  unfolding commit_if_staged
  Tokens-commit_if_staged t none = record { at = λ db h. h }
  Tokens-commit_if_staged t (some key) = record {
    at = (Tokens-commit t.peer_name t.groups key (staged_of t)).at;
  }

abbrev pub marked : Text → List Token → List Token
marked token = map (λ t. if is_open token t then spent t else t)

-- After the mark, the row of the token is consumed.
find-marked :
    (token : Text) (ts : List Token) (t : Token)
    → find? (λ u. u.token == token) ts ≡ some t
    → t.consumed ≡ false
    → find? (λ u. u.token == token) (marked token ts) ≡ some (spent t)
find-marked token [] t h open' = cc
find-marked token (u ∷ ts) t h open' = ground (arith, find-marked token ts t)

commit_end :
    (u t : Token) (ts : List Token) (r : Result (Unit {0}) × Db)
    → r.1.tokens ≡ ts
    → (continue r (λ _. pure u)).0 ≡ ok t
    → (u ≡ t) × ((continue r (λ _. pure u)).1.tokens ≡ ts)
commit_end u t ts (ok a, s) h k = ground arith
commit_end u t ts (err e, s) h k = cc

abbrev finish : Token → Exec Db Token
finish u s = continue (commit_if_staged u u.staged_authorized_key s) (λ _. pure u)

finish_eq_ok :
    (u t : Token) (s : Db) → (finish u s).0 ≡ ok t → (u ≡ t) × ((finish u s).1.tokens ≡ s.tokens)
finish_eq_ok u t s h =
    commit_end u t s.tokens (commit_if_staged u u.staged_authorized_key s)
      ((Tokens-commit_if_staged s.tokens u u.staged_authorized_key).at s refl) h

abbrev mark_then : Text → Token → Exec Db Token
mark_then token u s =
    continue (refuse_if u.consumed token_already_consumed s)
      (λ _ s'. continue (mark_consumed token s') (λ _. finish u))

mark_then_eq_ok :
    (token : Text) (u t : Token) (db : Db)
    → (mark_then token u db).0 ≡ ok t
    → (u ≡ t) × (u.consumed ≡ false) × ((mark_then token u db).1.tokens ≡ marked token db.tokens)
unfolding mark_consumed
mark_then_eq_ok token u t db h =
    ground (arith, finish_eq_ok u t (record db { tokens = marked token db.tokens }))

-- What a redemption that succeeds went through.
pub consume_token_eq_ok :
    (token : Text) (db : Db) (t : Token)
    → (consume_token token db).0 ≡ ok t
    → (token_of db token ≡ some t)
      × (t.consumed ≡ false)
      × ((consume_token token db).1.tokens ≡ marked token db.tokens)
unfolding consume_token consume_token_tx lookup_token
consume_token_eq_ok token db t h =
    let (committed, same) = in_tx_eq_ok (consume_token_tx token) db t h in
    elim (Option-cases (token_of db token)) [
      | inl missing ↦ absurd (ground (arith, missing, committed))
      | inr (u, found) ↦ ground (arith, found, committed, same, mark_then_eq_ok token u t db)
    ]

-- What refuses a token at once: it is not there, or it was redeemed. Nothing is written.
pub consume_token_refuses :
    (token : Text) (db : Db)
    → (token_of db token ≡ none → consume_token token db ≡ (err token_not_found, db))
      × ((t : Token)
          → token_of db token ≡ some t
          → t.consumed ≡ true
          → consume_token token db ≡ (err token_already_consumed, db))
unfolding consume_token consume_token_tx lookup_token in_tx
consume_token_refuses token db = (λ h. ground (arith, h), λ t h c. ground (arith, h, c))

-- The row of a token that was redeemed.
pub token_of-consume_token :
    (token : Text) (db : Db) (t : Token)
    → (consume_token token db).0 ≡ ok t
    → token_of (consume_token token db).1 token ≡ some (spent t)
token_of-consume_token token db t h =
    let (found, open', marks) = consume_token_eq_ok token db t h in
    ap (find? (λ u. u.token == token)) marks ∙ find-marked token db.tokens t found open'

-- A token that was redeemed cannot be redeemed again.
pub consume_token_once :
    (token : Text) (db : Db) (t : Token)
    → (consume_token token db).0 ≡ ok t
    → (consume_token token (consume_token token db).1).0 ≡ err token_already_consumed
consume_token_once token db t h =
    ap (λ r. r.0)
      ((consume_token_refuses token (consume_token token db).1).1 (spent t)
        (token_of-consume_token token db t h) refl)

pub any-open :
    (token : Text) (ts : List Token) (t : Token)
    → find? (λ u. u.token == token) ts ≡ some t
    → t.consumed ≡ false
    → any (is_open token) ts ≡ true
any-open token [] t h c = cc
any-open token (u ∷ ts) t h c = ground (arith, any-open token ts t)

-- The token of a new peer stages nothing: its redemption marks the token, drops the tarball from
-- the row after returning it, and changes no peer, group, membership or revision.
pub consume_token_ordinary :
    (token : Text) (db : Db) (t : Token)
    → token_of db token ≡ some t
    → t.consumed ≡ false
    → t.staged_authorized_key ≡ none
    → consume_token token db ≡ (ok t, record db { tokens = marked token db.tokens })
unfolding consume_token consume_token_tx lookup_token in_tx mark_consumed commit_if_staged
consume_token_ordinary token db t h c plain =
    ground (arith, h, c, plain, any-open token db.tokens t h c)

-- A redemption that fails, for whatever reason, leaves the state as it was: the token can still be
-- redeemed, and the peer is untouched.
pub consume_token_rolls_back :
    (token : Text) (db : Db) (e : Error)
    → (consume_token token db).0 ≡ err e
    → (consume_token token db).1 ≡ db
unfolding consume_token
consume_token_rolls_back token db e h = in_tx_err (consume_token_tx token) db e h
