-- ===== src/Ops/Enroll/Mint.antt =====
-- The transaction of `MintEnroll`.
use certhold.Base.{
  ℕ, Text, Bool, true, false, not, ◌&&◌, ◌==◌, Option, some, List, ◌∷◌, ◌++◌, any, filter, ◌≡◌,
  refl, ap, if◌then◌else◌,
}
use certhold.Errors.{Error, Result, ok, err, constraint}
use certhold.Exec.{Exec, ◌>>=◌}
use certhold.Exec.Keeps.{Keeps, Keeps-bind, Keeps-for_each, Keeps-refuse, Keeps-in_tx}
use certhold.Exec.Steps.{in_tx_err}
use certhold.Db.{Db, Peer, Token, StagedReenroll}
use certhold.Db.Groups.{group_exists_tx}
use certhold.Db.Tokens.{delete_unconsumed_peer_tokens, insert_reenroll_token}
use certhold.Ops.Enroll.{EnrollSpec, Choice, Material, mint_tx, check_names, stage_reenroll}

-- Only the tokens differ.
abbrev pub TokensOnly : Db → Db → Type 0
TokensOnly db db' = (list : List Token) × (db' ≡ record db { tokens = list })

abbrev insert_choice : Token → Bool → Db → Result (Unit {0}) × Db
insert_choice t b db =
    if b then (err constraint, db) else (ok tt, record db { tokens = t ∷ db.tokens })

module _ (start : Db) where
  retokened :
      (list : List Token) (db : Db)
      → TokensOnly start db
      → TokensOnly start (record db { tokens = list })
  retokened list db h = let put : Db → Db = λ d. record d { tokens = list } in (list, ap put h.1)

  group_exists-TokensOnly : (g : Text) → Keeps (TokensOnly start) (group_exists_tx g)
  unfolding group_exists_tx
  group_exists-TokensOnly g = record { at = λ db h. h }

  delete-TokensOnly : (n : Text) → Keeps (TokensOnly start) (delete_unconsumed_peer_tokens n)
  unfolding delete_unconsumed_peer_tokens
  delete-TokensOnly n = record {
    at = λ db h. retokened (filter (λ t. not (t.peer_name == n && not t.consumed)) db.tokens) db h;
  }

  insert_either :
      (t : Token) (b : Bool) (db : Db)
      → TokensOnly start db
      → TokensOnly start (insert_choice t b db).1
  insert_either t true db h = h
  insert_either t false db h = retokened (t ∷ db.tokens) db h

  insert-TokensOnly :
      (now : ℕ) (token name groups user : Text) (tarball : Option Text) (staged : StagedReenroll)
      → Keeps (TokensOnly start) (insert_reenroll_token now token name groups user tarball staged)
  unfolding insert_reenroll_token
  insert-TokensOnly now token name groups user tarball staged = record {
    at = λ db h. insert_either _ (any (λ u. u.token == token) db.tokens) db h;
  }

  ruleset rules = (
    Keeps-bind, Keeps-refuse, Keeps-for_each, group_exists-TokensOnly, delete-TokensOnly,
    insert-TokensOnly,
  )

  check_names-TokensOnly : (names : List Text) → Keeps (TokensOnly start) (check_names names)
  unfolding check_names
  check_names-TokensOnly names = search rules depth 9

  stage-TokensOnly :
      (now : ℕ) (spec : EnrollSpec) (c : Choice) (m : Material)
      → Keeps (TokensOnly start) (stage_reenroll now spec c m)
  unfolding stage_reenroll
  stage-TokensOnly now spec c m = search rules depth 9

  mint-TokensOnly :
      (now : ℕ) (spec : EnrollSpec) (p : Peer) (c : Choice) (m : Material)
      → Keeps (TokensOnly start) (mint_tx now spec (some p) c m)
  unfolding mint_tx
  mint-TokensOnly now spec p c m =
      let names = if spec.allowed_set then c.groups ++ c.allowed else c.groups in
      let stage : Unit {0} → Exec Db (Unit {0}) = λ _. stage_reenroll now spec c m in
      Keeps-in_tx (TokensOnly start) (check_names names >>= stage) (
        Keeps-bind (TokensOnly start) (check_names names) stage (check_names-TokensOnly names)
          (λ _. stage-TokensOnly now spec c m))

-- The transaction in which a token is minted for a name that has a peer writes to the tokens alone,
-- whether it succeeds or fails: the peer's row, its groups, what it allows, and the fleet revision
-- are as the transaction found them.
pub mint_stages :
    (now : ℕ) (spec : EnrollSpec) (p : Peer) (c : Choice) (m : Material) (db : Db)
    → TokensOnly db (mint_tx now spec (some p) c m db).1
mint_stages now spec p c m db = (mint-TokensOnly db now spec p c m).at db (db.tokens, refl)

-- A minting that fails leaves the database as it was: there is no peer without its token, and no token
-- without its peer.
pub mint_all_or_nothing :
    (now : ℕ) (spec : EnrollSpec) (existing : Option Peer) (c : Choice) (m : Material) (db : Db)
    (e : Error)
    → (mint_tx now spec existing c m db).0 ≡ err e
    → (mint_tx now spec existing c m db).1 ≡ db
unfolding mint_tx
mint_all_or_nothing now spec existing c m db e h = in_tx_err _ db e h
