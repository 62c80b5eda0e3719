-- ===== src/Http/Enroll/Once.antt =====
-- The enrollment endpoint when a token comes a second time.
use certhold.Base.{
  Text, text, true, false, ◌==◌, Option, none, some, List, [], ◌∷◌, any, is_empty, ◌≡◌, refl, ap,
  ◌∙◌, arith, find?, if◌then◌else◌, Option-cases, Bool-cases, inl, inr,
}
use certhold.Db.{Db, Token, token_of}
use certhold.Db.Peers.{set_peer_target_user, set_peer_address_if_empty, update_peer}
use certhold.Db.Tokens.{consume_token, is_open}
use certhold.Db.Tokens.Redeem.{consume_token_refuses, consume_token_eq_ok}
use certhold.Db.Tokens.Closed.{IsClosed, makes, marked-closes, run-IsClosed}
use certhold.Db.Integrity.History.{Call, run}
use certhold.Http.{Request, Response, message}
use certhold.Http.Enroll.{enroll, user_objection, backfill, source_host}
use certhold.Http.Enroll.Refused.{enroll_serves}

backfill_tokens :
    (name : Text) (o : Option Text) (db : Db) → (backfill name o db).tokens ≡ db.tokens
unfolding set_peer_address_if_empty
backfill_tokens name none db = refl
backfill_tokens name (some h) db = refl

target_user_tokens :
    (name user : Text) (db : Db) → (set_peer_target_user name user db).1.tokens ≡ db.tokens
unfolding set_peer_target_user update_peer
target_user_tokens name user db = ground arith

abbrev pub already_consumed : Response
already_consumed = record { status = 410; body = message (text "token already consumed") }

abbrev pub not_found : Response
not_found = record { status = 404; body = message (text "token not found") }

-- The row that is found is the first of the token.
closed_row :
    (k : Text) (ts : List Token) (o : Option Token)
    → find? (λ t. t.token == k) ts ≡ o
    → any (is_open k) ts ≡ false
    → (o ≡ none → any (λ t. t.token == k) ts ≡ false)
      × ((t : Token) → o ≡ some t → (any (λ u. u.token == k) ts ≡ true) × (t.consumed ≡ true))
closed_row k [] o f h = (λ e. refl, λ t e. cc (f, e))
closed_row k (u ∷ ts) o f h = elim (Bool-cases (u.token == k)) [
  | inl e ↦ (λ m. ground (arith, f, h, e, m), λ t m. ground (arith, f, h, e, m))
  | inr e ↦ ground (arith, e, closed_row k ts o (ground (arith, f, e)) (ground (arith, h, e)))
]

-- A request for a token that is closed.
enroll_closed :
    (r : Request) (db : Db)
    → is_empty r.token ≡ false
    → IsClosed r.token db
    → enroll r db
      ≡ (if any (λ t. t.token == r.token) db.tokens then already_consumed else not_found, db)
unfolding enroll user_objection
enroll_closed r db named closed =
    let row = closed_row r.token db.tokens (token_of db r.token) refl closed in
    elim (Option-cases (token_of db r.token)) [
      | inl missing ↦ rw (named, missing, row.0 missing) refl
      | inr (t, found) ↦
          let (there, gone) = row.1 t found in
          ground
            (arith, named, found, gone, there, (consume_token_refuses r.token db).1 t found gone)
    ]

served_named : (r : Request) (db : Db) → (enroll r db).0.status ≡ 200 → is_empty r.token ≡ false
unfolding enroll
served_named r db h = ground (arith, h)

served-IsClosed :
    (r : Request) (db : Db) → (enroll r db).0.status ≡ 200 → IsClosed r.token (enroll r db).1
served-IsClosed r db h =
    let s = enroll_serves r db h in
    let redeemed = (consume_token r.token db).1 in
    let tokens =
      ap (λ d. d.tokens) s.left
      ∙ backfill_tokens s.row.peer_name (source_host r.remote_addr)
          (set_peer_target_user s.row.peer_name r.user redeemed).1
      ∙ target_user_tokens s.row.peer_name r.user redeemed
      ∙ (consume_token_eq_ok r.token db s.row s.redeemed).2 in
    ap (any (is_open r.token)) tokens ∙ marked-closes r.token db.tokens

-- Once a request was answered 200, a later request for the token is never served again, whoever makes
-- it: it is answered 410, or 404 when the row of the token is gone, and writes nothing. Between the two
-- there may be any calls of the operations of the database on peers, groups, memberships and tokens,
-- failed ones included, except the making of a token of the same text.
pub enroll_once :
    (r later : Request) (db : Db) (calls : List Call)
    → (enroll r db).0.status ≡ 200
    → later.token ≡ r.token
    → any (makes r.token) calls ≡ false
    → let now = run calls (enroll r db).1 in
      enroll later now
      ≡ (if any (λ t. t.token == r.token) now.tokens then already_consumed else not_found, now)
enroll_once r later db calls h same fresh =
    let now = run calls (enroll r db).1 in
    let closed = run-IsClosed r.token calls (enroll r db).1 fresh (served-IsClosed r db h) in
    enroll_closed later now (ap is_empty same ∙ served_named r db h)
      (ap (λ k. any (is_open k) now.tokens) same ∙ closed)
    ∙ ap (λ k. (if any (λ t. t.token == k) now.tokens then already_consumed else not_found, now))
        same
