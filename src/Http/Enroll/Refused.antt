-- ===== src/Http/Enroll/Refused.antt =====
-- When the redemption over HTTP serves a bundle, and when it refuses.
use certhold.Base.{
  Text, true, false, ==_iff, Option, none, some, [], ◌∷◌, is_empty, ◌≡◌, refl, sym, ap, ◌∙◌, subst,
  arith, Option-cases, Bool-cases, inl, inr, ◌⊎◌,
}
use certhold.Errors.{Error, Result, ok, err, token_not_found, token_already_consumed}
use certhold.Db.{Db, Token, token_of}
use certhold.Db.Peers.{set_peer_target_user}
use certhold.Db.Tokens.{consume_token}
use certhold.Db.Tokens.Redeem.{consume_token_rolls_back, consume_token_eq_ok}
use certhold.Http.{Request, Response, tarball}
use certhold.Http.Enroll.{
  enroll, user_objection, acceptable_user, valid_username, consume_status, serve_tarball,
  after_user, after_consume, backfill, source_host, checked, on_lookup,
}

-- The user of the request may redeem the token: its name is acceptable, and it is the user that the
-- token is pinned to, if the token is pinned.
pub record IsFit (user : Text) (t : Token) : Type 0 where
  pub acceptable : acceptable_user user ≡ true
  pub pinned : (t.target_user ≡ []) ⊎ (t.target_user ≡ user)

is_empty-true : (s : Text) → is_empty s ≡ true → s ≡ []
is_empty-true [] h = refl
is_empty-true (c ∷ cs) h = cc h

no_objection :
    (user : Text) (t : Token) → t.consumed ≡ false → user_objection user t ≡ none → IsFit user t
unfolding user_objection
no_objection user t c h = record {
  acceptable = ground (arith, c, h);
  pinned = elim (Bool-cases (is_empty t.target_user)) [
    | inl e ↦ inl (is_empty-true t.target_user e)
    | inr e ↦ inr (ground (arith, c, h, e, (==_iff t.target_user user).0))
  ];
}

-- The empty name is not acceptable either.
acceptable-is_empty : (user : Text) → acceptable_user user ≡ true → is_empty user ≡ false
unfolding acceptable_user valid_username
acceptable-is_empty [] h = ground arith
acceptable-is_empty (c ∷ cs) h = refl

fit_no_objection : (user : Text) (t : Token) → IsFit user t → user_objection user t ≡ none
unfolding user_objection
fit_no_objection user t f = elim f.pinned [
  | inl e ↦ ground (arith, f.acceptable, acceptable-is_empty user f.acceptable, e)
  | inr e ↦ ground (
    arith,
    f.acceptable,
    acceptable-is_empty user f.acceptable,
    e,
    (==_iff t.target_user user).1 e,
  )
]

status_of_error : (e : Error) (db : Db) → (consume_status e db).0.status ≡ 200 → ⊥
status_of_error token_not_found db h = ground arith
status_of_error token_already_consumed db h = ground arith
status_of_error _ db h = ground arith

-- What a bundle that was served says of the token.
pub record Served (r : Request) (db : Db) : Type 0 where
  pub row : Token
  pub bytes : Text
  pub found : token_of db r.token ≡ some row
  pub fresh : row.consumed ≡ false
  pub fit : IsFit r.user row
  pub redeemed : (consume_token r.token db).0 ≡ ok row
  pub stored : row.tarball ≡ some bytes
  pub body : (enroll r db).0.body ≡ tarball bytes
  pub left :
      (enroll r db).1
      ≡ backfill row.peer_name
          (source_host r.remote_addr)
          (set_peer_target_user row.peer_name r.user (consume_token r.token db).1).1

-- The same of the tail of the handler.
record Tail (r : Request) (t : Token) (db : Db) (x : Response × Db) : Type 0 where
  bytes : Text
  stored : t.tarball ≡ some bytes
  body : x.0.body ≡ tarball bytes
  left : x.1 ≡ backfill t.peer_name (source_host r.remote_addr) db

serve-Tail :
    (r : Request) (t : Token) (db : Db) (o : Option Text)
    → t.tarball ≡ o
    → (serve_tarball o (backfill t.peer_name (source_host r.remote_addr) db)).0.status ≡ 200
    → Tail r t db (serve_tarball o (backfill t.peer_name (source_host r.remote_addr) db))
serve-Tail r t db none e h = absurd (ground arith)
serve-Tail r t db (some b) e h = record { bytes = b; stored = e; body = refl; left = refl }

after_user-Tail :
    (r : Request) (t : Token) (x : Result (Unit {0}) × Db)
    → (after_user r t x).0.status ≡ 200
    → Tail r t x.1 (after_user r t x)
after_user-Tail r t (ok u, db) h = serve-Tail r t db t.tarball refl h
after_user-Tail r t (err e, db) h = absurd (ground arith)

after_consume-Tail :
    (r : Request) (x : Result Token × Db)
    → (after_consume r x).0.status ≡ 200
    → (t : Token) × (x.0 ≡ ok t)
      × Tail r t (set_peer_target_user t.peer_name r.user x.1).1 (after_consume r x)
after_consume-Tail r (ok t, db) h =
    (t, refl, after_user-Tail r t (set_peer_target_user t.peer_name r.user db) h)
after_consume-Tail r (err e, db) h = absurd (status_of_error e db h)

checked-Tail :
    (r : Request) (o : Option Text) (db : Db)
    → (checked r o db).0.status ≡ 200
    → (o ≡ none)
      × (t : Token) × ((consume_token r.token db).0 ≡ ok t)
      × Tail r t
          (set_peer_target_user t.peer_name r.user (consume_token r.token db).1).1
          (checked r o db)
checked-Tail r (some o) db h = absurd (ground arith)
checked-Tail r none db h =
    let (t, redeemed, tail) = after_consume-Tail r (consume_token r.token db) h in
    (refl, t, redeemed, tail)

enroll_found :
    (r : Request) (db : Db) (o : Option Token)
    → token_of db r.token ≡ o
    → (enroll r db).0.status ≡ 200
    → enroll r db ≡ on_lookup r o db
unfolding enroll
enroll_found r db o e h = ground (arith, e, h)

lookup-Tail :
    (r : Request) (db : Db) (o : Option Token)
    → token_of db r.token ≡ o
    → (on_lookup r o db).0.status ≡ 200
    → (t : Token) × (o ≡ some t)
      × (user_objection r.user t ≡ none)
      × ((consume_token r.token db).0 ≡ ok t)
      × Tail r t
          (set_peer_target_user t.peer_name r.user (consume_token r.token db).1).1
          (on_lookup r o db)
lookup-Tail r db none e h = absurd (ground arith)
lookup-Tail r db (some t) e h =
    let (clear, u, redeemed, tail) = checked-Tail r (user_objection r.user t) db h in
    let (found, fresh, marks) = consume_token_eq_ok r.token db u redeemed in
    let row : u ≡ t = cc (e, found) in
    (u, sym e ∙ found, ap (user_objection r.user) row ∙ clear, redeemed, tail)

-- A request that is answered 200 found its token open, came with a user that may redeem it, redeemed
-- the token, and is answered with the tarball of the token's row; it leaves the database of the
-- redemption, with the user recorded and the address filled in if the peer had none.
pub enroll_serves : (r : Request) (db : Db) → (enroll r db).0.status ≡ 200 → Served r db
enroll_serves r db h =
    let same = enroll_found r db (token_of db r.token) refl h in
    let (t, found, clear, redeemed, tail) =
      lookup-Tail r db (token_of db r.token) refl (subst (λ x. x.0.status ≡ 200) same h) in
    let (_, fresh, _) = consume_token_eq_ok r.token db t redeemed in
    record {
      row = t;
      bytes = tail.bytes;
      found = found;
      fresh = fresh;
      fit = no_objection r.user t fresh clear;
      redeemed = redeemed;
      stored = tail.stored;
      body = ap (λ x. x.0.body) same ∙ tail.body;
      left = ap (λ x. x.1) same ∙ tail.left;
    }

-- A user that may not redeem the open token is answered 400, and nothing is written: the token can
-- still be redeemed. A user that may is answered by what the redemption gives.
pub enroll_user_gate :
    (r : Request) (db : Db) (t : Token)
    → is_empty r.token ≡ false
    → token_of db r.token ≡ some t
    → t.consumed ≡ false
    → ((¬ (IsFit r.user t)) → ((enroll r db).0.status ≡ 400) × ((enroll r db).1 ≡ db))
      × (IsFit r.user t → enroll r db ≡ after_consume r (consume_token r.token db))
unfolding enroll
enroll_user_gate r db t named found fresh = (
  λ unfit. elim (Option-cases (user_objection r.user t)) [
    | inl clear ↦ absurd (unfit (no_objection r.user t fresh clear))
    | inr (o, objection) ↦
        (ground (arith, named, found, objection), ground (arith, named, found, objection))
  ],
  λ fit. ground (arith, named, found, fit_no_objection r.user t fit),
)

after_consume_err :
    (r : Request) (x : Result Token × Db) (e : Error) → x.0 ≡ err e → (after_consume r x).1 ≡ x.1
after_consume_err r (ok t, db) e h = absurd (cc h)
after_consume_err r (err token_not_found, db) e h = refl
after_consume_err r (err token_already_consumed, db) e h = refl
after_consume_err r (err _, db) e h = refl

-- A redemption that fails, such as one whose group was deleted since the mint, leaves the database as
-- it was, so the same request can be made again.
pub enroll_retryable :
    (r : Request) (db : Db) (e : Error)
    → (consume_token r.token db).0 ≡ err e
    → (enroll r db).1 ≡ db
unfolding enroll
enroll_retryable r db e h =
    let kept =
      after_consume_err r (consume_token r.token db) e h
      ∙ consume_token_rolls_back r.token db e h in
    elim (Option-cases (token_of db r.token)) [
      | inl missing ↦ ground (arith, missing)
      | inr (t, found) ↦ elim (Option-cases (user_objection r.user t)) [
        | inl clear ↦ ground (arith, found, clear, kept)
        | inr (o, objection) ↦ ground (arith, found, objection)
      ]
    ]
