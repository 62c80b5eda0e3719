-- ===== src/Http/Enroll.antt =====
-- The enrollment endpoints of internal/httpserver/server.go: `GET /enroll/{token}` and
-- `GET /enroll/{token}.sh`.
pub mod Once
pub mod Refused
use certhold.Base.{
  ℕ, Text, text, Bool, true, false, not, ◌&&◌, ◌||◌, ◌==◌, Option, none, some, List, [], ◌∷◌, ◌++◌,
  is_empty, nat_eq, leb, ltb, length, if◌then◌else◌,
}
use certhold.Errors.{Error, token_not_found, token_already_consumed, Result, ok, err}
use certhold.Exec.{Exec}
use certhold.Db.{Db, Peer, Token, token_of, peer_of}
use certhold.Db.Peers.{dial_host, get_peer, set_peer_target_user, set_peer_address_if_empty}
use certhold.Db.Meta.{get_meta, instance_key}
use certhold.Db.Tokens.{lookup_token, consume_token}
use certhold.Http.{
  Request, Response, Body, Script, Handler, message, tarball, script, write_err, reply,
}
use certhold.Http.Address.{split_host_port}

is_lower : ℕ → Bool
is_lower c = leb b'a' c && leb c b'z'

name_head : ℕ → Bool
unfolding is_lower
name_head c = is_lower c || nat_eq c b'_'

name_char : ℕ → Bool
unfolding name_head
name_char c = name_head c || (leb b'0' c && leb c b'9') || nat_eq c b'-'

-- `[a-z0-9_-]*\$?$`
name_tail : Text → Bool
unfolding name_char
name_tail [] = true
name_tail (c ∷ cs) =
    let rest = name_tail cs in (name_char c && rest) || (nat_eq c b'$' && is_empty cs)

-- `validUsername`
unfoldable pub valid_username : Text → Bool
unfolding name_head name_tail
valid_username [] = false
valid_username (c ∷ cs) = name_head c && name_tail cs

-- The user names that the handler takes; the bound is in bytes, and a name of the pattern has one
-- byte for each character.
unfoldable pub acceptable_user : Text → Bool
unfolding valid_username
acceptable_user user = not (ltb 32 (length user) || not (valid_username user))

-- The three tests of the query user, made of a token that is not consumed: the message of the 400.
unfoldable pub user_objection : Text → Token → Option Text
unfolding acceptable_user
user_objection user t =
    if t.consumed
    then none
    else if is_empty user
    then some (text "user required")
    else if not (acceptable_user user)
    then some (text "invalid user")
    else if not (is_empty t.target_user) && not (t.target_user == user)
    then some (text "user mismatch")
    else none

-- The dial address that the redemption records if the peer has none.
unfoldable pub source_host : Text → Option Text
unfolding split_host_port
source_host remote = elim (split_host_port remote) [
  | some host ↦ some host
  | none ↦ if is_empty remote then none else some remote
]

abbrev pub backfill : Text → Option Text → Db → Db
backfill name none db = db
backfill name (some host) db = (set_peer_address_if_empty name host db).1

-- The tail of the handler: the tarball of the token, if the row has one.
abbrev pub serve_tarball : Option Text → Handler
serve_tarball none = write_err 500 (text "tarball not available")
serve_tarball (some bytes) = reply (tarball bytes)

-- What follows the recording of the user. The probe is started on what it reads of the peer, and runs
-- beside the handler; it is not part of the handler's result.
abbrev pub after_user : Request → Token → Result (Unit {0}) × Db → Response × Db
after_user r t (err e, db) = write_err 500 (text "record target user failed") db
after_user r t (ok _, db) =
    serve_tarball t.tarball (backfill t.peer_name (source_host r.remote_addr) db)

-- The argument of the probe: the peer, the address that it dials, and the user.
unfoldable pub probe_target : Text → Db → Option (Text × Text × Text)
probe_target name db = elim (peer_of db name) [
  | none ↦ none
  | some p ↦ some (name, dial_host p, p.target_user)
]

abbrev pub consume_status : Error → Handler
consume_status token_not_found = write_err 404 (text "token not found")
consume_status token_already_consumed = write_err 410 (text "token already consumed")
consume_status _ = write_err 500 (text "consume token failed")

abbrev pub after_consume : Request → Result Token × Db → Response × Db
after_consume r (err e, db) = consume_status e db
after_consume r (ok t, db) = after_user r t (set_peer_target_user t.peer_name r.user db)

abbrev pub checked : Request → Option Text → Handler
checked r (some objection) db = write_err 400 objection db
checked r none db = after_consume r (consume_token r.token db)

abbrev pub on_lookup : Request → Option Token → Handler
on_lookup r none db = write_err 404 (text "token not found") db
on_lookup r (some t) db = checked r (user_objection r.user t) db

-- `enrollHandler`
unfoldable pub enroll : Request → Handler
enroll r db =
    if is_empty r.token
    then write_err 400 (text "missing token") db
    else on_lookup r (token_of db r.token) db

abbrev or_empty : Option Text → Text
or_empty none = []
or_empty (some v) = v

abbrev value : Result (Option Text) → Text
value (ok v) = or_empty v
value (err e) = []

abbrev scheme : Request → Text
scheme r =
    if not (is_empty r.forwarded_proto)
    then r.forwarded_proto
    else if r.tls
    then text "https"
    else text "http"

abbrev script_for : Request → Option Token → Handler
script_for r none db = write_err 404 (text "token not found") db
script_for r (some t) db =
    if t.consumed
    then write_err 410 (text "token already consumed") db
    else reply
        (script (record {
          base_url = scheme r ++ (text "://" ++ r.host);
          token = r.token;
          instance_key = value (get_meta instance_key db).0;
          peer_name = t.peer_name;
          preset_user = t.target_user;
        }))
        db

-- `scriptHandler`
unfoldable pub enroll_script : Request → Handler
enroll_script r db =
    if is_empty r.token
    then write_err 400 (text "missing token") db
    else script_for r (token_of db r.token) db
