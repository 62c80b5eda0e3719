-- ===== src/Sshpush.antt =====
-- internal/sshpush/client.go and knownhosts.go: the decision on the key that a host presents, and the file
-- known_hosts. `K` is the type of public keys.
pub mod Trust
pub mod Learn
use certhold.Base.{
  ℕ, Text, text, Bool, true, false, not, ◌&&◌, ◌||◌, Option, none, some, List, [], ◌∷◌, ◌++◌,
  is_empty, if◌then◌else◌,
}
use certhold.Errors.{Result, ok, err, external}
use certhold.Exec.{Exec, pure, fail, lift, gets, modify, ◌>>=◌, ◌>>◌}
use certhold.Http.Address.{split_host_port, has}

-- What a callback of `knownhosts` says of a key: `nil`, a `KeyError` with no wanted key, another error.
pub data Verdict : Type 0 where
  accepted unknown refused : Verdict

-- The package golang.org/x/crypto/ssh/knownhosts: the callback of a file that parses, the name of an
-- address in the file, and the line of a key.
pub record Library (K : Type 0) : Type 0 where
  pub new : Text → Option (Text → K → Verdict)
  pub normalize : Text → Text
  pub line : Text → K → Text

-- What is outside: the key file and the certificate of the client, and the connection.
pub record Connection (K S : Type 0) : Type 0 where
  -- the private key, its passphrase and the certificate
  pub load_key : Exec S (Unit {0})
  -- the address that is dialed, and the key that the host presents
  pub present : Text → Exec S K
  -- the rest of the handshake
  pub authenticate : Exec S (Unit {0})

-- `Options`: `CaptureHostKey` and `HostKeyConfirmFn`.
pub record Options (K S : Type 0) : Type 0 where
  pub capture_host_key : Bool
  pub confirm : Option (Text → K → Exec S Bool)

-- known_hosts, if there is one, and what is outside.
pub record Net (S : Type 0) : Type 0 where
  pub known : Option Text
  pub outside : S

abbrev has_confirm : {A : Type 0} → Option A → Bool
has_confirm none = false
has_confirm (some f) = true

-- `capture` of `Dial`
abbrev pub captures : {K S : Type 0} → Options K S → Bool
captures o = o.capture_host_key || has_confirm o.confirm

-- The address with the port 22, if it has no colon.
unfoldable pub dial_address : Text → Text
dial_address host = if has b':' host then host else host ++ text ":22"

-- `net.JoinHostPort(host, "22")`
abbrev join_port : Text → Text
join_port host = if has b':' host then (b'[' ∷ host) ++ text "]:22" else host ++ text ":22"

-- The host that `knownHostMatches` looks up.
unfoldable pub lookup_host : Text → Text
unfolding split_host_port
lookup_host host = elim (split_host_port host) [ some h ↦ host | none ↦ join_port host ]

abbrev pub is_accepted : Verdict → Bool
is_accepted accepted = true
is_accepted _ = false

module _ {K : Type 0} (library : Library K) where
  abbrev pub says : Option (Text → K → Verdict) → Text → K → Verdict
  says none host key = refused
  says (some callback) host key = callback host key

  -- `knownHostMatches`
  unfoldable pub known_host_matches : Text → Text → K → Bool
  unfolding lookup_host
  known_host_matches content host key =
      is_accepted (says (library.new content) (lookup_host host) key)

  abbrev pub entry_of : Text → K → Text
  entry_of addr key = library.line (library.normalize addr) key ++ (10 ∷ [])

  -- `AppendKnownHost`
  unfoldable pub append_known_host : Text → K → Option Text → Option Text
  unfolding known_host_matches
  append_known_host addr key none = some (entry_of addr key)
  append_known_host addr key (some content) =
      if known_host_matches content (library.normalize addr) key
      then some content
      else some (content ++ entry_of addr key)

  abbrev pub parsed : Option (Text → K → Verdict) → Result (Text → K → Verdict)
  parsed none = err external
  parsed (some callback) = ok callback

  -- `loadHostKeyCallback`
  unfoldable pub load_host_key_callback : Option Text → Bool → Result (Text → K → Verdict)
  load_host_key_callback none capture = if capture then ok (λ host key. unknown) else err external
  load_host_key_callback (some content) capture = parsed (library.new content)

module _ {S : Type 0} where
  abbrev pub on_outside : {A : Type 0} → Exec S A → Exec (Net S) A
  on_outside m w = let r = m w.outside in (r.0, record w { outside = r.1 })

  abbrev pub kept_key : Bool → Exec (Net S) Bool
  kept_key true = pure true
  kept_key false = fail external

module _ {K S : Type 0} where
  -- A key that is unknown: it fails, or is captured, or the operator is asked.
  abbrev pub asked : Bool → Option (Text → K → Exec S Bool) → Text → K → Exec (Net S) Bool
  asked false confirm host key = fail external
  asked true none host key = pure true
  asked true (some ask) host key = on_outside (ask host key) >>= kept_key

  -- `callback` of `capturingCallback`, and the strict one: whether the key is captured.
  unfoldable pub decide : Options K S → Text → K → Verdict → Exec (Net S) Bool
  decide o host key accepted = pure false
  decide o host key unknown = asked (captures o) o.confirm host key
  decide o host key refused = fail external

module _ {K S : Type 0} (library : Library K) (conn : Connection K S) where
  abbrev pub record_key : Bool → Text → K → Exec (Net S) (Unit {0})
  record_key captured addr key w = (
    ok tt,
    if captured then record w { known = append_known_host library addr key w.known } else w,
  )

  -- The rest of a dial, once the key is presented.
  unfoldable pub handshake : Options K S → Text → Text → K → Verdict → Exec (Net S) (Unit {0})
  unfolding decide append_known_host
  handshake o host addr key verdict = do
    captured ← decide o host key verdict
    on_outside conn.authenticate
    record_key captured addr key

  -- `Dial`
  unfoldable pub dial : Options K S → Text → Exec (Net S) (Unit {0})
  unfolding load_host_key_callback dial_address handshake
  dial o host = do
    on_outside conn.load_key
    known ← gets (λ w. w.known)
    callback ← lift (load_host_key_callback library known (captures o))
    let addr = dial_address host
    key ← on_outside (conn.present addr)
    handshake o host addr key (callback addr key)
