-- ===== src/Sshpush/Trust.antt =====
-- internal/sshpush: which host keys a dial trusts.
use certhold.Base.{
  Text, Bool, true, false, Option, none, some, if◌then◌else◌, ◌≡◌, refl, sym, ap, ◌∙◌, arith,
}
use certhold.Errors.{Result, ok, err}
use certhold.Exec.{Exec, continue}
use certhold.Exec.Steps.{continue_eq_ok}
use certhold.Sshpush.{
  Verdict, accepted, unknown, refused, Library, Connection, Options, Net, captures, dial_address,
  append_known_host, record_key, load_host_key_callback, on_outside, kept_key, asked, decide,
  handshake, dial,
}

abbrev pub is_unknown : Verdict → Bool
is_unknown unknown = true
is_unknown _ = false

module _ {K S : Type 0} where
  abbrev pub SaysYes : Option (Text → K → Exec S Bool) → Text → K → S → Type 0
  SaysYes none host key s = Unit
  SaysYes (some ask) host key s = (ask host key s).0 ≡ ok true

  -- What the operator says of a key, where there is one to ask.
  abbrev pub Agreed : Options K S → Text → K → S → Type 0
  Agreed o host key s = SaysYes o.confirm host key s

  -- The reason to trust a key.
  abbrev pub Trusted : Options K S → Text → K → S → Verdict → Type 0
  Trusted o host key s accepted = Unit
  Trusted o host key s unknown = (captures o ≡ true) × Agreed o host key s
  Trusted o host key s refused = ⊥

kept_key_yes :
    {S : Type 0}
    → (r : Result Bool × S) → (w : Net S) → (b : Bool)
    → (continue (r.0, record w { outside = r.1 }) kept_key).0 ≡ ok b
    → (r.0 ≡ ok true)
      × (b ≡ true)
      × ((continue (r.0, record w { outside = r.1 }) kept_key).1.known ≡ w.known)
kept_key_yes (ok true, s) w b h = (refl, cc h, refl)
kept_key_yes (ok false, s) w b h = cc h
kept_key_yes (err e, s) w b h = cc h

module _ {K S : Type 0} (host : Text) (key : K) where
  asked_yes :
      (c : Bool)
      → (confirm : Option (Text → K → Exec S Bool)) → (w : Net S) → (b : Bool)
      → (asked c confirm host key w).0 ≡ ok b
      → (c ≡ true)
        × SaysYes confirm host key w.outside
        × (b ≡ true)
        × ((asked c confirm host key w).1.known ≡ w.known)
  asked_yes false confirm w b h = cc h
  asked_yes true none w b h = (refl, tt, cc h, refl)
  asked_yes true (some ask) w b h =
      let k = kept_key_yes (ask host key w.outside) w b h in (refl, k.0, k.1, k.2)

  decide_trusts :
      (o : Options K S)
      → (v : Verdict) → (w : Net S) → (b : Bool) → (decide o host key v w).0 ≡ ok b
      → Trusted o host key w.outside v
        × (b ≡ is_unknown v)
        × ((decide o host key v w).1.known ≡ w.known)
  unfolding decide
  decide_trusts o accepted w b h = (tt, cc h, refl)
  decide_trusts o unknown w b h =
      let k = asked_yes (captures o) o.confirm w b h in ((k.0, k.1), k.2, k.3)
  decide_trusts o refused w b h = cc h

-- A sequence that succeeds, with what its first step gave.
module _ {S A B : Type 0} where
  first_ok :
      (r : Result A × S)
      → (k : A → Exec S B) → (b : B) → (continue r k).0 ≡ ok b
      → (a : A) × (r.0 ≡ ok a) × ((k a r.1).0 ≡ ok b) × (continue r k ≡ k a r.1)
  first_ok r k b h = let e = continue_eq_ok r k b h in (e.0, e.1, sym (ap (λ x. x.0) e.2) ∙ h, e.2)

module _ {K S : Type 0} (library : Library K) (conn : Connection K S) where
  recorded :
      (captured : Bool)
      → (addr : Text) → (key : K) → (w : Net S)
      → (record_key library conn captured addr key w).1.known
        ≡ (if captured then append_known_host library addr key w.known else w.known)
  recorded true addr key w = refl
  recorded false addr key w = refl

  handshake_trusts :
      (o : Options K S)
      → (host addr : Text) → (key : K) → (v : Verdict) → (w : Net S)
      → (handshake library conn o host addr key v w).0 ≡ ok tt
      → Trusted o host key w.outside v
        × ((handshake library conn o host addr key v w).1.known
            ≡ (if is_unknown v then append_known_host library addr key w.known else w.known))
  unfolding handshake
  handshake_trusts o host addr key v w h =
      let decided = first_ok (decide o host key v w) _ tt h in
      let trusts = decide_trusts host key o v w decided.0 decided.1 in
      let over = first_ok (on_outside conn.authenticate (decide o host key v w).1) _ tt decided.2 in
      (
        trusts.0,
        ap (λ x. x.1.known) decided.3
            ∙ ap (λ x. x.1.known) over.3
            ∙ recorded decided.0 addr key _
            ∙ ground (arith, trusts.1, trusts.2),
      )

  -- a dial that succeeds trusts the key that the host presented: either known_hosts, as it was before,
  -- accepts it, and then the file is left as it is; or the key is unknown to it, unknown keys are
  -- captured, the operator agreed if there is one to ask, and the file gets the entry of the key. A key
  -- that the file refuses, as a changed one, is never trusted.
  pub dial_trusts :
      (o : Options K S)
      → (host : Text) → (w : Net S) → (dial library conn o host w).0 ≡ ok tt
      → let addr = dial_address host in
        let shown = conn.present addr (conn.load_key w.outside).1 in
        (callback : Text → K → Verdict) × (load_host_key_callback library w.known (captures o)
          ≡ ok callback)
        × (key : K) × (shown.0 ≡ ok key)
        × Trusted o host key shown.1 (callback addr key)
        × ((dial library conn o host w).1.known ≡ (
            if is_unknown (callback addr key)
            then append_known_host library addr key w.known
            else w.known))
  unfolding dial
  dial_trusts o host w h =
      let loaded = first_ok (on_outside conn.load_key w) _ tt h in
      let called =
        first_ok
          (
            load_host_key_callback library w.known (captures o),
            record w { outside = (conn.load_key w.outside).1 },
          )
          _ tt loaded.2 in
      let shown =
        first_ok
          (on_outside (conn.present (dial_address host))
            (record w { outside = (conn.load_key w.outside).1 }))
          _ tt called.2 in
      let trusts =
        handshake_trusts o host (dial_address host) shown.0 (called.0 (dial_address host) shown.0) _
          shown.2 in
      (
        called.0,
        called.1,
        shown.0,
        shown.1,
        trusts.0,
        ap (λ x. x.1.known) loaded.3
            ∙ ap (λ x. x.1.known) called.3
            ∙ ap (λ x. x.1.known) shown.3
            ∙ trusts.1,
      )
