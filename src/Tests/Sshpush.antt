-- ===== src/Tests/Sshpush.antt =====
-- internal/sshpush: concrete dials.
use certhold.Base.{
  ℕ, ◌+◌, Text, text, Bool, true, false, ◌||◌, Option, none, some, [], ◌∷◌, ◌++◌, nat_eq, ◌==◌,
  if◌then◌else◌, ◌≡◌, refl,
}
use certhold.Errors.{ok}
use certhold.Sshpush.{
  Verdict, accepted, unknown, refused, Library, Connection, Options, Net, captures, dial_address,
  append_known_host, load_host_key_callback, dial,
}
use certhold.Sshpush.Trust.{Trusted, is_unknown, dial_trusts}

-- A library whose keys are numbers and whose lines are single letters, whatever the host.
abbrev letter : ℕ → Text
letter key = (11 + key) ∷ []

-- Whether a line of the text is the wanted one; `cur` is the line so far.
abbrev scan : Text → Text → Text → Bool
scan want cur [] = false
scan want cur (c ∷ s) =
    let rest = scan want [] s in
    let longer = scan want (cur ++ (c ∷ [])) s in
    if nat_eq c 10 then cur == want || rest else longer

abbrev judged : Bool → Verdict
judged true = accepted
judged false = unknown

abbrev knows : Text → Text → ℕ → Verdict
knows content host key = judged (scan (letter key) [] content)

abbrev tiny : Library ℕ
tiny = record {
  new = λ content. some (knows content);
  normalize = λ addr. addr;
  line = λ addr key. letter key;
}

abbrev asks_of : Option (Text → ℕ → Verdict) → Text → ℕ → Verdict
asks_of none host key = refused
asks_of (some f) host key = f host key

-- A host that presents the key 1, and an operator who agrees.
abbrev web_host : Connection ℕ (Unit {0})
web_host = record {
  load_key = λ s. (ok tt, s);
  present = λ addr s. (ok 1, s);
  authenticate = λ s. (ok tt, s);
}

abbrev agreeing : Options ℕ (Unit {0})
agreeing = record { capture_host_key = false; confirm = some (λ host key s. (ok true, s)) }

-- known_hosts has the line of another key.
abbrev fresh : Net (Unit {0})
fresh = record { known = some (text "x" ++ (10 ∷ [])); outside = tt }

fresh_dial : (dial tiny web_host agreeing (text "web") fresh).0 ≡ ok tt
unfolding dial ◌==◌
fresh_dial = refl

fresh_dial_known :
    (dial tiny web_host agreeing (text "web") fresh).1.known
    ≡ some (text "x" ++ (10 ∷ 12 ∷ 10 ∷ []))
unfolding dial ◌==◌
fresh_dial_known = refl

-- A last line that is not ended takes the entry, and the key is not found.
unended_dial_known :
    (append_known_host tiny (text "web:22") 1 (some (text "x")) ≡ some (text "x" ++ (12 ∷ 10 ∷ [])))
    × (knows (text "x" ++ (12 ∷ 10 ∷ [])) (text "web:22") 1 ≡ unknown)
unfolding append_known_host ◌==◌
unended_dial_known = (refl, refl)

dial_trusts_example :
    (callback : Text → ℕ → Verdict) × (load_host_key_callback tiny fresh.known (captures agreeing)
      ≡ ok callback)
    × (key : ℕ) × ((web_host.present (dial_address (text "web")) tt).0 ≡ ok key)
    × Trusted agreeing (text "web") key tt (callback (dial_address (text "web")) key)
    × ((dial tiny web_host agreeing (text "web") fresh).1.known ≡ (
        if is_unknown (callback (dial_address (text "web")) key)
        then append_known_host tiny (dial_address (text "web")) key fresh.known
        else fresh.known))
dial_trusts_example = dial_trusts tiny web_host agreeing (text "web") fresh fresh_dial
