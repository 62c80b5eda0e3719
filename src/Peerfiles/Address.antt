-- ===== src/Peerfiles/Address.antt =====
-- internal/peerfiles/address.go: the check on a dial address, which is written verbatim into the
-- ssh_config of every peer. A code point beyond ASCII stands for its bytes, which the check refuses
-- one by one, as it refuses the code point.
use certhold.Base.{
  ℕ, Text, Bool, ◌||◌, [], ◌∷◌, length, is_empty, nat_eq, ltb, if◌then◌else◌, ◌≡◌, refl, arith, ◌↔◌,
  ◌≤◌, All, ◌≢◌,
}
use certhold.Errors.{
  Result, ok, err, address_too_long, address_whitespace, address_control, address_quote,
}

is_blank : ℕ → Bool
is_blank c = nat_eq c b' ' || nat_eq c 9 || nat_eq c 10 || nat_eq c 13

is_quote : ℕ → Bool
is_quote c = nat_eq c 0x22 || nat_eq c 0x27

-- The loop over the characters.
unfoldable pub check_chars : Text → Result (Unit {0})
unfolding is_blank is_quote
check_chars [] = ok tt
check_chars (c ∷ cs) =
    let rest = check_chars cs in
    if is_blank c
    then err address_whitespace
    else if ltb c 0x21 || ltb 0x7e c
    then err address_control
    else if is_quote c
    then err address_quote
    else rest

-- `ValidateDialAddress`
unfoldable pub validate_dial_address : Text → Result (Unit {0})
unfolding check_chars
validate_dial_address addr =
    if is_empty addr
    then ok tt
    else if ltb 255 (length addr)
    then err address_too_long
    else check_chars addr

-- A printable ASCII character that is no quote.
pub record IsPlain (c : ℕ) : Type 0 where
  pub low : 0x21 ≤ c
  pub high : c ≤ 0x7e
  pub not_double : c ≢ 0x22
  pub not_single : c ≢ 0x27

check_chars_sound : (s : Text) → check_chars s ≡ ok tt → All IsPlain s
unfolding check_chars
check_chars_sound [] h = tt
check_chars_sound (c ∷ cs) h = ground (arith, check_chars_sound cs)

check_chars_complete : (s : Text) → All IsPlain s → check_chars s ≡ ok tt
unfolding check_chars
check_chars_complete [] h = refl
check_chars_complete (c ∷ cs) h =
    ground (arith, h.0.low, h.0.high, h.0.not_double, h.0.not_single, check_chars_complete cs h.1)

-- An address is accepted exactly when it is at most 255 characters, each printable ASCII and no
-- quote; so no accepted address holds a space, a line break or a quote.
pub validate_dial_address_iff :
    (addr : Text) → (validate_dial_address addr ≡ ok tt) ↔ ((length addr ≤ 255) × All IsPlain addr)
unfolding validate_dial_address
validate_dial_address_iff [] = (λ h. (omega arith, tt), λ h. refl)
validate_dial_address_iff (c ∷ cs) = (
  λ h. (ground arith, check_chars_sound (c ∷ cs) (ground arith)),
  λ h. ground (arith, h.0, check_chars_complete (c ∷ cs) h.1),
)
