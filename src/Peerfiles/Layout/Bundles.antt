-- ===== src/Peerfiles/Layout/Bundles.antt =====
-- What the install bundle of an enrollment holds of the CA key.
use certhold.Base.{
  ℕ, Text, text, false, Option, none, some, List, [], ◌∷◌, ◌++◌, ◌==◌, if◌then◌else◌, ◌≡◌, refl,
  arith, Bool-cases, inl, inr,
}
use certhold.Peerfiles.AuthorizedKeys.{authorized_keys_line}
use certhold.Peerfiles.Lines.{newline}
use certhold.Peerfiles.Layout.{
  UserPeerFiles, FileEntry, user_file_entries, key_file_name, cert_file_name, private_mode,
  script_mode, given,
}

-- What the archive has under a name.
unfoldable pub content_of : Text → List FileEntry → Option Text
content_of name [] = none
content_of name (e ∷ es) = if e.name == name then some e.content else content_of name es

given_other :
    (name : Text) (a b : Option Text) (n m : Text) (i j : ℕ)
    → (n == name) ≡ false
    → (m == name) ≡ false
    → content_of name (given a n i ++ given b m j) ≡ none
unfolding content_of
given_other name none none n m i j h k = refl
given_other name none (some y) n m i j h k = ground (arith, k)
given_other name (some x) none n m i j h k = ground (arith, h)
given_other name (some x) (some y) n m i j h k = ground (arith, h, k)

-- The file "ca_authorized_keys" of an install bundle has the trust line of the CA key with the
-- principals of the peer, and is there exactly when the peer takes inbound logins. The file "ca_pub" has
-- the bare CA key, by which the install script removes a trust line, and is there exactly when the
-- peer does not.
pub trust_line_iff_inbound :
    (p : UserPeerFiles)
    → (content_of (text "ca_authorized_keys") (user_file_entries p) ≡ (
        if p.no_inbound
        then none
        else some (authorized_keys_line p.ca_pub p.principals ++ (newline ∷ []))))
      × (content_of (text "ca_pub") (user_file_entries p)
          ≡ (if p.no_inbound then some p.ca_pub else none))
unfolding content_of user_file_entries key_file_name cert_file_name ◌==◌
trust_line_iff_inbound p =
    let conf = text "certhold_" ++ (p.instance_key ++ text ".conf") in
    let line =
      given_other (text "ca_authorized_keys") p.cli_script p.conf (text "certhold-cli") conf
        script_mode private_mode refl refl in
    let key =
      given_other (text "ca_pub") p.cli_script p.conf (text "certhold-cli") conf script_mode
        private_mode refl refl in
    elim (Bool-cases p.no_inbound) [
      | inl e ↦ (rw e (rw line refl), rw e refl)
      | inr e ↦ (rw e refl, rw e (rw key refl))
    ]
