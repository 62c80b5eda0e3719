-- ===== src/Tests/Peerfiles.antt =====
-- The files of a peer at concrete inputs. The file has a foreign line, the trust line of the instance,
-- and another foreign line without a line break at its end.
use certhold.Base.{
  ◌≤◌, Text, text, false, Option, none, some, List, [], ◌∷◌, ◌++◌, any, filter, All, contains,
  trim_space, join, length, ◌==◌, ◌≡◌, ◌↔◌, refl, if◌then◌else◌,
}
use certhold.Errors.{ok}
use certhold.Peerfiles.Address.{validate_dial_address, IsPlain, validate_dial_address_iff}
use certhold.Peerfiles.Principals.{dedup_principals, dedup_from}
use certhold.Peerfiles.Lines.{lines, unlines, newline}
use certhold.Peerfiles.AuthorizedKeys.{
  authorized_keys_line, ParsedKey, is_ours, line_matches_ca, before, trim_end, cut, cut_prefix,
  strip_ca_line, replace_ca_lines, rewrite_principals, rewrite_loop, rewrite_line_options,
  principals_option,
}
use certhold.Peerfiles.AuthorizedKeys.Replace.{foreign, until, replace_ca_lines_once}
use certhold.Peerfiles.Layout.{UserPeerFiles, user_file_entries}
use certhold.Peerfiles.Layout.Bundles.{content_of, trust_line_iff_inbound}

abbrev trust_line : Text
trust_line = text "cert-authority,principals=\"manager,ops\" KEY"

abbrev parse : Text → Option ParsedKey
parse line =
    if line == trust_line
    then some (record { marshalled = text "KEY"; options = text "cert-authority" ∷ [] })
    else none

abbrev existing : Text
existing = text "ssh-rsa A\ncert-authority,principals=\"manager,ops\" KEY\nssh-rsa B"

abbrev keys : List Text
keys = text "KEY" ∷ []

stripped : strip_ca_line parse existing keys ≡ text "ssh-rsa A\nssh-rsa B\n"
unfolding strip_ca_line is_ours line_matches_ca lines unlines trim_end before trim_space ◌==◌
stripped = refl

replace_ca_lines_once_example :
    (pre : List Text) × (post : List Text) × (lines
        (replace_ca_lines parse existing keys (text "NEW\n"))
      ≡ pre ++ (trim_end newline (text "NEW\n") ∷ post))
    × (filter (foreign parse keys) (lines existing) ≡ pre ++ post)
    × (pre ≡ until (is_ours parse keys) (lines existing))
    × (any (is_ours parse keys) pre ≡ false)
unfolding trim_end
replace_ca_lines_once_example = replace_ca_lines_once parse existing keys (text "NEW\n") refl

abbrev rewritten : Text
rewritten = text "ssh-rsa A\ncert-authority,principals=\"manager,dev\" KEY\nssh-rsa B\n"

rewritten_there : rewrite_principals parse existing (text "KEY") (text "dev" ∷ []) ≡ ok rewritten
unfolding rewrite_principals rewrite_loop rewrite_line_options principals_option is_ours
    line_matches_ca lines unlines trim_end before trim_space cut cut_prefix dedup_principals
    dedup_from contains join ◌==◌
rewritten_there = refl

validate_dial_address_iff_example :
    (validate_dial_address (text "10.0.0.7") ≡ ok tt)
    ↔ ((length (text "10.0.0.7") ≤ 255) × All IsPlain (text "10.0.0.7"))
validate_dial_address_iff_example = validate_dial_address_iff (text "10.0.0.7")

abbrev inbound_files : UserPeerFiles
inbound_files = record {
  priv_key = text "PRIVATE";
  cert_pub = text "CERT";
  ca_pub = text "KEY";
  principals = text "ops" ∷ [];
  known_hosts_lines = [];
  instance_key = text "k1";
  no_inbound = false;
  hosts = [];
  cli_script = some (text "SCRIPT");
  conf = none;
}

trust_line_iff_inbound_example :
    (content_of (text "ca_authorized_keys") (user_file_entries inbound_files) ≡ (
      if inbound_files.no_inbound
      then none
      else some
          (authorized_keys_line inbound_files.ca_pub inbound_files.principals ++ (newline ∷ []))))
    × (content_of (text "ca_pub") (user_file_entries inbound_files)
        ≡ (if inbound_files.no_inbound then some inbound_files.ca_pub else none))
trust_line_iff_inbound_example = trust_line_iff_inbound inbound_files
