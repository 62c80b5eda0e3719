-- ===== src/Peerfiles/Layout.antt =====
-- internal/peerfiles/homeof.go, layout.go, and the entries of the two archives of usertar.go and
-- refreshbundle.go. The packing by tar and gzip is not modelled.
pub mod Bundles
use certhold.Base.{
  ℕ, Text, text, Bool, true, false, not, Option, none, some, List, [], ◌∷◌, ◌++◌, map, is_empty,
  ◌==◌, if◌then◌else◌,
}
use certhold.Peerfiles.Lines.{newline, unlines}
use certhold.Peerfiles.AuthorizedKeys.{authorized_keys_line, trim_end}

-- `HomeOf`
unfoldable pub home_of : Text → Text
home_of user = if user == text "root" then text "/root" else text "/home/" ++ user

-- `RemotePaths`; `CAPub` and `KRL` are never set.
pub record RemotePaths : Type 0 where
  pub cert : Text
  pub authorized_keys : Text
  pub known_hosts : Text
  pub config_target : Text

abbrev pub or_root : Text → Text
or_root user = if is_empty user then text "root" else user

-- `V2KeyFileName`
unfoldable pub key_file_name : Text → Text
key_file_name key = text "id_ed25519_" ++ key

-- `V2CertFileName`
unfoldable pub cert_file_name : Text → Text
cert_file_name key = text "id_ed25519_" ++ (key ++ text "-cert.pub")

-- `PathsFor`
unfoldable pub paths_for : Text → Text → RemotePaths
unfolding home_of cert_file_name
paths_for user key =
    let base = home_of (or_root user) ++ text "/.ssh" in
    record {
      cert = base ++ (text "/" ++ cert_file_name key);
      authorized_keys = base ++ text "/authorized_keys";
      known_hosts = base ++ text "/known_hosts";
      config_target = base ++ text "/config";
    }

-- `BeginSentinel`, `EndSentinel`
unfoldable pub begin_sentinel : Text → Text
begin_sentinel key = text "# BEGIN certhold " ++ (key ++ text " v2")

unfoldable pub end_sentinel : Text → Text
end_sentinel key = text "# END certhold " ++ (key ++ text " v2")

-- `HostEntry`
pub record HostEntry : Type 0 where
  pub name : Text
  pub address : Text
  pub user : Text

abbrev preamble : List Text
preamble =
    text "# This block is managed by certhold -- auto-generated, do not edit by hand."
    ∷ text "# It makes the local ssh client present the certhold-issued certificate"
    ∷ text "# (CertificateFile + IdentityFile below) on every outbound ssh connection."
    ∷ text "# The instance key in the sentinel lines namespaces this block so multiple"
    ∷ text "# certhold installs can coexist on the same host without clobbering each other."
    ∷ text "# To refresh, re-run the enroll one-liner; it idempotently replaces this range."
    ∷ []

abbrev unless_empty : Text → Text → List Text
unless_empty value line = if is_empty value then [] else line ∷ []

-- The stanzas of the loop over the hosts.
unfoldable pub stanzas : List HostEntry → List Text
stanzas [] = []
stanzas (h ∷ hs) =
    let rest = stanzas hs in
    let stanza =
      (text "Host " ++ h.name)
      ∷ (unless_empty h.address (text "    HostName " ++ h.address)
          ++ (unless_empty h.user (text "    User " ++ h.user) ++ rest)) in
    if is_empty h.address then (if is_empty h.user then rest else stanza) else stanza

-- The lines of `V2SshClientBlockWithHosts`.
unfoldable pub client_block_lines : Text → List HostEntry → List Text
unfolding stanzas key_file_name cert_file_name begin_sentinel end_sentinel
client_block_lines key hosts =
    begin_sentinel key
    ∷ (preamble
        ++ (stanzas hosts
            ++ (text "Host *"
                ∷ (text "    CertificateFile ~/.ssh/" ++ cert_file_name key)
                ∷ (text "    IdentityFile ~/.ssh/" ++ key_file_name key)
                ∷ text "    UserKnownHostsFile ~/.ssh/known_hosts"
                ∷ end_sentinel key
                ∷ [])))

-- `V2SshClientBlockWithHosts`
unfoldable pub client_block : Text → List HostEntry → Text
unfolding client_block_lines
client_block key hosts = unlines (client_block_lines key hosts)

-- `UserPeerFiles`; `none` is nil.
pub record UserPeerFiles : Type 0 where
  pub priv_key : Text
  pub cert_pub : Text
  pub ca_pub : Text
  pub principals : List Text
  pub known_hosts_lines : List Text
  pub instance_key : Text
  pub no_inbound : Bool
  pub hosts : List HostEntry
  pub cli_script : Option Text
  pub conf : Option Text

-- `userFileEntry`
pub record FileEntry : Type 0 where
  pub name : Text
  pub mode : ℕ
  pub content : Text

abbrev entry : Text → ℕ → Text → FileEntry
entry name mode content = record { name = name; mode = mode; content = content }

-- 0600, 0644, 0755
abbrev pub private_mode : ℕ
private_mode = 384

abbrev pub public_mode : ℕ
public_mode = 420

abbrev pub script_mode : ℕ
script_mode = 493

abbrev pub given : Option Text → Text → ℕ → List FileEntry
given none name mode = []
given (some content) name mode = entry name mode content ∷ []

abbrev trust_entry : UserPeerFiles → FileEntry
trust_entry p =
    if not p.no_inbound
    then entry (text "ca_authorized_keys") public_mode
        (authorized_keys_line p.ca_pub p.principals ++ (newline ∷ []))
    else entry (text "ca_pub") public_mode p.ca_pub

-- `buildKnownHosts`
unfoldable pub build_known_hosts : List Text → Text
build_known_hosts ls = unlines (map (trim_end newline) ls)

-- `userFileEntries`
unfoldable pub user_file_entries : UserPeerFiles → List FileEntry
unfolding key_file_name cert_file_name build_known_hosts
user_file_entries p =
    entry (key_file_name p.instance_key) private_mode p.priv_key
    ∷ entry (cert_file_name p.instance_key) public_mode p.cert_pub
    ∷ entry (text "known_hosts") public_mode (build_known_hosts p.known_hosts_lines)
    ∷ entry (text "config") public_mode (client_block p.instance_key p.hosts)
    ∷ trust_entry p
    ∷ (given p.cli_script (text "certhold-cli") script_mode
        ++ given p.conf (text "certhold_" ++ (p.instance_key ++ text ".conf")) private_mode)

-- The entries of `BuildRefreshBundle`; `manifest` is the text that it prints.
unfoldable pub refresh_entries : Text → Text → Text → List HostEntry → Text → List FileEntry
unfolding cert_file_name
refresh_entries key cert_pub cli_script hosts manifest =
    entry (cert_file_name key) public_mode cert_pub
    ∷ entry (text "config") public_mode (client_block key hosts)
    ∷ entry (text "certhold-cli") script_mode cli_script
    ∷ entry (text "manifest") public_mode manifest
    ∷ []
