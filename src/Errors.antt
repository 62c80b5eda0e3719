-- ===== src/Errors.antt =====
-- The errors of the program, one constructor for each that a caller or a test tells apart, and the
-- result of a fallible call. Wrapping by `fmt.Errorf("...: %w", err)` keeps the identity of the
-- error, so a wrapped error is the error.
use certhold.Base.{Text}

pub data Error : Type 0 where
  -- internal/db
  peer_not_found group_exists group_not_found invalid_group_name : Error
  token_not_found token_already_consumed no_active_ca : Error
  -- a PRIMARY KEY or REFERENCES constraint of the schema refused the statement
  constraint : Error
  -- "group %q no longer exists", "peer %q was revoked after this enroll was minted"
  group_gone reenroll_revoked : Text → Error
  ca_version_missing : Error
  -- internal/peerfiles
  no_matching_line malformed_line : Error
  address_too_long address_whitespace address_control address_quote : Error
  -- internal/ops
  reserved_group self_guard peer_revoked missing_group : Text → Error
  groups_required no_groups client_peer push_unreachable stragglers : Error
  -- a failure of code outside the sources: a key, a dial, a remote file, the host name
  external : Error
  -- internal/ops/rekey.go: "ca.next already exists", and no source of the passphrase of an encrypted key
  next_ca_exists no_passphrase_source : Error
  -- no error of the program: a loop of the model ran out of fuel
  unfinished : Error

pub data Result {ℓ} (A : Type ℓ) : Type ℓ where
  ok : A → Result A
  err : Error → Result A

abbrev pub IsOk {ℓ} : {A : Type ℓ} → Result A → Type 0
IsOk (ok a) = Unit
IsOk (err e) = ⊥

abbrev pub IsErr {ℓ} : {A : Type ℓ} → Result A → Type 0
IsErr (ok a) = ⊥
IsErr (err e) = Unit
