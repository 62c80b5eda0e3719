-- ===== src/Ops/Rekey/Run.antt =====
-- internal/ops/rekey.go: `Rekey`, with the clean-up that it defers.
use certhold.Base.{
  ℕ, ◌+◌, Text, text, Bool, true, false, not, ◌||◌, ◌==◌, Option, none, some, List, [], ◌∷◌, filter,
  contains, if◌then◌else◌,
}
use certhold.Errors.{
  no_active_ca, next_ca_exists, no_passphrase_source, unfinished, Result, ok, err,
}
use certhold.Exec.{Exec, ◌>>=◌, ◌>>◌, pure, modify, refuse_if, for_each}
use certhold.Db.{Peer}
use certhold.Db.Ca.{active_ca_version, insert_ca_version, set_active_ca_version}
use certhold.Db.Meta.{bump_fleet_rev}
use certhold.Db.Peers.{get_peer, list_peers, set_peer_cert}
use certhold.Peerfiles.AuthorizedKeys.{ParsedKey}
use certhold.Ops.{World, Op, info, warn, on_db, on_remote, emit, warning}
use certhold.Ops.Outside.{Outside}
use certhold.Ops.SelfName.{resolve_self_name, ensure_instance_key}
use certhold.Ops.Rekey.Archive.{free_archive}
use certhold.Ops.Rekey.Rotate.{Staging, Prior, Rotation, in_world, rotate_all}

-- `RekeyOptions`
pub record RekeyOptions : Type 0 where
  pub hostname : Text
  pub exclude : List Text
  pub rotate_passphrase : Bool

abbrev pub next_dir : Text
next_dir = text "ca.next"

abbrev pub ca_dir : Text
ca_dir = text "ca"

-- The peers of the loop.
unfoldable pub peers_to_rotate : Text → List Text → List Peer → List Peer
peers_to_rotate hostname exclude =
    filter (λ p. not (p.revoked || p.name == hostname || contains exclude p.name))

-- The variables at the registration of the clean-up.
abbrev pub rotation_of : {R : Type 0} → World R → Rotation R
rotation_of w = record {
  world = w;
  committed = false;
  rotated = false;
  prior = [];
  updated = [];
  stragglers = [];
}

module _ {R : Type 0} (staging : Staging R) where
  abbrev unlocked : Option (Exec R Text) → Op R (Option Text)
  unlocked none w = (err no_passphrase_source, w)
  unlocked (some unlock) w = (on_remote unlock >>= λ pass. pure (some pass)) w

  abbrev same_protection : Bool → Op R (Option Text)
  same_protection false w = (ok none, w)
  same_protection true w = unlocked staging.ca_unlock w

  -- `newCAPassphrase`; `none` is the nil passphrase of a plaintext key.
  unfoldable pub new_ca_passphrase : Bool → Op R (Option Text)
  new_ca_passphrase true = do pass ← on_remote staging.new_passphrase; pure (some pass)
  new_ca_passphrase false = on_remote staging.ca_key_encrypted >>= same_protection

  -- The guard on ca.next.
  unfoldable pub guard_next : Op R (Unit {0})
  guard_next = do there ← λ w. (staging.stat next_dir w.remote, w); refuse_if there next_ca_exists

  abbrev found_name : Option (Result Text) → Result Text
  found_name none = err unfinished
  found_name (some r) = r

  abbrev or_back : Text → Result (Unit {0}) × World R → Result (Unit {0}) × World R
  or_back old (ok u, w) = (ok u, w)
  or_back old (err e, w) = (err e, (on_remote (staging.rename old ca_dir) w).1)

  -- The swap of the directories: the name of the archive. `fuel` bounds the rounds of the search.
  unfoldable pub swap_dirs : ℕ → Op R (Unit {0})
  unfolding free_archive
  swap_dirs fuel = do
    old ← λ w. (
      found_name (free_archive (λ n. staging.stat n w.remote) (staging.stamp w.remote) fuel 0),
      w,
    )
    on_remote (staging.rename ca_dir old)
    λ w. or_back old (on_remote (staging.rename next_dir ca_dir) w)

  abbrev pub or_zero : Result ℕ × World R → Result ℕ × World R
  or_zero (err no_active_ca, w) = (ok 0, w)
  or_zero (r, w) = (r, w)

  -- The new active version, and the fleet revision.
  unfoldable pub record_version : ℕ → Op R (Unit {0})
  record_version now = do
    current ← λ w. or_zero (on_db active_ca_version w)
    on_db (insert_ca_version now (current + 1))
    on_db (set_active_ca_version (current + 1))
    on_db bump_fleet_rev

  -- `reportStragglers`
  unfoldable pub report_stragglers : List Text → Op R (Unit {0})
  unfolding for_each
  report_stragglers [] = pure tt
  report_stragglers (name ∷ names) = do
    emit (warn [])
    for_each (name ∷ names) (λ n. emit (warn n))
    emit (warn [])
    emit (warn [])

  -- From the swap of the directories to the return.
  unfoldable pub conclude : ℕ → ℕ → Exec (Rotation R) (Unit {0})
  unfolding swap_dirs record_version report_stragglers
  conclude now fuel = do
    in_world (swap_dirs fuel)
    modify λ s. record s { committed = true }
    in_world (record_version now)
    in_world (emit (info []))
    λ s. in_world (report_stragglers s.stragglers) s

  -- The restore of what was stored without a push; a failure is reported.
  unfoldable pub restore : List Prior → Op R (Unit {0})
  unfolding for_each
  restore prior =
      for_each prior (λ c. warning c.name (on_db (set_peer_cert c.name c.cert c.serial)))

  -- The deferred clean-up.
  unfoldable pub clean_up : Rotation R → World R
  unfolding restore
  clean_up s =
      if s.committed
      then s.world
      else if s.rotated
      then (emit (warn []) s.world).1
      else (on_remote (staging.remove_all next_dir) (restore s.prior s.world).1).1

  abbrev pub cleaned : Result (Unit {0}) × Rotation R → Result (Unit {0}) × World R
  cleaned (r, s) = (r, clean_up s)

module _ {R : Type 0} (out : Outside R) (staging : Staging R)
    (parse : Text → Option ParsedKey) where
  -- The part of `Rekey` that the clean-up follows.
  unfoldable pub rotation :
      ℕ → ℕ → Text → Text → List Peer → Peer → Option Text → Exec (Rotation R) (Unit {0})
  unfolding rotate_all conclude
  rotation now fuel key hostname others self pass = do
    new_ca ← in_world (on_remote (staging.generate pass))
    retired ← in_world (on_remote out.instance_ca_pubs)
    rotate_all out staging parse
        (record { key = key; hostname = hostname; new_ca = new_ca; retired = retired }) others self
    conclude staging now fuel

  -- From the registration of the clean-up to the return.
  unfoldable pub rotate_cleanly :
      ℕ → ℕ → Text → Text → List Peer → Peer → Option Text → Op R (Unit {0})
  unfolding rotation clean_up
  rotate_cleanly now fuel key hostname others self pass w =
      cleaned staging (rotation now fuel key hostname others self pass (rotation_of w))

  -- `Rekey`
  unfoldable pub rekey : ℕ → ℕ → RekeyOptions → Op R (Unit {0})
  unfolding rotate_cleanly guard_next new_ca_passphrase peers_to_rotate resolve_self_name
      ensure_instance_key
  rekey now fuel opts = do
    on_remote out.load_ca
    key ← ensure_instance_key out
    hostname ← resolve_self_name out opts.hostname
    self ← on_db (get_peer hostname)
    peers ← on_db list_peers
    guard_next staging
    pass ← new_ca_passphrase staging opts.rotate_passphrase
    rotate_cleanly now fuel key hostname (peers_to_rotate hostname opts.exclude peers) self pass
