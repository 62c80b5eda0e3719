-- ===== src/Ops/Enroll/Stages.antt =====
-- `MintEnroll` for a name that has a peer.
use certhold.Base.{
  ℕ, Text, Bool, ◌&&◌, ◌==◌, ==_iff, filter, find?, arith, false, not, Option, none, some, List, [],
  ◌∷◌, is_empty, if◌then◌else◌, ◌≡◌, refl, ap, ◌∙◌,
}
use certhold.Errors.{Result, no_groups}
use certhold.Exec.{Exec, ◌>>=◌, continue, ◌>>◌, lift, pure, refuse_if}
use certhold.Exec.Keeps.{Keeps, Keeps-bind, Keeps-if, Keeps-refuse, Keeps-pure}
use certhold.Db.{Db, Peer, Token, peer_groups, peer_allowed_groups, peer_of}
use certhold.Db.Peers.{get_peer}
use certhold.Db.Groups.{get_peer_groups_table}
use certhold.Db.Meta.{get_meta, set_meta, instance_key, self_name}
use certhold.Peerfiles.Address.{validate_dial_address}
use certhold.Peerfiles.Layout.{FileEntry}
use certhold.Ops.{World, Op, on_db, on_remote}
use certhold.Ops.Outside.{Outside}
use certhold.Ops.SelfName.{
  resolve_self_name, guard_not_self_peer, ensure_instance_key, persisted_or, key_or_new,
}
use certhold.Ops.Enroll.{
  EnrollSpec, EnrollResult, Choice, Material, choose, make_material, mint_tx, mint_enroll, for_new,
  admitted, kept_groups, kept_allowed, one_liner, is_some,
}
use certhold.Ops.Enroll.Reads.{Reads, Reads-table, Reads-hosts, Reads-get_meta}
use certhold.Ops.Enroll.Mint.{mint_stages}

-- Only the tokens differ, and the instance key among the meta rows.
abbrev pub TokensAndKey : Db → Db → Type 0
TokensAndKey db db' =
    (tokens : List Token) × (meta : List (Text × Text)) × (db'
      ≡ record db { tokens = tokens; meta = meta })
    × ((k : Text)
        → (instance_key == k) ≡ false
        → find? (λ e. e.0 == k) meta ≡ find? (λ e. e.0 == k) db.meta)

find-dropped :
    (n k : Text) (es : List (Text × Text))
    → (n == k) ≡ false
    → find? (λ e. e.0 == k) (filter (λ e. not (e.0 == n)) es) ≡ find? (λ e. e.0 == k) es
find-dropped n k [] h = refl
find-dropped n k (e ∷ es) h =
    ground (arith, find-dropped n k es h, ==_iff n k, ==_iff e.0 n, ==_iff e.0 k)

-- The world is as at the start, but for the tokens and the meta rows of the database.
abbrev Staged : {R : Type 0} → Db → World R → Type 0
Staged start w = TokensAndKey start w.db

module _ {R : Type 0} (start : Db) where
  Staged-remote : {A : Type 0} (m : Exec R A) → Keeps (Staged start) (on_remote m)
  Staged-remote m = record { at = λ w h. h }

  Staged-lift : {A : Type 0} (r : Result A) → Keeps (Staged {R = R} start) (lift r)
  Staged-lift r = record { at = λ w h. h }

  Staged-Reads : {A : Type 0} (m : Exec Db A) → Reads m → Keeps (Staged {R = R} start) (on_db m)
  Staged-Reads m r = record { at = λ w h. rw (r.same w.db) h }

  Staged-set_key : (v : Text) → Keeps (Staged {R = R} start) (on_db (set_meta instance_key v))
  unfolding set_meta
  Staged-set_key v = record {
    at = λ w h. (
      h.0,
      (instance_key, v) ∷ filter (λ e. not (e.0 == instance_key)) w.db.meta,
      ap
          (λ (d : Db). record d {
            meta = (instance_key, v) ∷ filter (λ e. not (e.0 == instance_key)) w.db.meta;
          })
          h.2,
      λ k other.
          ground (arith, other)
          ∙ find-dropped instance_key k w.db.meta other
          ∙ ap (λ (d : Db). find? (λ e. e.0 == k) d.meta) h.2
          ∙ h.3 k other,
    );
  }

  Staged-mint :
      (now : ℕ) (spec : EnrollSpec) (p : Peer) (c : Choice) (m : Material)
      → Keeps (Staged {R = R} start) (on_db (mint_tx now spec (some p) c m))
  Staged-mint now spec p c m = record {
    at = λ w h.
        let t = mint_stages now spec p c m w.db in
        (t.0, h.1, t.1 ∙ ap (λ (d : Db). record d { tokens = t.0 }) h.2, h.3);
  }

  ruleset staged_rules = (
    Keeps-bind, Keeps-if, Keeps-refuse, Keeps-pure, Staged-remote, Staged-lift, Staged-Reads,
    Staged-set_key, Staged-mint, Reads-table, Reads-hosts, Reads-get_meta,
  )

module _ {R : Type 0} (out : Outside R) (start : Db) where
  Staged-key_or_new : (k : Option Text) → Keeps (Staged start) (key_or_new out k)
  Staged-key_or_new none = search staged_rules depth 9
  Staged-key_or_new (some k) = search staged_rules depth 9

  Staged-key : Keeps (Staged start) (ensure_instance_key out)
  unfolding ensure_instance_key
  Staged-key = search (staged_rules, Staged-key_or_new) depth 9

  Staged-persisted_or : (o : Option Text) → Keeps (Staged start) (persisted_or out o)
  Staged-persisted_or none = record { at = λ w h. h }
  Staged-persisted_or (some v) =
      Keeps-if (Staged start) (is_empty v) (on_remote out.hostname) (pure v)
        (Staged-remote start out.hostname) (Keeps-pure (Staged start) v)

  Staged-self_name : (h : Text) → Keeps (Staged start) (resolve_self_name out h)
  unfolding resolve_self_name
  Staged-self_name h =
      Keeps-if (Staged start) (is_empty h) (on_db (get_meta self_name) >>= persisted_or out)
        (pure h) (search (staged_rules, Staged-persisted_or) depth 9) (Keeps-pure (Staged start) h)

  Staged-guard : (name h : Text) → Keeps (Staged start) (guard_not_self_peer out name h)
  unfolding guard_not_self_peer
  Staged-guard name h = search (staged_rules, Staged-self_name) depth 9

abbrev stored : {R : Type 0} → Text → Op R (List Text)
stored name = do
  groups ← on_db (get_peer_groups_table peer_groups name)
  refuse_if (is_empty groups) no_groups
  pure groups

module _ {R : Type 0} (out : Outside R) (pack : List FileEntry → Text) (cli_script : Text)
    (start : Db) where
  Staged-admitted :
      (key : Text) (spec : EnrollSpec) (p : Peer)
      → Keeps (Staged start) (admitted out pack cli_script key spec (some p))
  Staged-admitted key spec p = search (staged_rules, Staged-guard) depth 9

  Staged-stored : (name : Text) → Keeps (Staged start) (stored {R = R} name)
  Staged-stored name = search staged_rules depth 9

  Staged-kept_groups :
      (spec : EnrollSpec) → Keeps (Staged start) (kept_groups out pack cli_script spec)
  Staged-kept_groups spec =
      Keeps-if (Staged start) (is_empty spec.groups) (stored spec.name) (pure spec.groups)
        (Staged-stored spec.name) (Keeps-pure (Staged start) spec.groups)

  Staged-kept_allowed :
      (spec : EnrollSpec) (p : Peer) (client : Bool) (groups : List Text)
      → Keeps (Staged start) (kept_allowed out pack cli_script spec p client groups)
  Staged-kept_allowed spec p client groups =
      let read : Op R (List Text) = on_db (get_peer_groups_table peer_allowed_groups spec.name) in
      Keeps-if (Staged start) spec.allowed_set (pure spec.allowed)
        (λ w. if p.inbound && not client then read w else pure groups w)
        (Keeps-pure (Staged start) spec.allowed)
        (Keeps-if (Staged start) (p.inbound && not client) read (pure groups)
          (search staged_rules depth 5) (Keeps-pure (Staged start) groups))

  Staged-choose :
      (spec : EnrollSpec) (p : Peer)
      → Keeps (Staged start) (choose out pack cli_script spec (some p))
  unfolding choose
  Staged-choose spec p = search (staged_rules, Staged-kept_groups, Staged-kept_allowed) depth 9

  Staged-material :
      (spec : EnrollSpec) (c : Choice) (key : Text)
      → Keeps (Staged start) (make_material out pack cli_script spec c key)
  unfolding make_material
  Staged-material spec c key = search staged_rules depth 12

  -- `MintEnroll` after the look for the peer.
  abbrev rest_for : ℕ → EnrollSpec → Text → Option Peer → Op R EnrollResult
  rest_for now spec key existing = do
    admitted out pack cli_script key spec existing
    c ← choose out pack cli_script spec existing
    m ← make_material out pack cli_script spec c key
    on_db (mint_tx now spec existing c m)
    pure (record {
      token = m.token;
      one_liner = one_liner out pack cli_script spec.base_url m.token;
      peer_name = spec.name;
      reenroll = is_some existing;
      client = c.client;
    })

  Staged-rest :
      (now : ℕ) (spec : EnrollSpec) (key : Text) (p : Peer)
      → Keeps (Staged start) (rest_for now spec key (some p))
  Staged-rest now spec key p =
      search (staged_rules, Staged-admitted, Staged-choose, Staged-material) depth 12

  Staged-found :
      (now : ℕ) (spec : EnrollSpec) (key : Text) (p : Peer)
      → peer_of start spec.name ≡ some p
      → Keeps (Staged start) (λ w.
        continue
          (for_new out pack cli_script spec (on_db (get_peer spec.name) w))
          (rest_for now spec key))
  unfolding get_peer
  Staged-found now spec key p there = record {
    at = λ w h.
        let found = ap (λ (d : Db). peer_of d spec.name) h.2 ∙ there in
        rw found ((Staged-rest now spec key p).at w h);
  }

  Staged-mint_enroll :
      (now : ℕ) (spec : EnrollSpec) (p : Peer)
      → peer_of start spec.name ≡ some p
      → Keeps (Staged start) (mint_enroll out pack cli_script now spec)
  unfolding mint_enroll
  Staged-mint_enroll now spec p there =
      Keeps-bind (Staged start) (lift (validate_dial_address spec.address)) _
        (Staged-lift start (validate_dial_address spec.address))
        (λ _.
          Keeps-bind (Staged start) (ensure_instance_key out) _ (Staged-key out start)
            (λ key. Staged-found now spec key p there))

-- A minting for a name that has a peer, whether it succeeds or fails, and wherever, writes to the tokens
-- alone, and the instance key when it makes one: the peer's row, its groups, what it allows, the other
-- meta rows and the fleet revision are as before, until the token is redeemed.
pub mint_enroll_stages :
    {R : Type 0} (out : Outside R) (pack : List FileEntry → Text) (cli_script : Text) (now : ℕ)
    (spec : EnrollSpec) (p : Peer) (w : World R)
    → peer_of w.db spec.name ≡ some p
    → TokensAndKey w.db (mint_enroll out pack cli_script now spec w).1.db
mint_enroll_stages out pack cli_script now spec p w there =
    (Staged-mint_enroll out pack cli_script w.db now spec p there).at w
      (w.db.tokens, w.db.meta, refl, λ k other. refl)
