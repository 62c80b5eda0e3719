-- ===== src/Db/Tokens/Redeem/Reenroll.antt =====
-- `commitStagedReenroll` of internal/db/tokens.go.
use certhold.Base.{
  ◌+◌, Text, Bool, true, false, not, ◌==◌, ==_refl, Option, none, some, List, [], ◌∷◌, any, find?,
  if◌then◌else◌, ◌≡◌, refl, ap, ◌∙◌, arith, contains, Distinct,
}
use certhold.Errors.{Result, ok}
use certhold.Exec.Steps.{continue_ok, refuse_passes}
use certhold.Db.{
  Db, Peer, Token, peer_groups, peer_allowed_groups, peer_of, StagedReenroll, has_row, has_peer,
  in_rows,
}
use certhold.Db.Peers.{get_peer, update_rows, or_peer_not_found}
use certhold.Db.Peers.Laws.{find-update_rows, any-update_rows}
use certhold.Db.Groups.{set_peer_groups_table_strict_tx}
use certhold.Db.Groups.Rows.{SameRest}
use certhold.Db.Groups.Sets.{Assigned}
use certhold.Db.Groups.Sets.Strict.{AllThere, strict_assigns}
use certhold.Db.Meta.{bump_fleet_rev, rev_of}
use certhold.Db.Tokens.{
  commit_staged_reenroll, write_staged, settle_allowed, staged_of, restaged, split_groups_csv,
}

-- The allowed groups that a redemption sets, if it sets any: none for a client, the chosen ones,
-- or the groups themselves for a client that becomes inbound.
abbrev pub choice : Bool → Bool → Bool → List Text → List Text → Option (List Text)
choice inbound allowed_set was groups allowed =
    if not inbound
    then some []
    else if allowed_set
    then some allowed
    else if not was
    then some groups
    else none

abbrev pub allowed_choice : StagedReenroll → Bool → List Text → Option (List Text)
allowed_choice staged was_inbound groups =
    choice staged.inbound staged.allowed_set was_inbound groups staged.allowed

-- A list that the strict form accepts.
abbrev pub IsFit : Option (List Text) → Db → Type 0
IsFit none db = Unit
IsFit (some gs) db = Distinct gs × AllThere gs db

abbrev pub chosen : Option (List Text) → Text → Bool → Bool
chosen none g was = was
chosen (some gs) g was = contains gs g

-- What the switch on the allowed groups does.
pub record Settled (name : Text) (c : Option (List Text)) (db db' : Db) : Type 0 where
  pub rows :
      (q g : Text)
      → has_row peer_allowed_groups db' q g ≡ (
          if name == q
          then chosen c g (has_row peer_allowed_groups db q g)
          else has_row peer_allowed_groups db q g)
  pub rest : SameRest peer_allowed_groups db db'
  pub groups : db'.groups ≡ db.groups

abbrev pub Settles : Text → Option (List Text) → Db → Result (Unit {0}) × Db → Type 0
Settles name c db r = (r.0 ≡ ok tt) × Settled name c db r.1

strict_Settles :
    (name : Text) (gs : List Text) (db : Db)
    → has_peer db name ≡ true
    → IsFit (some gs) db
    → Settles name (some gs) db (set_peer_groups_table_strict_tx peer_allowed_groups name gs db)
strict_Settles name gs db there fit =
    let (done, a, same) = strict_assigns peer_allowed_groups name gs db there fit.0 fit.1 in
    (done, record { rows = a.rows; rest = a.rest; groups = same })

keep_Settled : (name : Text) (db : Db) → Settled name none db db
keep_Settled name db = record {
  rows = λ q g. ground arith;
  rest = record { peers = refl; other = refl; tokens = refl; meta = refl; fleet_rev = refl };
  groups = refl;
}

-- The switch over its three tests.
switch_Settles :
    (inbound allowed_set was : Bool) (name : Text) (groups allowed : List Text) (db : Db)
    → has_peer db name ≡ true
    → IsFit (choice inbound allowed_set was groups allowed) db
    → Settles name (choice inbound allowed_set was groups allowed) db (
        if not inbound
        then set_peer_groups_table_strict_tx peer_allowed_groups name [] db
        else if allowed_set
        then set_peer_groups_table_strict_tx peer_allowed_groups name allowed db
        else if not was
        then set_peer_groups_table_strict_tx peer_allowed_groups name groups db
        else (ok tt, db))
switch_Settles false _ _ name groups allowed db there fit = strict_Settles name [] db there fit
switch_Settles true true _ name groups allowed db there fit =
    strict_Settles name allowed db there fit
switch_Settles true false false name groups allowed db there fit =
    strict_Settles name groups db there fit
switch_Settles true false true name groups allowed db there fit = (refl, keep_Settled name db)

pub settle_Settles :
    (name : Text) (groups : List Text) (staged : StagedReenroll) (was : Bool) (db : Db)
    → has_peer db name ≡ true
    → IsFit (allowed_choice staged was groups) db
    → Settles name (allowed_choice staged was groups) db (settle_allowed name groups staged was db)
unfolding settle_allowed
settle_Settles name groups staged was db there fit =
    switch_Settles staged.inbound staged.allowed_set was name groups staged.allowed db there fit

-- `db'` is `db` with the peer `p` reconfigured as the token `t` staged it.
pub record Reconfigured (t : Token) (key : Text) (p : Peer) (db db' : Db) : Type 0 where
  pub peer : peer_of db' t.peer_name ≡ some (restaged key (staged_of t) p)
  pub other_peers : (j : Text) → (t.peer_name == j) ≡ false → peer_of db' j ≡ peer_of db j
  pub members :
      (q g : Text)
      → has_row peer_groups db' q g ≡ (
          if t.peer_name == q
          then contains (split_groups_csv t.groups) g
          else has_row peer_groups db q g)
  pub allowed :
      (q g : Text)
      → has_row peer_allowed_groups db' q g ≡ (
          if t.peer_name == q
          then chosen
              (allowed_choice (staged_of t) p.inbound (split_groups_csv t.groups))
              g
              (has_row peer_allowed_groups db q g)
          else has_row peer_allowed_groups db q g)
  pub groups : db'.groups ≡ db.groups
  pub fleet_rev : db'.fleet_rev ≡ some (rev_of db.fleet_rev + 1)

abbrev pub written : Token → Text → Db → Db
written t key db = record db {
  peers = update_rows t.peer_name (restaged key (staged_of t)) db.peers;
}

abbrev pub bumped : Db → Db
bumped db = record db { fleet_rev = some (rev_of db.fleet_rev + 1) }

-- The members written, then the allowed groups.
abbrev pub with_members : Token → Text → Db → Result (Unit {0}) × Db
with_members t key db =
    set_peer_groups_table_strict_tx peer_groups t.peer_name (split_groups_csv t.groups)
      (written t key db)

abbrev pub with_allowed : Token → Text → Peer → Db → Result (Unit {0}) × Db
with_allowed t key p db =
    settle_allowed t.peer_name (split_groups_csv t.groups) (staged_of t) p.inbound
      (with_members t key db).1

pub commit_eq :
    (t : Token) (key : Text) (p : Peer) (db : Db)
    → peer_of db t.peer_name ≡ some p
    → p.revoked ≡ false
    → (with_members t key db).0 ≡ ok tt
    → (with_allowed t key p db).0 ≡ ok tt
    → commit_staged_reenroll t.peer_name t.groups key (staged_of t) db
      ≡ (ok tt, bumped (with_allowed t key p db).1)
unfolding commit_staged_reenroll get_peer write_staged bump_fleet_rev
commit_eq t key p db found live members allowed =
    continue_ok (or_peer_not_found (peer_of db t.peer_name), db) _ p (ap or_peer_not_found found)
    ∙ refuse_passes p.revoked _ db _ live
    ∙ continue_ok (with_members t key db) _ tt members
    ∙ continue_ok (with_allowed t key p db) _ tt allowed

pub has_peer-written :
    (t : Token) (key : Text) (db : Db) (j : Text) → has_peer (written t key db) j ≡ has_peer db j
has_peer-written t key db j =
    any-update_rows t.peer_name j (restaged key (staged_of t)) db.peers (λ p. refl)

pub found-has :
    (n : Text) (ps : List Peer) (p : Peer)
    → find? (λ q. q.name == n) ps ≡ some p
    → any (λ q. q.name == n) ps ≡ true
found-has n [] p h = cc
found-has n (q ∷ ps) p h = ground (arith, found-has n ps p)

-- What each stage needs of the one before.
pub IsFit-same : (c : Option (List Text)) (a b : Db) → b.groups ≡ a.groups → IsFit c a → IsFit c b
IsFit-same none a b same h = tt
IsFit-same (some gs) a b same h = (h.0, λ g m. ap (any (λ x. x == g)) same ∙ h.1 g m)

pub finished-Reconfigured :
    (t : Token) (key : Text) (p : Peer) (db a b : Db)
    → peer_of db t.peer_name ≡ some p
    → Assigned peer_groups t.peer_name (split_groups_csv t.groups) (written t key db) a
    → a.groups ≡ db.groups
    → Settled t.peer_name (allowed_choice (staged_of t) p.inbound (split_groups_csv t.groups)) a b
    → Reconfigured t key p db (bumped b)
finished-Reconfigured t key p db a b found m same s = record {
  peer =
      ap (find? (λ q. q.name == t.peer_name)) (s.rest.peers ∙ m.rest.peers)
      ∙ find-update_rows t.peer_name t.peer_name (restaged key (staged_of t)) db.peers (λ q. refl)
      ∙ ground (arith, ==_refl t.peer_name, found);
  other_peers = λ j d.
      ap (find? (λ q. q.name == j)) (s.rest.peers ∙ m.rest.peers)
      ∙ find-update_rows t.peer_name j (restaged key (staged_of t)) db.peers (λ q. refl)
      ∙ ground (arith, d);
  members = λ q g. ap (λ rs. in_rows rs q g) s.rest.other ∙ m.rows q g;
  allowed = λ q g. ground (arith, s.rows q g, ap (λ rs. in_rows rs q g) m.rest.other);
  groups = s.groups ∙ same;
  fleet_rev = ap (λ r. some (rev_of r + 1)) (s.rest.fleet_rev ∙ m.rest.fleet_rev);
}
