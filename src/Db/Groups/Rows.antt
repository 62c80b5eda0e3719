-- ===== src/Db/Groups/Rows.antt =====
-- The rows of a peer in a membership table, statement by statement.
use certhold.Base.{
  Text, true, false, not, ◌&&◌, ◌||◌, ◌==◌, ==_iff, ==_refl, List, [], ◌∷◌, any, filter, ◌≡◌, refl,
  sym, subst, ap, ◌∙◌, arith, contains, Distinct,
}
use certhold.Errors.{Result, ok, group_gone}
use certhold.Exec.{Exec, for_each, continue, refuse_if}
use certhold.Db.{
  Db, Membership, Table, peer_groups, peer_allowed_groups, has_row, in_rows, has_peer, has_group,
  rows_of, with_rows,
}
use certhold.Db.Groups.{insert_row, group_exists_tx, ensure_group, add_group}

abbrev pub other_table : Table → Table
other_table peer_groups = peer_allowed_groups
other_table peer_allowed_groups = peer_groups

-- What the operations on memberships leave alone.
pub record SameRest (t : Table) (db db' : Db) : Type 0 where
  pub peers : db'.peers ≡ db.peers
  pub other : rows_of (other_table t) db' ≡ rows_of (other_table t) db
  pub tokens : db'.tokens ≡ db.tokens
  pub meta : db'.meta ≡ db.meta
  pub fleet_rev : db'.fleet_rev ≡ db.fleet_rev

-- `db'` has, besides the rows of `db`, the peer in each of the groups.
pub record Added (t : Table) (peer : Text) (groups : List Text) (db db' : Db) : Type 0 where
  pub rows :
      (p g : Text) → has_row t db' p g ≡ ((peer == p && contains groups g) || has_row t db p g)
  pub has_groups : (g : Text) → has_group db' g ≡ (contains groups g || has_group db g)
  pub rest : SameRest t db db'

-- The peer has no row yet for any of the groups.
abbrev pub Fresh : Table → Text → List Text → Db → Type 0
Fresh t peer groups db = (g : Text) → contains groups g ≡ true → has_row t db peer g ≡ false

abbrev pub Adds : Table → Text → List Text → Db → Result (Unit {0}) × Db → Type 0
Adds t peer groups db r = (r.0 ≡ ok tt) × Added t peer groups db r.1

abbrev pub body : Table → Text → Text → Exec Db (Unit {0})
body t peer g db = continue (ensure_group g db) (λ _. insert_row t peer g)

pub has_group-add_group :
    (g x : Text) (db : Db) → has_group (add_group g db) x ≡ (g == x || has_group db x)
unfolding add_group
has_group-add_group g x db = ground (arith, ==_iff g x, ==_refl g)

abbrev pub put_row : Table → Text → Text → Db → Db
put_row t peer g db =
    with_rows t (record { peer_name = peer; group_name = g } ∷ rows_of t (add_group g db))
      (add_group g db)

-- The round of the strict form.
abbrev pub strict_body : Table → Text → Text → Exec Db (Unit {0})
strict_body t peer g db =
    continue (group_exists_tx g db)
      (λ exists s. continue (refuse_if (not exists) (group_gone g) s) (λ _. insert_row t peer g))

pub body_eq :
    (t : Table) (peer g : Text) (db : Db)
    → has_peer db peer ≡ true
    → has_row t db peer g ≡ false
    → body t peer g db ≡ (ok tt, put_row t peer g db)
unfolding insert_row ensure_group add_group
body_eq peer_groups peer g db there fresh = ground (arith, has_group-add_group g g db, ==_refl g)
body_eq peer_allowed_groups peer g db there fresh =
    ground (arith, has_group-add_group g g db, ==_refl g)

pub put_row-rest : (t : Table) (peer g : Text) (db : Db) → SameRest t db (put_row t peer g db)
unfolding add_group
put_row-rest peer_groups peer g db = ground arith
put_row-rest peer_allowed_groups peer g db = ground arith

pub put_row-Added :
    (t : Table) (peer g : Text) (db : Db) → Added t peer (g ∷ []) db (put_row t peer g db)
unfolding contains add_group
put_row-Added peer_groups peer g db = record {
  rows = λ p x. ground (arith, ==_iff peer p, ==_iff g x);
  has_groups = λ x. ground (arith, has_group-add_group g x db);
  rest = put_row-rest peer_groups peer g db;
}
put_row-Added peer_allowed_groups peer g db = record {
  rows = λ p x. ground (arith, ==_iff peer p, ==_iff g x);
  has_groups = λ x. ground (arith, has_group-add_group g x db);
  rest = put_row-rest peer_allowed_groups peer g db;
}

pub SameRest-trans : (t : Table) (a b c : Db) → SameRest t a b → SameRest t b c → SameRest t a c
SameRest-trans t a b c h k = record {
  peers = k.peers ∙ h.peers;
  other = k.other ∙ h.other;
  tokens = k.tokens ∙ h.tokens;
  meta = k.meta ∙ h.meta;
  fleet_rev = k.fleet_rev ∙ h.fleet_rev;
}

pub Added-cons :
    (t : Table) (peer g : Text) (gs : List Text) (a b c : Db)
    → Added t peer (g ∷ []) a b
    → Added t peer gs b c
    → Added t peer (g ∷ gs) a c
unfolding contains
Added-cons t peer g gs a b c h k = record {
  rows = λ p x. ground (arith, h.rows p x, k.rows p x);
  has_groups = λ x. ground (arith, h.has_groups x, k.has_groups x);
  rest = SameRest-trans t a b c h.rest k.rest;
}

pub has_peer_of_rest :
    (t : Table) (a b : Db) (n : Text) → SameRest t a b → has_peer b n ≡ has_peer a n
has_peer_of_rest t a b n h = ap (λ ps. any (λ p. p.name == n) ps) h.peers

pub Fresh-step :
    (t : Table) (peer g : Text) (gs : List Text) (db : Db)
    → contains gs g ≡ false
    → Fresh t peer (g ∷ gs) db
    → Fresh t peer gs (put_row t peer g db)
unfolding contains
Fresh-step t peer g gs db new fresh x m = ground (
  arith,
  (put_row-Added t peer g db).rows peer x,
  fresh x,
  ==_iff g x,
  subst (λ y. any (λ z. z == y) gs ≡ true) {x = x} {y = x} refl m,
)

-- One round of the loop, before rounds that succeed.
pub cons_Adds :
    (t : Table) (peer g : Text) (gs : List Text) (db : Db)
    → has_peer db peer ≡ true
    → has_row t db peer g ≡ false
    → Adds t peer gs (put_row t peer g db) (for_each gs (body t peer) (put_row t peer g db))
    → Adds t peer (g ∷ gs) db (for_each (g ∷ gs) (body t peer) db)
unfolding for_each
cons_Adds t peer g gs db there fresh ih =
    subst (λ r. Adds t peer (g ∷ gs) db (continue r (λ _. for_each gs (body t peer))))
      (sym (body_eq t peer g db there fresh))
      (ih.0, Added-cons t peer g gs db (put_row t peer g db) _ (put_row-Added t peer g db) ih.1)

-- The loop over distinct groups of which the peer has none succeeds.
pub loop_Adds :
    (t : Table) (peer : Text) (gs : List Text) (db : Db)
    → has_peer db peer ≡ true
    → Distinct gs
    → Fresh t peer gs db
    → Adds t peer gs db (for_each gs (body t peer) db)
unfolding for_each contains
loop_Adds t peer [] db there d fresh = (
  refl,
  record {
    rows = λ p g. ground arith;
    has_groups = λ g. refl;
    rest = record { peers = refl; other = refl; tokens = refl; meta = refl; fleet_rev = refl };
  },
)
loop_Adds t peer (g ∷ gs) db there d fresh =
    cons_Adds t peer g gs db there (fresh g (ground (arith, ==_refl g))) (
      loop_Adds t peer gs (put_row t peer g db)
        (has_peer_of_rest t db (put_row t peer g db) peer (put_row-rest t peer g db) ∙ there) d.1
        (Fresh-step t peer g gs db d.0 fresh))

abbrev pub cleared : Table → Text → Db → Db
cleared t peer db = with_rows t (filter (λ r. not (r.peer_name == peer)) (rows_of t db)) db

pub in_rows-cleared :
    (peer p g : Text) (rs : List Membership)
    → in_rows (filter (λ r. not (r.peer_name == peer)) rs) p g ≡ (not (peer == p) && in_rows rs p g)
in_rows-cleared peer p g [] = ground arith
in_rows-cleared peer p g (r ∷ rs) = ground (
  arith,
  in_rows-cleared peer p g rs,
  ==_iff peer p,
  ==_iff r.peer_name peer,
  ==_iff r.peer_name p,
)

pub has_row-cleared :
    (t : Table) (peer p g : Text) (db : Db)
    → has_row t (cleared t peer db) p g ≡ (not (peer == p) && has_row t db p g)
has_row-cleared peer_groups peer p g db = in_rows-cleared peer p g db.peer_groups_rows
has_row-cleared peer_allowed_groups peer p g db = in_rows-cleared peer p g db.peer_allowed_rows

pub has_peer-cleared :
    (t : Table) (peer n : Text) (db : Db) → has_peer (cleared t peer db) n ≡ has_peer db n
has_peer-cleared peer_groups peer n db = refl
has_peer-cleared peer_allowed_groups peer n db = refl
