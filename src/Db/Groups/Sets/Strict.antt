-- ===== src/Db/Groups/Sets/Strict.antt =====
-- The strict form of setting a peer's groups: it agrees with the other where every group is there,
-- and fails where one is missing.
use certhold.Base.{
  Text, true, false, not, ◌==◌, ==_refl, List, [], ◌∷◌, any, ◌≡◌, refl, sym, subst, ap, ◌∙◌, arith,
  contains, Distinct, inl, inr, ◌⊎◌,
}
use certhold.Errors.{Result, ok, err, IsErr}
use certhold.Exec.{Exec, for_each, continue}
use certhold.Db.{Db, Table, peer_groups, peer_allowed_groups, has_row, has_peer, has_group}
use certhold.Db.Groups.{
  insert_row, clear_rows, group_exists_tx, add_group, set_peer_groups_table_strict_tx,
}
use certhold.Db.Groups.Rows.{
  strict_body, body_eq, put_row, put_row-Added, put_row-rest, Adds, Added-cons, Fresh, Fresh-step,
  loop_Adds, has_peer_of_rest, cleared, has_peer-cleared,
}
use certhold.Db.Groups.Sets.{strict_body_eq, cleared-Fresh, Assigned, Assigned-of_Added}

-- Every group of the list is there.
abbrev pub AllThere : List Text → Db → Type 0
AllThere gs db = (g : Text) → contains gs g ≡ true → has_group db g ≡ true

AllThere-step :
    (t : Table) (peer g : Text) (gs : List Text) (db : Db)
    → AllThere (g ∷ gs) db
    → AllThere gs (put_row t peer g db)
unfolding contains
AllThere-step t peer g gs db h x m = ground (
  arith,
  (put_row-Added t peer g db).has_groups x,
  h x,
  subst (λ y. any (λ z. z == y) gs ≡ true) {x = x} {y = x} refl m,
)

abbrev AddsNoGroup : Table → Text → List Text → Db → Result (Unit {0}) × Db → Type 0
AddsNoGroup t peer gs db r = Adds t peer gs db r × (r.1.groups ≡ db.groups)

put_row-groups :
    (t : Table) (peer g : Text) (db : Db)
    → has_group db g ≡ true
    → (put_row t peer g db).groups ≡ db.groups
unfolding add_group
put_row-groups peer_groups peer g db h = ground arith
put_row-groups peer_allowed_groups peer g db h = ground arith

groups-cleared : (t : Table) (peer : Text) (db : Db) → (cleared t peer db).groups ≡ db.groups
groups-cleared peer_groups peer db = refl
groups-cleared peer_allowed_groups peer db = refl

strict_cons :
    (t : Table) (peer g : Text) (gs : List Text) (db : Db)
    → has_peer db peer ≡ true
    → has_row t db peer g ≡ false
    → has_group db g ≡ true
    → AddsNoGroup t peer gs
        (put_row t peer g db)
        (for_each gs (strict_body t peer) (put_row t peer g db))
    → AddsNoGroup t peer (g ∷ gs) db (for_each (g ∷ gs) (strict_body t peer) db)
unfolding for_each
strict_cons t peer g gs db there fresh exists ih =
    subst (λ r. AddsNoGroup t peer (g ∷ gs) db (continue r (λ _. for_each gs (strict_body t peer))))
      (sym (strict_body_eq t peer g db exists ∙ body_eq t peer g db there fresh))
      (
        (
          ih.0.0,
          Added-cons t peer g gs db (put_row t peer g db) _ (put_row-Added t peer g db) ih.0.1,
        ),
        ih.1 ∙ put_row-groups t peer g db exists,
      )

strict_loop :
    (t : Table) (peer : Text) (gs : List Text) (db : Db)
    → has_peer db peer ≡ true
    → Distinct gs
    → Fresh t peer gs db
    → AllThere gs db
    → AddsNoGroup t peer gs db (for_each gs (strict_body t peer) db)
unfolding for_each contains
strict_loop t peer [] db there d fresh h = (loop_Adds t peer [] db there d fresh, refl)
strict_loop t peer (g ∷ gs) db there d fresh h =
    strict_cons t peer g gs db there (fresh g (ground (arith, ==_refl g)))
      (h g (ground (arith, ==_refl g)))
      (strict_loop t peer gs (put_row t peer g db)
        (has_peer_of_rest t db (put_row t peer g db) peer (put_row-rest t peer g db) ∙ there) d.1
        (Fresh-step t peer g gs db d.0 fresh) (AllThere-step t peer g gs db h))

-- Where the peer and all the groups are there, the strict form assigns the groups and makes none.
pub strict_assigns :
    (t : Table) (peer : Text) (gs : List Text) (db : Db)
    → has_peer db peer ≡ true
    → Distinct gs
    → AllThere gs db
    → ((set_peer_groups_table_strict_tx t peer gs db).0 ≡ ok tt)
      × Assigned t peer gs db (set_peer_groups_table_strict_tx t peer gs db).1
      × ((set_peer_groups_table_strict_tx t peer gs db).1.groups ≡ db.groups)
unfolding set_peer_groups_table_strict_tx clear_rows
strict_assigns t peer gs db there d h =
    let r =
      strict_loop t peer gs (cleared t peer db) (has_peer-cleared t peer peer db ∙ there) d
        (cleared-Fresh t peer gs db)
        (λ g m. ap (λ xs. any (λ x. x == g) xs) (groups-cleared t peer db) ∙ h g m) in
    (r.0.0, Assigned-of_Added t peer gs db _ r.0.1, r.1 ∙ groups-cleared t peer db)

-- A round of the strict loop fails, or its group is there and no group is made.
strict_round :
    (t : Table) (peer g : Text) (db : Db)
    → IsErr (strict_body t peer g db).0
      ⊎ ((has_group db g ≡ true) × ((strict_body t peer g db).1.groups ≡ db.groups))
unfolding group_exists_tx insert_row
strict_round peer_groups peer g db = ground arith
strict_round peer_allowed_groups peer g db = ground arith

continue-IsErr_either :
    {A B : Type 0} (r : Result A × Db) (k : A → Exec Db B)
    → IsErr r.0 ⊎ ((a : A) → IsErr (k a r.1).0)
    → IsErr (continue r k).0
continue-IsErr_either (ok a, s) k (inl h) = absurd h
continue-IsErr_either (ok a, s) k (inr h) = h a
continue-IsErr_either (err e, s) k h = tt

strict_loop_fails :
    (t : Table) (peer : Text) (gs : List Text) (db : Db)
    → any (λ g. not (has_group db g)) gs ≡ true
    → IsErr (for_each gs (strict_body t peer) db).0
unfolding for_each
strict_loop_fails t peer [] db h = cc
strict_loop_fails t peer (g ∷ gs) db h =
    continue-IsErr_either (strict_body t peer g db) (λ _. for_each gs (strict_body t peer))
      (elim (strict_round t peer g db) [
        | inl bad ↦ inl bad
        | inr (there, same) ↦
            inr λ _. strict_loop_fails t peer gs _ (rw same (ground (arith, there)))
      ])

-- Where one of the groups is missing, the strict form fails.
pub strict_fails :
    (t : Table) (peer : Text) (gs : List Text) (db : Db)
    → any (λ g. not (has_group db g)) gs ≡ true
    → IsErr (set_peer_groups_table_strict_tx t peer gs db).0
unfolding set_peer_groups_table_strict_tx clear_rows
strict_fails t peer gs db h =
    strict_loop_fails t peer gs (cleared t peer db) (rw (groups-cleared t peer db) h)
