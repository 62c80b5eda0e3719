-- ===== src/Db/Tokens/Csv.antt =====
-- The CSV in which a token keeps its groups.
use certhold.Base.{
  Text, true, false, not, ◌&&◌, some, List, [], ◌∷◌, ◌++◌, map, any, filter, All, is_empty,
  trim_space, split, join, Lacks, split-join, split-append, split-Lacks, ◌≡◌, refl, ap, ◌∙◌, sym,
  subst, arith,
}
use certhold.Errors.{IsErr, ok}
use certhold.Db.Groups.{create_group, group_exists_tx, insert_group}
use certhold.Db.{Db, Token, token_of, has_group}
use certhold.Db.Tokens.{split_groups_csv, comma, consume_token}
use certhold.Db.Tokens.Redeem.Outcome.{consume_token_refuses_stale, group_missing}

-- A group name that is trimmed, not empty, and has no comma.
pub record IsClean (g : Text) : Type 0 where
  pub full : is_empty g ≡ false
  pub trimmed : trim_space g ≡ g
  pub no_comma : Lacks comma g

Lacks-All : (gs : List Text) → All IsClean gs → All (Lacks comma) gs
Lacks-All [] h = tt
Lacks-All (g ∷ gs) h = (h.0.no_comma, Lacks-All gs h.1)

kept : (gs : List Text) → All IsClean gs → filter (λ g. not (is_empty g)) (map trim_space gs) ≡ gs
kept [] h = refl
kept (g ∷ gs) h = ground (arith, h.0.trimmed, h.0.full, kept gs h.1)

-- Splitting the stored CSV gives back the groups that were joined, if each is clean.
pub split_groups_csv-join :
    (gs : List Text) → All IsClean gs → split_groups_csv (join comma gs) ≡ gs
unfolding split_groups_csv
split_groups_csv-join [] h = unfold split join trim_space in refl
split_groups_csv-join (g ∷ gs) h =
    ap (λ xs. filter (λ x. not (is_empty x)) (map trim_space xs))
      (split-join comma g gs (Lacks-All (g ∷ gs) h))
    ∙ kept (g ∷ gs) h

-- A single group whose name has a comma comes back as two.
split_groups_csv-comma :
    (a b : Text) → IsClean a → IsClean b → split_groups_csv (a ++ (comma ∷ b)) ≡ a ∷ b ∷ []
unfolding split_groups_csv
split_groups_csv-comma a b ha hb =
    ap (λ xs. filter (λ x. not (is_empty x)) (map trim_space xs))
      (split-append comma a b ha.no_comma ∙ ap (λ xs. a ∷ xs) (split-Lacks comma b hb.no_comma))
    ∙ kept (a ∷ b ∷ []) (ha, (hb, tt))

create_group-comma :
    (a b : Text)
    → IsClean a
    → IsClean b
    → trim_space (a ++ (comma ∷ b)) ≡ a ++ (comma ∷ b)
    → (db : Db) → has_group db (a ++ (comma ∷ b)) ≡ false
    → (create_group (a ++ (comma ∷ b)) db).0 ≡ ok tt
unfolding create_group group_exists_tx insert_group
create_group-comma (x ∷ a) b ha hb t db fresh = rw (t, fresh, fresh) refl
create_group-comma [] b ha hb t db fresh = absurd (cc (ha.full))

-- `CreateGroup` takes a trimmed name "a,b" with a comma, like any other that is free; and a re-enroll token
-- stores its groups joined by commas. So a re-enroll token that was minted for the one group "a,b"
-- cannot be redeemed while one of the groups "a" and "b" is missing, whether there is a group "a,b" or
-- not: the redemption fails and changes nothing. Here "a" and "b" are trimmed, not empty, and have no
-- comma of their own.
pub comma_group_not_redeemable :
    (token : Text) (db : Db) (t : Token) (key a b : Text)
    → IsClean a
    → IsClean b
    → trim_space (a ++ (comma ∷ b)) ≡ a ++ (comma ∷ b)
    → token_of db token ≡ some t
    → t.consumed ≡ false
    → t.staged_authorized_key ≡ some key
    → t.groups ≡ join comma ((a ++ (comma ∷ b)) ∷ [])
    → (has_group db a && has_group db b) ≡ false
    → ((before : Db)
        → has_group before (a ++ (comma ∷ b)) ≡ false
        → (create_group (a ++ (comma ∷ b)) before).0 ≡ ok tt)
      × IsErr (consume_token token db).0
      × ((consume_token token db).1 ≡ db)
unfolding join
comma_group_not_redeemable token db t key a b ha hb trimmed found fresh staged csv gone =
    let (fails, same) = consume_token_refuses_stale token db t key found fresh staged (
      group_missing (
        subst (λ gs. any (λ g. not (has_group db g)) gs ≡ true)
          (sym (ap split_groups_csv csv ∙ split_groups_csv-comma a b ha hb))
          (ground (arith, gone)))) in
    (create_group-comma a b ha hb trimmed, fails, same)
