-- ===== src/Db/Integrity.antt =====
-- The references of the membership tables under the statements of internal/db.
pub mod Ops
pub mod History
use certhold.Base.{
  Text, Bool, true, false, not, ◌&&◌, ◌||◌, ◌==◌, ==_iff, ==_refl, List, [], ◌∷◌, map, any, filter,
  if◌then◌else◌, ◌≡◌, refl, sym, subst, ap, ◌∙◌, arith, ℕ,
}
use certhold.Errors.{Result, ok, err}
use certhold.Exec.{Exec}
use certhold.Exec.Keeps.{Keeps}
use certhold.Db.{
  Db, Peer, Membership, Table, peer_groups, peer_allowed_groups, has_row, in_rows, has_peer,
  has_group, rows_of, with_rows, RefsValid,
}
use certhold.Db.Peers.{insert_peer, update_rows, update_peer, delete_peer_row, forget_peer, of_peer}
use certhold.Db.Peers.Laws.{any-update_rows}
use certhold.Db.Peers.Delete.{any-drop_peers, in_rows-drop_peer}
use certhold.Db.Groups.{
  add_group, ensure_group, insert_row, clear_rows, insert_group, delete_group_row, clear_group,
  retarget_rows, of_group,
}
use certhold.Db.Groups.Delete.{in_rows-drop_group, any-drop_group}
use certhold.Db.Groups.Rows.{in_rows-cleared}

-- What the references are about: the two tables against the peers and the groups.
abbrev pub RowsValid : List Membership → Db → Type 0
RowsValid rs db =
    (p g : Text) → in_rows rs p g ≡ true → (has_peer db p ≡ true) × (has_group db g ≡ true)

abbrev pub of_rows :
    (db : Db) → RowsValid db.peer_groups_rows db → RowsValid db.peer_allowed_rows db → RefsValid db
of_rows db h k = record {
  peer_refs = elim [
    | peer_groups ↦ λ p g m. (h p g m).0
    | peer_allowed_groups ↦ λ p g m. (k p g m).0
  ];
  group_refs = elim [
    | peer_groups ↦ λ p g m. (h p g m).1
    | peer_allowed_groups ↦ λ p g m. (k p g m).1
  ];
}

pub rows_valid : (t : Table) (db : Db) → RefsValid db → RowsValid (rows_of t db) db
rows_valid t db v p g m = (v.peer_refs t p g m, v.group_refs t p g m)

in_rows-no_group :
    (n p : Text) (rs : List Membership) → any (of_group n) rs ≡ false → in_rows rs p n ≡ false
in_rows-no_group n p [] h = refl
in_rows-no_group n p (r ∷ rs) h = ground (arith, in_rows-no_group n p rs)

pub in_rows-no_peer :
    (n g : Text) (rs : List Membership) → any (of_peer n) rs ≡ false → in_rows rs n g ≡ false
in_rows-no_peer n g [] h = refl
in_rows-no_peer n g (r ∷ rs) h = ground (arith, in_rows-no_peer n g rs)

pub Valid-insert_group : (name : Text) → Keeps RefsValid (insert_group name)
unfolding insert_group
Valid-insert_group name = record {
  at = λ db v.
      of_rows _ (λ p g m. ground (arith, rows_valid peer_groups db v p g))
        (λ p g m. ground (arith, rows_valid peer_allowed_groups db v p g));
}

pub Valid-ensure_group : (name : Text) → Keeps RefsValid (ensure_group name)
unfolding ensure_group
Valid-ensure_group name = record {
  at = λ db v.
      of_rows _ (λ p g m. ground (arith, rows_valid peer_groups db v p g))
        (λ p g m. ground (arith, rows_valid peer_allowed_groups db v p g));
}

pub Valid-insert_row : (t : Table) (peer g : Text) → Keeps RefsValid (insert_row t peer g)
unfolding insert_row
Valid-insert_row peer_groups peer g = record {
  at = λ db v.
      of_rows _
        (λ p x m. ground (arith, rows_valid peer_groups db v p x, ==_iff peer p, ==_iff g x))
        (λ p x m. ground (arith, rows_valid peer_allowed_groups db v p x));
}
Valid-insert_row peer_allowed_groups peer g = record {
  at = λ db v.
      of_rows _ (λ p x m. ground (arith, rows_valid peer_groups db v p x))
        (λ p x m.
          ground (arith, rows_valid peer_allowed_groups db v p x, ==_iff peer p, ==_iff g x));
}

pub Valid-clear_rows : (t : Table) (peer : Text) → Keeps RefsValid (clear_rows t peer)
unfolding clear_rows
Valid-clear_rows peer_groups peer = record {
  at = λ db v.
      of_rows _
        (λ p x m.
          ground
            (arith, rows_valid peer_groups db v p x, in_rows-cleared peer p x db.peer_groups_rows))
        (λ p x m. rows_valid peer_allowed_groups db v p x m);
}
Valid-clear_rows peer_allowed_groups peer = record {
  at = λ db v.
      of_rows _ (λ p x m. rows_valid peer_groups db v p x m)
        (λ p x m. ground (
          arith,
          rows_valid peer_allowed_groups db v p x,
          in_rows-cleared peer p x db.peer_allowed_rows,
        ));
}

pub Valid-clear_group : (t : Table) (n : Text) → Keeps RefsValid (clear_group t n)
unfolding clear_group
Valid-clear_group peer_groups n = record {
  at = λ db v.
      of_rows _
        (λ p x m.
          ground
            (arith, rows_valid peer_groups db v p x, in_rows-drop_group n p x db.peer_groups_rows))
        (λ p x m. rows_valid peer_allowed_groups db v p x m);
}
Valid-clear_group peer_allowed_groups n = record {
  at = λ db v.
      of_rows _ (λ p x m. rows_valid peer_groups db v p x m)
        (λ p x m. ground (
          arith,
          rows_valid peer_allowed_groups db v p x,
          in_rows-drop_group n p x db.peer_allowed_rows,
        ));
}

pub Valid-delete_group_row : (n : Text) → Keeps RefsValid (delete_group_row n)
unfolding delete_group_row
Valid-delete_group_row n = record {
  at = λ db v.
      of_rows _
        (λ p x m. ground (
          arith,
          rows_valid peer_groups db v p x,
          in_rows-no_group n p db.peer_groups_rows,
          any-drop_group n x db.groups,
          ==_iff n x,
        ))
        (λ p x m. ground (
          arith,
          rows_valid peer_allowed_groups db v p x,
          in_rows-no_group n p db.peer_allowed_rows,
          any-drop_group n x db.groups,
          ==_iff n x,
        ));
}

abbrev retargeted : Text → Text → List Membership → List Membership
retargeted old new = map (λ r. if of_group old r then record r { group_name = new } else r)

-- A row after the update is one that was there, or one of the old group under the new.
in_rows-retargeted :
    (old new p g : Text) (rs : List Membership)
    → in_rows (retargeted old new rs) p g ≡ true
    → (in_rows rs p g || (new == g && in_rows rs p old)) ≡ true
in_rows-retargeted old new p g [] h = cc
in_rows-retargeted old new p g (r ∷ rs) h =
    ground (arith, in_rows-retargeted old new p g rs, ==_iff r.group_name old, ==_iff new g)

of_group-in_rows :
    (old p : Text) (rs : List Membership) → in_rows rs p old ≡ true → any (of_group old) rs ≡ true
of_group-in_rows old p [] h = h
of_group-in_rows old p (r ∷ rs) h = ground (arith, of_group-in_rows old p rs)

pub Valid-retarget_rows : (t : Table) (old new : Text) → Keeps RefsValid (retarget_rows t old new)
unfolding retarget_rows
Valid-retarget_rows peer_groups old new = record {
  at = λ db v.
      of_rows _
        (λ p x m. ground (
          arith,
          rows_valid peer_groups db v p x,
          rows_valid peer_groups db v p old,
          in_rows-retargeted old new p x db.peer_groups_rows,
          of_group-in_rows old p db.peer_groups_rows,
          ==_iff new x,
        ))
        (λ p x m. ground (arith, rows_valid peer_allowed_groups db v p x));
}
Valid-retarget_rows peer_allowed_groups old new = record {
  at = λ db v.
      of_rows _ (λ p x m. ground (arith, rows_valid peer_groups db v p x))
        (λ p x m. ground (
          arith,
          rows_valid peer_allowed_groups db v p x,
          rows_valid peer_allowed_groups db v p old,
          in_rows-retargeted old new p x db.peer_allowed_rows,
          of_group-in_rows old p db.peer_allowed_rows,
          ==_iff new x,
        ));
}

pub Valid-insert_peer :
    (now : ℕ) (name : Text) (serial : ℕ) (fp key user : Text) (inbound : Bool) (pull : Text)
    → Keeps RefsValid (insert_peer now name serial fp key user inbound pull)
unfolding insert_peer
Valid-insert_peer now name serial fp key user inbound pull = record {
  at = λ db v.
      of_rows _ (λ p g m. ground (arith, rows_valid peer_groups db v p g))
        (λ p g m. ground (arith, rows_valid peer_allowed_groups db v p g));
}

-- Any change of peers that keeps their names.
pub Valid-same_names :
    (db : Db) (ps : List Peer)
    → ((n : Text) → any (λ p. p.name == n) ps ≡ has_peer db n)
    → RefsValid db
    → RefsValid (record db { peers = ps })
Valid-same_names db ps same v =
    of_rows _ (λ p g m. (same p ∙ v.peer_refs peer_groups p g m, v.group_refs peer_groups p g m))
      (λ p g m.
        (same p ∙ v.peer_refs peer_allowed_groups p g m, v.group_refs peer_allowed_groups p g m))

pub Valid-update_rows :
    (n : Text) (f : Peer → Peer) (db : Db)
    → ((p : Peer) → (f p).name ≡ p.name)
    → RefsValid db
    → RefsValid (record db { peers = update_rows n f db.peers })
Valid-update_rows n f db keeps v =
    Valid-same_names db (update_rows n f db.peers) (λ j. any-update_rows n j f db.peers keeps) v
