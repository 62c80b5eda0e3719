-- ===== src/Ops/Groups/Keep.antt =====
-- The statements that `GroupDelete` runs before its end, and the group.
use certhold.Base.{ℕ, Text, true, List, ◌∷◌, ◌≡◌, arith}
use certhold.Exec.{Exec}
use certhold.Exec.Keeps.{Keeps, Keeps-bind, Keeps-for_each, Keeps-in_tx}
use certhold.Db.{
  Db, Table, Membership, peer_groups, peer_allowed_groups, has_group, with_rows, rows_of,
}
use certhold.Db.Peers.{get_peer, set_peer_cert, update_peer}
use certhold.Db.Groups.{
  get_group_peers, get_peer_groups_table, group_exists_tx, set_peer_groups, set_peer_allowed_groups,
  set_peer_groups_table, set_peer_groups_table_tx, clear_rows, insert_row, ensure_group, add_group,
}
use certhold.Db.Meta.{get_meta, set_meta}
use certhold.Ops.{World, Event, on_db, on_remote, emit}

-- The group is there.
abbrev pub There : Text → Db → Type 0
There g db = has_group db g ≡ true

abbrev pub StillThere : {R : Type 0} → Text → World R → Type 0
StillThere g w = has_group w.db g ≡ true

module _ (g : Text) where
  pub reads_get_peer : (n : Text) → Keeps (There g) (get_peer n)
  unfolding get_peer
  reads_get_peer n = record { at = λ db h. h }

  pub reads_get_group_peers : (t : Table) (n : Text) → Keeps (There g) (get_group_peers t n)
  unfolding get_group_peers
  reads_get_group_peers t n = record { at = λ db h. h }

  pub reads_get_peer_groups : (t : Table) (n : Text) → Keeps (There g) (get_peer_groups_table t n)
  unfolding get_peer_groups_table
  reads_get_peer_groups t n = record { at = λ db h. h }

  pub reads_group_exists : (n : Text) → Keeps (There g) (group_exists_tx n)
  unfolding group_exists_tx
  reads_group_exists n = record { at = λ db h. h }

  pub reads_get_meta : (k : Text) → Keeps (There g) (get_meta k)
  unfolding get_meta
  reads_get_meta k = record { at = λ db h. h }

  pub There-set_meta : (k v : Text) → Keeps (There g) (set_meta k v)
  unfolding set_meta
  There-set_meta k v = record { at = λ db h. h }

  pub There-set_peer_cert :
      (n cert : Text) (serial : ℕ) → Keeps (There g) (set_peer_cert n cert serial)
  unfolding set_peer_cert update_peer
  There-set_peer_cert n cert serial = record { at = λ db h. ground (arith, h) }

  There-with_rows :
      (t : Table) (rows : List Membership) (db : Db) → There g db → There g (with_rows t rows db)
  There-with_rows peer_groups rows db h = h
  There-with_rows peer_allowed_groups rows db h = h

  There-clear_rows : (t : Table) (n : Text) → Keeps (There g) (clear_rows t n)
  unfolding clear_rows
  There-clear_rows t n = record { at = λ db h. There-with_rows t _ db h }

  There-ensure_group : (n : Text) → Keeps (There g) (ensure_group n)
  unfolding ensure_group add_group
  There-ensure_group n = record { at = λ db h. ground (arith, h) }

  There-insert_row : (t : Table) (n k : Text) → Keeps (There g) (insert_row t n k)
  unfolding insert_row
  There-insert_row t n k = record {
    at = λ db h. ground (
      arith,
      h,
      There-with_rows t (record { peer_name = n; group_name = k } ∷ rows_of t db) db h,
    );
  }

  ruleset table_rules = (
    Keeps-bind, Keeps-for_each, Keeps-in_tx, There-clear_rows, There-ensure_group, There-insert_row,
  )

  pub There-set_peer_groups : (n : Text) (gs : List Text) → Keeps (There g) (set_peer_groups n gs)
  unfolding set_peer_groups set_peer_groups_table set_peer_groups_table_tx
  There-set_peer_groups n gs = search table_rules depth 9

  pub There-set_peer_allowed_groups :
      (n : Text) (gs : List Text) → Keeps (There g) (set_peer_allowed_groups n gs)
  unfolding set_peer_allowed_groups set_peer_groups_table set_peer_groups_table_tx
  There-set_peer_allowed_groups n gs = search table_rules depth 9

module _ {R : Type 0} (g : Text) where
  pub Still-on_db :
      {A : Type 0} (m : Exec Db A) → Keeps (There g) m → Keeps (StillThere {R = R} g) (on_db m)
  Still-on_db m k = record { at = λ w h. k.at w.db h }

  pub Still-on_remote : {A : Type 0} (m : Exec R A) → Keeps (StillThere g) (on_remote m)
  Still-on_remote m = record { at = λ w h. h }

  pub Still-emit : (e : Event) → Keeps (StillThere {R = R} g) (emit e)
  Still-emit e = record { at = λ w h. h }
