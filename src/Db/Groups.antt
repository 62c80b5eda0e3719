-- ===== src/Db/Groups.antt =====
-- internal/db/groups.go: groups, and the two tables of memberships.
pub mod Rename
pub mod Delete
pub mod Rows
pub mod Sets
use certhold.Base.{
  ℕ, suc, Text, text, Bool, true, false, not, ◌&&◌, ◌||◌, ◌==◌, Option, none, some, List, [], ◌∷◌,
  map, any, filter, length, is_empty, trim_space, sort, sort_by, if◌then◌else◌,
}
use certhold.Errors.{
  Error, constraint, group_exists, group_not_found, invalid_group_name, group_gone, Result, ok, err,
}
use certhold.Exec.{Exec, ◌>>=◌, ◌>>◌, for_each, refuse_if, in_tx}
use certhold.Db.{
  Db, Membership, Table, peer_groups, peer_allowed_groups, rows_of, with_rows, has_peer, has_group,
  has_row, in_rows,
}

-- `GroupCount`
pub record GroupCount : Type 0 where
  pub name : Text
  pub peer_count : ℕ

count_rows : List Membership → Text → ℕ
count_rows rows group = length (filter (λ r. r.group_name == group) rows)

unfoldable pub list_groups_with_peer_count : Exec Db (List GroupCount)
unfolding count_rows
list_groups_with_peer_count db = (
  ok (
      map (λ g. record { name = g; peer_count = count_rows db.peer_groups_rows g })
        (sort db.groups)),
  db,
)

-- `INSERT OR IGNORE INTO groups`
unfoldable pub add_group : Text → Db → Db
add_group name db = if has_group db name then db else record db { groups = name ∷ db.groups }

unfoldable pub ensure_group : Text → Exec Db (Unit {0})
unfolding add_group
ensure_group name db = (ok tt, add_group name db)

-- `INSERT INTO <table>(peer_name, group_name)`, under its three constraints.
unfoldable pub insert_row : Table → Text → Text → Exec Db (Unit {0})
insert_row t peer group db =
    if has_row t db peer group || not (has_peer db peer) || not (has_group db group)
    then (err constraint, db)
    else (ok tt, with_rows t (record { peer_name = peer; group_name = group } ∷ rows_of t db) db)

-- `DELETE FROM <table> WHERE peer_name = ?`
unfoldable pub clear_rows : Table → Text → Exec Db (Unit {0})
clear_rows t peer db =
    (ok tt, with_rows t (filter (λ r. not (r.peer_name == peer)) (rows_of t db)) db)

-- `setPeerGroupsTableTx`
unfoldable pub set_peer_groups_table_tx : Table → Text → List Text → Exec Db (Unit {0})
set_peer_groups_table_tx t peer groups = do
  clear_rows t peer
  for_each groups (λ g. do ensure_group g; insert_row t peer g)

-- `setPeerGroupsTable`, and the four operations over it.
unfoldable pub set_peer_groups_table : Table → Text → List Text → Exec Db (Unit {0})
set_peer_groups_table t peer groups = in_tx (set_peer_groups_table_tx t peer groups)

unfoldable pub set_peer_groups : Text → List Text → Exec Db (Unit {0})
set_peer_groups = set_peer_groups_table peer_groups

unfoldable pub set_peer_allowed_groups : Text → List Text → Exec Db (Unit {0})
unfolding set_peer_groups_table
set_peer_allowed_groups = set_peer_groups_table peer_allowed_groups

-- `groupExistsTx`: COUNT(*) > 0.
unfoldable pub group_exists_tx : Text → Exec Db Bool
group_exists_tx name db = (ok (has_group db name), db)

-- `setPeerGroupsTableStrictTx`: a missing group is an error, never made.
unfoldable pub set_peer_groups_table_strict_tx : Table → Text → List Text → Exec Db (Unit {0})
set_peer_groups_table_strict_tx t peer groups = do
  clear_rows t peer
  for_each groups (λ g. do
    exists ← group_exists_tx g
    refuse_if (not exists) (group_gone g)
    insert_row t peer g)

-- `INSERT INTO groups`
unfoldable pub insert_group : Text → Exec Db (Unit {0})
insert_group name db =
    if has_group db name
    then (err group_exists, db)
    else (ok tt, record db { groups = name ∷ db.groups })

-- `createGroupTx`, `CreateGroup`
unfoldable pub create_group : Text → Exec Db (Unit {0})
create_group raw = do
  let name = trim_space raw
  refuse_if (is_empty name) invalid_group_name
  exists ← group_exists_tx name
  refuse_if exists group_exists
  insert_group name

abbrev pub of_group : Text → Membership → Bool
of_group name r = r.group_name == name

-- `DELETE FROM groups WHERE name = ?`, refused while a membership refers to the group.
unfoldable pub delete_group_row : Text → Exec Db (Unit {0})
delete_group_row name db =
    if any (of_group name) db.peer_groups_rows || any (of_group name) db.peer_allowed_rows
    then (err constraint, db)
    else (ok tt, record db { groups = filter (λ g. not (g == name)) db.groups })

-- `DELETE FROM <table> WHERE group_name = ?`
unfoldable pub clear_group : Table → Text → Exec Db (Unit {0})
clear_group t name db = (ok tt, with_rows t (filter (λ r. not (of_group name r)) (rows_of t db)) db)

-- `deleteGroupTx`
unfoldable pub delete_group_tx : Text → Exec Db (Unit {0})
delete_group_tx name = do
  exists ← group_exists_tx name
  refuse_if (not exists) group_not_found
  clear_group peer_groups name
  clear_group peer_allowed_groups name
  delete_group_row name

unfoldable pub delete_group : Text → Exec Db (Unit {0})
delete_group name = in_tx (delete_group_tx name)

-- `UPDATE <table> SET group_name = new WHERE group_name = old`: refused when a changed row would
-- repeat another, or when the new group is not there.
unfoldable pub retarget_rows : Table → Text → Text → Exec Db (Unit {0})
retarget_rows t old new db =
    if any (λ r. of_group old r && not (old == new) && has_row t db r.peer_name new) (rows_of t db)
      || any (of_group old) (rows_of t db) && not (has_group db new)
    then (err constraint, db)
    else (
      ok tt,
      with_rows t
          (map (λ r. if of_group old r then record r { group_name = new } else r) (rows_of t db))
          db,
    )

-- `if oldName != newName { … }`
unfoldable pub unless_same : Text → Text → Exec Db (Unit {0}) → Exec Db (Unit {0})
unless_same old new m db = if old == new then (ok tt, db) else m db

-- `renameGroupTx`
unfoldable pub rename_group_tx : Text → Text → Exec Db (Unit {0})
rename_group_tx raw_old raw_new = do
  let old = trim_space raw_old
  let new = trim_space raw_new
  refuse_if (is_empty new) invalid_group_name
  old_exists ← group_exists_tx old
  refuse_if (not old_exists) group_not_found
  unless_same old new (do new_exists ← group_exists_tx new; refuse_if new_exists group_exists)
  ensure_group new
  retarget_rows peer_groups old new
  retarget_rows peer_allowed_groups old new
  unless_same old new (delete_group_row old)

unfoldable pub rename_group : Text → Text → Exec Db (Unit {0})
rename_group old new = in_tx (rename_group_tx old new)

-- `getGroupPeersTx`, `GetGroupMembers`, `GetGroupAllowedBy`
unfoldable pub get_group_peers : Table → Text → Exec Db (List Text)
get_group_peers t group db =
    (ok (sort (map (λ r. r.peer_name) (filter (of_group group) (rows_of t db)))), db)

-- `getPeerGroupsTable`, `GetPeerGroups`, `GetPeerAllowedGroups`
unfoldable pub get_peer_groups_table : Table → Text → Exec Db (List Text)
get_peer_groups_table t peer db =
    (ok (sort (map (λ r. r.group_name) (filter (λ r. r.peer_name == peer) (rows_of t db)))), db)
