-- ===== src/Ops/Enroll/Reads.antt =====
-- The steps of `MintEnroll` that read the database.
use certhold.Base.{Text, List, [], ◌∷◌, ◌≡◌, refl, ap, ◌∙◌}
use certhold.Errors.{Result, ok, err}
use certhold.Exec.{Exec, ◌>>=◌, continue}
use certhold.Db.{Db, Table}
use certhold.Db.Peers.{get_peer}
use certhold.Db.Groups.{get_peer_groups_table}
use certhold.Db.Meta.{get_meta}
use certhold.Ops.Enroll.{reachable_host_entries, allowing, manager_names, live_hosts}
use certhold.Ops.Enroll.Hosts.{allowing_eq, manager_names_eq}

-- A step that reads the database.
pub record Reads {A : Type 0} (m : Exec Db A) : Type 0 where
  pub same : (db : Db) → (m db).1 ≡ db

pub Reads-table : (t : Table) (n : Text) → Reads (get_peer_groups_table t n)
unfolding get_peer_groups_table
Reads-table t n = record { same = λ db. refl }

continue_same :
    {A B : Type 0} (r : Result A × Db) (f : A → Exec Db B) (db : Db)
    → r.1 ≡ db
    → ((a : A) → Reads (f a))
    → (continue r f).1 ≡ db
continue_same (ok a, d) f db h k = (k a).same d ∙ h
continue_same (err e, d) f db h k = h

Reads-bind :
    {A B : Type 0} (m : Exec Db A) (f : A → Exec Db B)
    → Reads m
    → ((a : A) → Reads (f a))
    → Reads (m >>= f)
Reads-bind m f h k = record { same = λ db. continue_same (m db) f db (h.same db) k }

Reads-live_hosts : (ns : List Text) → Reads (live_hosts ns)
unfolding live_hosts get_peer
Reads-live_hosts [] = record { same = λ db. refl }
Reads-live_hosts (n ∷ ns) =
    Reads-bind _ _ (record { same = λ db. refl })
      (λ p. Reads-bind _ _ (Reads-live_hosts ns) (λ rest. record { same = λ db. refl }))

Reads-allowing : (gs : List Text) → Reads (allowing gs)
Reads-allowing gs = record { same = λ db. ap (λ r. r.1) (allowing_eq gs db) }

Reads-manager_names : (gs : List Text) → Reads (manager_names gs)
Reads-manager_names gs = record { same = λ db. ap (λ r. r.1) (manager_names_eq gs db) }

pub Reads-hosts : (peer : Text) (groups : List Text) → Reads (reachable_host_entries peer groups)
unfolding reachable_host_entries
Reads-hosts peer groups =
    search (Reads-bind, Reads-allowing, Reads-manager_names, Reads-live_hosts) depth 7

pub Reads-get_meta : (k : Text) → Reads (get_meta k)
unfolding get_meta
Reads-get_meta k = record { same = λ db. refl }
