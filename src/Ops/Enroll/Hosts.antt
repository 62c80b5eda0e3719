-- ===== src/Ops/Enroll/Hosts.antt =====
-- `reachableHostEntries`, which computes what `ReachableHosts` will give once the peer is there.
pub mod Agree
use certhold.Base.{
  Text, text, Bool, true, false, not, ◌&&◌, ◌||◌, ◌==◌, ==_iff, ==_refl, Option, none, some, List,
  [], ◌∷◌, ◌++◌, map, any, filter, find?, sort, contains, contains-sort, distinct, any-filter,
  any-append, any-map, any-sort_by, sort_by, Option-cases, Bool-cases, inl, inr, ◌≡◌, refl, ap, sym,
  subst, ◌∙◌, arith, if◌then◌else◌,
}
use certhold.Errors.{Error, Result, ok, err}
use certhold.Exec.{Exec, continue, ◌>>=◌, pure}
use certhold.Db.{
  Db, Peer, Membership, RefsValid, peer_of, has_peer, has_row, in_rows, peer_groups,
  peer_allowed_groups, manager_principal,
}
use certhold.Db.Peers.{get_peer, list_peers}
use certhold.Db.Groups.{get_group_peers, of_group}
use certhold.Ops.Edit.Removal.{find_there}
use certhold.Peerfiles.Layout.{HostEntry}
use certhold.Ops.Enroll.{
  reachable_host_entries, allowing, manager_names, live_hosts, inbound_names, host_entry,
}

-- The names, as lists.
abbrev pub allowers : List Text → Db → List Text
allowers [] db = []
allowers (g ∷ gs) db =
    sort (map (λ r. r.peer_name) (filter (of_group g) db.peer_allowed_rows)) ++ allowers gs db

pub allowing_eq : (gs : List Text) (db : Db) → allowing gs db ≡ (ok (allowers gs db), db)
unfolding allowing get_group_peers
allowing_eq [] db = refl
allowing_eq (g ∷ gs) db = rw (allowing_eq gs db) refl

row_names :
    (g n : Text) (rs : List Membership)
    → any (λ r. of_group g r && (r.peer_name == n)) rs ≡ in_rows rs n g
row_names g n [] = refl
row_names g n (r ∷ rs) = ground (arith, row_names g n rs)

group_names :
    (g n : Text) (rs : List Membership)
    → contains (sort (map (λ r. r.peer_name) (filter (of_group g) rs))) n ≡ in_rows rs n g
group_names g n rs =
    contains-sort (map (λ r. r.peer_name) (filter (of_group g) rs)) n
    ∙ unfold contains in
      any-map (λ x. x == n) (λ r. r.peer_name) (filter (of_group g) rs)
      ∙ any-filter (of_group g) (λ r. r.peer_name == n) rs
      ∙ row_names g n rs

contains-append :
    (xs ys : List Text) (n : Text) → contains (xs ++ ys) n ≡ (contains xs n || contains ys n)
unfolding contains
contains-append xs ys n = any-append (λ x. x == n) xs ys

contains-allowers :
    (gs : List Text) (db : Db) (n : Text)
    → contains (allowers gs db) n ≡ any (λ g. has_row peer_allowed_groups db n g) gs
contains-allowers [] db n = unfold contains in refl
contains-allowers (g ∷ gs) db n = cc (
  contains-append (sort (map (λ r. r.peer_name) (filter (of_group g) db.peer_allowed_rows)))
      (allowers gs db) n,
  group_names g n db.peer_allowed_rows,
  contains-allowers gs db n,
)

contains-distinct :
    (seen xs : List Text) (n : Text)
    → contains (distinct seen xs) n ≡ (not (contains seen n) && contains xs n)
unfolding distinct contains
contains-distinct seen [] n = ground arith
contains-distinct seen (x ∷ xs) n =
    ground (arith, contains-distinct seen xs n, contains-distinct (x ∷ seen) xs n, ==_iff x n)

-- The first row of the name, if it is live and takes logins.
abbrev pub usable : Option Peer → Bool
usable none = false
usable (some p) = not p.revoked && p.inbound

unfoldable pub live_at : Db → Text → Bool
live_at db n = usable (peer_of db n)

pub live_row :
    (n : Text) (ps : List Peer)
    → usable (find? (λ p. p.name == n) ps) ≡ true
    → any (λ p. (p.inbound && not p.revoked) && (p.name == n)) ps ≡ true
live_row n [] h = cc h
live_row n (p ∷ ps) h = ground (arith, live_row n ps)

find_name :
    (n : Text) (ps : List Peer) (p : Peer) → find? (λ q. q.name == n) ps ≡ some p → p.name ≡ n
find_name n [] p h = absurd (cc h)
find_name n (q ∷ ps) p h = ground (arith, find_name n ps p, ==_iff q.name n)

entry_member :
    (p : Peer) (m n : Text) (ms : List Text) (rest : List HostEntry) (db : Db)
    → peer_of db m ≡ some p
    → p.name ≡ m
    → any (λ h. h.name == n) rest ≡ (contains ms n && live_at db n)
    → any (λ h. h.name == n) (if p.revoked || not p.inbound then rest else host_entry p ∷ rest)
      ≡ (contains (m ∷ ms) n && live_at db n)
unfolding live_at contains
entry_member p m n ms rest db found same h = elim (Bool-cases (m == n)) [
  | inl e ↦
      let at : peer_of db n ≡ some p = ap (peer_of db) (sym ((==_iff m n).0 e)) ∙ found in
      ground (arith, h, e, at, ap (λ x. x == n) same)
  | inr e ↦ ground (arith, h, e, ap (λ x. x == n) same)
]

contains_head : (m : Text) (ms : List Text) → contains (m ∷ ms) m ≡ true
unfolding contains
contains_head m ms = ground (arith, ==_refl m)

contains_later : (m n : Text) (ms : List Text) → contains ms n ≡ true → contains (m ∷ ms) n ≡ true
unfolding contains
contains_later m n ms h = ground (arith, h)

abbrev pub Listed : List Text → Db → Type 0
Listed ns db =
    (hs : List HostEntry) × (live_hosts ns db ≡ (ok hs, db))
    × ((n : Text) → any (λ h. h.name == n) hs ≡ (contains ns n && live_at db n))

pub live_hosts-Listed :
    (ns : List Text) (db : Db)
    → ((n : Text) → contains ns n ≡ true → has_peer db n ≡ true)
    → Listed ns db
unfolding live_hosts get_peer
live_hosts-Listed [] db there = ([], refl, λ n. unfold contains in refl)
live_hosts-Listed (m ∷ ms) db there =
    let (p, found) = find_there m db.peers (there m (contains_head m ms)) in
    let (hs, same, listed) = live_hosts-Listed ms db (λ n h. there n (contains_later m n ms h)) in
    (
      if p.revoked || not p.inbound then hs else host_entry p ∷ hs,
      rw (found, same) refl,
      λ n. entry_member p m n ms hs db found (find_name m db.peers p found) (listed n),
    )

-- The names that the manager's group adds, as a list.
abbrev pub managed : List Text → Db → List Text
managed gs db =
    if contains gs manager_principal then inbound_names (sort_by (λ p. p.name) db.peers) else []

pub manager_names_eq : (gs : List Text) (db : Db) → manager_names gs db ≡ (ok (managed gs db), db)
unfolding manager_names list_peers
manager_names_eq gs db = ground arith

pub contains-inbound_names :
    (db : Db) (n : Text)
    → contains (inbound_names (sort_by (λ p. p.name) db.peers)) n
      ≡ any (λ p. (p.inbound && not p.revoked) && (p.name == n)) db.peers
unfolding contains
contains-inbound_names db n =
    any-map (λ x. x == n) (λ p. p.name)
      (filter (λ p. p.inbound && not p.revoked) (sort_by (λ p. p.name) db.peers))
    ∙ any-filter (λ p. p.inbound && not p.revoked) (λ p. p.name == n)
        (sort_by (λ p. p.name) db.peers)
    ∙ any-sort_by (λ p. p.name) (λ p. (p.inbound && not p.revoked) && (p.name == n)) db.peers

pub inbound_there :
    (n : Text) (ps : List Peer)
    → any (λ p. (p.inbound && not p.revoked) && (p.name == n)) ps ≡ true
    → any (λ p. p.name == n) ps ≡ true
inbound_there n [] h = cc h
inbound_there n (p ∷ ps) h = ground (arith, inbound_there n ps)

-- The names that the loop reads.
abbrev pub names_for : Text → List Text → Db → List Text
names_for peer gs db =
    sort (filter (λ n. not (n == peer)) (distinct [] (allowers gs db ++ managed gs db)))

contains-filter :
    (p : Text → Bool) (xs : List Text) (n : Text)
    → contains (filter p xs) n ≡ (p n && contains xs n)
unfolding contains
contains-filter p [] n = ground arith
contains-filter p (x ∷ xs) n = elim (Bool-cases (x == n)) [
  | inl e ↦ ground (arith, contains-filter p xs n, e, ap p ((==_iff x n).0 e))
  | inr e ↦ ground (arith, contains-filter p xs n, e)
]

pub contains-names_for :
    (peer : Text) (gs : List Text) (db : Db) (n : Text)
    → contains (names_for peer gs db) n ≡ (
        not (n == peer)
        && (any (λ g. has_row peer_allowed_groups db n g) gs || contains (managed gs db) n))
contains-names_for peer gs db n =
    let all = allowers gs db ++ managed gs db in
    contains-sort (filter (λ x. not (x == peer)) (distinct [] all)) n
    ∙ contains-filter (λ x. not (x == peer)) (distinct [] all) n
    ∙ ap (λ b. not (n == peer) && b)
        (contains-distinct [] all n
          ∙ unfold contains in
            contains-append (allowers gs db) (managed gs db) n
            ∙ ap (λ b. b || contains (managed gs db) n) (contains-allowers gs db n))
