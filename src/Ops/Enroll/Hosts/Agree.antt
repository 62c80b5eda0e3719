-- ===== src/Ops/Enroll/Hosts/Agree.antt =====
-- The hosts of a bundle, computed before the peer is there, against the query.
use certhold.Base.{
  Text, Bool, true, false, not, ◌&&◌, ◌||◌, ◌==◌, ==_iff, some, List, [], ◌∷◌, any, map, find?,
  Distinct, contains, any_ext, any-false, any_or, sort_by, Bool-cases, inl, inr, ◌≡◌, refl, ap, sym,
  ◌∙◌, arith, if◌then◌else◌,
}
use certhold.Errors.{ok}
use certhold.Db.{
  Db, Peer, Membership, RefsValid, peer_of, has_peer, has_row, in_rows, peer_groups,
  peer_allowed_groups, manager_principal,
}
use certhold.Db.Hosts.{reaches, reachable_hosts, shares_group}
use certhold.Db.Hosts.Reach.{hosts_of, member_row, reachable_hosts_are}
use certhold.Peerfiles.Layout.{HostEntry}
use certhold.Ops.Enroll.{reachable_host_entries, inbound_names}
use certhold.Ops.Enroll.Hosts.{
  allowing_eq, managed, manager_names_eq, names_for, live_hosts-Listed, contains-names_for,
  contains-inbound_names, inbound_there, live_row, live_at, usable,
}

either_names :
    (b : Bool) (xs : List Text) (n : Text)
    → contains (if b then xs else []) n ≡ (b && contains xs n)
unfolding contains
either_names true xs n = refl
either_names false xs n = refl

contains-managed :
    (gs : List Text) (db : Db) (n : Text)
    → contains (managed gs db) n ≡ (
        contains gs manager_principal
        && contains (inbound_names (sort_by (λ p. p.name) db.peers)) n)
contains-managed gs db n =
    either_names (contains gs manager_principal) (inbound_names (sort_by (λ p. p.name) db.peers)) n

and_right : (a b : Bool) → (a && b) ≡ true → b ≡ true
and_right true b h = h
and_right false b h = absurd (cc h)

module _ (db : Db) (v : RefsValid db) where
  allowing_there :
      (gs : List Text) (n : Text)
      → any (λ g. has_row peer_allowed_groups db n g) gs ≡ true
      → has_peer db n ≡ true
  allowing_there [] n h = cc h
  allowing_there (g ∷ gs) n h = elim (Bool-cases (has_row peer_allowed_groups db n g)) [
    | inl e ↦ v.peer_refs peer_allowed_groups n g e
    | inr e ↦ allowing_there gs n (ground (arith, h, e))
  ]

  managed_there :
      (gs : List Text) (n : Text) → contains (managed gs db) n ≡ true → has_peer db n ≡ true
  managed_there gs n h =
      inbound_there n db.peers
        (sym (contains-inbound_names db n) ∙ and_right _ _ (sym (contains-managed gs db n) ∙ h))

  names_there :
      (peer : Text) (gs : List Text) (n : Text)
      → contains (names_for peer gs db) n ≡ true
      → has_peer db n ≡ true
  names_there peer gs n h = elim (Bool-cases (any (λ g. has_row peer_allowed_groups db n g) gs)) [
    | inl e ↦ allowing_there gs n e
    | inr e ↦ managed_there gs n (ground (arith, h, e, contains-names_for peer gs db n))
  ]

and_true : (b : Bool) → (b && true) ≡ b
and_true true = refl
and_true false = refl

and_false : (b : Bool) → (b && false) ≡ false
and_false true = refl
and_false false = refl

live_names :
    (db : Db) (n : Text)
    → live_at db n ≡ true
    → contains (inbound_names (sort_by (λ p. p.name) db.peers)) n ≡ true
unfolding live_at
live_names db n h = contains-inbound_names db n ∙ live_row n db.peers h

managed_live :
    (gs : List Text) (db : Db) (n : Text)
    → (contains (managed gs db) n && live_at db n) ≡ (contains gs manager_principal && live_at db n)
managed_live gs db n = elim (Bool-cases (live_at db n)) [
  | inl live ↦
      let row = live_names db n live in
      cc (contains-managed gs db n, row, live, and_true (contains gs manager_principal))
  | inr dead ↦
      cc (dead, and_false (contains (managed gs db) n), and_false (contains gs manager_principal))
]

one_group :
    (b : Bool) (x : Text) (gs : List Text) → any (λ g. b && (x == g)) gs ≡ (b && contains gs x)
unfolding contains
one_group b x [] = ground arith
one_group b x (g ∷ gs) = ground (arith, one_group b x gs, ==_iff x g, ==_iff g x)

swapped :
    (q : Text) (gs : List Text) (rs : List Membership)
    → any (λ a. a.peer_name == q && contains gs a.group_name) rs ≡ any (λ g. in_rows rs q g) gs
swapped q gs [] = sym (any-false gs)
swapped q gs (a ∷ rs) = sym (
    any_or (λ g. a.peer_name == q && (a.group_name == g)) (λ g. in_rows rs q g) gs
    ∙ ap (λ b. b || any (λ g. in_rows rs q g) gs) (one_group (a.peer_name == q) a.group_name gs)
    ∙ ap (λ b. (a.peer_name == q && contains gs a.group_name) || b) (sym (swapped q gs rs)))

shares-allowing :
    (db after : Db) (peer q : Text) (gs : List Text)
    → after.peer_allowed_rows ≡ db.peer_allowed_rows
    → ((g : Text) → has_row peer_groups after peer g ≡ contains gs g)
    → shares_group after peer q ≡ any (λ g. has_row peer_allowed_groups db q g) gs
shares-allowing db after peer q gs same joined =
    any_ext
      (λ a.
        a.peer_name == q
        && any (λ m. m.group_name == a.group_name && m.peer_name == peer) after.peer_groups_rows)
      (λ a. a.peer_name == q && contains gs a.group_name) after.peer_allowed_rows
      (λ a.
        ap (λ b. a.peer_name == q && b)
          (member_row peer a.group_name after.peer_groups_rows ∙ joined a.group_name))
    ∙ ap (any (λ a. a.peer_name == q && contains gs a.group_name)) same
    ∙ swapped q gs db.peer_allowed_rows

live_as :
    (db : Db) (q : Peer)
    → peer_of db q.name ≡ some q
    → live_at db q.name ≡ (not q.revoked && q.inbound)
unfolding live_at
live_as db q h = ap usable h

same_test :
    (self a c m r i j s l : Bool)
    → (c && l) ≡ (m && l)
    → l ≡ (not r && i)
    → j ≡ m
    → s ≡ a
    → ((not self && (a || c)) && l) ≡ (not self && not r && i && (j || s))
same_test self a c m r i j s l h k e f = ground arith

-- The hosts of the bundle are the peers that pass the test of the query.
tested_hosts :
    (peer : Text) (gs : List Text) (db after : Db)
    → RefsValid db
    → after.peer_allowed_rows ≡ db.peer_allowed_rows
    → ((g : Text) → has_row peer_groups after peer g ≡ contains gs g)
    → (hs : List HostEntry) × (reachable_host_entries peer gs db ≡ (ok hs, db))
      × ((q : Peer)
          → peer_of db q.name ≡ some q
          → any (λ h. h.name == q.name) hs ≡ reaches after peer q)
unfolding reachable_host_entries
tested_hosts peer gs db after v same joined =
    let (hs, run, listed) =
      live_hosts-Listed (names_for peer gs db) db (names_there db v peer gs) in
    (
      hs,
      rw (allowing_eq gs db, manager_names_eq gs db) run,
      λ q found.
          listed q.name
          ∙ ap (λ b. b && live_at db q.name) (contains-names_for peer gs db q.name)
          ∙ same_test (q.name == peer) (any (λ g. has_row peer_allowed_groups db q.name g) gs)
              (contains (managed gs db) q.name) (contains gs manager_principal) q.revoked q.inbound
              (has_row peer_groups after peer manager_principal) (shares_group after peer q.name)
              (live_at db q.name) (managed_live gs db q.name) (live_as db q found)
              (joined manager_principal) (shares-allowing db after peer q.name gs same joined),
    )

none_named :
    (f : Peer → Bool) (n : Text) (ps : List Peer)
    → contains (map (λ p. p.name) ps) n ≡ false
    → any (λ r. f r && (r.name == n)) ps ≡ false
unfolding contains
none_named f n [] h = refl
none_named f n (p ∷ ps) h = ground (arith, h, none_named f n ps, ==_iff p.name n, ==_iff n p.name)

-- The row of a name decides, when no two rows have one name.
any-row :
    (f : Peer → Bool) (n : Text) (ps : List Peer) (q : Peer)
    → Distinct (map (λ p. p.name) ps)
    → find? (λ p. p.name == n) ps ≡ some q
    → any (λ r. f r && (r.name == n)) ps ≡ f q
any-row f n [] q d h = absurd (cc h)
any-row f n (p ∷ ps) q d h = elim (Bool-cases (p.name == n)) [
  | inl e ↦
      let same = (==_iff p.name n).0 e in
      let rest = none_named f p.name ps d.0 in ground (arith, e, h, rest, same)
  | inr e ↦ ground (arith, e, h, any-row f n ps q d.1)
]

-- The hosts that are put into the bundle of a new peer, before its row is there. In a database whose
-- references are valid, the computation succeeds and writes nothing. Let a later database have the same
-- allowed groups and the new peer in exactly the given groups, and no two peers of one name. Then a
-- peer whose row is the same in both is among the hosts of the bundle exactly when the query on the
-- later database lists it among the reachable hosts of the new peer.
pub reachable_host_entries_agree :
    (peer : Text) (gs : List Text) (db after : Db)
    → RefsValid db
    → after.peer_allowed_rows ≡ db.peer_allowed_rows
    → ((g : Text) → has_row peer_groups after peer g ≡ contains gs g)
    → Distinct (map (λ p. p.name) after.peers)
    → (hs : List HostEntry) × (reachable_host_entries peer gs db ≡ (ok hs, db))
      × ((q : Peer)
          → peer_of db q.name ≡ some q
          → peer_of after q.name ≡ some q
          → any (λ h. h.name == q.name) hs
            ≡ any (λ h. h.name == q.name) (hosts_of (reachable_hosts peer after).0))
reachable_host_entries_agree peer gs db after v same joined once =
    let (hs, run, tested) = tested_hosts peer gs db after v same joined in
    (
      hs,
      run,
      λ q found kept.
          tested q found
          ∙ sym (any-row (reaches after peer) q.name after.peers q once kept)
          ∙ sym ((reachable_hosts_are peer after).0 q.name),
    )
