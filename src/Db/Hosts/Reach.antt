-- ===== src/Db/Hosts/Reach.antt =====
-- Who is in the list of reachable hosts.
use certhold.Base.{
  Text, true, false, ◌&&◌, ◌==◌, ==_iff, List, [], ◌∷◌, any, filter, any-sort_by, any-filter,
  any-map, sort_by, ◌≡◌, refl, ◌∙◌, arith, ◌≢◌, ◌⊎◌, ◌↔◌, inl, inr, Bool-cases, ==_refl,
}
use certhold.Errors.{Result, ok, err}
use certhold.Db.{
  Db, Peer, Membership, peer_groups, peer_allowed_groups, has_row, in_rows, manager_principal,
}
use certhold.Db.Hosts.{reachable_hosts, reaches, to_host, ReachableHost, shares_group}

abbrev pub hosts_of : Result (List ReachableHost) → List ReachableHost
hosts_of (ok hs) = hs
hosts_of (err e) = []

names-reachable_hosts :
    (peer n : Text) (db : Db)
    → any (λ h. h.name == n) (hosts_of (reachable_hosts peer db).0)
      ≡ any (λ q. reaches db peer q && (q.name == n)) db.peers
unfolding reachable_hosts
names-reachable_hosts peer n db =
    any-map (λ h. h.name == n) to_host (filter (reaches db peer) (sort_by (λ q. q.name) db.peers))
    ∙ any-filter (reaches db peer) (λ q. q.name == n) (sort_by (λ q. q.name) db.peers)
    ∙ any-sort_by (λ q. q.name) (λ q. reaches db peer q && (q.name == n)) db.peers

pub member_row :
    (peer g : Text) (rs : List Membership)
    → any (λ m. m.group_name == g && m.peer_name == peer) rs ≡ in_rows rs peer g
member_row peer g [] = refl
member_row peer g (m ∷ rs) = ground (arith, member_row peer g rs)

-- The peer is in the group and the other allows it.
abbrev pub Shares : Db → Text → Text → Text → Type 0
Shares db peer q g =
    (has_row peer_groups db peer g ≡ true) × (has_row peer_allowed_groups db q g ≡ true)

shares_in :
    (peer q g : Text) (ms as' : List Membership)
    → in_rows ms peer g ≡ true
    → in_rows as' q g ≡ true
    → any
        (λ a. a.peer_name == q && any (λ m. m.group_name == a.group_name && m.peer_name == peer) ms)
        as'
      ≡ true
shares_in peer q g ms [] h k = cc
shares_in peer q g ms (a ∷ as') h k =
    ground
      (arith, shares_in peer q g ms as' h, ==_iff a.group_name g, member_row peer a.group_name ms)

pub shares_group_intro :
    (db : Db) (peer q g : Text) → Shares db peer q g → shares_group db peer q ≡ true
shares_group_intro db peer q g h =
    shares_in peer q g db.peer_groups_rows db.peer_allowed_rows h.0 h.1

shares_out :
    (peer q : Text) (ms as' : List Membership)
    → any
        (λ a. a.peer_name == q && any (λ m. m.group_name == a.group_name && m.peer_name == peer) ms)
        as'
      ≡ true
    → (g : Text) × ((in_rows ms peer g ≡ true) × (in_rows as' q g ≡ true))
shares_out peer q ms [] h = cc
shares_out peer q ms (a ∷ as') h =
    elim (Bool-cases (a.peer_name == q && in_rows ms peer a.group_name)) [
      | inl e ↦ (a.group_name, (ground (arith, e), ground (arith, e, ==_refl a.group_name)))
      | inr e ↦
          let (g, r) =
            shares_out peer q ms as' (ground (arith, e, h, member_row peer a.group_name ms)) in
          (g, (r.0, ground (arith, r.1)))
    ]

-- `q` is another peer, live and inbound, and `peer` is in the manager's group or in a group that `q`
-- allows.
pub record CanReach (db : Db) (peer : Text) (q : Peer) : Type 0 where
  pub other : q.name ≢ peer
  pub live : q.revoked ≡ false
  pub inbound : q.inbound ≡ true
  pub by :
      (has_row peer_groups db peer manager_principal ≡ true)
      ⊎ ((g : Text) × Shares db peer q.name g)

reaches_sound : (db : Db) (peer : Text) (q : Peer) → reaches db peer q ≡ true → CanReach db peer q
reaches_sound db peer q h = record {
  other = λ e. ground (arith, h, (==_iff q.name peer).1 e);
  live = ground (arith, h);
  inbound = ground (arith, h);
  by = elim (Bool-cases (has_row peer_groups db peer manager_principal)) [
    | inl m ↦ inl m
    | inr m ↦
        inr (shares_out peer q.name db.peer_groups_rows db.peer_allowed_rows (ground (arith, m, h)))
  ];
}

reaches_complete :
    (db : Db) (peer : Text) (q : Peer) → CanReach db peer q → reaches db peer q ≡ true
reaches_complete db peer q c = elim c.by [
  | inl m ↦ ground (arith, c.other, c.live, c.inbound, m, (==_iff q.name peer).0)
  | inr (g, s) ↦ ground (
    arith,
    c.other,
    c.live,
    c.inbound,
    shares_group_intro db peer q.name g s,
    (==_iff q.name peer).0,
  )
]

-- The reachable hosts of a peer are the rows that pass the test of the query, and a row passes it
-- exactly when it is another peer, not revoked and inbound, and the asking peer is in the manager's
-- group or shares a group with it: one that the asking peer is in and the other allows.
pub reachable_hosts_are :
    (peer : Text) (db : Db)
    → ((n : Text)
        → any (λ h. h.name == n) (hosts_of (reachable_hosts peer db).0)
          ≡ any (λ q. reaches db peer q && (q.name == n)) db.peers)
      × ((q : Peer) → (reaches db peer q ≡ true) ↔ CanReach db peer q)
reachable_hosts_are peer db = (
  λ n. names-reachable_hosts peer n db,
  λ q. (reaches_sound db peer q, reaches_complete db peer q),
)
