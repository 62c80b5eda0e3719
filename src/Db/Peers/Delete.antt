-- ===== src/Db/Peers/Delete.antt =====
-- `DeletePeer` of internal/db/peers.go.
use certhold.Base.{
  Text, true, false, not, ◌&&◌, ◌==◌, ==_iff, List, [], ◌∷◌, any, find?, filter, Bool, ◌≡◌, refl,
  ap, sym, subst, arith,
}
use certhold.Errors.{ok, err, peer_not_found}
use certhold.Db.{
  Db, Peer, Membership, Token, Table, peer_groups, peer_allowed_groups, has_peer, peer_of, has_row,
  in_rows,
}
use certhold.Db.Peers.{delete_peer, forget_peer, of_peer}

-- A filter that drops the rows of a name, read at any name.
pub any-drop_peers :
    (n j : Text) (ps : List Peer)
    → any (λ p. p.name == j) (filter (λ p. not (p.name == n)) ps)
      ≡ (not (n == j) && any (λ p. p.name == j) ps)
any-drop_peers n j [] = ground arith
any-drop_peers n j (p ∷ ps) =
    ground (arith, any-drop_peers n j ps, ==_iff n j, ==_iff p.name n, ==_iff p.name j)

pub in_rows-drop_peer :
    (n j g : Text) (rs : List Membership)
    → in_rows (filter (λ r. not (of_peer n r)) rs) j g ≡ (not (n == j) && in_rows rs j g)
in_rows-drop_peer n j g [] = ground arith
in_rows-drop_peer n j g (r ∷ rs) =
    ground
      (arith, in_rows-drop_peer n j g rs, ==_iff n j, ==_iff r.peer_name n, ==_iff r.peer_name j)

none_of_peer :
    (n : Text) (rs : List Membership) → any (of_peer n) (filter (λ r. not (of_peer n r)) rs) ≡ false
none_of_peer n [] = refl
none_of_peer n (r ∷ rs) = ground (arith, none_of_peer n rs)

none_of_peer_tokens :
    (n : Text) (ts : List Token)
    → any (λ t. t.peer_name == n) (filter (λ t. not (t.peer_name == n)) ts) ≡ false
none_of_peer_tokens n [] = refl
none_of_peer_tokens n (t ∷ ts) = ground (arith, none_of_peer_tokens n ts)

-- The deletes come in an order that no foreign key refuses.
delete_peer_eq :
    (n : Text) (db : Db)
    → has_peer db n ≡ true
    → delete_peer n db
      ≡ (ok tt, record (forget_peer n db) { peers = filter (λ p. not (p.name == n)) db.peers })
unfolding delete_peer
delete_peer_eq n db h =
    ground (arith, none_of_peer n db.peer_groups_rows, none_of_peer n db.peer_allowed_rows)

-- `db'` is `db` without the peer and what names it.
pub record PeerGone (n : Text) (db db' : Db) : Type 0 where
  pub peers : (j : Text) → has_peer db' j ≡ (not (n == j) && has_peer db j)
  pub rows : (t : Table) (j g : Text) → has_row t db' j g ≡ (not (n == j) && has_row t db j g)
  pub tokens : any (λ t. t.peer_name == n) db'.tokens ≡ false
  pub groups : db'.groups ≡ db.groups
  pub others : (j : Text) → (n == j) ≡ false → peer_of db' j ≡ peer_of db j
  pub others_tokens :
      filter (λ t. not (t.peer_name == n)) db'.tokens
      ≡ filter (λ t. not (t.peer_name == n)) db.tokens
  pub rest : (db'.meta ≡ db.meta) × (db'.ca ≡ db.ca)

find-drop_peer :
    (n j : Text) (ps : List Peer)
    → (n == j) ≡ false
    → find? (λ p. p.name == j) (filter (λ p. not (p.name == n)) ps) ≡ find? (λ p. p.name == j) ps
find-drop_peer n j [] h = refl
find-drop_peer n j (p ∷ ps) h =
    ground (arith, find-drop_peer n j ps h, ==_iff n j, ==_iff p.name n, ==_iff p.name j)

filter_twice : {A : Type 0} (p : A → Bool) (xs : List A) → filter p (filter p xs) ≡ filter p xs
filter_twice p [] = refl
filter_twice p (x ∷ xs) = ground (arith, filter_twice p xs)

rows-forget_peer :
    (n : Text) (db : Db) (t : Table) (j g : Text)
    → has_row t (forget_peer n db) j g ≡ (not (n == j) && has_row t db j g)
unfolding forget_peer
rows-forget_peer n db peer_groups j g = in_rows-drop_peer n j g db.peer_groups_rows
rows-forget_peer n db peer_allowed_groups j g = in_rows-drop_peer n j g db.peer_allowed_rows

peers_kept :
    (n : Text) (db : Db)
    → PeerGone n db (record (forget_peer n db) { peers = filter (λ p. not (p.name == n)) db.peers })
unfolding forget_peer rows-forget_peer
peers_kept n db = record {
  peers = λ j. any-drop_peers n j db.peers;
  rows = elim [
    | peer_groups ↦ rows-forget_peer n db peer_groups
    | peer_allowed_groups ↦ rows-forget_peer n db peer_allowed_groups
  ];
  tokens = none_of_peer_tokens n db.tokens;
  groups = refl;
  others = λ j. find-drop_peer n j db.peers;
  others_tokens = filter_twice (λ t. not (t.peer_name == n)) db.tokens;
  rest = (refl, refl);
}

pub delete_peer_keeps_rev :
    (n : Text) (db : Db) → has_peer db n ≡ true → (delete_peer n db).1.fleet_rev ≡ db.fleet_rev
unfolding forget_peer
delete_peer_keeps_rev n db h = ap (λ r. r.1.fleet_rev) (delete_peer_eq n db h)

-- Deleting a peer that is there succeeds: no foreign key refuses it. Afterwards the peer, its rows
-- in both membership tables and its tokens are gone; the row of every other peer, every other
-- membership and the tokens of the others are as before, and so are the groups, the meta rows, the CA
-- versions and the fleet revision.
pub delete_peer_removes :
    (n : Text) (db : Db)
    → has_peer db n ≡ true
    → ((delete_peer n db).0 ≡ ok tt)
      × PeerGone n db (delete_peer n db).1
      × ((delete_peer n db).1.fleet_rev ≡ db.fleet_rev)
delete_peer_removes n db h =
    subst (λ r. (r.0 ≡ ok tt) × PeerGone n db r.1 × (r.1.fleet_rev ≡ db.fleet_rev))
      (sym (delete_peer_eq n db h)) (refl, peers_kept n db, unfold forget_peer in refl)

-- Deleting a peer that is not there reports it and rolls the other deletes back.
pub delete_peer_missing :
    (n : Text) (db : Db) → has_peer db n ≡ false → delete_peer n db ≡ (err peer_not_found, db)
unfolding delete_peer
delete_peer_missing n db h = ground arith
