-- ===== src/Ops/Rekey/Restore.antt =====
-- internal/ops/rekey.go: the certificates that a rotation stores without a push, and their restore, row
-- by row.
use certhold.Base.{
  ℕ, Text, true, false, ◌==◌, List, [], ◌∷◌, ◌++◌, map, any, All, if◌then◌else◌, ◌≡◌, refl, sym, ap,
  arith,
}
use certhold.Errors.{Result, ok, err}
use certhold.Exec.{continue}
use certhold.Db.{Db, Peer}
use certhold.Db.Peers.{update_rows, update_peer, set_peer_cert}
use certhold.Ops.{World, warn, logged}
use certhold.Ops.Rekey.Rotate.{Prior, Staging}
use certhold.Ops.Rekey.Run.{restore}

abbrev pub with_cert : Text → ℕ → Peer → Peer
with_cert cert serial p = record p { cert = cert; serial = serial }

-- One restore, on one row.
abbrev pub put_back : Prior → Peer → Peer
put_back c p = if p.name == c.name then with_cert c.cert c.serial p else p

unfoldable pub restored : List Prior → Peer → Peer
restored [] p = p
restored (c ∷ cs) p = restored cs (put_back c p)

restored-name : (cs : List Prior) (p : Peer) → (restored cs p).name ≡ p.name
unfolding restored
restored-name [] p = refl
restored-name (c ∷ cs) p = ground (arith, restored-name cs (put_back c p))

-- A restore touches the certificate and the serial only.
restored_rest :
    (cs : List Prior) (p : Peer) (cert : Text) (serial : ℕ)
    → with_cert cert serial (restored cs p) ≡ with_cert cert serial p
unfolding restored
restored_rest [] p cert serial = refl
restored_rest (c ∷ cs) p cert serial = ground (arith, restored_rest cs (put_back c p) cert serial)

restored-append :
    (cs : List Prior) (c : Prior) (p : Peer)
    → restored (cs ++ (c ∷ [])) p ≡ put_back c (restored cs p)
unfolding restored
restored-append [] c p = refl
restored-append (d ∷ cs) c p = restored-append cs c (put_back d p)

-- The row of the name has this certificate and serial.
abbrev pub Holds : Prior → Peer → Type 0
Holds c p = (p.name == c.name) ≡ true → with_cert c.cert c.serial p ≡ p

-- A row whose certificate was overwritten after it was noted.
restored_step :
    (cs : List Prior) (c : Prior) (cert : Text) (serial : ℕ) (p : Peer)
    → Holds c (restored cs p)
    → restored (cs ++ (c ∷ [])) (if p.name == c.name then with_cert cert serial p else p)
      ≡ restored cs p
restored_step cs c cert serial p h = ground (
  arith,
  restored-append cs c (with_cert cert serial p),
  restored-append cs c p,
  restored-name cs (with_cert cert serial p),
  restored-name cs p,
  restored_rest cs (with_cert cert serial p) c.cert c.serial,
  restored_rest cs p c.cert c.serial,
)

pub restored_steps :
    (cs : List Prior) (c : Prior) (cert : Text) (serial : ℕ) (ps : List Peer)
    → All (Holds c) (map (restored cs) ps)
    → map (restored (cs ++ (c ∷ []))) (update_rows c.name (with_cert cert serial) ps)
      ≡ map (restored cs) ps
unfolding update_rows
restored_steps cs c cert serial [] h = refl
restored_steps cs c cert serial (p ∷ ps) h =
    ground (arith, restored_step cs c cert serial p, restored_steps cs c cert serial ps)

absent-update_rows :
    (name : Text) (f : Peer → Peer) (ps : List Peer)
    → any (λ p. p.name == name) ps ≡ false
    → update_rows name f ps ≡ ps
unfolding update_rows
absent-update_rows name f [] h = refl
absent-update_rows name f (p ∷ ps) h = ground (arith, absent-update_rows name f ps)

-- What the statement leaves, also when it fails for want of the row.
pub set_peer_cert-db :
    (name cert : Text) (serial : ℕ) (db : Db)
    → (set_peer_cert name cert serial db).1
      ≡ record db { peers = update_rows name (with_cert cert serial) db.peers }
unfolding set_peer_cert update_peer
set_peer_cert-db name cert serial db =
    ground (arith, absent-update_rows name (with_cert cert serial) db.peers)

map-update_rows :
    (c : Prior) (cs : List Prior) (ps : List Peer)
    → map (restored cs) (update_rows c.name (with_cert c.cert c.serial) ps)
      ≡ map (restored (c ∷ cs)) ps
unfolding restored update_rows
map-update_rows c cs [] = refl
map-update_rows c cs (p ∷ ps) = ap (λ ys. restored cs (put_back c p) ∷ ys) (map-update_rows c cs ps)

pub map_id : (f : Peer → Peer) (ps : List Peer) → ((p : Peer) → f p ≡ p) → map f ps ≡ ps
map_id f [] h = refl
map_id f (p ∷ ps) h = ground (arith, h p, map_id f ps h)

-- The restore of the rows, and of nothing else.
abbrev pub Restores : {R : Type 0} → List Prior → World R → World R → Type 0
Restores cs w v =
    (v.db ≡ record w.db { peers = map (restored cs) w.db.peers }) × (v.remote ≡ w.remote)

module _ {R : Type 0} (staging : Staging R) where
  Restores-then :
      (c : Prior) (cs : List Prior) (w : World R) (x : Result (Unit {0}) × World R)
      → x.1.db ≡ record w.db { peers = update_rows c.name (with_cert c.cert c.serial) w.db.peers }
      → x.1.remote ≡ w.remote
      → ((v : World R) → Restores cs v (restore staging cs v).1)
      → Restores (c ∷ cs) w (continue (logged c.name x) (λ _. restore staging cs)).1
  Restores-then c cs w (ok u, v) h k ih = ground (arith, ih v, map-update_rows c cs w.db.peers)
  Restores-then c cs w (err e, v) h k ih =
      ground
        (arith, ih (record v { events = warn c.name ∷ v.events }), map-update_rows c cs w.db.peers)

  pub restore_lem : (cs : List Prior) (w : World R) → Restores cs w (restore staging cs w).1
  unfolding restore restored
  restore_lem [] w = (
    ap (λ ps. record w.db { peers = ps }) (sym (map_id (restored []) w.db.peers (λ p. refl))),
    refl,
  )
  restore_lem (c ∷ cs) w =
      Restores-then c cs w _ (set_peer_cert-db c.name c.cert c.serial w.db) refl (restore_lem cs)
