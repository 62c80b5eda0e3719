-- ===== src/Db/Peers/Laws.antt =====
-- The reads by name after each update of a peer.
use certhold.Base.{Text, ◌==◌, ==_iff, List, [], ◌∷◌, any, find?, if◌then◌else◌, ◌≡◌, refl, arith}
use mathlib.Core.Option
use certhold.Db.{Peer}
use certhold.Db.Peers.{update_rows}

-- An update that keeps the names changes the row of its name, and no other.
pub find-update_rows :
    (n j : Text) (f : Peer → Peer) (ps : List Peer)
    → ((p : Peer) → (f p).name ≡ p.name)
    → find? (λ p. p.name == j) (update_rows n f ps)
      ≡ (if n == j then Option.map f (find? (λ p. p.name == j) ps) else find? (λ p. p.name == j) ps)
unfolding update_rows
find-update_rows n j f [] keeps = ground arith
find-update_rows n j f (p ∷ ps) keeps = ground (
  arith,
  keeps p,
  find-update_rows n j f ps keeps,
  ==_iff n j,
  ==_iff p.name n,
  ==_iff p.name j,
  ==_iff (f p).name j,
)

pub any-update_rows :
    (n j : Text) (f : Peer → Peer) (ps : List Peer)
    → ((p : Peer) → (f p).name ≡ p.name)
    → any (λ p. p.name == j) (update_rows n f ps) ≡ any (λ p. p.name == j) ps
unfolding update_rows
any-update_rows n j f [] keeps = refl
any-update_rows n j f (p ∷ ps) keeps = ground (arith, keeps p, any-update_rows n j f ps keeps)
