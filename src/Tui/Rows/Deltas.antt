-- ===== src/Tui/Rows/Deltas.antt =====
-- internal/tui/groups_actions.go: the differences that the picker of members makes.
use certhold.Base.{
  Text, Bool, false, not, ◌&&◌, ◌||◌, ◌==◌, Option, none, some, List, [], ◌∷◌, ◌++◌, contains,
  if◌then◌else◌, ◌≡◌,
}
use certhold.Tui.{PeerRow}
use certhold.Tui.Rows.{MembershipDelta, is_self_peer, remove_string}

-- The peer's membership is not what the picker says, and may be changed.
abbrev pub flips : Text → Text → List Text → PeerRow → Bool
flips hostname group selected p =
    not (p.revoked || is_self_peer hostname p.name)
    && not (
        if contains p.groups group
        then contains selected p.name
        else not (contains selected p.name))

-- The delta for a row.
abbrev pub DeltaFor : Text → List Text → PeerRow → Option MembershipDelta → Type 0
DeltaFor group selected p none = Unit
DeltaFor group selected p (some d) =
    (d.peer ≡ p.name)
    × ((x : Text)
        → contains d.new_groups x
          ≡ (if x == group then contains selected p.name else contains p.groups x))

-- The branches of a row, over the three tests.
abbrev choice : Bool → Bool → Bool → Text → List Text → PeerRow → Option MembershipDelta
choice left was now group selected p =
    let with_group : MembershipDelta = record {
      peer = p.name;
      new_groups = p.groups ++ (group ∷ []);
    } in
    let without_group : MembershipDelta = record {
      peer = p.name;
      new_groups = remove_string p.groups group;
    } in
    if left
    then none
    else if was
    then (if now then none else some without_group)
    else (if now then some with_group else none)

abbrev names : Text → Option MembershipDelta → Bool
names n none = false
names n (some d) = d.peer == n
