-- ===== src/Tui/Rows.antt =====
-- internal/tui: the lists of names that the pickers show and give back (manager_group.go, modal.go,
-- groups_actions.go).
pub mod Manager
pub mod Deltas
use certhold.Base.{
  ℕ, zero, suc, ◌-◌, Text, Bool, true, false, not, ◌&&◌, ◌||◌, ◌==◌, List, [], ◌∷◌, ◌++◌, map,
  filter, contains, is_empty, find?, Option, none, some, ltb, if◌then◌else◌,
}
use certhold.Db.{manager_principal}
use certhold.Tui.{PeerRow, GroupRow, FleetData}

-- `clamp`, between 0 and a bound.
unfoldable pub clamp : ℕ → ℕ → ℕ
clamp v hi = if ltb hi v then hi else v

-- `isMember`
unfoldable pub is_member : List Text → Text → Bool
unfolding contains
is_member groups g = contains groups g

-- `removeString`
unfoldable pub remove_string : List Text → Text → List Text
remove_string xs v = filter (λ x. not (x == v)) xs

-- `isReservedGroup`
unfoldable pub is_reserved_group : Text → Bool
is_reserved_group name = name == manager_principal

-- `selectableGroupNames`
unfoldable pub selectable_group_names : List GroupRow → List Text
selectable_group_names groups =
    map (λ g. g.name) (filter (λ g. not (g.name == manager_principal)) groups)

-- `withManager`
unfoldable pub with_manager : List Text → Bool → List Text
unfolding is_member
with_manager chosen had =
    if not had || is_member chosen manager_principal
    then chosen
    else chosen ++ (manager_principal ∷ [])

-- `peerByName`
unfoldable pub peer_by_name : FleetData → Text → Option PeerRow
peer_by_name d name = find? (λ p. p.name == name) d.peers

abbrev pub member_of : Option PeerRow → Bool
member_of none = false
member_of (some p) = is_member p.groups manager_principal

abbrev pub allows : Option PeerRow → Bool
allows none = false
allows (some p) = is_member p.allowed manager_principal

-- `keepManagerGroup`
unfoldable pub keep_manager_group : FleetData → Text → List Text → List Text
unfolding with_manager peer_by_name
keep_manager_group d peer chosen = with_manager chosen (member_of (peer_by_name d peer))

-- `keepManagerAllowed`
unfoldable pub keep_manager_allowed : FleetData → Text → List Text → List Text
unfolding with_manager peer_by_name
keep_manager_allowed d peer chosen = with_manager chosen (allows (peer_by_name d peer))

-- `isSelfPeer`
unfoldable pub is_self_peer : Text → Text → Bool
is_self_peer hostname name = not (is_empty hostname) && (name == hostname)

-- `membershipPre`
unfoldable pub membership_pre : Text → List Text → List Text
unfolding is_self_peer
membership_pre hostname members = filter (λ n. not (is_self_peer hostname n)) members

-- `membershipDelta`
pub record MembershipDelta : Type 0 where
  pub peer : Text
  pub new_groups : List Text

-- The body of the loop of `membershipDeltas`: `some` when the membership flips.
unfoldable pub membership_delta : Text → Text → List Text → PeerRow → Option MembershipDelta
unfolding is_self_peer is_member remove_string
membership_delta hostname group selected p =
    let was = is_member p.groups group in
    let now = is_member selected p.name in
    let with_group : MembershipDelta = record {
      peer = p.name;
      new_groups = p.groups ++ (group ∷ []);
    } in
    let without_group : MembershipDelta = record {
      peer = p.name;
      new_groups = remove_string p.groups group;
    } in
    if p.revoked || is_self_peer hostname p.name
    then none
    else if was
    then (if now then none else some without_group)
    else (if now then some with_group else none)

abbrev pub kept : Option MembershipDelta → List MembershipDelta → List MembershipDelta
kept none ds = ds
kept (some d) ds = d ∷ ds

-- `membershipDeltas`
unfoldable pub membership_deltas : Text → Text → List Text → List PeerRow → List MembershipDelta
unfolding membership_delta
membership_deltas hostname group selected [] = []
membership_deltas hostname group selected (p ∷ ps) =
    kept (membership_delta hostname group selected p) (membership_deltas hostname group selected ps)

-- `markedNames`
unfoldable pub marked_names : List Text → List PeerRow → List Text
unfolding contains
marked_names marks peers = filter (λ n. contains marks n) (map (λ p. p.name) peers)
