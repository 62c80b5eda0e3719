-- ===== src/Tui/Rows/Manager.antt =====
-- internal/tui/manager_group.go: the pickers and the manager principal.
use certhold.Base.{
  ℕ, contains-filter, contains-sort, sort, ap, if◌then◌else◌, Text, Bool, not, ◌&&◌, ◌||◌, ◌==◌,
  ==_iff, List, [], ◌∷◌, any, any-append, contains, ◌≡◌, ◌∙◌, arith,
}
use certhold.Db.{manager_principal}
use certhold.Tui.{GroupRow, FleetData}
use certhold.Tui.Form.{Picker, selected}
use certhold.Tui.Rows.{
  selectable_group_names, with_manager, is_member, keep_manager_group, keep_manager_allowed,
  peer_by_name, member_of, allows,
}

contains-selectable :
    (groups : List GroupRow) (g : Text)
    → contains (selectable_group_names groups) g
      ≡ (not (g == manager_principal) && any (λ r. r.name == g) groups)
unfolding selectable_group_names contains
contains-selectable [] g = ground arith
contains-selectable (r ∷ groups) g = ground (
  arith,
  contains-selectable groups g,
  ==_iff r.name manager_principal,
  ==_iff r.name g,
  ==_iff g manager_principal,
)

contains-selected :
    (p : Picker) (g : Text)
    → contains (selected p) g ≡ (contains p.options g && contains p.checked g)
unfolding selected
contains-selected p g = contains-filter (λ o. contains p.checked o) p.options g

contains-with_manager :
    (chosen : List Text) (had : Bool) (g : Text)
    → contains (with_manager chosen had) g ≡ (contains chosen g || had && (manager_principal == g))
unfolding with_manager is_member contains
contains-with_manager chosen had g =
    ground
      (arith, any-append (λ x. x == g) chosen (manager_principal ∷ []), ==_iff manager_principal g)

abbrev pub offered : List GroupRow → List Text → ℕ → Picker
offered groups checked cursor = record {
  options = sort (selectable_group_names groups);
  checked = checked;
  cursor = cursor;
}

-- Whatever is checked in a picker of the fleet's groups, the groups that a peer is given, and those that it
-- allows, hold the manager principal exactly when the peer already held it; any other group they hold
-- exactly when it is one of the fleet's and is checked.
pub keep_manager_exact :
    (d : FleetData) (peer : Text) (checked : List Text) (cursor : ℕ) (g : Text)
    → let chosen = selected (offered d.groups checked cursor) in
      (contains (keep_manager_group d peer chosen) g ≡ (
        if g == manager_principal
        then member_of (peer_by_name d peer)
        else any (λ r. r.name == g) d.groups && contains checked g))
      × (contains (keep_manager_allowed d peer chosen) g ≡ (
          if g == manager_principal
          then allows (peer_by_name d peer)
          else any (λ r. r.name == g) d.groups && contains checked g))
unfolding keep_manager_group keep_manager_allowed
keep_manager_exact d peer checked cursor g =
    let picker = offered d.groups checked cursor in
    let picked =
      contains-selected picker g
      ∙ ap (λ b. b && contains checked g)
          (contains-sort (selectable_group_names d.groups) g ∙ contains-selectable d.groups g) in
    (
      contains-with_manager (selected picker) (member_of (peer_by_name d peer)) g
          ∙ ground (arith, picked, ==_iff manager_principal g, ==_iff g manager_principal),
      contains-with_manager (selected picker) (allows (peer_by_name d peer)) g
          ∙ ground (arith, picked, ==_iff manager_principal g, ==_iff g manager_principal),
    )
