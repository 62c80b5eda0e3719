-- ===== src/Tui/Loop/Guarded.antt =====
-- internal/tui: the overlays and actions that spare the reserved group.
use certhold.Base.{Bool, true, not, ◌&&◌, Option, some, List, [], ◌∷◌, ◌≡◌}
use certhold.Tui.Modal.{
  Modal, confirm, pick, entry, confirm_group_delete, pick_group_members, text_rename_group,
}
use certhold.Tui.Rows.{is_reserved_group}
use certhold.Tui.State.{Action, run_group_delete, run_group_rename, Model}

-- A deletion or a renaming is of a group that is not reserved.
unfoldable pub modal_guarded : {I : Type 0} → Modal I → Bool
unfolding is_reserved_group
modal_guarded (confirm confirm_group_delete t) = not (is_reserved_group t)
modal_guarded (entry text_rename_group t i) = not (is_reserved_group t)
modal_guarded (pick pick_group_members t p) = not (is_reserved_group t)
modal_guarded _ = true

unfoldable pub modals_guarded : {I : Type 0} → List (Modal I) → Bool
unfolding modal_guarded
modals_guarded [] = true
modals_guarded (mo ∷ mos) = modal_guarded mo && modals_guarded mos

unfoldable pub action_guarded : Option Action → Bool
unfolding is_reserved_group
action_guarded (some (run_group_delete t)) = not (is_reserved_group t)
action_guarded (some (run_group_rename t n)) = not (is_reserved_group t)
action_guarded _ = true

-- No overlay offers to delete or rename the reserved group, or to edit its members, and the last
-- action did not delete or rename it.
abbrev pub Guarded : {I : Type 0} → Model I → Type 0
Guarded m = (modals_guarded m.modals ≡ true) × (action_guarded m.last_run ≡ true)
