-- ===== src/Tui/Start.antt =====
-- internal/tui: the keys that open an overlay (action.go, groups_actions.go, rekey_flow.go,
-- enroll_form.go), and the marks (select.go).
use certhold.Base.{
  Text, Bool, true, false, not, ◌&&◌, ◌||◌, ◌==◌, Option, none, some, List, [], ◌++◌, map, filter,
  contains, is_empty, find?, if◌then◌else◌,
}
use certhold.Tui.{PeerRow, GroupRow, FleetData, Inputs}
use certhold.Tui.Rows.{
  is_reserved_group, selectable_group_names, peer_by_name, is_self_peer, membership_pre,
  marked_names,
}
use certhold.Tui.Form.{toggle, new_enroll_form, new_reenroll_form}
use certhold.Tui.Modal.{
  Modal, confirm, pick, entry, rekey_modal, enroll_form, confirm_revoke, confirm_group_delete,
  confirm_remove, confirm_make_client, pick_peer_groups, pick_group_members, pick_peer_allowed,
  text_create_group, text_rename_group, text_edit_address, new_picker,
}
use certhold.Tui.State.{
  Model, view_peers, view_groups, is_view, batch_none, batch_revoke, batch_edit_groups,
  batch_members, batch_remove, reserved_group, own_row, revoked_row, mutations_enabled, push_modal,
  selected_peer, selected_group, shown_peers,
}

abbrev pub is_revoked_in : FleetData → Text → Bool
is_revoked_in d name = elim (peer_by_name d name) [ none ↦ true | some p ↦ p.revoked ]

-- The marked peers that are there and not revoked.
abbrev pub live : FleetData → List Text → List Text
live d names = filter (λ n. not (is_revoked_in d n)) names

module _ {I : Type 0} (inputs : Inputs I) (lower : Text → Text) where
  abbrev on_peers : Model I → Bool
  on_peers m = mutations_enabled m && is_view m.view view_peers && not m.detail

  abbrev on_groups : Model I → Bool
  on_groups m = mutations_enabled m && is_view m.view view_groups

  abbrev marked : Model I → List Text
  marked m = marked_names m.marks m.data_rows.peers

  abbrev options : Model I → List Text
  options m = selectable_group_names m.data_rows.groups

  abbrev toggled : Option PeerRow → Model I → Model I
  toggled none m = m
  toggled (some p) m = record m { marks = toggle m.marks p.name }

  -- `toggleMark`
  unfoldable pub toggle_mark : Model I → Model I
  unfolding selected_peer
  toggle_mark m = toggled (selected_peer lower m) m

  -- A single peer that is not revoked and passes the test.
  abbrev for_live : Option PeerRow → (PeerRow → Bool) → (PeerRow → Model I) → Model I → Model I
  for_live none test f m = m
  for_live (some p) test f m = if p.revoked || not (test p) then m else f p

  abbrev any_row : PeerRow → Bool
  any_row p = true

  abbrev single : Modal I → Model I → Model I
  single mo m = push_modal mo (record m { batch_kind = batch_none })

  -- `startEditGroups`
  unfoldable pub start_edit_groups : Model I → Model I
  unfolding mutations_enabled selectable_group_names marked_names selected_peer new_picker
  start_edit_groups m =
      if not (on_peers m)
      then m
      else if not (is_empty (marked m))
      then push_modal (pick pick_peer_groups [] (new_picker (options m) []))
          (record m { batch_kind = batch_edit_groups })
      else for_live (selected_peer lower m) any_row
          (λ p. single (pick pick_peer_groups p.name (new_picker (options m) p.groups)) m) m

  -- `startRevoke`; it does not look at the detail pane.
  unfoldable pub start_revoke : Model I → Model I
  unfolding mutations_enabled marked_names selected_peer peer_by_name
  start_revoke m =
      if not (mutations_enabled m && is_view m.view view_peers)
      then m
      else if not (is_empty (marked m))
      then (if is_empty (live m.data_rows (marked m))
          then m
          else push_modal (confirm confirm_revoke []) (record m { batch_kind = batch_revoke }))
      else for_live (selected_peer lower m) any_row (λ p. single (confirm confirm_revoke p.name) m)
          m

  abbrev for_any : Option PeerRow → (PeerRow → Model I) → Model I → Model I
  for_any none f m = m
  for_any (some p) f m = f p

  -- `startRemove`
  unfoldable pub start_remove : Model I → Model I
  unfolding mutations_enabled marked_names selected_peer
  start_remove m =
      if not (on_peers m)
      then m
      else if not (is_empty (marked m))
      then push_modal (confirm confirm_remove []) (record m { batch_kind = batch_remove })
      else for_any (selected_peer lower m) (λ p. single (confirm confirm_remove p.name) m) m

  -- `startEditAddress`
  unfoldable pub start_edit_address : Model I → Model I
  unfolding mutations_enabled selected_peer
  start_edit_address m =
      if not (on_peers m)
      then m
      else for_live (selected_peer lower m) any_row
          (λ p.
            push_modal
              (entry text_edit_address p.name (inputs.set_value (inputs.new_input 255) p.address))
              m)
          m

  -- `startMakeClient`
  unfoldable pub start_make_client : Model I → Model I
  unfolding mutations_enabled selected_peer
  start_make_client m =
      if not (on_peers m)
      then m
      else for_live (selected_peer lower m) (λ p. p.inbound)
          (λ p. single (confirm confirm_make_client p.name) m) m

  -- `startEditAllowed`
  unfoldable pub start_edit_allowed : Model I → Model I
  unfolding mutations_enabled selected_peer selectable_group_names new_picker
  start_edit_allowed m =
      if not (on_peers m)
      then m
      else for_live (selected_peer lower m) any_row
          (λ p. push_modal (pick pick_peer_allowed p.name (new_picker (options m) p.allowed)) m) m

  -- `startCreateGroup`
  unfoldable pub start_create_group : Model I → Model I
  unfolding mutations_enabled
  start_create_group m =
      if not (on_groups m)
      then m
      else push_modal (entry text_create_group [] (inputs.set_value (inputs.new_input 64) [])) m

  -- A group that is not the reserved one; for that the notice stands.
  abbrev for_group : Option GroupRow → (GroupRow → Model I) → Model I → Model I
  for_group none f m = m
  for_group (some g) f m =
      if is_reserved_group g.name then record m { notice = some reserved_group } else f g

  -- `startRenameGroup`
  unfoldable pub start_rename_group : Model I → Model I
  unfolding mutations_enabled selected_group is_reserved_group
  start_rename_group m =
      if not (on_groups m)
      then m
      else for_group (selected_group lower m)
          (λ g.
            push_modal
              (entry text_rename_group g.name (inputs.set_value (inputs.new_input 64) g.name)) m)
          m

  -- `startDeleteGroup`
  unfoldable pub start_delete_group : Model I → Model I
  unfolding mutations_enabled selected_group is_reserved_group
  start_delete_group m =
      if not (on_groups m)
      then m
      else for_group (selected_group lower m)
          (λ g. push_modal (confirm confirm_group_delete g.name) m) m

  -- The peers that the picker of members offers.
  abbrev member_options : Model I → List Text
  member_options m =
      map (λ p. p.name)
        (filter (λ p. not (p.revoked || is_self_peer m.hostname p.name)) m.data_rows.peers)

  -- The marked peers that are checked beside the members.
  abbrev joining : Model I → List Text → List Text
  joining m pre =
      filter (λ n. not (contains pre n || is_self_peer m.hostname n)) (live m.data_rows (marked m))

  abbrev open_members : GroupRow → Model I → Model I
  open_members g m =
      let pre = membership_pre m.hostname g.members in
      if is_empty (marked m)
      then single (pick pick_group_members g.name (new_picker (member_options m) pre)) m
      else push_modal
          (pick pick_group_members g.name (new_picker (member_options m) (pre ++ joining m pre)))
          (record m { batch_kind = batch_members })

  -- `startGroupMembership`
  unfoldable pub start_group_membership : Model I → Model I
  unfolding mutations_enabled selected_group is_reserved_group is_self_peer membership_pre
      marked_names new_picker
  start_group_membership m =
      if not (on_groups m) then m else for_group (selected_group lower m) (λ g. open_members g m) m

  -- `startRekey`
  unfoldable pub start_rekey : Model I → Model I
  unfolding mutations_enabled
  start_rekey m =
      if mutations_enabled m && (is_view m.view view_peers || is_view m.view view_groups)
      then push_modal
          (rekey_modal
            (record { confirm = inputs.new_input 16; rotate = false; on_toggle = false }))
          m
      else m

  -- `startEnroll`
  unfoldable pub start_enroll : Model I → Model I
  unfolding mutations_enabled new_enroll_form selectable_group_names
  start_enroll m =
      if mutations_enabled m && (is_view m.view view_peers || is_view m.view view_groups)
      then push_modal
          (enroll_form (new_enroll_form inputs (options m) (map (λ p. p.name) m.data_rows.peers))) m
      else m

  abbrev reenroll_row : Option PeerRow → Model I → Model I
  reenroll_row none m = m
  reenroll_row (some p) m =
      if is_self_peer m.hostname p.name
      then record m { notice = some own_row }
      else if p.revoked
      then record m { notice = some revoked_row }
      else push_modal (enroll_form (new_reenroll_form inputs (options m) p)) m

  -- `detailPeer`
  unfoldable pub detail_peer : Model I → Option PeerRow
  detail_peer m = find? (λ p. p.name == m.detail_name) (shown_peers lower m)

  -- `startReenroll`
  unfoldable pub start_reenroll : Model I → Model I
  unfolding mutations_enabled detail_peer is_self_peer new_reenroll_form selectable_group_names
  start_reenroll m =
      if mutations_enabled m && is_view m.view view_peers && m.detail
      then reenroll_row (detail_peer m) m
      else m
