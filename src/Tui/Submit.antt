-- ===== src/Tui/Submit.antt =====
-- internal/tui: what a submitted overlay starts (action.go, groups_actions.go, rekey_flow.go,
-- enroll_form.go), and the launchers of batches (select.go).
use certhold.Base.{
  ℕ, Text, text, Bool, true, false, ◌&&◌, ◌||◌, ◌==◌, none, some, List, [], ◌∷◌, map, is_empty,
  nat_eq, trim_space, if◌then◌else◌,
}
use certhold.Ops.Enroll.{EnrollSpec}
use certhold.Tui.{FleetData, Inputs}
use certhold.Tui.Rows.{
  keep_manager_group, keep_manager_allowed, membership_deltas, marked_names, MembershipDelta,
}
use certhold.Tui.Form.{Picker, EnrollForm, selected, name_is_valid}
use certhold.Tui.Modal.{
  Modal, confirm, passphrase, host_key, pick, entry, rekey_modal, enroll_form, enroll_result,
  progress, ConfirmKind, confirm_revoke, confirm_group_delete, confirm_remove, confirm_make_client,
  PickKind, pick_peer_groups, pick_group_members, pick_peer_allowed, TextKind, text_create_group,
  text_rename_group, text_edit_address,
}
use certhold.Tui.Start.{live}
use certhold.Tui.State.{
  Model, BatchKind, batch_none, batch_revoke, batch_edit_groups, batch_members, batch_remove,
  Action, run_update_peer, run_revoke_peer, run_remove_peer, run_make_client, run_group_create,
  run_group_delete, run_group_rename, run_set_peer_allowed_groups, run_set_peer_address,
  run_rekey_fleet, run_mint_enroll, run_update_members, run_revokes, run_removes, run_updates,
  Reply, passphrase_given, host_key_accepted, Cmd, no_cmd, wait_passphrase, wait_host_key,
  pop_modal, start_action,
}

abbrev pub is_batch : BatchKind → BatchKind → Bool
is_batch batch_none batch_none = true
is_batch batch_revoke batch_revoke = true
is_batch batch_edit_groups batch_edit_groups = true
is_batch batch_members batch_members = true
is_batch batch_remove batch_remove = true
is_batch _ _ = false

-- The slashes and line breaks at the end.
unfoldable pub trim_slashes : Text → Text
trim_slashes [] = []
trim_slashes (c ∷ cs) =
    let rest = trim_slashes cs in
    if (nat_eq c 10 || nat_eq c b'/') && is_empty rest then [] else c ∷ rest

-- `enrollBaseURL`
unfoldable pub enroll_base_url : Text → Text
unfolding trim_slashes trim_space
enroll_base_url raw =
    let u = trim_slashes (trim_space raw) in
    if is_empty u then text "https://certhold.home.lan" else u

-- The chosen groups for each peer; a peer that holds the manager principal keeps it.
abbrev pub assigned : FleetData → List Text → List Text → List MembershipDelta
assigned d groups names =
    map (λ n. record { peer = n; new_groups = keep_manager_group d n groups }) names

module _ {I : Type 0} where
  -- `startBatch`: the holder of the outcome is fresh.
  unfoldable pub start_batch : Action → Model I → Model I × Cmd
  unfolding start_action
  start_batch a m = start_action a (record m { outcome = some none })

  -- A launcher with nothing to do starts nothing.
  abbrev pub unless_empty : {A : Type 0} → List A → (List A → Action) → Model I → Model I × Cmd
  unless_empty xs f m = if is_empty xs then (m, no_cmd) else start_batch (f xs) m

  abbrev all_marked : Model I → List Text
  all_marked m = marked_names m.marks m.data_rows.peers

  -- `launchBatchRevoke`, `launchBatchRemove`
  unfoldable pub launch_batch_revoke : Model I → Model I × Cmd
  unfolding start_batch marked_names
  launch_batch_revoke m = unless_empty (live m.data_rows (all_marked m)) run_revokes m

  unfoldable pub launch_batch_remove : Model I → Model I × Cmd
  unfolding start_batch marked_names
  launch_batch_remove m = unless_empty (all_marked m) run_removes m

  -- `launchBatchEditGroups`
  unfoldable pub launch_batch_edit_groups : List Text → Model I → Model I × Cmd
  unfolding start_batch marked_names keep_manager_group
  launch_batch_edit_groups groups m =
      unless_empty (assigned m.data_rows groups (live m.data_rows (all_marked m))) run_updates m

  abbrev deltas_of : Text → Picker → Model I → List MembershipDelta
  deltas_of group p m = membership_deltas m.hostname group (selected p) m.data_rows.peers

  -- `launchBatchMembers`
  unfoldable pub launch_batch_members : Text → Picker → Model I → Model I × Cmd
  unfolding start_batch membership_deltas selected
  launch_batch_members group p m = unless_empty (deltas_of group p m) run_updates m

  -- `launchMembership`
  unfoldable pub launch_membership : Text → Picker → Model I → Model I × Cmd
  unfolding start_action membership_deltas selected
  launch_membership group p m =
      let ds = deltas_of group p m in
      if is_empty ds then (m, no_cmd) else start_action (run_update_members ds) m

  -- The confirmations of `submitModal`.
  unfoldable pub submit_confirm : ConfirmKind → Text → Model I → Model I × Cmd
  unfolding start_action launch_batch_revoke launch_batch_remove
  submit_confirm confirm_group_delete subject m = start_action (run_group_delete subject) m
  submit_confirm confirm_remove subject m =
      if is_batch m.batch_kind batch_remove
      then launch_batch_remove m
      else start_action (run_remove_peer subject) m
  submit_confirm confirm_make_client subject m = start_action (run_make_client subject) m
  submit_confirm confirm_revoke subject m =
      if is_batch m.batch_kind batch_revoke
      then launch_batch_revoke m
      else start_action (run_revoke_peer subject) m

  -- The pickers of `submitModal`.
  unfoldable pub submit_pick : PickKind → Text → Picker → Model I → Model I × Cmd
  unfolding start_action launch_batch_members launch_membership launch_batch_edit_groups selected
      keep_manager_group keep_manager_allowed
  submit_pick pick_group_members subject p m =
      if is_batch m.batch_kind batch_members
      then launch_batch_members subject p m
      else launch_membership subject p m
  submit_pick pick_peer_allowed subject p m =
      start_action
        (run_set_peer_allowed_groups subject
          (keep_manager_allowed m.data_rows subject (selected p)))
        m
  submit_pick pick_peer_groups subject p m =
      if is_batch m.batch_kind batch_edit_groups
      then launch_batch_edit_groups (selected p) m
      else start_action
          (run_update_peer subject (keep_manager_group m.data_rows subject (selected p))) m

  -- `submitText`
  unfoldable pub submit_text : TextKind → Text → Text → Model I → Model I × Cmd
  unfolding start_action
  submit_text text_create_group subject name m =
      if is_empty name then (m, no_cmd) else start_action (run_group_create name) m
  submit_text text_rename_group subject name m =
      if is_empty name || name == subject
      then (m, no_cmd)
      else start_action (run_group_rename subject name) m
  submit_text text_edit_address subject name m = start_action (run_set_peer_address subject name) m

  -- What is sent on a reply channel.
  abbrev pub send : ℕ → Reply → Model I → Model I
  send channel r m = record m { replies = (channel, r) ∷ m.replies }

module _ {I : Type 0} (inputs : Inputs I) where
  abbrev spec_of : EnrollForm I → Model I → EnrollSpec
  spec_of e m = record {
    name = trim_space (inputs.value e.name);
    groups = selected e.groups;
    allowed = selected e.allowed;
    user = trim_space (inputs.value e.user);
    address = trim_space (inputs.value e.address);
    client = e.client;
    client_set = false;
    allowed_set = false;
    base_url = enroll_base_url m.data_rows.base_url;
  }

  -- The specification that the form gives; a re-enroll keeps the manager principal where it stood.
  unfoldable pub enroll_spec : EnrollForm I → Model I → EnrollSpec
  unfolding selected trim_space enroll_base_url keep_manager_group keep_manager_allowed
  enroll_spec e m =
      let spec = spec_of e m in
      if e.reenroll
      then record spec {
        name = e.fixed_name;
        groups = keep_manager_group m.data_rows e.fixed_name spec.groups;
        allowed = keep_manager_allowed m.data_rows e.fixed_name spec.allowed;
        client_set = true;
        allowed_set = true;
      }
      else spec

  -- `submitEnroll`
  unfoldable pub submit_enroll : EnrollForm I → Model I → Model I × Cmd
  unfolding name_is_valid enroll_spec start_action
  submit_enroll e m =
      if name_is_valid inputs e
      then start_action (run_mint_enroll (enroll_spec e m))
          (record (pop_modal m) { enroll_pending = true; enroll_result = false })
      else (m, no_cmd)

  -- `submitModal`
  unfoldable pub submit_modal : Modal I → Model I → Model I × Cmd
  unfolding submit_confirm submit_pick submit_text submit_enroll start_action trim_space
  submit_modal (confirm k subject) m = submit_confirm k subject (pop_modal m)
  submit_modal (pick k subject p) m = submit_pick k subject p (pop_modal m)
  submit_modal (entry k subject i) m =
      submit_text k subject (trim_space (inputs.value i)) (pop_modal m)
  submit_modal (passphrase i channel) m =
      (send channel (passphrase_given (inputs.value i)) (pop_modal m), wait_passphrase)
  submit_modal (host_key host print channel) m =
      (send channel host_key_accepted (pop_modal m), wait_host_key)
  submit_modal (rekey_modal r) m = start_action (run_rekey_fleet r.rotate) (pop_modal m)
  submit_modal (enroll_form e) m = submit_enroll e m
  submit_modal enroll_result m = (pop_modal m, no_cmd)
  submit_modal (progress done failed) m = (m, no_cmd)
