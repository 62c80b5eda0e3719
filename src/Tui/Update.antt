-- ===== src/Tui/Update.antt =====
-- internal/tui/model.go and action.go: `Update` on keys.
pub mod Look
pub mod ReadOnly
use certhold.Base.{
  ℕ, ◌+◌, ◌-◌, Text, text, Bool, true, false, not, ◌&&◌, ◌||◌, ◌==◌, Option, none, some, List, [],
  ◌∷◌, ◌++◌, filter, contains, is_empty, length, nat_eq, ltb, if◌then◌else◌,
}
use certhold.Tui.{PeerRow, FleetData, Inputs}
use certhold.Tui.Rows.{clamp}
use certhold.Tui.Form.{ModalResult, modal_keep, modal_close, modal_submit}
use certhold.Tui.Modal.{
  Modal, confirm, passphrase, host_key, pick, entry, rekey_modal, enroll_form, enroll_result,
  progress, handle,
}
use certhold.Tui.Start.{
  toggle_mark, start_edit_groups, start_revoke, start_remove, start_edit_address, start_make_client,
  start_edit_allowed, start_create_group, start_rename_group, start_delete_group,
  start_group_membership, start_rekey, start_enroll, start_reenroll,
}
use certhold.Tui.State.{
  Model, View, view_peers, view_groups, view_status, view_net, is_view, set_filter, batch_none,
  Action, Reply, passphrase_canceled, host_key_refused, host_key_rejected, Cmd, no_cmd, quit,
  reload, health_check, sweep, wait_host_key, wait_event, reload_and_health, mutations_enabled,
  push_modal, pop_modal, replace_top, start_action, shown_peers, shown_groups, selected_peer,
}
use certhold.Tui.Submit.{send, submit_modal}
use certhold.Tui.Browse.{filter_key, look_key}

module _ {I : Type 0} (inputs : Inputs I) (lower : Text → Text) where
  -- The keys that open an overlay.
  unfoldable pub open_key : Text → Model I → Model I
  unfolding start_edit_groups start_revoke start_remove start_edit_address start_make_client
      start_edit_allowed start_create_group start_rename_group start_delete_group
      start_group_membership start_rekey start_enroll start_reenroll
  open_key key m =
      if key == text "K"
      then start_rekey inputs lower m
      else if key == text "u"
      then start_edit_groups inputs lower m
      else if key == text "x"
      then start_revoke inputs lower m
      else if key == text "X"
      then start_remove inputs lower m
      else if key == text "a"
      then start_edit_address inputs lower m
      else if key == text "C"
      then start_make_client inputs lower m
      else if key == text "i"
      then start_edit_allowed inputs lower m
      else if key == text "n"
      then start_create_group inputs lower m
      else if key == text "R"
      then start_rename_group inputs lower m
      else if key == text "D"
      then start_delete_group inputs lower m
      else if key == text "m"
      then start_group_membership inputs lower m
      else if key == text "e"
      then start_enroll inputs lower m
      else if key == text "E"
      then start_reenroll inputs lower m
      else m

  abbrev pub looked : Option (Model I × Cmd) → Model I → Model I × Cmd
  looked (some r) opened = r
  looked none opened = (opened, no_cmd)

  -- `handleKey`
  unfoldable pub handle_key : Text → Model I → Model I × Cmd
  unfolding filter_key look_key open_key
  handle_key key m =
      if m.filtering
      then filter_key inputs lower key m
      else looked (look_key inputs lower key m) (open_key key m)

  -- An overlay that is closed answers the channel that waits for it.
  abbrev pub closed_modal : Modal I → Model I → Model I × Cmd
  closed_modal (passphrase i channel) m = (send channel passphrase_canceled m, no_cmd)
  closed_modal (host_key host print channel) m = (send channel host_key_refused m, wait_host_key)
  closed_modal _ m = (m, no_cmd)

  abbrev pub handled : Modal I × ModalResult → Model I → Model I × Cmd
  handled (next, modal_keep) m = (replace_top next m, no_cmd)
  handled (next, modal_close) m = closed_modal next (pop_modal m)
  handled (next, modal_submit) m = submit_modal inputs next m

  -- `handleModalKey`; the keys that scroll a transcript change nothing here.
  abbrev pub modal_key : List (Modal I) → Text → Model I → Model I × Cmd
  modal_key [] key m = handle_key key m
  modal_key (top ∷ below) key m =
      if key == text "ctrl+c" then (m, quit) else handled (handle inputs key top) m

  -- `Update` on a key.
  unfoldable pub update_key : Text → Model I → Model I × Cmd
  unfolding handle_key handle submit_modal
  update_key key m = modal_key m.modals key (record m { notice = none })

  -- `Update` on one key after another.
  abbrev pub press_all : List Text → Model I → Model I
  press_all [] m = m
  press_all (key ∷ keys) m = press_all keys (update_key key m).0
