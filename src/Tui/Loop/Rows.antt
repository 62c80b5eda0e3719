-- ===== src/Tui/Loop/Rows.antt =====
-- internal/tui: what overlays and their answers leave alone.
use certhold.Base.{Text, Option, none, some, List, ◌≡◌, refl, arith}
use certhold.Tui.{Inputs}
use certhold.Tui.Form.{Picker, ModalResult, modal_keep, modal_close, modal_submit}
use certhold.Tui.Modal.{
  Modal, confirm, passphrase, host_key, enroll_result, progress, pick, entry, rekey_modal,
  enroll_form, ConfirmKind, confirm_revoke, confirm_group_delete, confirm_remove,
  confirm_make_client, PickKind, pick_peer_groups, pick_group_members, pick_peer_allowed, TextKind,
  text_create_group, text_rename_group, text_edit_address,
}
use certhold.Tui.State.{Model, pop_modal, start_action}
use certhold.Tui.Start.{
  start_edit_groups, start_revoke, start_remove, start_edit_address, start_make_client,
  start_edit_allowed, start_create_group, start_rename_group, start_delete_group,
  start_group_membership, start_rekey, start_enroll, start_reenroll,
}
use certhold.Tui.Submit.{
  start_batch, launch_batch_revoke, launch_batch_remove, launch_batch_edit_groups,
  launch_batch_members, launch_membership, submit_confirm, submit_pick, submit_text, submit_enroll,
  submit_modal,
}
use certhold.Tui.Update.{open_key, closed_modal, handled}
use certhold.Tui.Messages.{ActionError, done_at, retry, settle_action}

-- The rows, the filters and the selections are the same.
abbrev pub SameRows : {I : Type 0} → Model I → Model I → Type 0
SameRows m v =
    (v.data_rows ≡ m.data_rows)
    × (v.filters ≡ m.filters)
    × (v.peer_idx ≡ m.peer_idx)
    × (v.group_idx ≡ m.group_idx)
    × (v.net_idx ≡ m.net_idx)

module _ {I : Type 0} (inputs : Inputs I) (lower : Text → Text) (m : Model I) where
  SameRows-start_edit_groups : SameRows m (start_edit_groups inputs lower m)
  unfolding start_edit_groups
  SameRows-start_edit_groups = ground arith

  SameRows-start_revoke : SameRows m (start_revoke inputs lower m)
  unfolding start_revoke
  SameRows-start_revoke = ground arith

  SameRows-start_remove : SameRows m (start_remove inputs lower m)
  unfolding start_remove
  SameRows-start_remove = ground arith

  SameRows-start_edit_address : SameRows m (start_edit_address inputs lower m)
  unfolding start_edit_address
  SameRows-start_edit_address = ground arith

  SameRows-start_make_client : SameRows m (start_make_client inputs lower m)
  unfolding start_make_client
  SameRows-start_make_client = ground arith

  SameRows-start_edit_allowed : SameRows m (start_edit_allowed inputs lower m)
  unfolding start_edit_allowed
  SameRows-start_edit_allowed = ground arith

  SameRows-start_create_group : SameRows m (start_create_group inputs lower m)
  unfolding start_create_group
  SameRows-start_create_group = ground arith

  SameRows-start_rename_group : SameRows m (start_rename_group inputs lower m)
  unfolding start_rename_group
  SameRows-start_rename_group = ground arith

  SameRows-start_delete_group : SameRows m (start_delete_group inputs lower m)
  unfolding start_delete_group
  SameRows-start_delete_group = ground arith

  SameRows-start_group_membership : SameRows m (start_group_membership inputs lower m)
  unfolding start_group_membership
  SameRows-start_group_membership = ground arith

  SameRows-start_rekey : SameRows m (start_rekey inputs lower m)
  unfolding start_rekey
  SameRows-start_rekey = ground arith

  SameRows-start_enroll : SameRows m (start_enroll inputs lower m)
  unfolding start_enroll
  SameRows-start_enroll = ground arith

  SameRows-start_reenroll : SameRows m (start_reenroll inputs lower m)
  unfolding start_reenroll
  SameRows-start_reenroll = ground arith

  pub SameRows-open_key : (key : Text) → SameRows m (open_key inputs lower key m)
  unfolding open_key
  SameRows-open_key key = ground (
    arith, SameRows-start_edit_groups, SameRows-start_revoke, SameRows-start_remove,
    SameRows-start_edit_address, SameRows-start_make_client, SameRows-start_edit_allowed,
    SameRows-start_create_group, SameRows-start_rename_group, SameRows-start_delete_group,
    SameRows-start_group_membership, SameRows-start_rekey, SameRows-start_enroll,
    SameRows-start_reenroll,
  )

module _ {I : Type 0} (m : Model I) where
  SameRows-submit_confirm : (k : ConfirmKind) → (t : Text) → SameRows m (submit_confirm k t m).0
  unfolding submit_confirm launch_batch_revoke launch_batch_remove start_batch start_action
  SameRows-submit_confirm confirm_revoke t = ground arith
  SameRows-submit_confirm confirm_remove t = ground arith
  SameRows-submit_confirm confirm_group_delete t = (refl, refl, refl, refl, refl)
  SameRows-submit_confirm confirm_make_client t = (refl, refl, refl, refl, refl)

  SameRows-submit_pick :
      (k : PickKind) → (t : Text) → (p : Picker) → SameRows m (submit_pick k t p m).0
  unfolding submit_pick launch_batch_edit_groups launch_batch_members launch_membership start_batch
      start_action
  SameRows-submit_pick pick_peer_groups t p = ground arith
  SameRows-submit_pick pick_group_members t p = ground arith
  SameRows-submit_pick pick_peer_allowed t p = (refl, refl, refl, refl, refl)

  SameRows-submit_text : (k : TextKind) → (t n : Text) → SameRows m (submit_text k t n m).0
  unfolding submit_text start_action
  SameRows-submit_text text_create_group t n = ground arith
  SameRows-submit_text text_rename_group t n = ground arith
  SameRows-submit_text text_edit_address t n = (refl, refl, refl, refl, refl)

module _ {I : Type 0} (inputs : Inputs I) (lower : Text → Text) (m : Model I) where
  SameRows-submit_modal : (next : Modal I) → SameRows m (submit_modal inputs next m).0
  unfolding submit_modal submit_enroll start_action
  SameRows-submit_modal (confirm k t) = SameRows-submit_confirm (pop_modal m) k t
  SameRows-submit_modal (passphrase i d) = (refl, refl, refl, refl, refl)
  SameRows-submit_modal (host_key a b d) = (refl, refl, refl, refl, refl)
  SameRows-submit_modal (pick k t p) = SameRows-submit_pick (pop_modal m) k t p
  SameRows-submit_modal (entry k t i) = SameRows-submit_text (pop_modal m) k t _
  SameRows-submit_modal (rekey_modal r) = (refl, refl, refl, refl, refl)
  SameRows-submit_modal (enroll_form e) = ground arith
  SameRows-submit_modal enroll_result = (refl, refl, refl, refl, refl)
  SameRows-submit_modal (progress a b) = (refl, refl, refl, refl, refl)

  SameRows-closed_modal : (next : Modal I) → SameRows m (closed_modal inputs lower next m).0
  SameRows-closed_modal (passphrase i d) = (refl, refl, refl, refl, refl)
  SameRows-closed_modal (host_key a b d) = (refl, refl, refl, refl, refl)
  SameRows-closed_modal (confirm k t) = (refl, refl, refl, refl, refl)
  SameRows-closed_modal (pick k t p) = (refl, refl, refl, refl, refl)
  SameRows-closed_modal (entry k t i) = (refl, refl, refl, refl, refl)
  SameRows-closed_modal (rekey_modal r) = (refl, refl, refl, refl, refl)
  SameRows-closed_modal (enroll_form e) = (refl, refl, refl, refl, refl)
  SameRows-closed_modal enroll_result = (refl, refl, refl, refl, refl)
  SameRows-closed_modal (progress a b) = (refl, refl, refl, refl, refl)

module _ {I : Type 0} (inputs : Inputs I) (lower : Text → Text) where
  pub SameRows-handled :
      (r : ModalResult)
      → (next : Modal I) → (m : Model I) → SameRows m (handled inputs lower (next, r) m).0
  SameRows-handled modal_keep next m = (refl, refl, refl, refl, refl)
  SameRows-handled modal_close next m = SameRows-closed_modal inputs lower (pop_modal m) next
  SameRows-handled modal_submit next m = SameRows-submit_modal inputs lower m next

  pub SameRows-done_at :
      (r : Option (List (Modal I) × List (Modal I)))
      → (e : Option ActionError) → (m : Model I) → SameRows m (done_at inputs lower r e m).0
  unfolding retry settle_action start_action
  SameRows-done_at none e m = (refl, refl, refl, refl, refl)
  SameRows-done_at (some (dropped, below)) e m = ground arith
