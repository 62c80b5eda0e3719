-- ===== src/Tui/Loop/Sends.antt =====
-- internal/tui: what sends nothing on a reply channel.
use certhold.Base.{
  ◌+◌, Text, Bool, true, false, Option, none, some, if◌then◌else◌, ◌≡◌, refl, arith,
}
use certhold.Tui.{Inputs}
use certhold.Tui.Form.{Picker, EnrollForm, ModalResult, modal_keep, modal_close, modal_submit}
use certhold.Tui.Modal.{
  pick, entry, rekey_modal, enroll_form, RekeyForm, ConfirmKind, confirm_revoke,
  confirm_group_delete, confirm_remove, confirm_make_client, PickKind, pick_peer_groups,
  pick_group_members, pick_peer_allowed, TextKind, text_create_group, text_rename_group,
  text_edit_address,
}
use certhold.Tui.State.{Model, Cmd, pop_modal, start_action}
use certhold.Tui.Start.{
  start_edit_groups, start_revoke, start_remove, start_edit_address, start_make_client,
  start_edit_allowed, start_create_group, start_rename_group, start_delete_group,
  start_group_membership, start_rekey, start_enroll, start_reenroll,
}
use certhold.Tui.Submit.{
  start_batch, launch_batch_revoke, launch_batch_remove, launch_batch_edit_groups,
  launch_batch_members, launch_membership, submit_confirm, submit_pick, submit_text, submit_enroll,
  submit_modal,
}
use certhold.Tui.Update.{open_key, looked, handled}
use certhold.Tui.Update.Look.{KeptIf}

module _ {I : Type 0} (inputs : Inputs I) (lower : Text → Text) (m : Model I) where
  replies-start_edit_groups : (start_edit_groups inputs lower m).replies ≡ m.replies
  unfolding start_edit_groups
  replies-start_edit_groups = ground arith

  replies-start_revoke : (start_revoke inputs lower m).replies ≡ m.replies
  unfolding start_revoke
  replies-start_revoke = ground arith

  replies-start_remove : (start_remove inputs lower m).replies ≡ m.replies
  unfolding start_remove
  replies-start_remove = ground arith

  replies-start_edit_address : (start_edit_address inputs lower m).replies ≡ m.replies
  unfolding start_edit_address
  replies-start_edit_address = ground arith

  replies-start_make_client : (start_make_client inputs lower m).replies ≡ m.replies
  unfolding start_make_client
  replies-start_make_client = ground arith

  replies-start_edit_allowed : (start_edit_allowed inputs lower m).replies ≡ m.replies
  unfolding start_edit_allowed
  replies-start_edit_allowed = ground arith

  replies-start_create_group : (start_create_group inputs lower m).replies ≡ m.replies
  unfolding start_create_group
  replies-start_create_group = ground arith

  replies-start_rename_group : (start_rename_group inputs lower m).replies ≡ m.replies
  unfolding start_rename_group
  replies-start_rename_group = ground arith

  replies-start_delete_group : (start_delete_group inputs lower m).replies ≡ m.replies
  unfolding start_delete_group
  replies-start_delete_group = ground arith

  replies-start_group_membership : (start_group_membership inputs lower m).replies ≡ m.replies
  unfolding start_group_membership
  replies-start_group_membership = ground arith

  replies-start_rekey : (start_rekey inputs lower m).replies ≡ m.replies
  unfolding start_rekey
  replies-start_rekey = ground arith

  replies-start_enroll : (start_enroll inputs lower m).replies ≡ m.replies
  unfolding start_enroll
  replies-start_enroll = ground arith

  replies-start_reenroll : (start_reenroll inputs lower m).replies ≡ m.replies
  unfolding start_reenroll
  replies-start_reenroll = ground arith

  pub replies-open_key : (key : Text) → (open_key inputs lower key m).replies ≡ m.replies
  unfolding open_key
  replies-open_key key = ground (
    arith, replies-start_edit_groups, replies-start_revoke, replies-start_remove,
    replies-start_edit_address, replies-start_make_client, replies-start_edit_allowed,
    replies-start_create_group, replies-start_rename_group, replies-start_delete_group,
    replies-start_group_membership, replies-start_rekey, replies-start_enroll,
    replies-start_reenroll,
  )

  pub replies-submit_confirm :
      (k : ConfirmKind) → (t : Text) → (submit_confirm k t m).0.replies ≡ m.replies
  unfolding submit_confirm launch_batch_revoke launch_batch_remove start_batch start_action
  replies-submit_confirm confirm_revoke t = ground arith
  replies-submit_confirm confirm_remove t = ground arith
  replies-submit_confirm confirm_group_delete t = refl
  replies-submit_confirm confirm_make_client t = refl

  replies-submit_pick :
      (k : PickKind) → (t : Text) → (p : Picker) → (submit_pick k t p m).0.replies ≡ m.replies
  unfolding submit_pick launch_batch_edit_groups launch_batch_members launch_membership start_batch
      start_action
  replies-submit_pick pick_peer_groups t p = ground arith
  replies-submit_pick pick_group_members t p = ground arith
  replies-submit_pick pick_peer_allowed t p = refl

  replies-submit_text : (k : TextKind) → (t n : Text) → (submit_text k t n m).0.replies ≡ m.replies
  unfolding submit_text start_action
  replies-submit_text text_create_group t n = ground arith
  replies-submit_text text_rename_group t n = ground arith
  replies-submit_text text_edit_address t n = refl

module _ {I : Type 0} (inputs : Inputs I) (lower : Text → Text) (m : Model I) where
  -- An overlay with no channel sends nothing, whatever it says of itself.
  pub replies-pick :
      (r : ModalResult)
      → (k : PickKind) → (t : Text) → (p : Picker)
      → (handled inputs lower (pick k t p, r) m).0.replies ≡ m.replies
  unfolding submit_modal
  replies-pick modal_keep k t p = refl
  replies-pick modal_close k t p = refl
  replies-pick modal_submit k t p = replies-submit_pick inputs lower (pop_modal m) k t p

  pub replies-entry :
      (r : ModalResult)
      → (k : TextKind) → (t : Text) → (i : I)
      → (handled inputs lower (entry k t i, r) m).0.replies ≡ m.replies
  unfolding submit_modal
  replies-entry modal_keep k t i = refl
  replies-entry modal_close k t i = refl
  replies-entry modal_submit k t i = replies-submit_text inputs lower (pop_modal m) k t _

  pub replies-rekey_modal :
      (r : ModalResult)
      → (f : RekeyForm I) → (handled inputs lower (rekey_modal f, r) m).0.replies ≡ m.replies
  unfolding submit_modal start_action
  replies-rekey_modal modal_keep f = refl
  replies-rekey_modal modal_close f = refl
  replies-rekey_modal modal_submit f = refl

  pub replies-enroll_form :
      (r : ModalResult)
      → (e : EnrollForm I) → (handled inputs lower (enroll_form e, r) m).0.replies ≡ m.replies
  unfolding submit_modal submit_enroll start_action
  replies-enroll_form modal_keep e = refl
  replies-enroll_form modal_close e = refl
  replies-enroll_form modal_submit e = ground arith

  pub if_same :
      (b : Bool) → (if b then record m { forgotten = m.forgotten + 1 } else m).replies ≡ m.replies
  if_same true = refl
  if_same false = refl

  pub replies-looked :
      (r : Option (Model I × Cmd))
      → (o : Model I) → o.replies ≡ m.replies
      → KeptIf (λ v. v.replies ≡ m.replies) r
      → (looked inputs lower r o).0.replies ≡ m.replies
  unfolding KeptIf
  replies-looked none o h k = h
  replies-looked (some v) o h k = k
