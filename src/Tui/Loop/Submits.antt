-- ===== src/Tui/Loop/Submits.antt =====
-- internal/tui: an overlay that leaves answers where it has a channel.
use certhold.Base.{ℕ, ◌+◌, trim_space, Text, List, if◌then◌else◌, ◌≡◌, refl, arith}
use certhold.Tui.{Inputs}
use certhold.Tui.Form.{Picker, EnrollForm, selected}
use certhold.Tui.Modal.{
  Modal, confirm, passphrase, host_key, pick, entry, rekey_modal, enroll_form, enroll_result,
  progress, handle, ConfirmKind, confirm_revoke, confirm_group_delete, confirm_remove,
  confirm_make_client, PickKind, pick_peer_groups, pick_group_members, pick_peer_allowed, TextKind,
  text_create_group, text_rename_group, text_edit_address,
}
use certhold.Tui.State.{Model, pop_modal, start_action, mutations_enabled}
use certhold.Tui.Submit.{
  start_batch, launch_batch_revoke, launch_batch_remove, launch_batch_edit_groups,
  launch_batch_members, launch_membership, submit_confirm, submit_pick, submit_text, submit_enroll,
  submit_modal,
}
use certhold.Tui.Update.{closed_modal}
use certhold.Tui.Update.Look.{Untouched}
use certhold.Tui.Loop.Uses.{channel_of, hits, waiting_on, answers_on, uses}

module _ {I : Type 0} (c : ℕ) (m : Model I) where
  pub uses-Untouched : (v : Model I) → Untouched m v → uses c v ≡ uses c m
  unfolding uses
  uses-Untouched v (h, _, _, k, _, _) = rw (h, k)

  pub uses-forget :
      uses c (if mutations_enabled m then record m { forgotten = m.forgotten + 1 } else m)
      ≡ uses c m
  unfolding uses
  uses-forget = ground arith

  uses-launch_batch_revoke : uses c (launch_batch_revoke m).0 ≡ uses c m
  unfolding launch_batch_revoke start_batch start_action uses waiting_on channel_of hits
  uses-launch_batch_revoke = ground arith

  uses-launch_batch_remove : uses c (launch_batch_remove m).0 ≡ uses c m
  unfolding launch_batch_remove start_batch start_action uses waiting_on channel_of hits
  uses-launch_batch_remove = ground arith

  uses-launch_batch_edit_groups :
      (gs : List Text) → uses c (launch_batch_edit_groups gs m).0 ≡ uses c m
  unfolding launch_batch_edit_groups start_batch start_action uses waiting_on channel_of hits
  uses-launch_batch_edit_groups gs = ground arith

  uses-submit_confirm : (k : ConfirmKind) → (t : Text) → uses c (submit_confirm k t m).0 ≡ uses c m
  unfolding submit_confirm start_action uses waiting_on channel_of hits
  uses-submit_confirm confirm_revoke t = ground (arith, uses-launch_batch_revoke)
  uses-submit_confirm confirm_remove t = ground (arith, uses-launch_batch_remove)
  uses-submit_confirm confirm_group_delete t = ground arith
  uses-submit_confirm confirm_make_client t = ground arith

  uses-submit_pick :
      (k : PickKind) → (t : Text) → (p : Picker) → uses c (submit_pick k t p m).0 ≡ uses c m
  unfolding submit_pick launch_batch_members launch_membership start_batch start_action uses
      waiting_on channel_of hits
  uses-submit_pick pick_peer_groups t p = ground (arith, uses-launch_batch_edit_groups (selected p))
  uses-submit_pick pick_group_members t p = ground arith
  uses-submit_pick pick_peer_allowed t p = ground arith

  uses-submit_text : (k : TextKind) → (t n : Text) → uses c (submit_text k t n m).0 ≡ uses c m
  unfolding submit_text start_action uses waiting_on channel_of hits
  uses-submit_text text_create_group t n = ground arith
  uses-submit_text text_rename_group t n = ground arith
  uses-submit_text text_edit_address t n = ground arith

module _ {I : Type 0} (inputs : Inputs I) (lower : Text → Text) (c : ℕ) (m : Model I) where
  uses-submit_enroll :
      (e : EnrollForm I)
      → uses c (pop_modal m) ≡ uses c m
      → uses c (submit_enroll inputs e m).0 ≡ uses c m
  unfolding submit_enroll start_action uses waiting_on channel_of hits
  uses-submit_enroll e h = ground arith

  -- An overlay that is submitted leaves, and answers where it has a channel.
  pub uses-submit_modal :
      (next : Modal I)
      → waiting_on c m.modals ≡ hits c (channel_of next) + waiting_on c (pop_modal m).modals
      → uses c (submit_modal inputs next m).0 ≡ uses c m
  unfolding submit_modal uses waiting_on answers_on channel_of hits start_action trim_space
  uses-submit_modal (confirm k t) h = ground (arith, uses-submit_confirm c (pop_modal m) k t)
  uses-submit_modal (passphrase i d) h = ground arith
  uses-submit_modal (host_key a b d) h = ground arith
  uses-submit_modal (pick k t p) h = ground (arith, uses-submit_pick c (pop_modal m) k t p)
  uses-submit_modal (entry k t i) h =
      ground (arith, uses-submit_text c (pop_modal m) k t (trim_space (inputs.value i)))
  uses-submit_modal (rekey_modal r) h = ground arith
  uses-submit_modal (enroll_form e) h = uses-submit_enroll e (ground arith)
  uses-submit_modal enroll_result h = ground arith
  uses-submit_modal (progress a b) h = ground arith

  -- An overlay that is closed, likewise.
  pub uses-closed_modal :
      (next : Modal I)
      → uses c (closed_modal inputs lower next m).0 ≡ hits c (channel_of next) + uses c m
  unfolding uses answers_on channel_of hits
  uses-closed_modal (passphrase i d) = ground arith
  uses-closed_modal (host_key a b d) = ground arith
  uses-closed_modal (confirm k t) = ground arith
  uses-closed_modal (pick k t p) = ground arith
  uses-closed_modal (entry k t i) = ground arith
  uses-closed_modal (rekey_modal r) = ground arith
  uses-closed_modal (enroll_form e) = ground arith
  uses-closed_modal enroll_result = ground arith
  uses-closed_modal (progress a b) = ground arith

  pub channel_of-handle :
      (key : Text) → (top : Modal I) → channel_of (handle inputs key top).0 ≡ channel_of top
  unfolding handle channel_of
  channel_of-handle key (passphrase i d) = refl
  channel_of-handle key (host_key a b d) = refl
  channel_of-handle key (confirm k t) = refl
  channel_of-handle key (pick k t p) = refl
  channel_of-handle key (entry k t i) = refl
  channel_of-handle key (rekey_modal r) = refl
  channel_of-handle key (enroll_form e) = refl
  channel_of-handle key enroll_result = refl
  channel_of-handle key (progress a b) = refl
