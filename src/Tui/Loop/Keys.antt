-- ===== src/Tui/Loop/Keys.antt =====
-- internal/tui/model.go: the keys spare the reserved group.
use certhold.Base.{Text, true, Option, none, some, List, [], ◌∷◌, ◌≡◌, refl, arith}
use certhold.Tui.{Inputs}
use certhold.Tui.Form.{Picker, ModalResult, modal_keep, modal_close, modal_submit}
use certhold.Tui.Modal.{
  Modal, confirm, passphrase, host_key, pick, entry, rekey_modal, enroll_form, enroll_result,
  progress, handle, ConfirmKind, confirm_revoke, confirm_group_delete, confirm_remove,
  confirm_make_client, PickKind, pick_peer_groups, pick_group_members, pick_peer_allowed, TextKind,
  text_create_group, text_rename_group, text_edit_address,
}
use certhold.Tui.State.{Action, Model, Cmd, pop_modal, start_action}
use certhold.Tui.Submit.{
  start_batch, launch_batch_revoke, launch_batch_remove, launch_batch_edit_groups,
  launch_batch_members, launch_membership, submit_confirm, submit_pick, submit_text, submit_enroll,
  submit_modal,
}
use certhold.Tui.Browse.{filter_key, look_key}
use certhold.Tui.Update.{update_key, handle_key, open_key, looked, closed_modal, handled, modal_key}
use certhold.Tui.Update.Look.{Untouched, KeptIf, KeptIf-look, Untouched-filter}
use certhold.Tui.Loop.Guarded.{modal_guarded, modals_guarded, action_guarded, Guarded}
use certhold.Tui.Loop.Spares.{Guarded-open_key}

module _ {I : Type 0} (m : Model I) (h : Guarded m) where
  pub Guarded-start_action :
      (a : Action) → action_guarded (some a) ≡ true → Guarded (start_action a m).0
  unfolding start_action modals_guarded modal_guarded
  Guarded-start_action a k = (h.0, k)

  Guarded-batch_revoke : Guarded (launch_batch_revoke m).0
  unfolding launch_batch_revoke start_batch start_action modals_guarded modal_guarded action_guarded
  Guarded-batch_revoke = ground arith

  Guarded-batch_remove : Guarded (launch_batch_remove m).0
  unfolding launch_batch_remove start_batch start_action modals_guarded modal_guarded action_guarded
  Guarded-batch_remove = ground arith

  Guarded-submit_confirm :
      (k : ConfirmKind)
      → (t : Text) → modal_guarded {I = I} (confirm k t) ≡ true
      → Guarded (submit_confirm k t m).0
  unfolding submit_confirm modal_guarded action_guarded start_action modals_guarded
  Guarded-submit_confirm confirm_revoke t k = ground (arith, Guarded-batch_revoke)
  Guarded-submit_confirm confirm_remove t k = ground (arith, Guarded-batch_remove)
  Guarded-submit_confirm confirm_group_delete t k = (h.0, k)
  Guarded-submit_confirm confirm_make_client t k = (h.0, refl)

  Guarded-submit_pick : (k : PickKind) → (t : Text) → (p : Picker) → Guarded (submit_pick k t p m).0
  unfolding submit_pick launch_batch_edit_groups launch_batch_members launch_membership start_batch
      start_action modals_guarded modal_guarded action_guarded
  Guarded-submit_pick pick_peer_groups t p = ground arith
  Guarded-submit_pick pick_group_members t p = ground arith
  Guarded-submit_pick pick_peer_allowed t p = ground arith

  Guarded-submit_text :
      (k : TextKind)
      → (t n : Text) → (i : I) → modal_guarded (entry k t i) ≡ true
      → Guarded (submit_text k t n m).0
  unfolding submit_text modal_guarded action_guarded start_action modals_guarded
  Guarded-submit_text text_create_group t n i k = ground arith
  Guarded-submit_text text_rename_group t n i k = ground arith
  Guarded-submit_text text_edit_address t n i k = ground arith

module _ {I : Type 0} (inputs : Inputs I) (lower : Text → Text) where
  Guarded-submit_modal :
      (next : Modal I)
      → (m : Model I) → Guarded m
      → Guarded (pop_modal m)
      → modal_guarded next ≡ true
      → Guarded (submit_modal inputs next m).0
  unfolding submit_modal submit_enroll start_action modals_guarded modal_guarded action_guarded
  Guarded-submit_modal (confirm k t) m h p g = Guarded-submit_confirm (pop_modal m) p k t g
  Guarded-submit_modal (passphrase i d) m h p g = p
  Guarded-submit_modal (host_key a b d) m h p g = p
  Guarded-submit_modal (pick k t q) m h p g = Guarded-submit_pick (pop_modal m) p k t q
  Guarded-submit_modal (entry k t i) m h p g = Guarded-submit_text (pop_modal m) p k t _ i g
  Guarded-submit_modal (rekey_modal r) m h p g = (p.0, refl)
  Guarded-submit_modal (enroll_form e) m h p g = ground arith
  Guarded-submit_modal enroll_result m h p g = p
  Guarded-submit_modal (progress a b) m h p g = h

  Guarded-closed_modal :
      (next : Modal I) → (m : Model I) → Guarded m → Guarded (closed_modal inputs lower next m).0
  Guarded-closed_modal (confirm k t) m h = h
  Guarded-closed_modal (passphrase i d) m h = h
  Guarded-closed_modal (host_key a b d) m h = h
  Guarded-closed_modal (pick k t p) m h = h
  Guarded-closed_modal (entry k t i) m h = h
  Guarded-closed_modal (rekey_modal r) m h = h
  Guarded-closed_modal (enroll_form e) m h = h
  Guarded-closed_modal enroll_result m h = h
  Guarded-closed_modal (progress a b) m h = h

  modal_guarded-handle :
      (key : Text) → (top : Modal I) → modal_guarded (handle inputs key top).0 ≡ modal_guarded top
  unfolding handle modal_guarded
  modal_guarded-handle key (confirm confirm_revoke t) = refl
  modal_guarded-handle key (confirm confirm_group_delete t) = refl
  modal_guarded-handle key (confirm confirm_remove t) = refl
  modal_guarded-handle key (confirm confirm_make_client t) = refl
  modal_guarded-handle key (passphrase i d) = refl
  modal_guarded-handle key (host_key a b d) = refl
  modal_guarded-handle key (pick pick_peer_groups t p) = refl
  modal_guarded-handle key (pick pick_group_members t p) = refl
  modal_guarded-handle key (pick pick_peer_allowed t p) = refl
  modal_guarded-handle key (entry text_create_group t i) = refl
  modal_guarded-handle key (entry text_rename_group t i) = refl
  modal_guarded-handle key (entry text_edit_address t i) = refl
  modal_guarded-handle key (rekey_modal r) = refl
  modal_guarded-handle key (enroll_form e) = refl
  modal_guarded-handle key enroll_result = refl
  modal_guarded-handle key (progress a b) = refl

  Guarded-handled :
      (r : ModalResult)
      → (next top : Modal I) → (below : List (Modal I)) → (m : Model I) → Guarded m
      → m.modals ≡ top ∷ below
      → modal_guarded next ≡ modal_guarded top
      → Guarded (handled inputs lower (next, r) m).0
  unfolding modals_guarded
  Guarded-handled modal_keep next top below m h e k = ground arith
  Guarded-handled modal_close next top below m h e k =
      Guarded-closed_modal next (pop_modal m) (ground arith, h.1)
  Guarded-handled modal_submit next top below m h e k =
      Guarded-submit_modal next m h (ground arith, h.1) (ground arith)

  Guarded-looked :
      (r : Option (Model I × Cmd))
      → (o : Model I) → Guarded o
      → KeptIf Guarded r
      → Guarded (looked inputs lower r o).0
  unfolding KeptIf
  Guarded-looked none o h k = h
  Guarded-looked (some v) o h k = k

  Guarded-Untouched : (m : Model I) → Guarded m → (v : Model I) → Untouched m v → Guarded v
  Guarded-Untouched m h v (a, b, _, _, _, _) = (rw a h.0, rw b h.1)

  Guarded-handle_key :
      (m : Model I) → Guarded m → (key : Text) → Guarded (handle_key inputs lower key m).0
  unfolding handle_key
  Guarded-handle_key m h key =
      let look = KeptIf-look inputs lower m Guarded (Guarded-Untouched m h) (ground arith) key in
      let filtered =
        Guarded-Untouched m h (filter_key inputs lower key m).0
          (Untouched-filter inputs lower m key) in
      let other =
        Guarded-looked (look_key inputs lower key m) (open_key inputs lower key m)
          (Guarded-open_key inputs lower m h key) look in
      ground (arith, filtered, other)

  Guarded-modal_key :
      (mos : List (Modal I))
      → (m : Model I) → m.modals ≡ mos
      → Guarded m
      → (key : Text) → Guarded (modal_key inputs lower mos key m).0
  Guarded-modal_key [] m e h key = Guarded-handle_key m h key
  Guarded-modal_key (top ∷ below) m e h key =
      let k =
        Guarded-handled (handle inputs key top).1 (handle inputs key top).0 top below m h e
          (modal_guarded-handle key top) in
      ground (arith, k)

  pub Guarded-update_key :
      (key : Text) → (m : Model I) → Guarded m → Guarded (update_key inputs lower key m).0
  unfolding update_key
  Guarded-update_key key m h = Guarded-modal_key m.modals (record m { notice = none }) refl h key
