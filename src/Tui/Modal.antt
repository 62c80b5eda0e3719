-- ===== src/Tui/Modal.antt =====
-- internal/tui: the overlays and their keys (modal.go, rekey_flow.go, groups_actions.go, progress.go).
-- Headings and bodies, which are only drawn, are left out. A reply channel is a number.
use certhold.Base.{
  ℕ, Text, text, Bool, true, false, not, ◌&&◌, ◌||◌, ◌==◌, List, sort, if◌then◌else◌,
}
use certhold.Tui.{Inputs}
use certhold.Tui.Form.{
  ModalResult, modal_keep, modal_close, modal_submit, Picker, move_cursor, toggle_cursor,
  EnrollForm, handle_form,
}

-- `confirmKind`, `pickKind`, `textKind`
pub data ConfirmKind : Type 0 where
  confirm_revoke confirm_group_delete confirm_remove confirm_make_client : ConfirmKind

pub data PickKind : Type 0 where
  pick_peer_groups pick_group_members pick_peer_allowed : PickKind

pub data TextKind : Type 0 where
  text_create_group text_rename_group text_edit_address : TextKind

-- `rekeyModal`
pub record RekeyForm (I : Type 0) : Type 0 where
  pub confirm : I
  pub rotate : Bool
  -- whether the toggle has the focus
  pub on_toggle : Bool

-- `modal`. A passphrase has its input and the channel that waits for it.
pub data Modal (I : Type 0) : Type 0 where
  confirm : ConfirmKind → Text → Modal I
  passphrase : I → ℕ → Modal I
  host_key : Text → Text → ℕ → Modal I
  pick : PickKind → Text → Picker → Modal I
  entry : TextKind → Text → I → Modal I
  rekey_modal : RekeyForm I → Modal I
  enroll_form : EnrollForm I → Modal I
  enroll_result : Modal I
  -- whether the action is done, and whether it failed
  progress : Bool → Bool → Modal I

-- `newPickModalKind`
unfoldable pub new_picker : List Text → List Text → Picker
new_picker options checked = record { options = sort options; checked = checked; cursor = 0 }

-- `handle` of the picker.
unfoldable pub handle_picker : Text → Picker → Picker × ModalResult
unfolding move_cursor toggle_cursor
handle_picker key p =
    if key == text "esc"
    then (p, modal_close)
    else if key == text "enter"
    then (p, modal_submit)
    else if key == text "j" || key == text "down"
    then (move_cursor p true, modal_keep)
    else if key == text "k" || key == text "up"
    then (move_cursor p false, modal_keep)
    else if key == text " " || key == text "x"
    then (toggle_cursor p, modal_keep)
    else (p, modal_keep)

-- `handle` of a confirmation.
unfoldable pub handle_confirm : Text → ModalResult
handle_confirm key =
    if key == text "y" || key == text "Y" || key == text "enter"
    then modal_submit
    else if key == text "n" || key == text "N" || key == text "esc"
    then modal_close
    else modal_keep

-- `handle` of the host key.
unfoldable pub handle_host_key : Text → ModalResult
handle_host_key key =
    if key == text "y" || key == text "Y"
    then modal_submit
    else if key == text "n" || key == text "N" || key == text "esc"
    then modal_close
    else modal_keep

module _ {I : Type 0} (inputs : Inputs I) where
  -- `handle` of the overlays with one input.
  unfoldable pub handle_input : Text → I → I × ModalResult
  handle_input key i =
      if key == text "enter"
      then (i, modal_submit)
      else if key == text "esc"
      then (i, modal_close)
      else (inputs.press i key, modal_keep)

  -- `confirmed`
  unfoldable pub confirmed : RekeyForm I → Bool
  confirmed r = inputs.value r.confirm == text "rekey"

  -- A key that is no command goes to the input that has the focus.
  unfoldable pub type_rekey : Text → RekeyForm I → RekeyForm I
  type_rekey key r = if r.on_toggle then r else record r { confirm = inputs.press r.confirm key }

  -- `handle` of the rekey form.
  unfoldable pub handle_rekey : Text → RekeyForm I → RekeyForm I × ModalResult
  unfolding confirmed type_rekey
  handle_rekey key r =
      if key == text "esc"
      then (r, modal_close)
      else if key == text "enter"
      then (r, if confirmed r then modal_submit else modal_keep)
      else if key == text "tab" || key == text "down" || key == text "up"
      then (record r { on_toggle = not r.on_toggle }, modal_keep)
      else if key == text " " && r.on_toggle
      then (record r { rotate = not r.rotate }, modal_keep)
      else (type_rekey key r, modal_keep)

  -- `handle` of the result screen.
  abbrev handle_result : Text → ModalResult
  handle_result key = if key == text "esc" || key == text "enter" then modal_close else modal_keep

  abbrev wrapped : {A : Type 0} → (A → Modal I) → A × ModalResult → Modal I × ModalResult
  wrapped f (a, r) = (f a, r)

  -- `handle`, by the kind of the overlay.
  unfoldable pub handle : Text → Modal I → Modal I × ModalResult
  unfolding handle_confirm handle_host_key handle_picker handle_input handle_rekey handle_form
  handle key (confirm k subject) = (confirm k subject, handle_confirm key)
  handle key (passphrase i reply) = wrapped (λ j. passphrase j reply) (handle_input key i)
  handle key (host_key host print reply) = (host_key host print reply, handle_host_key key)
  handle key (pick k subject p) = wrapped (pick k subject) (handle_picker key p)
  handle key (entry k subject i) = wrapped (entry k subject) (handle_input key i)
  handle key (rekey_modal r) = wrapped rekey_modal (handle_rekey key r)
  handle key (enroll_form e) = wrapped enroll_form (handle_form inputs key e)
  handle key enroll_result = (enroll_result, handle_result key)
  handle key (progress done failed) =
      (progress done failed, if done && (key == text "esc") then modal_close else modal_keep)
