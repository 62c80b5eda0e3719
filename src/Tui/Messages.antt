-- ===== src/Tui/Messages.antt =====
-- internal/tui: the messages that are no keys (model.go, action.go).
use certhold.Base.{
  ℕ, ◌+◌, Text, text, Bool, true, false, not, ◌&&◌, ◌||◌, Option, none, some, List, [], ◌∷◌, ◌++◌,
  filter, contains, nat_eq, if◌then◌else◌,
}
use certhold.Tui.{FleetData, Inputs}
use certhold.Tui.Modal.{
  Modal, confirm, passphrase, host_key, pick, entry, rekey_modal, enroll_form, enroll_result,
  progress,
}
use certhold.Tui.State.{
  Model, batch_none, Action, Reply, passphrase_canceled, host_key_rejected, Cmd, no_cmd, reload,
  push_modal, start_action,
}
use certhold.Tui.Submit.{send}
use certhold.Tui.Browse.{clamp_selection}

-- The error of an action: its text, and whether it is `errPassphraseCanceled`.
pub record ActionError : Type 0 where
  pub message : Text
  pub canceled : Bool

abbrev begins : Text → Text → Bool
begins [] s = true
begins (p ∷ ps) [] = false
begins (p ∷ ps) (c ∷ cs) = nat_eq p c && begins ps cs

-- `strings.Contains`
unfoldable pub contains_text : Text → Text → Bool
contains_text pat [] = begins pat []
contains_text pat (c ∷ cs) = begins pat (c ∷ cs) || contains_text pat cs

-- The overlays above the newest progress, and those below it.
abbrev pub above :
    {I : Type 0}
    → Modal I
    → Option (List (Modal I) × List (Modal I))
    → Option (List (Modal I) × List (Modal I))
above mo none = none
above mo (some (xs, ys)) = some (mo ∷ xs, ys)

-- `progressIndex`
unfoldable pub progress_index :
    {I : Type 0} → List (Modal I) → Option (List (Modal I) × List (Modal I))
progress_index [] = none
progress_index (progress done failed ∷ mos) = some ([], mos)
progress_index (confirm k s ∷ mos) = above (confirm k s) (progress_index mos)
progress_index (passphrase i c ∷ mos) = above (passphrase i c) (progress_index mos)
progress_index (host_key h f c ∷ mos) = above (host_key h f c) (progress_index mos)
progress_index (pick k s p ∷ mos) = above (pick k s p) (progress_index mos)
progress_index (entry k s i ∷ mos) = above (entry k s i) (progress_index mos)
progress_index (rekey_modal r ∷ mos) = above (rekey_modal r) (progress_index mos)
progress_index (enroll_form e ∷ mos) = above (enroll_form e) (progress_index mos)
progress_index (enroll_result ∷ mos) = above enroll_result (progress_index mos)

-- `answerDiscardedHostKeys`: what is sent for the overlays that are dropped.
unfoldable pub rejections : {I : Type 0} → List (Modal I) → List (ℕ × Reply)
rejections [] = []
rejections (host_key h f c ∷ mos) = (c, host_key_rejected) ∷ rejections mos
rejections (_ ∷ mos) = rejections mos

module _ {I : Type 0} (inputs : Inputs I) (lower : Text → Text) where
  -- `isPassphraseError`
  unfoldable pub is_passphrase_error : Text → Bool
  unfolding contains_text
  is_passphrase_error message =
      let s = lower message in
      contains_text (text "passphrase") s
      || contains_text (text "decrypt") s
      || contains_text (text "incorrect") s
      || contains_text (text "load ca") s

  -- `reloadedMsg`; `none` is a failure.
  unfoldable pub reloaded : Option FleetData → Model I → Model I
  unfolding clamp_selection
  reloaded none m = record m { load_failed = true }
  reloaded (some d) m =
      clamp_selection inputs lower (record m { load_failed = false; data_rows = d })

  -- `handlePassPrompt`
  unfoldable pub handle_pass_prompt : ℕ → ℕ → Model I → Model I
  handle_pass_prompt gen channel m =
      if nat_eq gen m.action_gen
      then push_modal (passphrase (inputs.new_input 256) channel) m
      else send channel passphrase_canceled m

  -- `handleHostKeyPrompt`
  unfoldable pub handle_host_key_prompt : ℕ → Text → Text → ℕ → Model I → Model I
  handle_host_key_prompt gen host print channel m =
      if nat_eq gen m.action_gen
      then push_modal (host_key host print channel) m
      else send channel host_key_rejected m

  abbrev pub restarted : Option Action → Model I → Model I × Cmd
  restarted none m = (m, no_cmd)
  restarted (some a) m = start_action a m

  -- The retry of an action whose passphrase was wrong.
  unfoldable pub retry : List (Modal I) → List (Modal I) → Model I → Model I × Cmd
  unfolding rejections start_action
  retry dropped below m = restarted m.last_run (record m {
    forgotten = m.forgotten + 1;
    replies = rejections dropped ++ m.replies;
    modals = below;
  })

  -- The marks after a batch: those of the peers that failed.
  abbrev unmarked : Option (Option (List Text)) → List Text → List Text
  unmarked none marks = marks
  unmarked (some none) marks = marks
  unmarked (some (some failed)) marks = filter (λ n. contains failed n) marks

  abbrev batch_over : Option (Option (List Text)) → Model I → Model I
  batch_over none m = m
  batch_over (some o) m = record m {
    marks = unmarked (some o) m.marks;
    outcome = none;
    batch_kind = batch_none;
  }

  abbrev failed_with : Option ActionError → Bool
  failed_with none = false
  failed_with (some e) = true

  abbrev is_wrong_passphrase : Option ActionError → Bool
  is_wrong_passphrase none = false
  is_wrong_passphrase (some e) = is_passphrase_error e.message && not e.canceled

  abbrev shows_result : Option ActionError → Model I → Bool
  shows_result e m = m.enroll_pending && not (failed_with e) && m.enroll_result

  -- The end of an action that is not retried.
  unfoldable pub settle_action :
      List (Modal I) → List (Modal I) → Option ActionError → Model I → Model I × Cmd
  unfolding rejections contains
  settle_action dropped below e m =
      let answered = record m {
        replies = rejections dropped ++ m.replies;
        enroll_pending = false;
      } in
      if shows_result e m then (record answered { modals = enroll_result ∷ below }, reload) else (
        record (batch_over m.outcome answered) { modals = progress true (failed_with e) ∷ below },
        reload,
      )

  abbrev pub done_at :
      Option (List (Modal I) × List (Modal I)) → Option ActionError → Model I → Model I × Cmd
  done_at none e m = (m, no_cmd)
  done_at (some (dropped, below)) e m =
      if is_wrong_passphrase e then retry dropped below m else settle_action dropped below e m

  -- `handleActionDone`
  unfoldable pub handle_action_done : ℕ → Option ActionError → Model I → Model I × Cmd
  unfolding progress_index retry settle_action is_passphrase_error
  handle_action_done gen e m =
      if nat_eq gen m.action_gen then done_at (progress_index m.modals) e m else (m, no_cmd)
