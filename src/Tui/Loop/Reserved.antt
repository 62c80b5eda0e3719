-- ===== src/Tui/Loop/Reserved.antt =====
-- internal/tui/model.go: the reserved group is neither deleted nor renamed.
use certhold.Base.{◌+◌, Text, true, Option, none, some, List, [], ◌∷◌, ◌++◌, ◌≡◌, refl, arith}
use certhold.Tui.{Inputs}
use certhold.Tui.Modal.{
  Modal, confirm, passphrase, host_key, pick, entry, rekey_modal, enroll_form, enroll_result,
  progress,
}
use certhold.Tui.State.{Action, Model}
use certhold.Tui.Messages.{
  ActionError, done_at, reloaded, handle_pass_prompt, handle_host_key_prompt, progress_index,
  rejections, above, restarted, retry, settle_action, handle_action_done,
}
use certhold.Tui.Loop.{
  Msg, key_msg, reloaded_msg, health_msg, probe_tick_msg, action_event_msg, pass_prompt_msg,
  host_key_prompt_msg, action_done_msg, other_msg, update, update_all,
}
use certhold.Tui.Loop.Guarded.{modal_guarded, modals_guarded, action_guarded, Guarded}
use certhold.Tui.Loop.Keys.{Guarded-update_key, Guarded-start_action}

-- What `progressIndex` leaves below is guarded where all is.
unfoldable Below : {I : Type 0} → Option (List (Modal I) × List (Modal I)) → Type 0
Below none = Unit
Below (some (dropped, below)) = modals_guarded below ≡ true

Below-above :
    {I : Type 0}
    → (mo : Modal I) → (r : Option (List (Modal I) × List (Modal I))) → Below r
    → Below (above mo r)
unfolding Below
Below-above mo none h = tt
Below-above mo (some (dropped, below)) h = h

Below-progress_index :
    {I : Type 0} → (mos : List (Modal I)) → modals_guarded mos ≡ true → Below (progress_index mos)
unfolding progress_index modals_guarded modal_guarded Below
Below-progress_index [] h = tt
Below-progress_index (progress a b ∷ mos) h = h
Below-progress_index (passphrase i d ∷ mos) h =
    Below-above (passphrase i d) (progress_index mos) (Below-progress_index mos (ground arith))
Below-progress_index (host_key a b d ∷ mos) h =
    Below-above (host_key a b d) (progress_index mos) (Below-progress_index mos (ground arith))
Below-progress_index (confirm k t ∷ mos) h =
    Below-above (confirm k t) (progress_index mos) (Below-progress_index mos (ground arith))
Below-progress_index (pick k t p ∷ mos) h =
    Below-above (pick k t p) (progress_index mos) (Below-progress_index mos (ground arith))
Below-progress_index (entry k t i ∷ mos) h =
    Below-above (entry k t i) (progress_index mos) (Below-progress_index mos (ground arith))
Below-progress_index (rekey_modal r ∷ mos) h =
    Below-above (rekey_modal r) (progress_index mos) (Below-progress_index mos (ground arith))
Below-progress_index (enroll_form e ∷ mos) h =
    Below-above (enroll_form e) (progress_index mos) (Below-progress_index mos (ground arith))
Below-progress_index (enroll_result ∷ mos) h =
    Below-above enroll_result (progress_index mos) (Below-progress_index mos (ground arith))

module _ {I : Type 0} (inputs : Inputs I) (lower : Text → Text) where
  Guarded-restarted :
      (a : Option Action)
      → (m : Model I) → Guarded m
      → action_guarded a ≡ true
      → Guarded (restarted inputs lower a m).0
  Guarded-restarted none m h k = h
  Guarded-restarted (some a) m h k = Guarded-start_action m h a k

  Guarded-done_at :
      (r : Option (List (Modal I) × List (Modal I)))
      → (e : Option ActionError) → (m : Model I) → Guarded m
      → Below r
      → Guarded (done_at inputs lower r e m).0
  unfolding Below retry settle_action modals_guarded modal_guarded
  Guarded-done_at none e m h k = h
  Guarded-done_at (some (dropped, below)) e m h k =
      let again =
        Guarded-restarted m.last_run
          (record m {
            forgotten = m.forgotten + 1;
            replies = rejections dropped ++ m.replies;
            modals = below;
          })
          (k, h.1) h.1 in
      ground (arith, again)

  Guarded-update : (msg : Msg) → (m : Model I) → Guarded m → Guarded (update inputs lower msg m).0
  unfolding update reloaded handle_pass_prompt handle_host_key_prompt handle_action_done
      modals_guarded modal_guarded
  Guarded-update (key_msg key) m h = Guarded-update_key inputs lower key m h
  Guarded-update (reloaded_msg none) m h = h
  Guarded-update (reloaded_msg (some d)) m h = h
  Guarded-update (health_msg seq) m h = ground arith
  Guarded-update (probe_tick_msg gen) m h = ground arith
  Guarded-update (action_event_msg gen) m h = h
  Guarded-update (pass_prompt_msg gen d) m h = ground arith
  Guarded-update (host_key_prompt_msg gen a b d) m h = ground arith
  Guarded-update (action_done_msg gen e) m h =
      let k = Guarded-done_at (progress_index m.modals) e m h (Below-progress_index m.modals h.0) in
      ground (arith, k)
  Guarded-update other_msg m h = h

  Guarded-update_all :
      (msgs : List Msg) → (m : Model I) → Guarded m → Guarded (update_all inputs lower msgs m)
  Guarded-update_all [] m h = h
  Guarded-update_all (msg ∷ msgs) m h =
      Guarded-update_all msgs (update inputs lower msg m).0 (Guarded-update msg m h)

  -- if no overlay is open yet and no action was started, then after any sequence of messages no overlay
  -- offers to delete or rename the reserved group or to edit its members, and the last action that was
  -- started neither deletes nor renames it.
  pub reserved_group_spared :
      (msgs : List Msg)
      → (m : Model I) → m.modals ≡ []
      → m.last_run ≡ none
      → Guarded (update_all inputs lower msgs m)
  unfolding modals_guarded action_guarded
  reserved_group_spared msgs m none_open none_run =
      Guarded-update_all msgs m (rw none_open refl, rw none_run refl)
