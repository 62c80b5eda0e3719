-- ===== src/Tui/Loop.antt =====
-- internal/tui/model.go: `Update`, on all messages.
pub mod Uses
pub mod Opens
pub mod Submits
pub mod Replies
pub mod Guarded
pub mod Spares
pub mod Keys
pub mod Reserved
pub mod Sends
pub mod Yes
pub mod Rows
pub mod Bounds
use certhold.Base.{
  ℕ, Text, Bool, true, false, not, ◌||◌, Option, none, some, List, [], ◌∷◌, nat_eq, if◌then◌else◌,
}
use certhold.Tui.{FleetData, Inputs}
use certhold.Tui.State.{Model, view_net, is_view, Cmd, no_cmd, wait_event}
use certhold.Tui.Messages.{
  ActionError, reloaded, handle_pass_prompt, handle_host_key_prompt, progress_index,
  handle_action_done,
}
use certhold.Tui.Browse.{start_sweep}
use certhold.Tui.Update.{update_key}

-- The messages. A prompt has its generation and its reply channel; `other_msg` is a message that
-- changes what is drawn only.
pub data Msg : Type 0 where
  key_msg : Text → Msg
  reloaded_msg : Option FleetData → Msg
  health_msg probe_tick_msg action_event_msg : ℕ → Msg
  pass_prompt_msg : ℕ → ℕ → Msg
  host_key_prompt_msg : ℕ → Text → Text → ℕ → Msg
  action_done_msg : ℕ → Option ActionError → Msg
  other_msg : Msg

module _ {I : Type 0} (inputs : Inputs I) (lower : Text → Text) where
  -- `handleActionEvent`; the event itself goes to the transcript.
  abbrev handle_action_event : ℕ → Model I → Model I × Cmd
  handle_action_event gen m = (m, if nat_eq gen m.action_gen then wait_event else no_cmd)

  -- `Update`
  unfoldable pub update : Msg → Model I → Model I × Cmd
  unfolding update_key reloaded handle_pass_prompt handle_host_key_prompt handle_action_done
  update (key_msg key) m = update_key inputs lower key m
  update (reloaded_msg d) m = (reloaded inputs lower d m, no_cmd)
  update (health_msg seq) m =
      (if nat_eq seq m.health_seq then record m { serve_known = true } else m, no_cmd)
  update (probe_tick_msg gen) m =
      if not (is_view m.view view_net) || m.probe_paused || not (nat_eq gen m.probe_gen)
      then (m, no_cmd)
      else start_sweep inputs lower m
  update (pass_prompt_msg gen channel) m = (handle_pass_prompt inputs lower gen channel m, no_cmd)
  update (host_key_prompt_msg gen host print channel) m =
      (handle_host_key_prompt inputs lower gen host print channel m, no_cmd)
  update (action_event_msg gen) m = handle_action_event gen m
  update (action_done_msg gen e) m = handle_action_done inputs lower gen e m
  update other_msg m = (m, no_cmd)

  -- One message after another.
  abbrev pub update_all : List Msg → Model I → Model I
  update_all [] m = m
  update_all (msg ∷ msgs) m = update_all msgs (update msg m).0
