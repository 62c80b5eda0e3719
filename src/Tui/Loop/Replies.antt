-- ===== src/Tui/Loop/Replies.antt =====
-- internal/tui/model.go and action.go: each reply channel is answered at most once.
use certhold.Base.{ℕ, ◌+◌, ◌≤◌, Text, Option, none, some, List, [], ◌∷◌, ◌++◌, ◌≡◌, refl, arith}
use certhold.Tui.{Inputs}
use certhold.Tui.Form.{ModalResult, modal_keep, modal_close, modal_submit}
use certhold.Tui.Modal.{
  Modal, confirm, passphrase, host_key, pick, entry, rekey_modal, enroll_form, enroll_result,
  progress, handle,
}
use certhold.Tui.State.{Model, Reply, Cmd, pop_modal, start_action}
use certhold.Tui.Browse.{filter_key, look_key}
use certhold.Tui.Update.{update_key, handle_key, open_key, looked, handled, modal_key}
use certhold.Tui.Update.Look.{KeptIf, KeptIf-look, Untouched-filter}
use certhold.Tui.Messages.{
  ActionError, done_at, reloaded, handle_pass_prompt, handle_host_key_prompt, progress_index,
  rejections, above, retry, settle_action, handle_action_done,
}
use certhold.Tui.Loop.{
  Msg, key_msg, reloaded_msg, health_msg, probe_tick_msg, action_event_msg, pass_prompt_msg,
  host_key_prompt_msg, action_done_msg, other_msg, update, update_all,
}
use certhold.Tui.Loop.Uses.{channel_of, hits, waiting_on, answers_on, uses}
use certhold.Tui.Loop.Opens.{uses-open_key}
use certhold.Tui.Loop.Submits.{
  uses-Untouched, uses-forget, uses-submit_modal, uses-closed_modal, channel_of-handle,
}

module _ {I : Type 0} (inputs : Inputs I) (lower : Text → Text) (c : ℕ) (m : Model I) where
  -- The overlay on top after its key, by what it says of itself.
  uses-handled :
      (r : ModalResult)
      → (next : Modal I) → (top : Modal I) → (below : List (Modal I)) → m.modals ≡ top ∷ below
      → channel_of next ≡ channel_of top
      → uses c (handled inputs lower (next, r) m).0 ≡ uses c m
  unfolding uses waiting_on
  uses-handled modal_keep next top below e h = rw (e, h)
  uses-handled modal_close next top below e h =
      rw (uses-closed_modal inputs lower c (pop_modal m) next, e, h) (ground arith)
  uses-handled modal_submit next top below e h = uses-submit_modal inputs lower c m next (rw (e, h))

  uses-looked :
      (r : Option (Model I × Cmd))
      → (o : Model I) → uses c o ≡ uses c m
      → KeptIf (λ v. uses c v ≡ uses c m) r
      → uses c (looked inputs lower r o).0 ≡ uses c m
  unfolding KeptIf
  uses-looked none o h k = h
  uses-looked (some v) o h k = k

  uses-handle_key : (key : Text) → uses c (handle_key inputs lower key m).0 ≡ uses c m
  unfolding handle_key
  uses-handle_key key =
      let look =
        KeptIf-look inputs lower m (λ v. uses c v ≡ uses c m) (uses-Untouched c m) (uses-forget c m)
          key in
      let filtered =
        uses-Untouched c m (filter_key inputs lower key m).0
          (Untouched-filter inputs lower m key) in
      let other =
        uses-looked (look_key inputs lower key m) (open_key inputs lower key m)
          (uses-open_key inputs lower c m key) look in
      ground (arith, filtered, other)

  uses-modal_key :
      (mos : List (Modal I))
      → m.modals ≡ mos
      → (key : Text) → uses c (modal_key inputs lower mos key m).0 ≡ uses c m
  uses-modal_key [] e key = uses-handle_key key
  uses-modal_key (top ∷ below) e key =
      let h =
        uses-handled (handle inputs key top).1 (handle inputs key top).0 top below e
          (channel_of-handle inputs lower c m key top) in
      ground (arith, h)

module _ {I : Type 0} (inputs : Inputs I) (lower : Text → Text) where
  -- a key answers no prompt twice and drops no prompt unanswered: what waits on a channel and what was
  -- sent on it are as many as before.
  uses-update_key :
      (c : ℕ) → (m : Model I) → (key : Text) → uses c (update_key inputs lower key m).0 ≡ uses c m
  unfolding update_key uses
  uses-update_key c m key =
      uses-modal_key inputs lower c (record m { notice = none }) m.modals refl key

answers_on-append :
    (c : ℕ)
    → (xs ys : List (ℕ × Reply)) → answers_on c (xs ++ ys) ≡ answers_on c xs + answers_on c ys
unfolding answers_on
answers_on-append c [] ys = ground arith
answers_on-append c ((d, r) ∷ xs) ys = ground (arith, answers_on-append c xs ys)

answers_on-rejections :
    {I : Type 0}
    → (c : ℕ) → (mos : List (Modal I)) → answers_on c (rejections mos) ≤ waiting_on c mos
unfolding answers_on waiting_on rejections channel_of hits
answers_on-rejections c [] = ground arith
answers_on-rejections c (host_key h f d ∷ mos) = ground (arith, answers_on-rejections c mos)
answers_on-rejections c (passphrase i d ∷ mos) = ground (arith, answers_on-rejections c mos)
answers_on-rejections c (confirm k t ∷ mos) = ground (arith, answers_on-rejections c mos)
answers_on-rejections c (pick k t p ∷ mos) = ground (arith, answers_on-rejections c mos)
answers_on-rejections c (entry k t i ∷ mos) = ground (arith, answers_on-rejections c mos)
answers_on-rejections c (rekey_modal r ∷ mos) = ground (arith, answers_on-rejections c mos)
answers_on-rejections c (enroll_form e ∷ mos) = ground (arith, answers_on-rejections c mos)
answers_on-rejections c (enroll_result ∷ mos) = ground (arith, answers_on-rejections c mos)
answers_on-rejections c (progress a b ∷ mos) = ground (arith, answers_on-rejections c mos)

-- The overlays that `progressIndex` parts wait on no more than all of them.
unfoldable Parts : {I : Type 0} → ℕ → ℕ → Option (List (Modal I) × List (Modal I)) → Type 0
Parts c n none = Unit
Parts c n (some (dropped, below)) = n ≡ waiting_on c dropped + waiting_on c below

Parts-above :
    {I : Type 0}
    → (c n : ℕ) → (mo : Modal I) → (r : Option (List (Modal I) × List (Modal I))) → Parts c n r
    → Parts c (hits c (channel_of mo) + n) (above mo r)
unfolding Parts waiting_on
Parts-above c n mo none h = tt
Parts-above c n mo (some (dropped, below)) h = ground arith

Parts-progress_index :
    {I : Type 0}
    → (c : ℕ) → (mos : List (Modal I)) → Parts c (waiting_on c mos) (progress_index mos)
unfolding progress_index waiting_on Parts hits channel_of
Parts-progress_index c [] = tt
Parts-progress_index c (progress a b ∷ mos) = ground arith
Parts-progress_index c (passphrase i d ∷ mos) =
    Parts-above c _ (passphrase i d) _ (Parts-progress_index c mos)
Parts-progress_index c (host_key h f d ∷ mos) =
    Parts-above c _ (host_key h f d) _ (Parts-progress_index c mos)
Parts-progress_index c (confirm k t ∷ mos) =
    Parts-above c _ (confirm k t) _ (Parts-progress_index c mos)
Parts-progress_index c (pick k t p ∷ mos) =
    Parts-above c _ (pick k t p) _ (Parts-progress_index c mos)
Parts-progress_index c (entry k t i ∷ mos) =
    Parts-above c _ (entry k t i) _ (Parts-progress_index c mos)
Parts-progress_index c (rekey_modal r ∷ mos) =
    Parts-above c _ (rekey_modal r) _ (Parts-progress_index c mos)
Parts-progress_index c (enroll_form e ∷ mos) =
    Parts-above c _ (enroll_form e) _ (Parts-progress_index c mos)
Parts-progress_index c (enroll_result ∷ mos) =
    Parts-above c _ enroll_result _ (Parts-progress_index c mos)

module _ {I : Type 0} (inputs : Inputs I) (lower : Text → Text) (c : ℕ) (m : Model I) where
  uses-retry :
      (dropped below : List (Modal I))
      → uses c (retry inputs lower dropped below m).0
        ≤ waiting_on c dropped + waiting_on c below + answers_on c m.replies
  unfolding retry start_action uses waiting_on channel_of hits
  uses-retry dropped below =
      ground
        (arith, answers_on-append c (rejections dropped) m.replies, answers_on-rejections c dropped)

  uses-settle_action :
      (dropped below : List (Modal I))
      → (e : Option ActionError)
      → uses c (settle_action inputs lower dropped below e m).0
        ≤ waiting_on c dropped + waiting_on c below + answers_on c m.replies
  unfolding settle_action uses waiting_on channel_of hits
  uses-settle_action dropped below e =
      ground
        (arith, answers_on-append c (rejections dropped) m.replies, answers_on-rejections c dropped)

  uses-done_at :
      (r : Option (List (Modal I) × List (Modal I)))
      → (e : Option ActionError) → Parts c (waiting_on c m.modals) r
      → uses c (done_at inputs lower r e m).0 ≤ uses c m
  unfolding Parts uses
  uses-done_at none e h = ground arith
  uses-done_at (some (dropped, below)) e h =
      ground (arith, uses-retry dropped below, uses-settle_action dropped below e)

  uses-handle_action_done :
      (gen : ℕ)
      → (e : Option ActionError) → uses c (handle_action_done inputs lower gen e m).0 ≤ uses c m
  unfolding handle_action_done
  uses-handle_action_done gen e =
      ground (arith, uses-done_at (progress_index m.modals) e (Parts-progress_index c m.modals))

-- How many of the messages are prompts that bring the channel.
unfoldable pub prompts_on : ℕ → List Msg → ℕ
unfolding hits
prompts_on c [] = 0
prompts_on c (pass_prompt_msg gen d ∷ msgs) = hits c (some d) + prompts_on c msgs
prompts_on c (host_key_prompt_msg gen h f d ∷ msgs) = hits c (some d) + prompts_on c msgs
prompts_on c (_ ∷ msgs) = prompts_on c msgs

prompts_on-cons :
    (c : ℕ)
    → (msg : Msg) → (msgs : List Msg)
    → prompts_on c (msg ∷ msgs) ≡ prompts_on c (msg ∷ []) + prompts_on c msgs
unfolding prompts_on hits
prompts_on-cons c (key_msg key) msgs = ground arith
prompts_on-cons c (reloaded_msg d) msgs = ground arith
prompts_on-cons c (health_msg seq) msgs = ground arith
prompts_on-cons c (probe_tick_msg gen) msgs = ground arith
prompts_on-cons c (action_event_msg gen) msgs = ground arith
prompts_on-cons c (pass_prompt_msg gen d) msgs = ground arith
prompts_on-cons c (host_key_prompt_msg gen h f d) msgs = ground arith
prompts_on-cons c (action_done_msg gen e) msgs = ground arith
prompts_on-cons c other_msg msgs = ground arith

module _ {I : Type 0} (inputs : Inputs I) (lower : Text → Text) (c : ℕ) where
  uses-update :
      (msg : Msg)
      → (m : Model I) → uses c (update inputs lower msg m).0 ≤ prompts_on c (msg ∷ []) + uses c m
  unfolding update prompts_on reloaded handle_pass_prompt handle_host_key_prompt uses waiting_on
      answers_on hits channel_of
  uses-update (key_msg key) m = ground (arith, uses-update_key inputs lower c m key)
  uses-update (reloaded_msg none) m = ground arith
  uses-update (reloaded_msg (some d)) m = ground arith
  uses-update (health_msg seq) m = ground arith
  uses-update (probe_tick_msg gen) m = ground arith
  uses-update (action_event_msg gen) m = ground arith
  uses-update (pass_prompt_msg gen d) m = ground arith
  uses-update (host_key_prompt_msg gen h f d) m = ground arith
  uses-update (action_done_msg gen e) m =
      ground (arith, uses-handle_action_done inputs lower c m gen e)
  uses-update other_msg m = ground arith

  uses-update_all :
      (msgs : List Msg)
      → (m : Model I) → uses c (update_all inputs lower msgs m) ≤ prompts_on c msgs + uses c m
  uses-update_all [] m = ground arith
  uses-update_all (msg ∷ msgs) m = ground (
    arith,
    uses-update msg m,
    uses-update_all msgs (update inputs lower msg m).0,
    prompts_on-cons c msg msgs,
  )

  -- where the prompts bring a channel at most once, and it is not in use, then after any sequence of
  -- messages `Update` has sent at most one answer on it (the rejections that `arm` and `close` of the
  -- session send, which do not wait, are not counted).
  pub answered_once :
      (msgs : List Msg)
      → (m : Model I) → prompts_on c msgs + uses c m ≤ 1
      → answers_on c (update_all inputs lower msgs m).replies ≤ 1
  unfolding uses
  answered_once msgs m h = ground (arith, uses-update_all msgs m)
