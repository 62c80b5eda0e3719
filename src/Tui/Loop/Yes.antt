-- ===== src/Tui/Loop/Yes.antt =====
-- internal/tui/action.go: a host key is accepted by a yes only.
use certhold.Base.{
  ℕ, ◌+◌, Text, text, Bool, true, false, ◌&&◌, ◌||◌, ◌==◌, ==_iff, subst, Option, none, some, List,
  [], ◌∷◌, ◌++◌, nat_eq, if◌then◌else◌, ◌≡◌, refl, sym, ap, arith,
}
use certhold.Tui.{Inputs}
use certhold.Tui.Form.{handle_form}
use certhold.Tui.Modal.{
  Modal, confirm, passphrase, host_key, pick, entry, rekey_modal, enroll_form, enroll_result,
  progress, handle, handle_host_key, handle_picker, handle_input, handle_rekey,
}
use certhold.Tui.State.{Model, Reply, host_key_accepted, pop_modal, start_action, mutations_enabled}
use certhold.Tui.Submit.{submit_enroll, submit_modal}
use certhold.Tui.Browse.{look_key}
use certhold.Tui.Update.{update_key, handle_key, open_key, handled, modal_key}
use certhold.Tui.Update.Look.{KeptIf-look, Untouched-filter}
use certhold.Tui.Messages.{
  ActionError, done_at, reloaded, handle_pass_prompt, handle_host_key_prompt, progress_index,
  rejections, retry, settle_action, handle_action_done,
}
use certhold.Tui.Loop.{
  Msg, key_msg, reloaded_msg, health_msg, probe_tick_msg, action_event_msg, pass_prompt_msg,
  host_key_prompt_msg, action_done_msg, other_msg, update,
}
use certhold.Tui.Loop.Uses.{hits}
use certhold.Tui.Loop.Sends.{
  replies-open_key, replies-submit_confirm, replies-pick, replies-entry, replies-rekey_modal,
  replies-enroll_form, if_same, replies-looked,
}

-- How many acceptances of a host key were sent on the channel.
unfoldable pub accepts_on : ℕ → List (ℕ × Reply) → ℕ
unfolding hits
accepts_on c [] = 0
accepts_on c ((d, host_key_accepted) ∷ rs) = hits c (some d) + accepts_on c rs
accepts_on c (_ ∷ rs) = accepts_on c rs

-- Whether the overlay on top asks for a host key on the channel.
unfoldable pub asks : {I : Type 0} → ℕ → List (Modal I) → Bool
asks c (host_key host print d ∷ mos) = nat_eq c d
asks c _ = false

abbrev pub yes_key : Text → Bool
yes_key key = key == text "y" || key == text "Y"

-- The key y or Y on an overlay that asks on the channel.
unfoldable pub confirms : {I : Type 0} → ℕ → Msg → Model I → Bool
unfolding asks
confirms c (key_msg key) m = yes_key key && asks c m.modals
confirms c _ m = false

abbrev one_if : Bool → ℕ
one_if b = if b then 1 else 0

quit_is_no : (key : Text) → (key == text "ctrl+c") ≡ true → yes_key key ≡ false
unfolding ◌==◌
quit_is_no key h = subst (λ k. yes_key k ≡ false) (sym ((==_iff key (text "ctrl+c")).0 h)) refl

module _ {I : Type 0} (inputs : Inputs I) (lower : Text → Text) (c : ℕ) (key : Text) where
  -- What a key does with the overlay on top.
  accepts-handled :
      (top : Modal I)
      → (below : List (Modal I)) → (m : Model I)
      → accepts_on c (handled inputs lower (handle inputs key top) m).0.replies
        ≡ one_if (yes_key key && asks c (top ∷ below)) + accepts_on c m.replies
  unfolding handle handle_host_key submit_modal submit_enroll start_action accepts_on hits asks
  accepts-handled (host_key a b d) below m = ground arith
  accepts-handled (confirm k t) below m =
      ground (arith, ap (accepts_on c) (replies-submit_confirm inputs lower (pop_modal m) k t))
  accepts-handled (passphrase i d) below m = ground arith
  accepts-handled enroll_result below m = ground arith
  accepts-handled (progress a b) below m = ground arith
  accepts-handled (pick k t p) below m = ground (
    arith,
    ap (accepts_on c)
        (replies-pick inputs lower m (handle_picker key p).1 k t (handle_picker key p).0),
  )
  accepts-handled (entry k t i) below m = ground (
    arith,
    ap (accepts_on c) (
        replies-entry inputs lower m (handle_input inputs key i).1 k t
          (handle_input inputs key i).0),
  )
  accepts-handled (rekey_modal r) below m = ground (
    arith,
    ap (accepts_on c) (
        replies-rekey_modal inputs lower m (handle_rekey inputs key r).1
          (handle_rekey inputs key r).0),
  )
  accepts-handled (enroll_form e) below m = ground (
    arith,
    ap (accepts_on c) (
        replies-enroll_form inputs lower m (handle_form inputs key e).1
          (handle_form inputs key e).0),
  )

  replies-handle_key : (m : Model I) → (handle_key inputs lower key m).0.replies ≡ m.replies
  unfolding handle_key
  replies-handle_key m =
      let look =
        KeptIf-look inputs lower m (λ v. v.replies ≡ m.replies) (λ v h. h.3)
          (if_same inputs lower m (mutations_enabled m)) key in
      let other =
        replies-looked inputs lower m (look_key inputs lower key m) (open_key inputs lower key m)
          (replies-open_key inputs lower m key) look in
      ground (arith, (Untouched-filter inputs lower m key).3, other)

  accepts-modal_key :
      (mos : List (Modal I))
      → (m : Model I)
      → accepts_on c (modal_key inputs lower mos key m).0.replies
        ≡ one_if (yes_key key && asks c mos) + accepts_on c m.replies
  unfolding asks
  accepts-modal_key [] m = ground (arith, ap (accepts_on c) (replies-handle_key m))
  accepts-modal_key (top ∷ below) m = ground (arith, accepts-handled top below m, quit_is_no key)

  accepts-update_key :
      (m : Model I)
      → accepts_on c (update_key inputs lower key m).0.replies
        ≡ one_if (yes_key key && asks c m.modals) + accepts_on c m.replies
  unfolding update_key
  accepts-update_key m = accepts-modal_key m.modals (record m { notice = none })

accepts_on-rejections :
    {I : Type 0}
    → (c : ℕ) → (mos : List (Modal I)) → (rs : List (ℕ × Reply))
    → accepts_on c (rejections mos ++ rs) ≡ accepts_on c rs
unfolding accepts_on rejections
accepts_on-rejections c [] rs = refl
accepts_on-rejections c (passphrase i d ∷ mos) rs = accepts_on-rejections c mos rs
accepts_on-rejections c (host_key a b d ∷ mos) rs = accepts_on-rejections c mos rs
accepts_on-rejections c (confirm k t ∷ mos) rs = accepts_on-rejections c mos rs
accepts_on-rejections c (pick k t p ∷ mos) rs = accepts_on-rejections c mos rs
accepts_on-rejections c (entry k t i ∷ mos) rs = accepts_on-rejections c mos rs
accepts_on-rejections c (rekey_modal r ∷ mos) rs = accepts_on-rejections c mos rs
accepts_on-rejections c (enroll_form e ∷ mos) rs = accepts_on-rejections c mos rs
accepts_on-rejections c (enroll_result ∷ mos) rs = accepts_on-rejections c mos rs
accepts_on-rejections c (progress a b ∷ mos) rs = accepts_on-rejections c mos rs

module _ {I : Type 0} (inputs : Inputs I) (lower : Text → Text) (c : ℕ) where
  accepts-done_at :
      (r : Option (List (Modal I) × List (Modal I)))
      → (e : Option ActionError) → (m : Model I)
      → accepts_on c (done_at inputs lower r e m).0.replies ≡ accepts_on c m.replies
  unfolding retry settle_action start_action
  accepts-done_at none e m = refl
  accepts-done_at (some (dropped, below)) e m =
      ground (arith, accepts_on-rejections c dropped m.replies)

  -- a message adds an acceptance on a channel exactly if it is the key y or Y and the overlay on top asks
  -- for a host key on that channel; no other message, and no other overlay, accepts a host key.
  pub host_key_needs_yes :
      (msg : Msg)
      → (m : Model I)
      → accepts_on c (update inputs lower msg m).0.replies
        ≡ (if confirms c msg m then 1 else 0) + accepts_on c m.replies
  unfolding update reloaded handle_pass_prompt handle_host_key_prompt handle_action_done accepts_on
      confirms
  host_key_needs_yes (key_msg key) m = accepts-update_key inputs lower c key m
  host_key_needs_yes (reloaded_msg none) m = ground arith
  host_key_needs_yes (reloaded_msg (some d)) m = ground arith
  host_key_needs_yes (health_msg seq) m = ground arith
  host_key_needs_yes (probe_tick_msg gen) m = ground arith
  host_key_needs_yes (action_event_msg gen) m = ground arith
  host_key_needs_yes (pass_prompt_msg gen d) m = ground arith
  host_key_needs_yes (host_key_prompt_msg gen a b d) m = ground arith
  host_key_needs_yes (action_done_msg gen e) m =
      ground (arith, accepts-done_at (progress_index m.modals) e m)
  host_key_needs_yes other_msg m = ground arith
