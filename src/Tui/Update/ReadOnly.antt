-- ===== src/Tui/Update/ReadOnly.antt =====
-- internal/tui/model.go: the keys when nothing may be changed.
use certhold.Base.{
  ◌+◌, Text, Bool, true, false, Option, none, some, List, [], ◌∷◌, if◌then◌else◌, ◌≡◌, refl, ◌∙◌,
  arith,
}
use certhold.Tui.{Inputs}
use certhold.Tui.Start.{
  start_edit_groups, start_revoke, start_remove, start_edit_address, start_make_client,
  start_edit_allowed, start_create_group, start_rename_group, start_delete_group,
  start_group_membership, start_rekey, start_enroll, start_reenroll,
}
use certhold.Tui.State.{Model, Cmd, mutations_enabled}
use certhold.Tui.Update.{update_key, press_all, handle_key, open_key, looked}
use certhold.Tui.Update.Look.{Untouched, KeptIf, KeptIf-look, Untouched-filter, same}

Untouched-then : {I : Type 0} → (m v w : Model I) → Untouched m v → Untouched v w → Untouched m w
Untouched-then m v w (a, b, c, d, e, f) (a', b', c', d', e', f') =
    (a' ∙ a, b' ∙ b, c' ∙ c, d' ∙ d, e' ∙ e, f' ∙ f)

if_both :
    {I : Type 0}
    → (m : Model I) → (b : Bool) → (v w : Model I × Cmd) → Untouched m v.0
    → Untouched m w.0
    → Untouched m (if b then v else w).0
if_both m true v w h k = h
if_both m false v w h k = k

module _ {I : Type 0} (inputs : Inputs I) (lower : Text → Text) (m : Model I) where
  module _ (off : mutations_enabled m ≡ false) where
    start_revoke-off : start_revoke inputs lower m ≡ m
    unfolding start_revoke
    start_revoke-off = rw off

    start_remove-off : start_remove inputs lower m ≡ m
    unfolding start_remove
    start_remove-off = rw off

    start_group_membership-off : start_group_membership inputs lower m ≡ m
    unfolding start_group_membership
    start_group_membership-off = rw off

    start_edit_groups-off : start_edit_groups inputs lower m ≡ m
    unfolding start_edit_groups
    start_edit_groups-off = rw off

    start_edit_address-off : start_edit_address inputs lower m ≡ m
    unfolding start_edit_address
    start_edit_address-off = rw off

    start_make_client-off : start_make_client inputs lower m ≡ m
    unfolding start_make_client
    start_make_client-off = rw off

    start_edit_allowed-off : start_edit_allowed inputs lower m ≡ m
    unfolding start_edit_allowed
    start_edit_allowed-off = rw off

    start_create_group-off : start_create_group inputs lower m ≡ m
    unfolding start_create_group
    start_create_group-off = rw off

    start_rename_group-off : start_rename_group inputs lower m ≡ m
    unfolding start_rename_group
    start_rename_group-off = rw off

    start_delete_group-off : start_delete_group inputs lower m ≡ m
    unfolding start_delete_group
    start_delete_group-off = rw off

    start_rekey-off : start_rekey inputs lower m ≡ m
    unfolding start_rekey
    start_rekey-off = rw off

    start_enroll-off : start_enroll inputs lower m ≡ m
    unfolding start_enroll
    start_enroll-off = rw off

    start_reenroll-off : start_reenroll inputs lower m ≡ m
    unfolding start_reenroll
    start_reenroll-off = rw off

    open_key-off : (key : Text) → open_key inputs lower key m ≡ m
    unfolding open_key
    open_key-off key = ground arith

    Untouched-forget :
        Untouched m (if mutations_enabled m then record m { forgotten = m.forgotten + 1 } else m)
    Untouched-forget = rw off (refl, refl, refl, refl, refl, off)

    Untouched-looked :
        (r : Option (Model I × Cmd))
        → (o : Model I) → o ≡ m
        → KeptIf (Untouched m) r
        → Untouched m (looked inputs lower r o).0
    unfolding KeptIf
    Untouched-looked none o e h = rw e (same inputs lower m)
    Untouched-looked (some v) o e h = h

    Untouched-handle : (key : Text) → Untouched m (handle_key inputs lower key m).0
    unfolding handle_key
    Untouched-handle key = if_both m m.filtering _ _ (Untouched-filter inputs lower m key) (
        Untouched-looked _ _ (open_key-off key)
          (KeptIf-look inputs lower m (Untouched m) (λ v h. h) Untouched-forget key))

module _ {I : Type 0} (inputs : Inputs I) (lower : Text → Text) where
  update_key-none :
      (key : Text)
      → (m : Model I) → m.modals ≡ []
      → update_key inputs lower key m ≡ handle_key inputs lower key (record m { notice = none })
  unfolding update_key
  update_key-none key m none_open = rw none_open

  Untouched-update :
      (key : Text)
      → (m : Model I) → mutations_enabled m ≡ false
      → m.modals ≡ []
      → Untouched m (update_key inputs lower key m).0
  unfolding mutations_enabled
  Untouched-update key m off none_open =
      rw (update_key-none key m none_open)
        (Untouched-handle inputs lower (record m { notice = none }) off key)

  -- with no overlay open and mutations disabled, no sequence of keys opens an overlay, starts an action,
  -- answers a prompt, forgets a passphrase or enables mutations.
  pub read_only_keys :
      (keys : List Text)
      → (m : Model I) → mutations_enabled m ≡ false
      → m.modals ≡ []
      → Untouched m (press_all inputs lower keys m)
  read_only_keys [] m off none_open = same inputs lower m
  read_only_keys (key ∷ keys) m off none_open =
      let first = Untouched-update key m off none_open in
      let later =
        read_only_keys keys (update_key inputs lower key m).0 (first.5 ∙ off)
          (first.0 ∙ none_open) in
      Untouched-then m _ _ first later
