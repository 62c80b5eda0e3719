-- ===== src/Tui/Loop/Opens.antt =====
-- internal/tui: a key that opens an overlay answers nothing and drops nothing.
use certhold.Base.{ℕ, Text, ◌≡◌, arith}
use certhold.Tui.{Inputs}
use certhold.Tui.State.{Model}
use certhold.Tui.Start.{
  start_edit_groups, start_revoke, start_remove, start_edit_address, start_make_client,
  start_edit_allowed, start_create_group, start_rename_group, start_delete_group,
  start_group_membership, start_rekey, start_enroll, start_reenroll,
}
use certhold.Tui.Update.{open_key}
use certhold.Tui.Loop.Uses.{channel_of, hits, waiting_on, uses}

module _ {I : Type 0} (inputs : Inputs I) (lower : Text → Text) (c : ℕ) (m : Model I) where
  uses-start_edit_groups : uses c (start_edit_groups inputs lower m) ≡ uses c m
  unfolding start_edit_groups uses waiting_on channel_of hits
  uses-start_edit_groups = ground arith

  uses-start_revoke : uses c (start_revoke inputs lower m) ≡ uses c m
  unfolding start_revoke uses waiting_on channel_of hits
  uses-start_revoke = ground arith

  uses-start_remove : uses c (start_remove inputs lower m) ≡ uses c m
  unfolding start_remove uses waiting_on channel_of hits
  uses-start_remove = ground arith

  uses-start_edit_address : uses c (start_edit_address inputs lower m) ≡ uses c m
  unfolding start_edit_address uses waiting_on channel_of hits
  uses-start_edit_address = ground arith

  uses-start_make_client : uses c (start_make_client inputs lower m) ≡ uses c m
  unfolding start_make_client uses waiting_on channel_of hits
  uses-start_make_client = ground arith

  uses-start_edit_allowed : uses c (start_edit_allowed inputs lower m) ≡ uses c m
  unfolding start_edit_allowed uses waiting_on channel_of hits
  uses-start_edit_allowed = ground arith

  uses-start_create_group : uses c (start_create_group inputs lower m) ≡ uses c m
  unfolding start_create_group uses waiting_on channel_of hits
  uses-start_create_group = ground arith

  uses-start_rename_group : uses c (start_rename_group inputs lower m) ≡ uses c m
  unfolding start_rename_group uses waiting_on channel_of hits
  uses-start_rename_group = ground arith

  uses-start_delete_group : uses c (start_delete_group inputs lower m) ≡ uses c m
  unfolding start_delete_group uses waiting_on channel_of hits
  uses-start_delete_group = ground arith

  uses-start_group_membership : uses c (start_group_membership inputs lower m) ≡ uses c m
  unfolding start_group_membership uses waiting_on channel_of hits
  uses-start_group_membership = ground arith

  uses-start_rekey : uses c (start_rekey inputs lower m) ≡ uses c m
  unfolding start_rekey uses waiting_on channel_of hits
  uses-start_rekey = ground arith

  uses-start_enroll : uses c (start_enroll inputs lower m) ≡ uses c m
  unfolding start_enroll uses waiting_on channel_of hits
  uses-start_enroll = ground arith

  uses-start_reenroll : uses c (start_reenroll inputs lower m) ≡ uses c m
  unfolding start_reenroll uses waiting_on channel_of hits
  uses-start_reenroll = ground arith

  pub uses-open_key : (key : Text) → uses c (open_key inputs lower key m) ≡ uses c m
  unfolding open_key
  uses-open_key key = ground (
    arith, uses-start_edit_groups, uses-start_revoke, uses-start_remove, uses-start_edit_address,
    uses-start_make_client, uses-start_edit_allowed, uses-start_create_group,
    uses-start_rename_group, uses-start_delete_group, uses-start_group_membership, uses-start_rekey,
    uses-start_enroll, uses-start_reenroll,
  )
