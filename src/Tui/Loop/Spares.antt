-- ===== src/Tui/Loop/Spares.antt =====
-- internal/tui: no key opens an overlay against the reserved group.
use certhold.Base.{Text, arith}
use certhold.Tui.{Inputs}
use certhold.Tui.State.{Model}
use certhold.Tui.Start.{
  start_edit_groups, start_revoke, start_remove, start_edit_address, start_make_client,
  start_edit_allowed, start_create_group, start_rename_group, start_delete_group,
  start_group_membership, start_rekey, start_enroll, start_reenroll,
}
use certhold.Tui.Update.{open_key}
use certhold.Tui.Loop.Guarded.{modal_guarded, modals_guarded, Guarded}

module _ {I : Type 0} (inputs : Inputs I) (lower : Text → Text) (m : Model I) (h : Guarded m) where
  Guarded-start_edit_groups : Guarded (start_edit_groups inputs lower m)
  unfolding start_edit_groups modals_guarded modal_guarded
  Guarded-start_edit_groups = ground arith

  Guarded-start_revoke : Guarded (start_revoke inputs lower m)
  unfolding start_revoke modals_guarded modal_guarded
  Guarded-start_revoke = ground arith

  Guarded-start_remove : Guarded (start_remove inputs lower m)
  unfolding start_remove modals_guarded modal_guarded
  Guarded-start_remove = ground arith

  Guarded-start_edit_address : Guarded (start_edit_address inputs lower m)
  unfolding start_edit_address modals_guarded modal_guarded
  Guarded-start_edit_address = ground arith

  Guarded-start_make_client : Guarded (start_make_client inputs lower m)
  unfolding start_make_client modals_guarded modal_guarded
  Guarded-start_make_client = ground arith

  Guarded-start_edit_allowed : Guarded (start_edit_allowed inputs lower m)
  unfolding start_edit_allowed modals_guarded modal_guarded
  Guarded-start_edit_allowed = ground arith

  Guarded-start_create_group : Guarded (start_create_group inputs lower m)
  unfolding start_create_group modals_guarded modal_guarded
  Guarded-start_create_group = ground arith

  Guarded-start_rename_group : Guarded (start_rename_group inputs lower m)
  unfolding start_rename_group modals_guarded modal_guarded
  Guarded-start_rename_group = ground arith

  Guarded-start_delete_group : Guarded (start_delete_group inputs lower m)
  unfolding start_delete_group modals_guarded modal_guarded
  Guarded-start_delete_group = ground arith

  Guarded-start_group_membership : Guarded (start_group_membership inputs lower m)
  unfolding start_group_membership modals_guarded modal_guarded
  Guarded-start_group_membership = ground arith

  Guarded-start_rekey : Guarded (start_rekey inputs lower m)
  unfolding start_rekey modals_guarded modal_guarded
  Guarded-start_rekey = ground arith

  Guarded-start_enroll : Guarded (start_enroll inputs lower m)
  unfolding start_enroll modals_guarded modal_guarded
  Guarded-start_enroll = ground arith

  Guarded-start_reenroll : Guarded (start_reenroll inputs lower m)
  unfolding start_reenroll modals_guarded modal_guarded
  Guarded-start_reenroll = ground arith

  pub Guarded-open_key : (key : Text) → Guarded (open_key inputs lower key m)
  unfolding open_key
  Guarded-open_key key = ground (
    arith, Guarded-start_edit_groups, Guarded-start_revoke, Guarded-start_remove,
    Guarded-start_edit_address, Guarded-start_make_client, Guarded-start_edit_allowed,
    Guarded-start_create_group, Guarded-start_rename_group, Guarded-start_delete_group,
    Guarded-start_group_membership, Guarded-start_rekey, Guarded-start_enroll,
    Guarded-start_reenroll,
  )
