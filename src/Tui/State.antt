-- ===== src/Tui/State.antt =====
-- internal/tui/model.go: the state of the interface, and what it asks to be run.
use certhold.Base.{
  ℕ, ◌+◌, ◌-◌, Text, Bool, true, false, not, ◌&&◌, Option, some, List, [], ◌∷◌, length, get_elem?,
  if◌then◌else◌,
}
use certhold.Ops.Enroll.{EnrollSpec}
use certhold.Tui.{PeerRow, GroupRow, FleetData}
use certhold.Tui.Rows.{clamp, MembershipDelta}
use certhold.Tui.Filter.{filtered_peers, filtered_groups}
use certhold.Tui.Modal.{Modal, progress}

pub data View : Type 0 where
  view_peers view_groups view_status view_net : View

-- `batchKind`
pub data BatchKind : Type 0 where
  batch_none batch_revoke batch_edit_groups batch_members batch_remove : BatchKind

-- What the closures `run` call, with their arguments; the host name is the model's.
pub data Action : Type 0 where
  run_update_peer : Text → List Text → Action
  run_revoke_peer run_remove_peer run_make_client run_group_create run_group_delete : Text → Action
  run_group_rename : Text → Text → Action
  run_set_peer_allowed_groups : Text → List Text → Action
  run_set_peer_address : Text → Text → Action
  run_rekey_fleet : Bool → Action
  run_mint_enroll : EnrollSpec → Action
  run_update_members : List MembershipDelta → Action
  -- the batches, over their targets
  run_revokes run_removes : List Text → Action
  run_updates : List MembershipDelta → Action

-- What is sent on a reply channel.
pub data Reply : Type 0 where
  passphrase_given : Text → Reply
  passphrase_canceled host_key_accepted host_key_refused host_key_rejected : Reply

-- The flash in the footer.
pub data Notice : Type 0 where
  reserved_group own_row revoked_row : Notice

-- The reason for what is run after an update; actions are started by `start_action`.
pub data Cmd : Type 0 where
  no_cmd quit reload health_check sweep wait_passphrase wait_host_key wait_event : Cmd
  reload_and_health : Cmd
  run : Action → Cmd

-- `Model`. The newest overlay stands first; `filters` and `marks` are maps; `outcome` is the holder of
-- a batch, and what its worker stored; `replies` is what `Update` sent on the reply channels.
pub record Model (I : Type 0) : Type 0 where
  pub data_rows : FleetData
  pub load_failed : Bool
  pub view : View
  pub detail : Bool
  pub detail_name : Text
  pub peer_idx : ℕ
  pub group_idx : ℕ
  pub net_idx : ℕ
  pub health_seq : ℕ
  pub serve_known : Bool
  pub probe_gen : ℕ
  pub probe_paused : Bool
  pub filtering : Bool
  pub filter_input : I
  pub filters : View → Text
  pub notice : Option Notice
  pub read_only : Bool
  pub has_action : Bool
  pub hostname : Text
  pub modals : List (Modal I)
  pub action_gen : ℕ
  pub last_run : Option Action
  pub forgotten : ℕ
  pub enroll_pending : Bool
  pub enroll_result : Bool
  pub marks : List Text
  pub batch_kind : BatchKind
  pub outcome : Option (Option (List Text))
  pub replies : List (ℕ × Reply)

abbrev pub is_view : View → View → Bool
is_view view_peers view_peers = true
is_view view_groups view_groups = true
is_view view_status view_status = true
is_view view_net view_net = true
is_view _ _ = false

abbrev pub set_filter : View → Text → (View → Text) → View → Text
set_filter v q f u = if is_view u v then q else f u

module _ {I : Type 0} where
  -- `mutationsEnabled`
  unfoldable pub mutations_enabled : Model I → Bool
  mutations_enabled m = not m.read_only && m.has_action

  -- `pushModal`, `popModal`, `replaceTop`
  abbrev pub push_modal : Modal I → Model I → Model I
  push_modal mo m = record m { modals = mo ∷ m.modals }

  abbrev dropped : List (Modal I) → List (Modal I)
  dropped [] = []
  dropped (mo ∷ mos) = mos

  abbrev pub pop_modal : Model I → Model I
  pop_modal m = record m { modals = dropped m.modals }

  abbrev swapped : Modal I → List (Modal I) → List (Modal I)
  swapped mo [] = []
  swapped mo (top ∷ mos) = mo ∷ mos

  abbrev pub replace_top : Modal I → Model I → Model I
  replace_top mo m = record m { modals = swapped mo m.modals }

  -- `startAction`, with the generation that `runActionCmd` opens.
  unfoldable pub start_action : Action → Model I → Model I × Cmd
  start_action a m = (
    record m {
      last_run = some a;
      modals = progress false false ∷ m.modals;
      action_gen = m.action_gen + 1;
    },
    run a,
  )

module _ {I : Type 0} (lower : Text → Text) where
  abbrev pub shown_peers : Model I → List PeerRow
  shown_peers m = filtered_peers lower (m.filters view_peers) m.data_rows.peers

  abbrev pub shown_groups : Model I → List GroupRow
  shown_groups m = filtered_groups lower (m.filters view_groups) m.data_rows.groups

  -- `selectedPeer`, `selectedGroup`
  unfoldable pub selected_peer : Model I → Option PeerRow
  unfolding clamp filtered_peers
  selected_peer m = get_elem? (shown_peers m) (clamp m.peer_idx (length (shown_peers m) - 1))

  unfoldable pub selected_group : Model I → Option GroupRow
  unfolding clamp filtered_groups
  selected_group m = get_elem? (shown_groups m) (clamp m.group_idx (length (shown_groups m) - 1))
