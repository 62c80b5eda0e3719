-- ===== src/Tui/Browse.antt =====
-- internal/tui/model.go: the keys that look around.
use certhold.Base.{
  ℕ, ◌+◌, ◌-◌, Text, text, Bool, true, false, not, ◌&&◌, ◌||◌, ◌==◌, Option, none, some, List, [],
  ◌∷◌, is_empty, length, if◌then◌else◌,
}
use certhold.Tui.{PeerRow, Inputs}
use certhold.Tui.Rows.{clamp}
use certhold.Tui.Start.{toggle_mark}
use certhold.Tui.State.{
  Model, View, view_peers, view_groups, view_status, view_net, is_view, set_filter, Cmd, no_cmd,
  quit, reload, health_check, sweep, reload_and_health, mutations_enabled, shown_peers,
  shown_groups, selected_peer,
}

-- The place of the first row that passes the test, from `i` on.
abbrev pub index_of : {A : Type 0} → (A → Bool) → List A → ℕ → Option ℕ
index_of p [] i = none
index_of p (x ∷ xs) i = let rest = index_of p xs (i + 1) in if p x then some i else rest

-- The bound of a selection, as the three branches of `clampSelection` and of `move` take it.
abbrev pub bounded : ℕ → ℕ → ℕ
bounded i n = clamp i (n - 1)

-- The view after a view, as the key tab goes.
abbrev pub next_view : View → View
next_view view_peers = view_groups
next_view view_groups = view_status
next_view view_status = view_net
next_view view_net = view_peers

module _ {I : Type 0} (inputs : Inputs I) (lower : Text → Text) where
  -- `clampSelection`
  unfoldable pub clamp_selection : Model I → Model I
  unfolding clamp
  clamp_selection m = record m {
    peer_idx = bounded m.peer_idx (length (shown_peers lower m));
    group_idx = bounded m.group_idx (length (shown_groups lower m));
    net_idx = bounded m.net_idx (length m.data_rows.peers);
  }

  abbrev pub or_same : Option ℕ → ℕ → ℕ
  or_same none i = i
  or_same (some j) i = j

  -- `closeDetail`
  unfoldable pub close_detail : Model I → Model I
  close_detail m =
      let pinned = index_of (λ p. p.name == m.detail_name) (shown_peers lower m) 0 in
      record m {
        peer_idx =
            if m.detail && not (is_empty m.detail_name)
            then or_same pinned m.peer_idx
            else m.peer_idx;
        detail = false;
        detail_name = [];
      }

  -- `move`
  abbrev pub moved : View → Bool → Model I → Model I
  moved view_peers down m = record m {
    peer_idx =
        bounded (if down then m.peer_idx + 1 else m.peer_idx - 1) (length (shown_peers lower m));
  }
  moved view_groups down m = record m {
    group_idx =
        bounded (if down then m.group_idx + 1 else m.group_idx - 1) (length (shown_groups lower m));
  }
  moved view_net down m = record m {
    net_idx = bounded (if down then m.net_idx + 1 else m.net_idx - 1) (length m.data_rows.peers);
  }
  moved view_status down m = m

  unfoldable pub move : Bool → Model I → Model I
  unfolding clamp
  move down m = if m.detail then m else moved m.view down m

  -- `startSweep`, `healthCmd`
  abbrev pub start_sweep : Model I → Model I × Cmd
  start_sweep m = (record m { probe_gen = m.probe_gen + 1 }, sweep)

  abbrev start_health : Model I → Model I × Cmd
  start_health m =
      if is_empty m.data_rows.base_url
      then (m, no_cmd)
      else (record m { health_seq = m.health_seq + 1; serve_known = false }, health_check)

  -- `enterNetCmd`
  abbrev enter_net : Model I → Model I × Cmd
  enter_net m = if m.probe_paused then (m, no_cmd) else start_sweep m

  abbrev pub entered : View → Model I → Model I × Cmd
  entered view_peers m = (m, no_cmd)
  entered view_groups m = (m, no_cmd)
  entered view_status m = start_health m
  entered view_net m = enter_net m

  -- The keys that change the view.
  abbrev pub go_to : View → Model I → Model I × Cmd
  go_to v m = entered v (close_detail (record m { view = v }))

  -- What the keys esc and enter, and the others, do with the filter that is edited.
  unfoldable pub cleared_filter : Model I → Model I
  unfolding clamp_selection
  cleared_filter m = clamp_selection (record m {
    filtering = false;
    filter_input = inputs.set_value m.filter_input [];
    filters = set_filter m.view [] m.filters;
  })

  unfoldable pub ended_filter : Model I → Model I
  unfolding clamp_selection
  ended_filter m = clamp_selection (record m { filtering = false })

  unfoldable pub typed_filter : Text → Model I → Model I
  unfolding clamp_selection
  typed_filter key m =
      let typed = inputs.press m.filter_input key in
      clamp_selection (record m {
        filter_input = typed;
        filters = set_filter m.view (inputs.value typed) m.filters;
      })

  -- A key while the filter is edited.
  unfoldable pub filter_key : Text → Model I → Model I × Cmd
  unfolding cleared_filter ended_filter typed_filter
  filter_key key m =
      if key == text "ctrl+c"
      then (m, quit)
      else if key == text "esc"
      then (cleared_filter m, no_cmd)
      else if key == text "enter"
      then (ended_filter m, no_cmd)
      else (typed_filter key m, no_cmd)

  abbrev opened : Option PeerRow → Model I → Model I
  opened none m = m
  opened (some p) m = record m { detail = true; detail_name = p.name }

  -- The key enter.
  abbrev pub enter_key : Model I → Model I
  enter_key m = if is_view m.view view_peers then opened (selected_peer lower m) m else m

  -- The filter of the view is dropped.
  unfoldable pub unfiltered : Model I → Model I
  unfolding clamp_selection
  unfiltered m = clamp_selection (record m {
    filters = set_filter m.view [] m.filters;
    filter_input = inputs.set_value m.filter_input [];
  })

  -- The key esc.
  unfoldable pub escape_key : Model I → Model I
  unfolding close_detail unfiltered
  escape_key m =
      if m.detail
      then close_detail m
      else if not (is_empty (m.filters m.view))
      then unfiltered m
      else record m { marks = [] }

  -- The key /.
  abbrev pub slashed : Model I → Model I
  slashed m =
      let closed = close_detail (record m { filtering = true }) in
      record closed {
        filter_input = inputs.set_value closed.filter_input (closed.filters closed.view);
      }

  abbrev pub slash_key : Model I → Model I
  slash_key m = if is_view m.view view_status || is_view m.view view_net then m else slashed m

  abbrev pub pause_key : Model I → Model I × Cmd
  pause_key m =
      if not (is_view m.view view_net)
      then (m, no_cmd)
      else if m.probe_paused
      then start_sweep (record m { probe_paused = false })
      else (record m { probe_paused = true }, no_cmd)

  abbrev pub only : Model I → Model I × Cmd
  only m = (m, no_cmd)

  abbrev pub refresh : Model I → Model I × Cmd
  refresh m =
      if is_view m.view view_status then ((start_health m).0, reload_and_health) else (m, reload)

  -- `handleKey` outside of the filter, first the keys that look around.
  unfoldable pub look_key : Text → Model I → Option (Model I × Cmd)
  unfolding close_detail move escape_key selected_peer toggle_mark mutations_enabled
  look_key key m =
      if key == text "q" || key == text "ctrl+c"
      then some (m, quit)
      else if key == text "tab"
      then some (go_to (next_view m.view) m)
      else if key == text "1"
      then some (go_to view_peers m)
      else if key == text "2"
      then some (go_to view_groups m)
      else if key == text "3"
      then some (go_to view_status m)
      else if key == text "4"
      then some (go_to view_net m)
      else if key == text "P"
      then some (if is_view m.view view_net then start_sweep m else (m, no_cmd))
      else if key == text "p"
      then some (pause_key m)
      else if key == text "j" || key == text "down"
      then some (only (move true m))
      else if key == text "k" || key == text "up"
      then some (only (move false m))
      else if key == text "J"
      then some (m, no_cmd)
      else if key == text "enter"
      then some (only (enter_key m))
      else if key == text "esc"
      then some (only (escape_key m))
      else if key == text " "
      then some (
          only
            (if is_view m.view view_peers && not m.detail then toggle_mark inputs lower m else m))
      else if key == text "/"
      then some (only (slash_key m))
      else if key == text "r"
      then some (refresh m)
      else if key == text "ctrl+l"
      then some (only (if mutations_enabled m then record m { forgotten = m.forgotten + 1 } else m))
      else none
