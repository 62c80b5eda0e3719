-- ===== src/Tui/Loop/Bounds.antt =====
-- internal/tui/model.go: the selections stay within what is shown.
use certhold.Base.{
  ℕ, ◌+◌, ◌-◌, ◌≤◌, Text, text, Bool, true, false, not, ◌||◌, ◌==◌, is_empty, Option, none, some,
  List, [], ◌∷◌, length, nat_eq, if◌then◌else◌, ◌≡◌, refl, arith,
}
use certhold.Tui.{Inputs}
use certhold.Tui.Rows.{clamp}
use certhold.Tui.Modal.{Modal, handle}
use certhold.Tui.Start.{toggle_mark}
use certhold.Tui.State.{
  Model, View, view_peers, view_groups, view_status, view_net, is_view, Cmd, no_cmd, quit,
  shown_peers, shown_groups, selected_peer,
}
use certhold.Tui.Messages.{
  done_at, reloaded, handle_pass_prompt, handle_host_key_prompt, progress_index, handle_action_done,
}
use certhold.Tui.Browse.{
  index_of, or_same, moved, entered, bounded, clamp_selection, close_detail, move, start_sweep,
  go_to, filter_key, cleared_filter, ended_filter, typed_filter, escape_key, unfiltered, slashed,
  slash_key, look_key,
}
use certhold.Tui.Update.{open_key, looked, handle_key, handled, modal_key, update_key}
use certhold.Tui.Update.Look.{Looks, KeptIf, KeptIf-each}
use certhold.Tui.Loop.{
  Msg, key_msg, reloaded_msg, health_msg, probe_tick_msg, action_event_msg, pass_prompt_msg,
  host_key_prompt_msg, action_done_msg, other_msg, update, update_all,
}
use certhold.Tui.Loop.Rows.{SameRows, SameRows-open_key, SameRows-handled, SameRows-done_at}

index_of_within :
    {A : Type 0}
    → (p : A → Bool) → (xs : List A) → (i j : ℕ) → index_of p xs i ≡ some j
    → j + 1 ≤ i + length xs
index_of_within p [] i j h = cc h
index_of_within p (x ∷ xs) i j h = ground (arith, index_of_within p xs (i + 1) j)

module _ {I : Type 0} (inputs : Inputs I) (lower : Text → Text) where
  -- The selections are rows of the tables, or 0 where a table is empty.
  abbrev pub InBounds : Model I → Type 0
  InBounds m =
      (m.peer_idx ≤ length (shown_peers lower m) - 1)
      × (m.group_idx ≤ length (shown_groups lower m) - 1)
      × (m.net_idx ≤ length m.data_rows.peers - 1)

  in_if :
      (b : Bool)
      → (v w : Model I × Cmd) → InBounds v.0
      → InBounds w.0
      → InBounds (if b then v else w).0
  in_if true v w h k = h
  in_if false v w h k = k

  either : (b : Bool) → (v w : Model I) → InBounds v → InBounds w → InBounds (if b then v else w)
  either true v w h k = h
  either false v w h k = k

  bounded_within : (i n : ℕ) → bounded i n ≤ n - 1
  unfolding clamp
  bounded_within i n = ground arith

  InBounds-clamp : (m : Model I) → InBounds (clamp_selection inputs lower m)
  unfolding clamp_selection
  InBounds-clamp m = (bounded_within _ _, bounded_within _ _, bounded_within _ _)

  pinned_within :
      (o : Option ℕ)
      → (i n : ℕ) → ((j : ℕ) → o ≡ some j → j + 1 ≤ n)
      → i ≤ n - 1
      → or_same inputs lower o i ≤ n - 1
  pinned_within none i n h k = k
  pinned_within (some j) i n h k = omega (arith, h j refl)

  InBounds-close_detail : (m : Model I) → InBounds m → InBounds (close_detail inputs lower m)
  unfolding close_detail
  InBounds-close_detail m h =
      let k =
        pinned_within (index_of (λ p. p.name == m.detail_name) (shown_peers lower m) 0) m.peer_idx
          (length (shown_peers lower m))
          (λ j e.
            ground
              (arith, index_of_within (λ p. p.name == m.detail_name) (shown_peers lower m) 0 j e))
          h.0 in
      (ground (arith, k, h.0), h.1, h.2)

  InBounds-Same : (m v : Model I) → InBounds m → SameRows m v → InBounds v
  InBounds-Same m v h (a, b, c, d, e) = (rw (a, b, c) h.0, rw (a, b, d) h.1, rw (a, e) h.2)

  InBounds-entered : (m : Model I) → InBounds m → (v : View) → InBounds (entered inputs lower v m).0
  InBounds-entered m h view_peers = h
  InBounds-entered m h view_groups = h
  InBounds-entered m h view_status = ground arith
  InBounds-entered m h view_net = ground arith

  module _ (m : Model I) (h : InBounds m) where
    InBounds-entered_at : (v : View) → InBounds (go_to inputs lower v m).0
    InBounds-entered_at v =
        InBounds-entered (close_detail inputs lower (record m { view = v }))
          (InBounds-close_detail (record m { view = v }) h) v

    InBounds-moved : (v : View) → (down : Bool) → InBounds (moved inputs lower v down m)
    InBounds-moved view_peers down = (bounded_within _ _, h.1, h.2)
    InBounds-moved view_groups down = (h.0, bounded_within _ _, h.2)
    InBounds-moved view_net down = (h.0, h.1, bounded_within _ _)
    InBounds-moved view_status down = h

    InBounds-cleared : InBounds (cleared_filter inputs lower m)
    unfolding cleared_filter clamp_selection
    InBounds-cleared = (bounded_within _ _, bounded_within _ _, bounded_within _ _)

    InBounds-ended : InBounds (ended_filter inputs lower m)
    unfolding ended_filter clamp_selection
    InBounds-ended = (bounded_within _ _, bounded_within _ _, bounded_within _ _)

    InBounds-typed : (key : Text) → InBounds (typed_filter inputs lower key m)
    unfolding typed_filter clamp_selection
    InBounds-typed key = (bounded_within _ _, bounded_within _ _, bounded_within _ _)

    InBounds-filter_key : (key : Text) → InBounds (filter_key inputs lower key m).0
    unfolding filter_key
    InBounds-filter_key key =
        in_if (key == text "ctrl+c") (m, quit) _ h
          (in_if (key == text "esc") (cleared_filter inputs lower m, no_cmd) _ InBounds-cleared
            (in_if (key == text "enter") (ended_filter inputs lower m, no_cmd)
              (typed_filter inputs lower key m, no_cmd) InBounds-ended (InBounds-typed key)))

    InBounds-unfiltered : InBounds (unfiltered inputs lower m)
    unfolding unfiltered clamp_selection
    InBounds-unfiltered = (bounded_within _ _, bounded_within _ _, bounded_within _ _)

    InBounds-escape : InBounds (escape_key inputs lower m)
    unfolding escape_key
    InBounds-escape = either m.detail (close_detail inputs lower m) _ (InBounds-close_detail m h) (
        either (not (is_empty (m.filters m.view))) (unfiltered inputs lower m)
          (record m { marks = [] }) InBounds-unfiltered h)

    InBounds-slash : InBounds (slash_key inputs lower m)
    InBounds-slash =
        let closes = InBounds-close_detail (record m { filtering = true }) h in
        either (is_view m.view view_status || is_view m.view view_net) m (slashed inputs lower m) h
          closes

    looks : Looks inputs lower m InBounds
    unfolding move toggle_mark selected_peer
    looks = record {
      stays = h;
      goes = λ v. InBounds-entered_at v;
      probes = in_if (is_view m.view view_net) (start_sweep inputs lower m) (m, no_cmd) h h;
      pauses = ground arith;
      moves = λ down.
          either m.detail m (moved inputs lower m.view down m) h (InBounds-moved m.view down);
      enters = ground arith;
      escapes = InBounds-escape;
      marks_row = ground arith;
      filters_rows = InBounds-slash;
      refreshes = ground arith;
      forgets = ground arith;
    }

  InBounds-looked :
      (r : Option (Model I × Cmd))
      → (v : Model I) → InBounds v
      → KeptIf InBounds r
      → InBounds (looked inputs lower r v).0
  unfolding KeptIf
  InBounds-looked none v h k = h
  InBounds-looked (some w) v h k = k

  InBounds-handle_key :
      (m : Model I) → InBounds m → (key : Text) → InBounds (handle_key inputs lower key m).0
  unfolding handle_key
  InBounds-handle_key m h key =
      let opens =
        InBounds-Same m (open_key inputs lower key m) h (SameRows-open_key inputs lower m key) in
      in_if m.filtering (filter_key inputs lower key m)
        (looked inputs lower (look_key inputs lower key m) (open_key inputs lower key m))
        (InBounds-filter_key m h key)
        (InBounds-looked (look_key inputs lower key m) (open_key inputs lower key m) opens
          (KeptIf-each inputs lower m InBounds (looks m h) key))

  InBounds-modal_key :
      (mos : List (Modal I))
      → (m : Model I) → InBounds m
      → (key : Text) → InBounds (modal_key inputs lower mos key m).0
  InBounds-modal_key [] m h key = InBounds-handle_key m h key
  InBounds-modal_key (top ∷ below) m h key =
      let after = handled inputs lower (handle inputs key top) m in
      in_if (key == text "ctrl+c") (m, quit) after h
        (InBounds-Same m after.0 h
          (SameRows-handled inputs lower (handle inputs key top).1 (handle inputs key top).0 m))

  InBounds-update :
      (msg : Msg) → (m : Model I) → InBounds m → InBounds (update inputs lower msg m).0
  unfolding update update_key reloaded handle_pass_prompt handle_host_key_prompt handle_action_done
      clamp_selection
  InBounds-update (key_msg key) m h = InBounds-modal_key m.modals (record m { notice = none }) h key
  InBounds-update (reloaded_msg none) m h = h
  InBounds-update (reloaded_msg (some d)) m h =
      (bounded_within _ _, bounded_within _ _, bounded_within _ _)
  InBounds-update (health_msg seq) m h = ground arith
  InBounds-update (probe_tick_msg gen) m h = ground arith
  InBounds-update (action_event_msg gen) m h = h
  InBounds-update (pass_prompt_msg gen d) m h = ground arith
  InBounds-update (host_key_prompt_msg gen a b d) m h = ground arith
  InBounds-update (action_done_msg gen e) m h =
      let after = done_at inputs lower (progress_index m.modals) e m in
      in_if (nat_eq gen m.action_gen) after (m, no_cmd)
        (InBounds-Same m after.0 h (SameRows-done_at inputs lower (progress_index m.modals) e m)) h
  InBounds-update other_msg m h = h

  -- where the selections are within the tables that are shown (at 0 in an empty one), they are after any
  -- sequence of messages: keys that move, filter and change the view, rows that are read anew, overlays
  -- and actions.
  pub update_all-InBounds :
      (msgs : List Msg) → (m : Model I) → InBounds m → InBounds (update_all inputs lower msgs m)
  update_all-InBounds [] m h = h
  update_all-InBounds (msg ∷ msgs) m h =
      update_all-InBounds msgs (update inputs lower msg m).0 (InBounds-update msg m h)
