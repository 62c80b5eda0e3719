-- ===== src/Tui/Update/Look.antt =====
-- internal/tui/model.go: the keys that look around open nothing and answer nothing.
use certhold.Base.{
  ◌+◌, Text, text, Bool, true, false, not, ◌&&◌, ◌||◌, ◌==◌, Option, none, some, if◌then◌else◌, ◌≡◌,
  refl, arith,
}
use certhold.Tui.{Inputs}
use certhold.Tui.Start.{toggle_mark}
use certhold.Tui.State.{
  Model, Cmd, no_cmd, quit, mutations_enabled, View, view_peers, view_groups, view_status, view_net,
  is_view, selected_peer,
}
use certhold.Tui.Browse.{
  filter_key, look_key, close_detail, move, escape_key, go_to, start_sweep, next_view, only,
  pause_key, enter_key, slash_key, refresh,
}

-- Nothing was opened, started, answered or forgotten.
abbrev pub Untouched : {I : Type 0} → Model I → Model I → Type 0
Untouched m v =
    (v.modals ≡ m.modals)
    × (v.last_run ≡ m.last_run)
    × (v.action_gen ≡ m.action_gen)
    × (v.replies ≡ m.replies)
    × (v.forgotten ≡ m.forgotten)
    × (mutations_enabled v ≡ mutations_enabled m)

-- A predicate of what a key leaves, if the key is known.
unfoldable pub KeptIf : {I : Type 0} → (Model I → Type 0) → Option (Model I × Cmd) → Type 0
KeptIf P none = Unit
KeptIf P (some v) = P v.0

KeptIf-if :
    {I : Type 0}
    → (P : Model I → Type 0) → (b : Bool) → (v : Model I × Cmd) → (rest : Option (Model I × Cmd))
    → P v.0
    → KeptIf P rest
    → KeptIf P (if b then some v else rest)
unfolding KeptIf
KeptIf-if P true v rest h k = h
KeptIf-if P false v rest h k = k

KeptIf-none : {I : Type 0} → (P : Model I → Type 0) → KeptIf P none
unfolding KeptIf
KeptIf-none P = tt

-- A predicate that each of the keys establishes.
pub record Looks {I : Type 0} (inputs : Inputs I) (lower : Text → Text) (m : Model I)
    (P : Model I → Type 0) : Type 0 where
  pub stays : P m
  pub goes : (v : View) → P (go_to inputs lower v m).0
  pub probes : P (if is_view m.view view_net then start_sweep inputs lower m else (m, no_cmd)).0
  pub pauses : P (pause_key inputs lower m).0
  pub moves : (down : Bool) → P (move inputs lower down m)
  pub enters : P (enter_key inputs lower m)
  pub escapes : P (escape_key inputs lower m)
  pub marks_row :
      P (if is_view m.view view_peers && not m.detail then toggle_mark inputs lower m else m)
  pub filters_rows : P (slash_key inputs lower m)
  pub refreshes : P (refresh inputs lower m).0
  pub forgets : P (if mutations_enabled m then record m { forgotten = m.forgotten + 1 } else m)

module _ {I : Type 0} (inputs : Inputs I) (lower : Text → Text) (m : Model I) where
  pub Untouched-filter : (key : Text) → Untouched m (filter_key inputs lower key m).0
  unfolding filter_key mutations_enabled
  Untouched-filter key = ground arith

  Untouched-close : Untouched m (close_detail inputs lower m)
  unfolding close_detail mutations_enabled
  Untouched-close = ground arith

  Untouched-move : (down : Bool) → Untouched m (move inputs lower down m)
  unfolding move mutations_enabled
  Untouched-move down = ground arith

  Untouched-escape : Untouched m (escape_key inputs lower m)
  unfolding escape_key mutations_enabled
  Untouched-escape = ground arith

  Untouched-toggle : Untouched m (toggle_mark inputs lower m)
  unfolding toggle_mark mutations_enabled
  Untouched-toggle = ground arith

  pub same : Untouched m m
  same = (refl, refl, refl, refl, refl, refl)

  Untouched-space :
      Untouched m
        (if is_view m.view view_peers && not m.detail then toggle_mark inputs lower m else m)
  unfolding toggle_mark mutations_enabled
  Untouched-space = ground arith

  Untouched-go : (v : View) → Untouched m (go_to inputs lower v m).0
  unfolding close_detail mutations_enabled
  Untouched-go v = ground arith

  Untouched-pause : Untouched m (pause_key inputs lower m).0
  unfolding mutations_enabled
  Untouched-pause = ground arith

  Untouched-probe :
      Untouched m (if is_view m.view view_net then start_sweep inputs lower m else (m, no_cmd)).0
  unfolding mutations_enabled
  Untouched-probe = ground arith

  Untouched-enter : Untouched m (enter_key inputs lower m)
  unfolding selected_peer mutations_enabled
  Untouched-enter = ground arith

  Untouched-slash : Untouched m (slash_key inputs lower m)
  unfolding close_detail mutations_enabled
  Untouched-slash = ground arith

  Untouched-refresh : Untouched m (refresh inputs lower m).0
  unfolding mutations_enabled
  Untouched-refresh = ground arith

  module _ (P : Model I → Type 0) (looks : Looks inputs lower m P) where
    pub KeptIf-each : (key : Text) → KeptIf P (look_key inputs lower key m)
    unfolding look_key
    KeptIf-each key =
        KeptIf-if P (key == text "q" || key == text "ctrl+c") (m, quit) _ looks.stays
          (KeptIf-if P (key == text "tab") (go_to inputs lower (next_view m.view) m) _
            (looks.goes (next_view m.view))
            (KeptIf-if P (key == text "1") (go_to inputs lower view_peers m) _
              (looks.goes view_peers)
              (KeptIf-if P (key == text "2") (go_to inputs lower view_groups m) _
                (looks.goes view_groups)
                (KeptIf-if P (key == text "3") (go_to inputs lower view_status m) _
                  (looks.goes view_status)
                  (KeptIf-if P (key == text "4") (go_to inputs lower view_net m) _
                    (looks.goes view_net)
                    (KeptIf-if P (key == text "P")
                      (if is_view m.view view_net then start_sweep inputs lower m else (m, no_cmd))
                      _ looks.probes
                      (KeptIf-if P (key == text "p") (pause_key inputs lower m) _ looks.pauses (
                        KeptIf-if P (key == text "j" || key == text "down")
                          (only inputs lower (move inputs lower true m)) _ (looks.moves true)
                          (KeptIf-if P (key == text "k" || key == text "up")
                            (only inputs lower (move inputs lower false m)) _ (looks.moves false)
                            (KeptIf-if P (key == text "J") (m, no_cmd) _ looks.stays
                              (KeptIf-if P (key == text "enter")
                                (only inputs lower (enter_key inputs lower m)) _ looks.enters
                                (KeptIf-if P (key == text "esc")
                                  (only inputs lower (escape_key inputs lower m)) _ looks.escapes
                                  (KeptIf-if P (key == text " ") _ _ looks.marks_row (
                                    KeptIf-if P (key == text "/")
                                      (only inputs lower (slash_key inputs lower m)) _
                                      looks.filters_rows
                                      (KeptIf-if P (key == text "r") (refresh inputs lower m) _
                                        looks.refreshes
                                        (KeptIf-if P (key == text "ctrl+l") _ _ looks.forgets
                                          (KeptIf-none P)))))))))))))))))

  module _ (P : Model I → Type 0) (from : (v : Model I) → Untouched m v → P v)
      (forget : P
        (if mutations_enabled m then record m { forgotten = m.forgotten + 1 } else m)) where
    pub KeptIf-look : (key : Text) → KeptIf P (look_key inputs lower key m)
    KeptIf-look key =
        KeptIf-each P
          (record {
            stays = from _ same;
            goes = λ v. from _ (Untouched-go v);
            probes = from _ Untouched-probe;
            pauses = from _ Untouched-pause;
            moves = λ down. from _ (Untouched-move down);
            enters = from _ Untouched-enter;
            escapes = from _ Untouched-escape;
            marks_row = from _ Untouched-space;
            filters_rows = from _ Untouched-slash;
            refreshes = from _ Untouched-refresh;
            forgets = forget;
          })
          key
