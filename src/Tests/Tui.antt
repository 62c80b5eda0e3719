-- ===== src/Tests/Tui.antt =====
-- internal/tui: concrete runs of the interface.
use certhold.Base.{
  ℕ, ◌+◌, ◌≤◌, Text, text, Bool, true, false, ◌&&◌, ◌==◌, Option, none, some, List, [], ◌∷◌, ◌++◌,
  contains, any, map, leb, if◌then◌else◌, ◌≡◌, refl, arith,
}
use certhold.Db.{manager_principal}
use certhold.Tui.{PeerRow, FleetData, Inputs}
use certhold.Tui.Rows.{peer_by_name, member_of, allows, keep_manager_group, keep_manager_allowed}
use certhold.Tui.Rows.Manager.{offered, keep_manager_exact}
use certhold.Tui.Filter.{haystack, filtered_peers, filtered_groups}
use certhold.Tui.Filter.Subsequence.{Selects, Wants, filtered_exactly}
use certhold.Tui.Form.{selected}
use certhold.Tui.Modal.{host_key}
use certhold.Tui.State.{Model, view_groups, batch_none, run_group_delete, mutations_enabled}
use certhold.Tui.Update.{press_all}
use certhold.Tui.Update.Look.{Untouched}
use certhold.Tui.Update.ReadOnly.{read_only_keys}
use certhold.Tui.Batch.{run_batch, completed}
use certhold.Tui.Batch.Outcome.{results, reported, run_batch_reports}
use certhold.Tui.Loop.{Msg, key_msg, host_key_prompt_msg, action_done_msg, update, update_all}
use certhold.Tui.Loop.Uses.{uses, answers_on}
use certhold.Tui.Loop.Replies.{prompts_on, answered_once}
use certhold.Tui.Loop.Guarded.{Guarded}
use certhold.Tui.Loop.Reserved.{reserved_group_spared}
use certhold.Tui.Loop.Yes.{accepts_on, confirms, host_key_needs_yes}
use certhold.Tui.Loop.Bounds.{InBounds, update_all-InBounds}
use certhold.Tui.Session.{
  Session, parked, answered, new_session, confirm_host_key, receive, leave, arm, close,
}
use certhold.Tui.Session.Wakes.{
  is_parked, Reach, here, next, raised, receives, arms, closed_wakes_all,
}

-- An input that holds what was typed.
abbrev typed_inputs : Inputs Text
typed_inputs = record {
  new_input = λ n. [];
  value = λ s. s;
  press = λ s key. s ++ key;
  set_value = λ s t. t;
}

abbrev as_typed : Text → Text
as_typed s = s

abbrev web_row : PeerRow
web_row = record {
  name = text "web";
  address = text "web.lan";
  dial_host = text "web.lan";
  target_user = [];
  revoked = false;
  inbound = true;
  groups = text "ops" ∷ [];
  allowed = text "ops" ∷ [];
}

abbrev mgr_row : PeerRow
mgr_row = record web_row { name = text "mgr"; groups = manager_principal ∷ [] }

abbrev small_fleet : FleetData
small_fleet = record {
  base_url = [];
  peers = mgr_row ∷ web_row ∷ [];
  groups =
      record { name = manager_principal; members = text "mgr" ∷ []; allowed_by = [] }
      ∷ record { name = text "ops"; members = text "web" ∷ []; allowed_by = [] }
      ∷ [];
}

-- The interface as it starts, on the groups.
abbrev screen : Model Text
screen = record {
  data_rows = small_fleet;
  load_failed = false;
  view = view_groups;
  detail = false;
  detail_name = [];
  peer_idx = 0;
  group_idx = 0;
  net_idx = 0;
  health_seq = 0;
  serve_known = false;
  probe_gen = 0;
  probe_paused = false;
  filtering = false;
  filter_input = [];
  filters = λ v. [];
  notice = none;
  read_only = false;
  has_action = true;
  hostname = text "mgr";
  modals = [];
  action_gen = 0;
  last_run = none;
  forgotten = 0;
  enroll_pending = false;
  enroll_result = false;
  marks = [];
  batch_kind = batch_none;
  outcome = none;
  replies = [];
}

abbrev watching : Model Text
watching = record screen { read_only = true }

abbrev some_keys : List Text
some_keys = text "1" ∷ text "x" ∷ text "y" ∷ text "2" ∷ text "D" ∷ text "enter" ∷ []

watching_disabled : mutations_enabled watching ≡ false
unfolding mutations_enabled
watching_disabled = refl

read_only_keys_example : Untouched watching (press_all typed_inputs as_typed some_keys watching)
read_only_keys_example =
    read_only_keys typed_inputs as_typed some_keys watching watching_disabled refl

-- A deletion of the second group, a prompt of its action, and the answer.
abbrev deleting : List Msg
deleting =
    key_msg (text "j")
    ∷ key_msg (text "D")
    ∷ key_msg (text "y")
    ∷ host_key_prompt_msg 1 (text "web.lan") (text "SHA256:x") 5
    ∷ key_msg (text "y")
    ∷ action_done_msg 1 none
    ∷ []

-- The deletion of "ops" was started, and the host key accepted.
deleting_run :
    ((update_all typed_inputs as_typed deleting screen).last_run
      ≡ some (run_group_delete (text "ops")))
    × (accepts_on 5 (update_all typed_inputs as_typed deleting screen).replies ≡ 1)
unfolding update ◌==◌ accepts_on
deleting_run = (refl, refl)

channel_free : prompts_on 5 deleting + uses 5 screen ≤ 1
unfolding prompts_on uses
channel_free = omega arith

answered_once_example : answers_on 5 (update_all typed_inputs as_typed deleting screen).replies ≤ 1
answered_once_example = answered_once typed_inputs as_typed 5 deleting screen channel_free

reserved_group_spared_example : Guarded (update_all typed_inputs as_typed deleting screen)
reserved_group_spared_example =
    reserved_group_spared typed_inputs as_typed deleting screen refl refl

screen_within : InBounds typed_inputs as_typed screen
screen_within = (ground arith, ground arith, ground arith)

update_all-InBounds_example :
    InBounds typed_inputs as_typed (update_all typed_inputs as_typed deleting screen)
update_all-InBounds_example =
    update_all-InBounds typed_inputs as_typed deleting screen screen_within

-- A host key is asked for.
abbrev asking : Model Text
asking = record screen { modals = host_key (text "web.lan") (text "SHA256:x") 5 ∷ [] }

asking_yes : confirms 5 (key_msg (text "y")) asking ≡ true
unfolding confirms ◌==◌
asking_yes = refl

host_key_needs_yes_example :
    accepts_on 5 (update typed_inputs as_typed (key_msg (text "y")) asking).0.replies
    ≡ (if confirms 5 (key_msg (text "y")) asking then 1 else 0) + accepts_on 5 asking.replies
host_key_needs_yes_example = host_key_needs_yes typed_inputs as_typed 5 (key_msg (text "y")) asking

-- An operation that fails on "db" and counts its calls.
abbrev counted : Text → ℕ → Option Text × ℕ
counted name n = (if name == text "db" then some (text "unreachable") else none, n + 1)

abbrev no_passphrase : Text → Bool
no_passphrase e = false

abbrev three_peers : List Text
three_peers = text "web" ∷ text "db" ∷ text "mail" ∷ []

three_peers_run : run_batch counted no_passphrase three_peers 0 ≡ (completed (text "db" ∷ []), 3)
unfolding run_batch ◌==◌
three_peers_run = refl

run_batch_reports_example :
    (run_batch counted no_passphrase three_peers 0).0
    ≡ reported no_passphrase (results counted three_peers 0)
run_batch_reports_example = run_batch_reports counted no_passphrase three_peers 0

abbrev ascii_lower : Text → Text
ascii_lower = map (λ c. if leb 65 c && leb c 90 then c + 32 else c)

filtered_exactly_example :
    Selects
      (λ p. Wants ascii_lower (text " WL ") (haystack p))
      small_fleet.peers
      (filtered_peers ascii_lower (text " WL ") small_fleet.peers)
    × Selects
        (λ g. Wants ascii_lower (text " WL ") g.name)
        small_fleet.groups
        (filtered_groups ascii_lower (text " WL ") small_fleet.groups)
filtered_exactly_example =
    filtered_exactly ascii_lower (text " WL ") small_fleet.peers small_fleet.groups

keep_manager_exact_example :
    let chosen = selected (offered small_fleet.groups (text "ops" ∷ []) 0) in
    (contains (keep_manager_group small_fleet (text "mgr") chosen) (text "ops") ≡ (
      if text "ops" == manager_principal
      then member_of (peer_by_name small_fleet (text "mgr"))
      else any (λ r. r.name == text "ops") small_fleet.groups
        && contains (text "ops" ∷ []) (text "ops")))
    × (contains (keep_manager_allowed small_fleet (text "mgr") chosen) (text "ops") ≡ (
        if text "ops" == manager_principal
        then allows (peer_by_name small_fleet (text "mgr"))
        else any (λ r. r.name == text "ops") small_fleet.groups
          && contains (text "ops" ∷ []) (text "ops")))
keep_manager_exact_example =
    keep_manager_exact small_fleet (text "mgr") (text "ops" ∷ []) 0 (text "ops")

-- The goroutine 1 is rejected by `arm` and still on its way out when 3 is published.
abbrev two_calls : Session
two_calls = confirm_host_key 3 (receive 1 (arm (confirm_host_key 1 new_session)))

none_left : (d : ℕ) → is_parked ((receive 1 (arm (confirm_host_key 1 new_session))).phase d) ≡ false
unfolding confirm_host_key receive arm
none_left d = ground arith

one_waits : Reach new_session two_calls
one_waits =
    next (next (next (next here (raised 1 (λ d. refl))) arms) (receives 1)) (raised 3 none_left)

three_parked : is_parked (two_calls.phase 3) ≡ true
unfolding confirm_host_key receive arm
three_parked = refl

closed_wakes_all_example :
    (two_calls.closed ≡ false)
    × (two_calls.in_flight ≡ some 3)
    × ((arm two_calls).phase 3 ≡ answered)
    × ((close two_calls).phase 3 ≡ answered)
closed_wakes_all_example = closed_wakes_all one_waits 3 three_parked

-- The goroutine 1, rejected by `arm`, runs its deferred store after 2 was published: `close` passes over 2,
-- which goes on waiting.
stale_store_run :
    (close (leave 1 (receive 1 (confirm_host_key 2 (arm (confirm_host_key 1 new_session)))))).phase
      2
    ≡ parked
unfolding close leave receive confirm_host_key arm
stale_store_run = refl
