-- ===== src/Tui/Form.antt =====
-- internal/tui/enroll_form.go: the form that mints an enrollment, and its keys.
use certhold.Base.{
  ℕ, ◌+◌, ◌-◌, Text, text, Bool, true, false, not, ◌&&◌, ◌||◌, ◌==◌, List, [], ◌∷◌, filter,
  contains, is_empty, length, get_elem?, sort, trim_space, if◌then◌else◌, Option, none, some,
}
use certhold.Tui.{PeerRow, Inputs}
use certhold.Tui.Rows.{clamp}

-- What a key does to the modal that has it.
pub data ModalResult : Type 0 where
  modal_keep modal_close modal_submit : ModalResult

-- `checked[name] = !checked[name]`, on the names that are checked.
abbrev pub toggle : List Text → Text → List Text
toggle checked name =
    if contains checked name then filter (λ n. not (n == name)) checked else name ∷ checked

abbrev pub toggle_at : List Text → Option Text → List Text
toggle_at checked none = checked
toggle_at checked (some name) = toggle checked name

-- A multi-select: `options`, the checked names, and the cursor.
pub record Picker : Type 0 where
  pub options : List Text
  pub checked : List Text
  pub cursor : ℕ

abbrev pub last_of : List Text → ℕ
last_of os = length os - 1

-- The keys j and k of the pickers; an empty list is left alone.
unfoldable pub move_cursor : Picker → Bool → Picker
unfolding clamp
move_cursor p down = if is_empty p.options then p else record p {
  cursor = clamp (if down then p.cursor + 1 else p.cursor - 1) (last_of p.options);
}

unfoldable pub toggle_cursor : Picker → Picker
toggle_cursor p = record p { checked = toggle_at p.checked (get_elem? p.options p.cursor) }

-- `selected`
unfoldable pub selected : Picker → List Text
selected p = filter (λ o. contains p.checked o) p.options

-- The fields in tab order.
pub data Field : Type 0 where
  ef_name ef_groups ef_allowed ef_user ef_address ef_client ef_submit : Field

abbrev after : Field → Field
after ef_name = ef_groups
after ef_groups = ef_allowed
after ef_allowed = ef_user
after ef_user = ef_address
after ef_address = ef_client
after ef_client = ef_submit
after ef_submit = ef_name

abbrev before : Field → Field
before ef_name = ef_submit
before ef_groups = ef_name
before ef_allowed = ef_groups
before ef_user = ef_allowed
before ef_address = ef_user
before ef_client = ef_address
before ef_submit = ef_client

abbrev pub is_name : Field → Bool
is_name ef_name = true
is_name _ = false

-- `enrollFormModal`; `fixed_name` counts only in a re-enroll.
pub record EnrollForm (I : Type 0) : Type 0 where
  pub name : I
  pub user : I
  pub address : I
  pub groups : Picker
  pub allowed : Picker
  pub client : Bool
  pub field : Field
  pub taken : List Text
  pub error : Bool
  pub reenroll : Bool
  pub fixed_name : Text

-- `nextField`, `prevField`: the name is passed over in a re-enroll.
unfoldable pub next_field : Bool → Field → Field
next_field reenroll f = if reenroll && is_name (after f) then after (after f) else after f

unfoldable pub prev_field : Bool → Field → Field
prev_field reenroll f = if reenroll && is_name (before f) then before (before f) else before f

module _ {I : Type 0} (inputs : Inputs I) where
  -- `newEnrollFormModal`
  unfoldable pub new_enroll_form : List Text → List Text → EnrollForm I
  new_enroll_form groups taken =
      let picker : Picker = record { options = sort groups; checked = []; cursor = 0 } in
      record {
        name = inputs.new_input 64;
        user = inputs.new_input 64;
        address = inputs.new_input 255;
        groups = picker;
        allowed = picker;
        client = false;
        field = ef_name;
        taken = taken;
        error = false;
        reenroll = false;
        fixed_name = [];
      }

  -- `newReenrollFormModal`
  unfoldable pub new_reenroll_form : List Text → PeerRow → EnrollForm I
  unfolding new_enroll_form
  new_reenroll_form groups p =
      let e = new_enroll_form groups [] in
      record e {
        reenroll = true;
        fixed_name = p.name;
        name = inputs.set_value e.name p.name;
        groups = record { options = e.groups.options; checked = p.groups; cursor = 0 };
        allowed = record { options = e.allowed.options; checked = p.allowed; cursor = 0 };
        user = inputs.set_value e.user p.target_user;
        address = inputs.set_value e.address p.address;
        client = not p.inbound;
        field = ef_groups;
      }

  -- The name that is given, trimmed.
  abbrev pub given_name : EnrollForm I → Text
  given_name e = trim_space (inputs.value e.name)

  -- `validateName`: whether there is no reason to refuse the name.
  unfoldable pub name_is_valid : EnrollForm I → Bool
  name_is_valid e =
      e.reenroll || not (is_empty (given_name e)) && not (contains e.taken (given_name e))

  -- `handlePick`
  unfoldable pub handle_pick : Text → Picker → Picker
  unfolding move_cursor toggle_cursor
  handle_pick key p =
      if key == text "j"
      then move_cursor p true
      else if key == text "k"
      then move_cursor p false
      else if key == text " " || key == text "x"
      then toggle_cursor p
      else p

  -- A key in the field that has the focus.
  unfoldable pub press_field : Text → EnrollForm I → Field → EnrollForm I
  unfolding handle_pick
  press_field key e ef_groups = record e { groups = handle_pick key e.groups }
  press_field key e ef_allowed = record e { allowed = handle_pick key e.allowed }
  press_field key e ef_client =
      if key == text " " || key == text "x" then record e { client = not e.client } else e
  press_field key e ef_name =
      let typed = inputs.press e.name key in
      let given = trim_space (inputs.value typed) in
      record e { name = typed; error = not (is_empty given) && contains e.taken given }
  press_field key e ef_user = record e { user = inputs.press e.user key }
  press_field key e ef_address = record e { address = inputs.press e.address key }
  press_field key e ef_submit = e

  -- The key enter.
  unfoldable pub enter_field : EnrollForm I → Field → EnrollForm I × ModalResult
  unfolding name_is_valid next_field
  enter_field e ef_submit =
      if name_is_valid e then (e, modal_submit) else (record e { error = true }, modal_keep)
  enter_field e f = (record e { field = next_field e.reenroll f }, modal_keep)

  -- `handle` of the form.
  unfoldable pub handle_form : Text → EnrollForm I → EnrollForm I × ModalResult
  unfolding press_field enter_field next_field prev_field
  handle_form key e =
      if key == text "esc"
      then (e, modal_close)
      else if key == text "tab" || key == text "down"
      then (record e { field = next_field e.reenroll e.field }, modal_keep)
      else if key == text "shift+tab" || key == text "up"
      then (record e { field = prev_field e.reenroll e.field }, modal_keep)
      else if key == text "enter"
      then enter_field e e.field
      else (press_field key e e.field, modal_keep)
