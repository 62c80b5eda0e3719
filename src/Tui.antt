-- ===== src/Tui.antt =====
-- internal/tui: the terminal interface. Keys are the names that `msg.String()` gives. What is drawn, the
-- scroll positions of panes and transcripts, and the window's size are left out.
pub mod Rows
pub mod Filter
pub mod Modal
pub mod Form
pub mod State
pub mod Start
pub mod Submit
pub mod Browse
pub mod Update
pub mod Messages
pub mod Batch
pub mod Loop
pub mod Session
use certhold.Base.{ℕ, Text, Bool, List}

-- data.go: `peerRow` and `groupRow`, the columns that the keys act on.
pub record PeerRow : Type 0 where
  pub name : Text
  pub address : Text
  pub dial_host : Text
  pub target_user : Text
  pub revoked : Bool
  pub inbound : Bool
  pub groups : List Text
  pub allowed : List Text

pub record GroupRow : Type 0 where
  pub name : Text
  pub members : List Text
  pub allowed_by : List Text

-- data.go: `fleetData`
pub record FleetData : Type 0 where
  pub base_url : Text
  pub peers : List PeerRow
  pub groups : List GroupRow

-- `textinput.Model` of bubbles: an empty input of at most so many characters, its value, and
-- its state after a key.
pub record Inputs (I : Type 0) : Type 0 where
  pub new_input : ℕ → I
  pub value : I → Text
  pub press : I → Text → I
  -- `SetValue`
  pub set_value : I → Text → I
