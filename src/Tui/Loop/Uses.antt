-- ===== src/Tui/Loop/Uses.antt =====
-- internal/tui/action.go: the reply channels that overlays wait for, and those that are answered.
use certhold.Base.{ℕ, ◌+◌, Option, none, some, List, [], ◌∷◌, nat_eq, if◌then◌else◌}
use certhold.Tui.Modal.{Modal, passphrase, host_key}
use certhold.Tui.State.{Model, Reply}

-- The channel that waits for an overlay.
unfoldable pub channel_of : {I : Type 0} → Modal I → Option ℕ
channel_of (passphrase i d) = some d
channel_of (host_key h f d) = some d
channel_of _ = none

-- 1 where the channel is `c`.
unfoldable pub hits : ℕ → Option ℕ → ℕ
hits c none = 0
hits c (some d) = if nat_eq c d then 1 else 0

-- How many overlays will answer on a channel, and how many answers were sent on it.
unfoldable pub waiting_on : {I : Type 0} → ℕ → List (Modal I) → ℕ
unfolding hits channel_of
waiting_on c [] = 0
waiting_on c (mo ∷ mos) = hits c (channel_of mo) + waiting_on c mos

unfoldable pub answers_on : ℕ → List (ℕ × Reply) → ℕ
unfolding hits
answers_on c [] = 0
answers_on c ((d, r) ∷ rs) = hits c (some d) + answers_on c rs

unfoldable pub uses : {I : Type 0} → ℕ → Model I → ℕ
unfolding waiting_on answers_on
uses c m = waiting_on c m.modals + answers_on c m.replies
