-- ===== src/Tui/Session.antt =====
-- internal/tui/action.go: the prompts for host keys of `passSession`, as steps of the goroutines that share
-- it. A goroutine is named by its reply channel, which is new at each call of `confirmHostKey`; what is
-- done under the mutex is one step, and so is the deferred `hkInflight.Store(nil)`, which is not.
pub mod Wakes
use certhold.Base.{
  ℕ, Bool, true, false, not, ◌&&◌, ◌||◌, Option, none, some, nat_eq, if◌then◌else◌, ◌≡◌,
}

-- Where a goroutine is: before the call, waiting for its reply, with a reply in its channel, about to run
-- the deferred store, and after the call.
pub data Phase : Type 0 where
  before parked answered leaving gone : Phase

-- `passSession`: the latch, whether there is a channel for requests, the published reply channel, and
-- the goroutines.
pub record Session : Type 0 where
  pub closed : Bool
  pub has_channel : Bool
  pub in_flight : Option ℕ
  pub phase : ℕ → Phase

-- `newPassSession`
abbrev pub new_session : Session
new_session = record { closed = false; has_channel = true; in_flight = none; phase = λ c. before }

unfoldable pub set_phase : ℕ → Phase → (ℕ → Phase) → ℕ → Phase
set_phase c p f d = if nat_eq d c then p else f d

-- A reply is sent on a buffered channel; only a goroutine that waits is changed by it.
abbrev pub replied : Phase → Phase
replied parked = answered
replied p = p

abbrev pub received : Phase → Phase
received answered = leaving
received p = p

unfoldable pub reply_to : ℕ → Session → Session
unfolding set_phase
reply_to c s = record s { phase = set_phase c (replied (s.phase c)) s.phase }

-- The published channel is rejected and taken back.
abbrev pub rejected : Option ℕ → Session → Session
rejected none s = s
rejected (some c) s = record (reply_to c s) { in_flight = none }

-- `confirmHostKey` up to the wait for the reply.
unfoldable pub confirm_host_key : ℕ → Session → Session
unfolding set_phase
confirm_host_key c s =
    if s.closed || not s.has_channel
    then record s { phase = set_phase c leaving s.phase }
    else record s { in_flight = some c; phase = set_phase c parked s.phase }

-- The reply is received.
unfoldable pub receive : ℕ → Session → Session
unfolding set_phase
receive c s = record s { phase = set_phase c (received (s.phase c)) s.phase }

-- The deferred store, and the end of the call.
unfoldable pub leave : ℕ → Session → Session
unfolding set_phase
leave c s = record s { in_flight = none; phase = set_phase c gone s.phase }

-- `arm`
unfoldable pub arm : Session → Session
unfolding reply_to
arm s = record (rejected s.in_flight s) { has_channel = true }

-- `close`
unfoldable pub close : Session → Session
unfolding reply_to
close s = rejected s.in_flight (record s { closed = true; has_channel = false })
