-- ===== src/Ws/Hub/Phases.antt =====
-- internal/ws/hub/hub.go: where a call and the goroutine of a connection stand, and what a message
-- leaves as it is.
use database_flashback.Base.{ℕ, ◌≡◌, refl, Bool, true, false, Option, none, some, arith}
use database_flashback.Ws.Messages.{Message, Response}
use database_flashback.Ws.Hub.{
  Hub, Pump, starting, reading, unregistering, closing, draining, notifying, ended, not_started,
  Call, idle, loaded, registered, waiting, leaving, returned, Outcome, receive, receive_command,
  send_response, offer,
}
use database_flashback.Ws.Hub.Steps.{Setting}

-- The pump has not yet closed the channels, and it has.
abbrev pub undrained : Pump → Bool
undrained starting = true
undrained reading = true
undrained unregistering = true
undrained closing = true
undrained draining = true
undrained _ = false

abbrev pub drained : Pump → Bool
drained notifying = true
drained ended = true
drained _ = false

-- The pump is behind the closing of the socket.
abbrev pub shut : Pump → Bool
shut draining = true
shut notifying = true
shut ended = true
shut not_started = true
shut _ = false

abbrev pub never_started : Pump → Bool
never_started not_started = true
never_started _ = false

abbrev pub is_starting : Pump → Bool
is_starting starting = true
is_starting _ = false

-- The connection that a call holds, that its channel is registered with, and that it waits on.
abbrev pub held_by : Call → Option ℕ
held_by idle = none
held_by (loaded c) = some c
held_by (registered c) = some c
held_by (waiting c) = some c
held_by (leaving c o) = some c
held_by (returned o) = none

abbrev pub registered_by : Call → Option ℕ
registered_by (registered c) = some c
registered_by (waiting c) = some c
registered_by _ = none

abbrev pub awaited_by : Call → Option ℕ
awaited_by (waiting c) = some c
awaited_by _ = none

pub registered_by-held : (s : Call) {c : ℕ} → registered_by s ≡ some c → held_by s ≡ some c
registered_by-held (registered c) e = e
registered_by-held (waiting c) e = e
registered_by-held idle e = cc
registered_by-held (loaded c) e = cc
registered_by-held (leaving c o) e = cc
registered_by-held (returned o) e = cc

pub awaited_by-held : (s : Call) {c : ℕ} → awaited_by s ≡ some c → held_by s ≡ some c
awaited_by-held (waiting c) e = e
awaited_by-held idle e = cc
awaited_by-held (registered c) e = cc
awaited_by-held (loaded c) e = cc
awaited_by-held (leaving c o) e = cc
awaited_by-held (returned o) e = cc

pub registered_by-awaited : (s : Call) {c : ℕ} → awaited_by s ≡ some c → registered_by s ≡ some c
registered_by-awaited (waiting c) e = e
registered_by-awaited idle e = cc
registered_by-awaited (registered c) e = cc
registered_by-awaited (loaded c) e = cc
registered_by-awaited (leaving c o) e = cc
registered_by-awaited (returned o) e = cc

pub drained-shut : (p : Pump) → drained p ≡ true → shut p ≡ true
drained-shut notifying e = refl
drained-shut ended e = refl
drained-shut starting e = cc
drained-shut reading e = cc
drained-shut unregistering e = cc
drained-shut closing e = cc
drained-shut draining e = cc
drained-shut not_started e = cc

-- The connection in whose table a call may stand.
abbrev pub listed_by : Call → Option ℕ
listed_by (registered c) = some c
listed_by (waiting c) = some c
listed_by (leaving c o) = some c
listed_by _ = none

-- The call has not made its channel known.
abbrev pub early : Call → Bool
early idle = true
early (loaded c) = true
early _ = false

abbrev answer_of : Outcome → Option Response
answer_of (Outcome.answered r) = some r
answer_of _ = none

-- The response that a call is about to return, or has returned.
abbrev pub told_by : Call → Option Response
told_by (leaving c o) = answer_of o
told_by (returned o) = answer_of o
told_by _ = none

pub early-listed : (s : Call) → early s ≡ true → listed_by s ≡ none
early-listed idle e = refl
early-listed (loaded c) e = refl
early-listed (registered c) e = cc
early-listed (waiting c) e = cc
early-listed (leaving c o) e = cc
early-listed (returned o) e = cc

-- What a message changes: frames, the buffer of a channel, and the record of progress.
pub record Quiet (h h' : Hub) : Type 0 where
  pub conns : h'.conns ≡ h.conns
  pub next : h'.next ≡ h.next
  pub call : h'.call ≡ h.call
  pub is_closed : h'.is_closed ≡ h.is_closed
  pub is_open : (c : ℕ) → (h'.conn c).is_open ≡ (h.conn c).is_open
  pub pump : (c : ℕ) → (h'.conn c).pump ≡ (h.conn c).pump
  pub pending : (c : ℕ) → (h'.conn c).pending ≡ (h.conn c).pending
  pub closed : (i : ℕ) → (h'.chan i).closed ≡ (h.chan i).closed

module _ (w : Setting) where
  pub receive-Quiet :
      (h : Hub) (d : ℕ) (m : Message) → Quiet h (receive w.sign_csr w.has_progress h d m)
  unfolding receive receive_command send_response offer
  receive-Quiet h d m = ground arith
