-- ===== src/Ws/Hub.antt =====
-- internal/ws/hub/hub.go: the state of the hub and its operations. A connection and a call of
-- `SendToAgent` are numbers; each call makes one channel, which has the number of the call. What
-- holds a lock is one operation, and so is what the code does between two accesses of shared state.
pub mod Calls
pub mod Steps
pub mod Pending
pub mod Phases
pub mod Waiting
pub mod Channels
pub mod Returns
pub mod Reconnect
mod Examples
use database_flashback.Base.{
  ℕ, zero, suc, Bool, true, false, not, ◌&&◌, ◌||◌, Option, none, some, List, [], ◌∷◌, ◌++◌, Bytes,
  text, eq_bytes, if◌then◌else◌, ◌==◌,
}
use database_flashback.Ws.Messages.{
  Command, Response, Message, string_of, cmd_cert_renewal, cmd_pitr_progress, status_ok,
  status_error,
}

-- Where the goroutine of `HandleConnection` and then of `readPump` stands; from `unregistering` to
-- `notifying` it is in the deferred function.
pub data Pump : Type 0 where
  starting reading unregistering closing draining notifying ended not_started : Pump

pub data Frame : Type 0 where
  command : Command → Frame
  reply : Response → Frame

-- `pending` maps the ids of commands to channels.
pub record AgentConn : Type 0 where
  pub agent_id : Bytes
  pub is_open : Bool
  pub pending : List (Bytes × ℕ)
  pub frames : List Frame
  pub pump : Pump

-- A channel of capacity one.
pub record Channel : Type 0 where
  pub buffer : Option Response
  pub closed : Bool

-- What a call of `SendToAgent` returns.
pub data Outcome : Type 0 where
  not_connected marshal_failed deadline_failed write_failed disconnected context_done hub_closed :
      Outcome
  answered : Response → Outcome

-- Where a call stands: before it, with the connection loaded, with its channel registered, in the
-- `select`, before the deferred deletion, and behind it.
pub data Call : Type 0 where
  idle : Call
  loaded : ℕ → Call
  registered : ℕ → Call
  waiting : ℕ → Call
  leaving : ℕ → Outcome → Call
  returned : Outcome → Call

pub record Hub : Type 0 where
  pub conns : Bytes → Option ℕ
  pub conn : ℕ → AgentConn
  pub next : ℕ
  pub chan : ℕ → Channel
  pub call : ℕ → Call
  pub is_closed : Bool
  pub connects : List Bytes
  pub disconnects : List Bytes
  pub progress : List (Bytes × Command)
  pub panicked : Bool

abbrev pub at {ℓ} : {A : Type ℓ} → (ℕ → A) → ℕ → A → ℕ → A
at f i a j = if i == j then a else f j

-- A write to `conns`, which is also its deletion.
abbrev pub entry : (Bytes → Option ℕ) → Bytes → Option ℕ → Bytes → Option ℕ
entry m id c other_id = if eq_bytes id other_id then c else m other_id

unfoldable pub find : Bytes → List (Bytes × ℕ) → Option ℕ
find id [] = none
find id ((k, i) ∷ rest) = if eq_bytes k id then some i else find id rest

unfoldable pub forget : Bytes → List (Bytes × ℕ) → List (Bytes × ℕ)
forget id [] = []
forget id ((k, i) ∷ rest) = if eq_bytes k id then forget id rest else (k, i) ∷ forget id rest

-- `ac.pending[id] = ch`.
unfoldable pub register : Bytes → ℕ → List (Bytes × ℕ) → List (Bytes × ℕ)
unfolding forget
register id i pending = (id, i) ∷ forget id pending

unfoldable pub close_all : List (Bytes × ℕ) → (ℕ → Channel) → ℕ → Channel
close_all [] chan = chan
close_all ((k, i) ∷ rest) chan = close_all rest (at chan i (record (chan i) { closed = true }))

-- Whether the loop over the channels closes one that is closed, which panics.
pub close_panics : List (Bytes × ℕ) → (ℕ → Channel) → Bool
close_panics [] chan = false
close_panics ((k, i) ∷ rest) chan =
    (chan i).closed || close_panics rest (at chan i (record (chan i) { closed = true }))

-- `IsConnected`.
pub is_connected : Hub → Bytes → Bool
is_connected h id = elim (h.conns id) [ none ↦ false | some _ ↦ true ]

-- The certificate that a request presents: its common name, and whether it is revoked.
pub record Certificate : Type 0 where
  pub common_name : Bytes
  pub revoked : Bool

-- `extractAgentID`.
unfoldable pub extract_agent_id : Option Certificate → Bytes
extract_agent_id none = []
extract_agent_id (some c) = c.common_name

abbrev is_revoked : Bool → Option Certificate → Bool
is_revoked has_handler none = false
is_revoked has_handler (some c) = has_handler && c.revoked

abbrev new_conn : Bytes → AgentConn
new_conn id = record { agent_id = id; is_open = true; pending = []; frames = []; pump = starting }

-- `LoadOrStore`, and the rejection of a second connection.
unfoldable pub store_conn : Hub → Bytes → Hub
store_conn h id = elim (h.conns id) [
  | some _ ↦ h
  | none ↦ record h {
    conns = entry h.conns id (some h.next);
    conn = at h.conn h.next (new_conn id);
    next = suc h.next;
  }
]

-- `HandleConnection` up to the connection's own goroutine.
unfoldable pub handle_connection : Bool → Hub → Option Certificate → Hub
unfolding extract_agent_id store_conn
handle_connection has_handler h cert =
    if eq_bytes (extract_agent_id cert) []
    then h
    else if is_revoked has_handler cert
    then h
    else store_conn h (extract_agent_id cert)

abbrev pub set_pump : Hub → ℕ → Pump → Hub
set_pump h c p = record h { conn = at h.conn c (record (h.conn c) { pump = p }) }

-- The rest of `HandleConnection`: the read deadline was set, or it was refused.
unfoldable pub start_pump : Hub → ℕ → Hub
start_pump h c = record (set_pump h c reading) { connects = h.connects ++ (h.conn c).agent_id ∷ [] }

pub start_refused : Hub → ℕ → Hub
start_refused h c = record h {
  conns = entry h.conns (h.conn c).agent_id none;
  conn = at h.conn c (record (h.conn c) { pump = not_started; is_open = false });
}

-- The deferred function of `readPump`.
pub unregister : Hub → ℕ → Hub
unregister h c = record (set_pump h c closing) { conns = entry h.conns (h.conn c).agent_id none }

pub close_conn : Hub → ℕ → Hub
close_conn h c = record h {
  conn = at h.conn c (record (h.conn c) { pump = draining; is_open = false });
}

pub drain : Hub → ℕ → Hub
unfolding close_all close_panics
drain h c = record h {
  panicked = h.panicked || close_panics (h.conn c).pending h.chan;
  conn = at h.conn c (record (h.conn c) { pump = notifying; pending = [] });
  chan = close_all (h.conn c).pending h.chan;
}

pub notify : Hub → ℕ → Hub
notify h c = record (set_pump h c ended) { disconnects = h.disconnects ++ (h.conn c).agent_id ∷ [] }

-- The answer that `readPump` finds in a message, with the channel that waits for it.
unfoldable pub awaited : List (Bytes × ℕ) → Option Response → Option (ℕ × Response)
unfolding find
awaited pending none = none
awaited pending (some r) =
    if eq_bytes r.cmd [] || eq_bytes r.status []
    then none
    else elim (find r.cmd pending) [ none ↦ none | some i ↦ some (i, r) ]

-- `select { case ch <- resp: default: }`: a full channel drops the response, a closed one panics.
unfoldable pub offer : Hub → ℕ → Response → Hub
offer h i r = if (h.chan i).closed then record h { panicked = true } else elim (h.chan i).buffer [
  | some _ ↦ h
  | none ↦ record h { chan = at h.chan i (record (h.chan i) { buffer = some r }) }
]

-- `SignCSR` of the certificate authority: the certificate, or the text of the error.
pub data Signed : Type 0 where
  certificate : Bytes → Signed
  refused : Bytes → Signed

abbrev error_response : Bytes → Bytes → Response
error_response cmd e = record { cmd = cmd; status = status_error; result = []; error = e }

-- The response of `handleCertRenewal`.
renewal_response : Option (Bytes → Bytes → Signed) → Bytes → Command → Response
renewal_response none agent_id c = error_response c.cmd (text "certificate renewal not supported")
renewal_response (some sign_csr) agent_id c = elim (string_of (c.params (text "csr"))) [
  | none ↦ error_response c.cmd (text "missing 'csr' parameter")
  | some csr ↦ elim (sign_csr csr agent_id) [
    | refused e ↦ error_response c.cmd (text "sign CSR: " ++ e)
    | certificate pem ↦ record { cmd = c.cmd; status = status_ok; result = pem; error = [] }
  ]
]

-- `sendResponse`: the errors of the write are dropped.
pub send_response : Hub → ℕ → Response → Hub
send_response h c r =
    if (h.conn c).is_open
    then record h {
      conn = at h.conn c (record (h.conn c) { frames = (h.conn c).frames ++ reply r ∷ [] });
    }
    else h

pub receive_command : Option (Bytes → Bytes → Signed) → Bool → Hub → ℕ → Option Command → Hub
unfolding send_response renewal_response
receive_command sign_csr has_progress h c none = h
receive_command sign_csr has_progress h c (some m) =
    if eq_bytes m.kind cmd_cert_renewal
    then send_response h c (renewal_response sign_csr (h.conn c).agent_id m)
    else if eq_bytes m.kind cmd_pitr_progress && has_progress
    then record h { progress = h.progress ++ ((h.conn c).agent_id, m) ∷ [] }
    else h

-- One message in the loop of `readPump`.
unfoldable pub receive : Option (Bytes → Bytes → Signed) → Bool → Hub → ℕ → Message → Hub
unfolding awaited offer receive_command
receive sign_csr has_progress h c m = elim (awaited (h.conn c).pending m.as_response) [
  | some (i, r) ↦ offer h i r
  | none ↦ receive_command sign_csr has_progress h c m.as_command
]

-- `Close`: the sockets of the connections that `conns` holds are closed.
pub close : Hub → Hub
close h = record h {
  is_closed = true;
  conn = λ c. elim (h.conns (h.conn c).agent_id) [
    | none ↦ h.conn c
    | some d ↦ if d == c then record (h.conn c) { is_open = false } else h.conn c
  ];
}

-- `GetConnectedAgents`, by the numbers of the connections; the order of `Range` is not specified.
agents_below : Hub → ℕ → List Bytes
agents_below h zero = []
agents_below h (suc n) =
    let a = (h.conn n).agent_id in
    let rest = agents_below h n in
    elim (h.conns a) [ none ↦ rest | some d ↦ if d == n then a ∷ rest else rest ]

get_connected_agents : Hub → List Bytes
unfolding agents_below
get_connected_agents h = agents_below h h.next
