-- ===== src/Ws/Hub/Steps.antt =====
-- internal/ws/hub/hub.go: the goroutines of the hub, interleaved in any order.
use database_flashback.Base.{ℕ, Bool, true, false, ◌≡◌, Option, none, some, Bytes, []}
use database_flashback.Ws.Messages.{Message, Response}
use database_flashback.Ws.Hub.{
  Hub, AgentConn, Certificate, Signed, Pump, reading, starting, unregistering, closing, draining,
  notifying, idle, loaded, registered, waiting, leaving, Outcome, set_pump, handle_connection,
  start_pump, start_refused, unregister, close_conn, drain, notify, receive, close,
}
use database_flashback.Ws.Hub.Calls.{
  Request, set_call, load_conn, register_call, write_call, write_fails, take_response, leave_call,
}

-- The hub's handlers, and the calls of `SendToAgent` that are ever made, of which some
-- have a context that can end.
pub record Setting : Type 0 where
  pub sign_csr : Option (Bytes → Bytes → Signed)
  pub has_progress : Bool
  pub request : ℕ → Request
  pub has_deadline : ℕ → Bool

abbrev pub has_handler : Setting → Bool
has_handler w = elim w.sign_csr [ none ↦ false | some _ ↦ true ]

-- The network decides when a read or a write fails; what gorilla documents is that none succeeds
-- behind `Close`, and a deadline is refused only then.
module _ (w : Setting) where
  pub data Step (h : Hub) : Hub → Type 0 where
    connect : (cert : Option Certificate) → Step h (handle_connection (has_handler w) h cert)
    start : (c : ℕ) → (h.conn c).pump ≡ starting → Step h (start_pump h c)
    start_fails :
        (c : ℕ)
        → (h.conn c).pump ≡ starting
        → (h.conn c).is_open ≡ false
        → Step h (start_refused h c)
    message :
        (c : ℕ) (m : Message)
        → (h.conn c).pump ≡ reading
        → (h.conn c).is_open ≡ true
        → Step h (receive w.sign_csr w.has_progress h c m)
    read_fails : (c : ℕ) → (h.conn c).pump ≡ reading → Step h (set_pump h c unregistering)
    unregisters : (c : ℕ) → (h.conn c).pump ≡ unregistering → Step h (unregister h c)
    closes : (c : ℕ) → (h.conn c).pump ≡ closing → Step h (close_conn h c)
    drains : (c : ℕ) → (h.conn c).pump ≡ draining → Step h (drain h c)
    notifies : (c : ℕ) → (h.conn c).pump ≡ notifying → Step h (notify h c)
    call : (i : ℕ) → h.call i ≡ idle → Step h (load_conn h i (w.request i))
    registers : (i c : ℕ) → h.call i ≡ loaded c → Step h (register_call h i c (w.request i))
    marshal_fails :
        (i c : ℕ)
        → h.call i ≡ registered c
        → Step h (set_call h i (leaving c Outcome.marshal_failed))
    deadline_fails :
        (i c : ℕ)
        → h.call i ≡ registered c
        → Step h (set_call h i (leaving c Outcome.deadline_failed))
    writes :
        (i c : ℕ)
        → h.call i ≡ registered c
        → (h.conn c).is_open ≡ true
        → Step h (write_call h i c (w.request i))
    write_refused : (i c : ℕ) → h.call i ≡ registered c → Step h (write_fails h i c (w.request i))
    answers :
        (i c : ℕ) (r : Response)
        → h.call i ≡ waiting c
        → (h.chan i).buffer ≡ some r
        → Step h (take_response h i c r)
    sees_closed :
        (i c : ℕ)
        → h.call i ≡ waiting c
        → (h.chan i).buffer ≡ none
        → (h.chan i).closed ≡ true
        → Step h (set_call h i (leaving c Outcome.disconnected))
    gives_up :
        (i c : ℕ)
        → h.call i ≡ waiting c
        → w.has_deadline i ≡ true
        → Step h (set_call h i (leaving c Outcome.context_done))
    shuts :
        (i c : ℕ)
        → h.call i ≡ waiting c
        → h.is_closed ≡ true
        → Step h (set_call h i (leaving c Outcome.hub_closed))
    leaves :
        (i c : ℕ) (o : Outcome) → h.call i ≡ leaving c o → Step h (leave_call h i c o (w.request i))
    close_hub : Step h (close h)

  pub data Reaches (first : Hub) : Hub → Type 0 where
    here : Reaches first first
    next : {h h' : Hub} → Reaches first h → Step h h' → Reaches first h'

-- `NewHub`, before any connection and any call.
abbrev no_conn : AgentConn
no_conn = record { agent_id = []; is_open = false; pending = []; frames = []; pump = Pump.ended }

abbrev pub new_hub : Hub
new_hub = record {
  conns = λ _. none;
  conn = λ _. no_conn;
  next = 0;
  chan = λ _. record { buffer = none; closed = false };
  call = λ _. idle;
  is_closed = false;
  connects = [];
  disconnects = [];
  progress = [];
  panicked = false;
}
