-- ===== src/Ws/Agent.antt =====
-- internal/ws/agent/client.go and dispatcher.go: the agent's end of the connection. A channel and a
-- connection are numbers. `handleMessage` runs the handler of a command before it reads on.
pub mod Backoff
pub mod Renewal
pub mod Exchange
mod Examples
use database_flashback.Base.{
  ℕ, Bool, true, false, ◌||◌, Option, none, some, List, [], ◌∷◌, ◌++◌, Bytes, text, eq_bytes,
  if◌then◌else◌, ◌==◌,
}
use database_flashback.Ws.Messages.{Command, Response, Message, status_error}
use database_flashback.Ws.Hub.{
  Frame, command, reply, find, forget, register, Channel, at, close_all,
}

-- The handlers by the kind of command; a later registration stands in front.
pub data Handlers (D : Type 0) : Type 0 where
  none_yet : Handlers D
  handles : Bytes → (D → Command → D × Response) → Handlers D → Handlers D

abbrev unknown_command : Command → Response
unknown_command c = record {
  cmd = c.cmd;
  status = status_error;
  result = [];
  error = text "unknown command type: " ++ c.kind;
}

-- The client: its connection, the commands it waits for, and what was written to which connection.
pub record Client (D : Type 0) : Type 0 where
  pub conn : Option ℕ
  pub pending : List (Bytes × ℕ)
  pub chan : ℕ → Channel
  pub written : List (ℕ × Frame)
  pub dispatcher : Option (Handlers D)
  pub state : D
  pub is_cancelled : Bool

-- The channel that a response is for.
unfoldable pub awaited_here : List (Bytes × ℕ) → Option Response → Option (ℕ × Response)
awaited_here pending none = none
awaited_here pending (some r) =
    if eq_bytes r.cmd [] || eq_bytes r.status []
    then none
    else elim (find r.cmd pending) [ none ↦ none | some i ↦ some (i, r) ]

abbrev fill : Channel → Response → Channel
fill ch r = elim ch.buffer [ none ↦ record ch { buffer = some r } | some _ ↦ ch ]

module _ {D : Type 0} where
  -- `RegisterHandler`.
  unfoldable pub register_handler : Handlers D → Bytes → (D → Command → D × Response) → Handlers D
  register_handler handlers kind run = handles kind run handlers

  unfoldable pub find_handler : Handlers D → Bytes → Option (D → Command → D × Response)
  find_handler none_yet kind = none
  find_handler (handles k run rest) kind =
      if eq_bytes k kind then some run else find_handler rest kind

  -- `Dispatch`: the handler's new state and its response.
  unfoldable pub dispatch : Handlers D → D → Command → D × Response
  unfolding find_handler
  dispatch handlers d c = elim (find_handler handlers c.kind) [
    | none ↦ (d, unknown_command c)
    | some run ↦ run d c
  ]

  -- `Send`, and the end of `handleIncomingCommand`: nothing is written without a connection.
  unfoldable pub write : Client D → Frame → Client D
  write c f = elim c.conn [ none ↦ c | some k ↦ record c { written = c.written ++ (k, f) ∷ [] } ]

  -- `handleIncomingCommand`.
  unfoldable pub handle_incoming_command : Client D → Command → Client D
  unfolding write dispatch
  handle_incoming_command c m = elim c.dispatcher [
    | none ↦ write c (reply (unknown_command m))
    | some handlers ↦
        let r = dispatch handlers c.state m in write (record c { state = r.0 }) (reply (r.1))
  ]

  -- A message without an id or a kind is dropped.
  unfoldable pub handle_command : Client D → Option Command → Client D
  unfolding handle_incoming_command
  handle_command c none = c
  handle_command c (some m) =
      if eq_bytes m.cmd [] || eq_bytes m.kind [] then c else handle_incoming_command c m

  -- `handleMessage`.
  unfoldable pub handle_message : Client D → Message → Client D
  unfolding awaited_here handle_command
  handle_message c m = elim (awaited_here c.pending m.as_response) [
    | some (i, r) ↦ record c { chan = at c.chan i (fill (c.chan i) r) }
    | none ↦ handle_command c m.as_command
  ]

  -- The loop of `readPump`, over the messages that arrive.
  unfoldable read_pump : Client D → List Message → Client D
  unfolding handle_message
  read_pump c [] = c
  read_pump c (m ∷ ms) = read_pump (handle_message c m) ms

  -- `setConn` and `compareAndSwapConn`.
  set_conn : Client D → ℕ → Client D
  set_conn c k = record c { conn = some k }

  compare_and_swap_conn : Client D → ℕ → Option ℕ → Client D
  compare_and_swap_conn c old new = elim c.conn [
    | none ↦ c
    | some k ↦ if k == old then record c { conn = new } else c
  ]

  -- `SendCommand` up to its wait, and its deferred deletion.
  start_command : Client D → ℕ → Command → Client D
  unfolding write register
  start_command c i m = write (record c { pending = register m.cmd i c.pending }) (command m)

  end_command : Client D → Command → Client D
  unfolding forget
  end_command c m = record c { pending = forget m.cmd c.pending }

  -- `Close`: the pending channels are closed behind the connection.
  close_client : Client D → Client D
  unfolding close_all
  close_client c = if c.is_cancelled then c else record c {
    is_cancelled = true;
    conn = none;
    chan = close_all c.pending c.chan;
    pending = [];
  }
