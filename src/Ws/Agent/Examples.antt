-- ===== src/Ws/Agent/Examples.antt =====
-- internal/ws/agent/client.go on small runs.
use database_flashback.Base.{
  ℕ, ◌≡◌, refl, false, none, some, List, [], ◌∷◌, text, panic, ◌>>=◌, arith,
}
use database_flashback.Ws.Messages.{Command, Response, cmd_status, status_ok}
use database_flashback.Ws.Hub.{
  Hub, command, reply, handle_connection, store_conn, extract_agent_id, start_pump, receive, find,
}
use database_flashback.Ws.Hub.Calls.{Request, load_conn, register_call, write_call}
use database_flashback.Ws.Hub.Steps.{new_hub}
use database_flashback.Ws.Agent.{
  Client, Handlers, none_yet, register_handler, dispatch, find_handler, handle_message,
}
use database_flashback.Ws.Agent.Backoff.{failed_dials, reconnect, reconnect_panics}
use database_flashback.Ws.Agent.Exchange.{Echoes, received_as, receive-handle_message}

abbrev thirty_four : List ℕ
thirty_four =
    1 ∷ 2 ∷ 3 ∷ 4 ∷ 5 ∷ 6 ∷ 7 ∷ 8 ∷ 9 ∷ 10 ∷ 11 ∷ 12 ∷ 13 ∷ 14 ∷ 15 ∷ 16 ∷ 17 ∷ 18 ∷ 19 ∷ 20 ∷ 21
    ∷ 22 ∷ 23 ∷ 24 ∷ 25 ∷ 26 ∷ 27 ∷ 28 ∷ 29 ∷ 30 ∷ 31 ∷ 32 ∷ 33 ∷ 34 ∷ []

reconnect_panics_example :
    (failed_dials thirty_four (record { conn = some 1; reconnect_attempt = 0 })
      >>= reconnect 7 (some 2))
    ≡ panic
reconnect_panics_example =
    reconnect_panics thirty_four (record { conn = some 1; reconnect_attempt = 0 }) 7 (some 2) refl
      refl

abbrev ping : Command
ping = record { cmd = text "7"; kind = cmd_status; params = λ _. none }

abbrev pong : Command → Response
pong c = record { cmd = c.cmd; status = status_ok; result = text "{}"; error = [] }

-- One handler, which notes that it ran.
abbrev noting : Handlers ℕ
noting = register_handler none_yet cmd_status λ n c. (1, pong c)

abbrev agent : Client ℕ
agent = record {
  conn = some 3;
  pending = [];
  chan = λ _. record { buffer = none; closed = false };
  written = [];
  dispatcher = some noting;
  state = 0;
  is_cancelled = false;
}

abbrev waiting : Hub
waiting =
    let connected =
      start_pump
        (handle_connection false new_hub
          (some (record { common_name = text "a1"; revoked = false })))
        0 in
    let request : Request = record { agent_id = text "a1"; cmd = ping } in
    write_call (register_call (load_conn connected 0 request) 0 0 request) 0 0 request

noting-Echoes : Echoes noting
unfolding dispatch find_handler register_handler
noting-Echoes d c = (ground arith, ground arith)

receive-handle_message_example :
    (r : Response) × ((handle_message agent (received_as (command ping))).written
      ≡ (3, reply r) ∷ [])
    × (r.cmd ≡ text "7")
    × (((receive none false waiting 0 (received_as (reply r))).chan 0).buffer ≡ some r)
unfolding load_conn register_call write_call handle_connection store_conn extract_agent_id
    start_pump find
receive-handle_message_example =
    receive-handle_message none false waiting 0 0 agent 3 noting ping refl refl refl refl
      noting-Echoes refl refl refl
