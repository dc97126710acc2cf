-- ===== src/Ws/Hub/Examples.antt =====
-- internal/ws/hub/hub.go on small runs.
use database_flashback.Base.{
  ℕ, ◌+◌, ◌≡◌, refl, true, false, ◌||◌, none, some, [], ◌∷◌, text, eq_bytes, arith,
}
use database_flashback.Ws.Messages.{Response, cmd_status, status_ok}
use database_flashback.Ws.Hub.{
  Hub, Certificate, returned, Outcome, handle_connection, store_conn, extract_agent_id, start_pump,
  set_pump, unregister, close_conn, drain, receive, is_connected, Pump, reading,
}
use database_flashback.Ws.Hub.Calls.{
  load_conn, register_call, write_call, write_fails, take_response, leave_call,
}
use database_flashback.Ws.Hub.Steps.{
  Setting, Step, connect, start, read_fails, unregisters, closes, drains, call, registers, writes,
  message, answers, leaves, Reaches, here, next, new_hub,
}
use database_flashback.Ws.Hub.Returns.{waiting_wakes, send_to_agent_returns, hub_answers}
use database_flashback.Ws.Hub.Reconnect.{stale, reconnected_agent_is_lost}

-- Call number i has the command id of one character.
abbrev setting : Setting
setting = record {
  sign_csr = none;
  has_progress = false;
  request = λ i. record {
    agent_id = text "a1";
    cmd = record { cmd = (b'0' + i) ∷ []; kind = cmd_status; params = λ _. none };
  };
  has_deadline = λ _. false;
}

unique : (i j : ℕ) → eq_bytes (setting.request i).cmd.cmd (setting.request j).cmd.cmd ≡ true → i ≡ j
unique i j h = ground arith

abbrev one_cert : Certificate
one_cert = record { common_name = text "a1"; revoked = false }

abbrev connected : Hub
connected = start_pump (handle_connection false new_hub (some one_cert)) 0

abbrev sent : Hub
sent =
    write_call (register_call (load_conn connected 0 (setting.request 0)) 0 0 (setting.request 0)) 0
      0 (setting.request 0)

Reaches-sent : Reaches setting new_hub sent
unfolding handle_connection store_conn extract_agent_id start_pump load_conn register_call
Reaches-sent =
    next
      (next (next (next (next here (connect (some one_cert))) (start 0 refl)) (call 0 refl))
        (registers 0 0 refl))
      (writes 0 0 refl refl)

abbrev drained_hub : Hub
drained_hub = drain (close_conn (unregister (set_pump sent 0 Pump.unregistering) 0) 0) 0

Reaches-drained : Reaches setting new_hub drained_hub
unfolding handle_connection store_conn extract_agent_id start_pump load_conn register_call
    write_call unregister close_conn
Reaches-drained =
    next (next (next (next Reaches-sent (read_fails 0 refl)) (unregisters 0 refl)) (closes 0 refl))
      (drains 0 refl)

waiting_wakes_example : ((drained_hub.chan 0).closed || drained_hub.is_closed) ≡ true
unfolding handle_connection store_conn extract_agent_id start_pump load_conn register_call
    write_call unregister close_conn drain
waiting_wakes_example = waiting_wakes setting unique drained_hub 0 0 Reaches-drained refl refl

send_to_agent_returns_example :
    (h' : Hub) × Reaches setting sent h'
    × (o : Outcome) × (h'.call 0 ≡ returned o)
    × (h'.is_closed ≡ sent.is_closed)
unfolding handle_connection store_conn extract_agent_id start_pump load_conn register_call
    write_call
send_to_agent_returns_example = send_to_agent_returns setting unique sent 0 0 Reaches-sent refl

abbrev ok_response : Response
ok_response = record { cmd = b'0' ∷ []; status = status_ok; result = []; error = [] }

abbrev answered_hub : Hub
answered_hub =
    leave_call
      (take_response
        (receive none false sent 0 (record { as_response = some ok_response; as_command = none })) 0
        0 ok_response)
      0 0 (Outcome.answered ok_response) (setting.request 0)

Reaches-answered : Reaches setting new_hub answered_hub
unfolding handle_connection store_conn extract_agent_id start_pump load_conn register_call
    write_call receive take_response
Reaches-answered =
    next
      (next
        (next Reaches-sent
          (message 0 (record { as_response = some ok_response; as_command = none }) refl refl))
        (answers 0 0 ok_response refl refl))
      (leaves 0 0 (Outcome.answered ok_response) refl)

answered_hub_returns : answered_hub.call 0 ≡ returned (Outcome.answered ok_response)
unfolding leave_call
answered_hub_returns = refl

hub_answers_example :
    (answered_hub.panicked ≡ false)
    × ((i : ℕ) (r : Response)
        → answered_hub.call i ≡ returned (Outcome.answered r)
        → r.cmd ≡ (setting.request i).cmd.cmd)
hub_answers_example = hub_answers setting answered_hub Reaches-answered

-- The first connection's reader has ended; then another call of the agent is made.
abbrev stale_hub : Hub
stale_hub = stale setting 0 refl

abbrev refused_hub : Hub
refused_hub = load_conn (unregister stale_hub 0) 1 (setting.request 1)

reconnected_agent_is_lost_example :
    Reaches setting new_hub stale_hub
    × Step setting stale_hub (unregister stale_hub 0)
    × (stale_hub.conns (text "a1") ≡ some 1)
    × ((stale_hub.conn 1).pump ≡ reading)
    × ((stale_hub.conn 1).is_open ≡ true)
    × ((unregister stale_hub 0).conn 1 ≡ stale_hub.conn 1)
    × (is_connected refused_hub (text "a1") ≡ false)
    × ((load_conn refused_hub 2 (setting.request 2)).call 2 ≡ returned Outcome.not_connected)
unfolding load_conn unregister start_pump handle_connection write_fails register_call
reconnected_agent_is_lost_example =
    reconnected_agent_is_lost setting 0 refl 2 refused_hub refl (next here (call 1 refl)) refl
