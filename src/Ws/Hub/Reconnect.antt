-- ===== src/Ws/Hub/Reconnect.antt =====
-- internal/ws/hub/hub.go: an agent that reconnects while the old connection is still being read.
use database_flashback.Base.{
  ℕ, ◌≡◌, ◌≤◌, ap, true, false, none, some, Bytes, [], eq_bytes, eq_bytes_refl, arith,
}
use database_flashback.Ws.Hub.{
  Hub, Certificate, reading, unregistering, set_pump, start_pump, unregister, handle_connection,
  store_conn, extract_agent_id, is_connected, returned, Outcome, close_conn, drain, notify, close,
  start_refused,
}
use database_flashback.Ws.Hub.Calls.{
  load_conn, register_call, write_fails, write_call, take_response, leave_call,
}
use database_flashback.Ws.Hub.Steps.{
  Setting, Step, message, connect, start, read_fails, unregisters, call, registers, write_refused,
  Reaches, here, next, new_hub, has_handler,
}
use database_flashback.Ws.Hub.Phases.{receive-Quiet}

module _ (w : Setting) where
  next-Step : (h : Hub) {h' : Hub} → Step w h h' → h.next ≤ h'.next
  unfolding handle_connection start_pump start_refused unregister close_conn drain notify close
      load_conn register_call write_call write_fails take_response leave_call store_conn
  next-Step h (message d m p o) = let q = receive-Quiet w h d m in ground (arith, q.next)
  next-Step h _ = ground arith

  next-Reaches : {h h' : Hub} → Reaches w h h' → h.next ≤ h'.next
  next-Reaches here = ground arith
  next-Reaches {h = h} (next {h = before} r s) = ground (arith, next-Reaches r, next-Step before s)

  -- An agent that is not known stays so while no connection is accepted.
  unknown-Step :
      (a : Bytes) (h : Hub) {h' : Hub}
      → Step w h h'
      → h.conns a ≡ none
      → h'.next ≡ h.next
      → h'.conns a ≡ none
  unfolding handle_connection start_pump start_refused unregister close_conn drain notify close
      load_conn register_call write_call write_fails take_response leave_call store_conn
  unknown-Step a h (message d m p o) e k =
      let q = receive-Quiet w h d m in ground (arith, e, ap (λ f. f a) q.conns)
  unknown-Step a h _ e k = ground (arith, e, k)

  unknown-Reaches :
      (a : Bytes) {h h' : Hub}
      → Reaches w h h'
      → h.conns a ≡ none
      → h'.next ≡ h.next
      → h'.conns a ≡ none
  unknown-Reaches a here e k = e
  unknown-Reaches a (next {h = before} r s) e k =
      let up = next-Reaches r in
      let down = next-Step before s in
      unknown-Step a before s (unknown-Reaches a r e (omega (arith, up, down, k)))
        (omega (arith, up, down, k))

module _ (w : Setting) (i : ℕ) (named : eq_bytes (w.request i).agent_id [] ≡ false) where
  abbrev agent : Bytes
  agent = (w.request i).agent_id

  abbrev cert : Certificate
  cert = record { common_name = agent; revoked = false }

  abbrev accept : Hub → Hub
  accept h = handle_connection (has_handler w) h (some cert)

  abbrev up : Hub
  up = start_pump (accept new_hub) 0

  abbrev sending : Hub
  sending = register_call (load_conn up i (w.request i)) i 0 (w.request i)

  abbrev failed : Hub
  failed = write_fails sending i 0 (w.request i)

  abbrev again : Hub
  again = start_pump (accept failed) 1

  abbrev pub stale : Hub
  stale = set_pump again 0 unregistering

  Reaches-up : Reaches w new_hub up
  unfolding handle_connection store_conn extract_agent_id
  Reaches-up = next (next here (connect (some cert))) (start 0 (ground (arith, named)))

  Reaches-failed : Reaches w new_hub failed
  unfolding handle_connection store_conn extract_agent_id start_pump load_conn register_call
  Reaches-failed =
      next
        (next (next Reaches-up (call i (ground (arith, named))))
          (registers i 0 (ground (arith, named, eq_bytes_refl agent))))
        (write_refused i 0 (ground arith))

  Reaches-again : Reaches w new_hub again
  unfolding handle_connection store_conn extract_agent_id start_pump load_conn register_call
      write_fails
  Reaches-again =
      next (next Reaches-failed (connect (some cert)))
        (start 1 (ground (arith, named, eq_bytes_refl agent)))

  Reaches-stale : Reaches w new_hub stale
  unfolding handle_connection store_conn extract_agent_id start_pump load_conn register_call
      write_fails
  Reaches-stale = next Reaches-again (read_fails 0 (ground (arith, named, eq_bytes_refl agent)))

  -- A run for every agent and every call to it: the write of the call fails, the agent connects
  -- again, is accepted and is the one that is known, and then the reader of the first connection
  -- ends. Its deletion of the entry is by the agent's id: the second connection is left open and
  -- read as it was, but the agent is not known any more. In every state that follows while no
  -- connection is accepted, it is not, and every command to it is refused as not connected.
  pub reconnected_agent_is_lost :
      (j : ℕ) (h : Hub)
      → (w.request j).agent_id ≡ agent
      → Reaches w (unregister stale 0) h
      → h.next ≡ stale.next
      → Reaches w new_hub stale
        × Step w stale (unregister stale 0)
        × (stale.conns agent ≡ some 1)
        × ((stale.conn 1).pump ≡ reading)
        × ((stale.conn 1).is_open ≡ true)
        × ((unregister stale 0).conn 1 ≡ stale.conn 1)
        × (is_connected h agent ≡ false)
        × ((load_conn h j (w.request j)).call j ≡ returned Outcome.not_connected)
  unfolding handle_connection store_conn extract_agent_id start_pump load_conn register_call
      write_fails unregister is_connected
  reconnected_agent_is_lost j h own r same =
      let gone : (unregister stale 0).conns agent ≡ none =
        ground (arith, named, eq_bytes_refl agent) in
      let unknown = unknown-Reaches w agent r gone same in
      (
        Reaches-stale,
        unregisters 0 (ground (arith, named, eq_bytes_refl agent)),
        ground (arith, named, eq_bytes_refl agent),
        ground (arith, named, eq_bytes_refl agent),
        ground (arith, named, eq_bytes_refl agent),
        ground (arith, named, eq_bytes_refl agent),
        ground (arith, unknown),
        ground (arith, unknown, own, ap h.conns own),
      )
