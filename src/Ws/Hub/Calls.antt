-- ===== src/Ws/Hub/Calls.antt =====
-- internal/ws/hub/hub.go: `SendToAgent`, cut at each access of shared state.
use database_flashback.Base.{ℕ, none, some, [], ◌∷◌, ◌++◌, Bytes}
use database_flashback.Ws.Messages.{Command, Response}
use database_flashback.Ws.Hub.{
  Hub, Call, loaded, registered, waiting, leaving, returned, Outcome, at, entry, forget, register,
  command,
}

-- The arguments of one call.
pub record Request : Type 0 where
  pub agent_id : Bytes
  pub cmd : Command

abbrev pub set_call : Hub → ℕ → Call → Hub
set_call h i s = record h { call = at h.call i s }

unfoldable pub load_conn : Hub → ℕ → Request → Hub
load_conn h i q = elim (h.conns q.agent_id) [
  | none ↦ set_call h i (returned Outcome.not_connected)
  | some c ↦ set_call h i (loaded c)
]

unfoldable pub register_call : Hub → ℕ → ℕ → Request → Hub
unfolding register
register_call h i c q = record (set_call h i (registered c)) {
  conn = at h.conn c (record (h.conn c) { pending = register q.cmd.cmd i (h.conn c).pending });
}

unfoldable pub write_call : Hub → ℕ → ℕ → Request → Hub
write_call h i c q = record (set_call h i (waiting c)) {
  conn = at h.conn c (record (h.conn c) { frames = (h.conn c).frames ++ command q.cmd ∷ [] });
}

-- The write failed: the agent's entry goes, whichever connection it names.
unfoldable pub write_fails : Hub → ℕ → ℕ → Request → Hub
write_fails h i c q = record (set_call h i (leaving c Outcome.write_failed)) {
  conns = entry h.conns q.agent_id none;
}

-- `case resp := <-ch` with a response in the buffer; without one the channel may be closed, which
-- gives nil and ends the call with `disconnected`.
unfoldable pub take_response : Hub → ℕ → ℕ → Response → Hub
take_response h i c r = record (set_call h i (leaving c (Outcome.answered r))) {
  chan = at h.chan i (record (h.chan i) { buffer = none });
}

-- The deferred deletion.
unfoldable pub leave_call : Hub → ℕ → ℕ → Outcome → Request → Hub
unfolding forget
leave_call h i c o q = record (set_call h i (returned o)) {
  conn = at h.conn c (record (h.conn c) { pending = forget q.cmd.cmd (h.conn c).pending });
}
