-- ===== src/Ws/Agent/Exchange.antt =====
-- internal/ws/hub/hub.go and internal/ws/agent/client.go: a command and its answer, end to end.
use database_flashback.Base.{
  ℕ, ◌≡◌, ap, ◌∙◌, Bool, false, Option, none, some, [], ◌∷◌, ◌++◌, Bytes, eq_bytes, arith,
}
use database_flashback.Ws.Messages.{Command, Response, Message}
use database_flashback.Ws.Hub.{Hub, Frame, command, reply, find, receive, awaited, offer, Signed}
use database_flashback.Ws.Agent.{
  Client, Handlers, dispatch, handle_message, handle_command, handle_incoming_command, write,
  awaited_here,
}

-- What the other side decodes from a frame: fields that the JSON does not have stay empty.
pub received_as : Frame → Message
received_as (command c) = record {
  as_response = some (record { cmd = c.cmd; status = []; result = []; error = [] });
  as_command = some c;
}
received_as (reply r) = record {
  as_response = some r;
  as_command = some (record { cmd = r.cmd; kind = []; params = λ _. none });
}

module _ {D : Type 0} where
  -- Each handler answers with the id of its command and with a status.
  abbrev pub Echoes : Handlers D → Type 0
  Echoes handlers =
      (d : D) (c : Command)
      → ((dispatch handlers d c).1.cmd ≡ c.cmd)
        × (eq_bytes (dispatch handlers d c).1.status [] ≡ false)

  -- A command with an id and a kind that the hub has sent to an agent whose handlers answer with the
  -- id of the command: the agent writes one frame, and when the hub reads it, the response is in the
  -- channel of the call that waits for it.
  pub receive-handle_message :
      (sign_csr : Option (Bytes → Bytes → Signed)) (has_progress : Bool) (h : Hub) (i c : ℕ)
      (a : Client D) (k : ℕ) (handlers : Handlers D) (m : Command)
      → eq_bytes m.cmd [] ≡ false
      → eq_bytes m.kind [] ≡ false
      → a.conn ≡ some k
      → a.dispatcher ≡ some handlers
      → Echoes handlers
      → find m.cmd (h.conn c).pending ≡ some i
      → (h.chan i).buffer ≡ none
      → (h.chan i).closed ≡ false
      → (r : Response) × ((handle_message a (received_as (command m))).written
          ≡ a.written ++ (k, reply r) ∷ [])
        × (r.cmd ≡ m.cmd)
        × (((receive sign_csr has_progress h c (received_as (reply r))).chan i).buffer ≡ some r)
  unfolding handle_message handle_command handle_incoming_command write awaited_here receive awaited
      offer received_as
  receive-handle_message sign_csr has_progress h i c a k handlers m id kind conn disp echoes found
        empty open_still =
      let (same, status) = echoes a.state m in
      let r = (dispatch handlers a.state m).1 in
      let known : find r.cmd (h.conn c).pending ≡ some i =
        ap (λ x. find x (h.conn c).pending) same ∙ found in
      let named : eq_bytes r.cmd [] ≡ false = ap (λ x. eq_bytes x []) same ∙ id in
      (
        (dispatch handlers a.state m).1,
        ground (arith, disp, conn, id, kind),
        same,
        ground (arith, status, known, named, empty, open_still),
      )
