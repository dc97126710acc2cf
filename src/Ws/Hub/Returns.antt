-- ===== src/Ws/Hub/Returns.antt =====
-- internal/ws/hub/hub.go: what callers of `SendToAgent` can rely on, and an entry that is lost.
use database_flashback.Base.{
  ℕ, ◌≡◌, refl, ap, ◌∙◌, Bool, true, false, ◌||◌, eq_bytes, arith, Bool-cases, Option-cases, inl,
  inr,
}
use database_flashback.Ws.Messages.{Response}
use database_flashback.Ws.Hub.{
  Hub, Pump, starting, reading, unregistering, closing, draining, notifying, ended, not_started,
  waiting, leaving, returned, Outcome, set_pump, start_pump, unregister, close_conn, drain,
}
use database_flashback.Ws.Hub.Calls.{set_call, take_response, leave_call}
use database_flashback.Ws.Hub.Steps.{
  Setting, Step, start, read_fails, unregisters, closes, drains, answers, sees_closed, shuts,
  leaves, Reaches, here, next, new_hub,
}
use database_flashback.Ws.Hub.Phases.{drained, never_started, awaited_by, told_by}
use database_flashback.Ws.Hub.Waiting.{Serves, Serves-Reaches}
use database_flashback.Ws.Hub.Channels.{Calm-Reaches}

-- The goroutine of a connection has closed the channels, or has never begun to read.
abbrev pub over : Pump → Bool
over p = drained p || never_started p

module _ (w : Setting) where
  Reaches-trans : {a b c : Hub} → Reaches w a b → Reaches w b c → Reaches w a c
  Reaches-trans r here = r
  Reaches-trans r (next s st) = next (Reaches-trans r s) st

  -- A run in which no call moves, to the end of the goroutine of `c`.
  record Ending (h : Hub) (c : ℕ) : Type 0 where
    last : Hub
    runs : Reaches w h last
    is_over : over (last.conn c).pump ≡ true
    calls : last.call ≡ h.call
    closed : last.is_closed ≡ h.is_closed

  first_then :
      (h h' : Hub) (c : ℕ)
      → Step w h h'
      → h'.call ≡ h.call
      → h'.is_closed ≡ h.is_closed
      → Ending h' c
      → Ending h c
  first_then h h' c st e k rest = record {
    last = rest.last;
    runs = Reaches-trans (next here st) rest.runs;
    is_over = rest.is_over;
    calls = rest.calls ∙ e;
    closed = rest.closed ∙ k;
  }

  from_draining : (h : Hub) (c : ℕ) → (h.conn c).pump ≡ draining → Ending h c
  unfolding drain
  from_draining h c e = record {
    last = drain h c;
    runs = next here (drains c e);
    is_over = ground arith;
    calls = refl;
    closed = refl;
  }

  from_closing : (h : Hub) (c : ℕ) → (h.conn c).pump ≡ closing → Ending h c
  unfolding close_conn
  from_closing h c e =
      first_then h (close_conn h c) c (closes c e) refl refl
        (from_draining (close_conn h c) c (ground arith))

  from_unregistering : (h : Hub) (c : ℕ) → (h.conn c).pump ≡ unregistering → Ending h c
  unfolding unregister
  from_unregistering h c e =
      first_then h (unregister h c) c (unregisters c e) refl refl
        (from_closing (unregister h c) c (ground arith))

  from_reading : (h : Hub) (c : ℕ) → (h.conn c).pump ≡ reading → Ending h c
  from_reading h c e =
      first_then h (set_pump h c unregistering) c (read_fails c e) refl refl
        (from_unregistering (set_pump h c unregistering) c (ground arith))

  from_starting : (h : Hub) (c : ℕ) → (h.conn c).pump ≡ starting → Ending h c
  unfolding start_pump
  from_starting h c e =
      first_then h (start_pump h c) c (start c e) refl refl
        (from_reading (start_pump h c) c (ground arith))

  already_over : (h : Hub) (c : ℕ) → over (h.conn c).pump ≡ true → Ending h c
  already_over h c e = record { last = h; runs = here; is_over = e; calls = refl; closed = refl }

  pump_ends : (h : Hub) (c : ℕ) (p : Pump) → (h.conn c).pump ≡ p → Ending h c
  pump_ends h c starting e = from_starting h c e
  pump_ends h c reading e = from_reading h c e
  pump_ends h c unregistering e = from_unregistering h c e
  pump_ends h c closing e = from_closing h c e
  pump_ends h c draining e = from_draining h c e
  pump_ends h c notifying e = already_over h c (ap over e)
  pump_ends h c ended e = already_over h c (ap over e)
  pump_ends h c not_started e = already_over h c (ap over e)

module _ (w : Setting)
    (unique : (i j : ℕ) → eq_bytes (w.request i).cmd.cmd (w.request j).cmd.cmd ≡ true → i ≡ j) where
  -- A call that waits on a connection that is over has an answer, a closed channel or a closed hub.
  ready :
      (h : Hub) (i c : ℕ)
      → Serves w unique h
      → h.call i ≡ waiting c
      → over (h.conn c).pump ≡ true
      → ((h.chan i).closed || h.is_closed) ≡ true
  ready h i c v e o = ground (arith, v.woken i c, v.failed c, ap awaited_by e, o)

  select_returns :
      (h : Hub) (i c : ℕ)
      → h.call i ≡ waiting c
      → ((h.chan i).closed || h.is_closed) ≡ true
      → (o : Outcome) × (h' : Hub) × Step w h h'
        × (h'.call i ≡ leaving c o)
        × (h'.is_closed ≡ h.is_closed)
  unfolding take_response
  select_returns h i c e r = elim (Option-cases (h.chan i).buffer) [
    | inr (s, full) ↦
        (Outcome.answered s, take_response h i c s, answers i c s e full, ground arith, refl)
    | inl empty ↦ elim (Bool-cases (h.chan i).closed) [
      | inl shut ↦ (
        Outcome.disconnected,
        set_call h i (leaving c Outcome.disconnected),
        sees_closed i c e empty shut,
        ground arith,
        refl,
      )
      | inr open_still ↦ (
        Outcome.hub_closed,
        set_call h i (leaving c Outcome.hub_closed),
        shuts i c e (ground (arith, r, open_still)),
        ground arith,
        refl,
      )
    ]
  ]

  -- If no two calls have the same command id, then in every reachable state a call of `SendToAgent`
  -- that waits on a connection whose goroutine is over (its channels are drained, or it never began)
  -- can go on: its channel is closed, or the hub is.
  pub waiting_wakes :
      (h : Hub) (i c : ℕ)
      → Reaches w new_hub h
      → h.call i ≡ waiting c
      → over (h.conn c).pump ≡ true
      → ((h.chan i).closed || h.is_closed) ≡ true
  waiting_wakes h i c r e o = ready h i c (Serves-Reaches w unique r) e o

  -- If no two calls have the same command id, then from every reachable state in which a call of
  -- `SendToAgent` waits there is a run to a state in which it has returned, with the hub as open or
  -- closed as before: no interleaving gets a call stuck.
  pub send_to_agent_returns :
      (h : Hub) (i c : ℕ)
      → Reaches w new_hub h
      → h.call i ≡ waiting c
      → (h' : Hub) × Reaches w h h'
        × (o : Outcome) × (h'.call i ≡ returned o)
        × (h'.is_closed ≡ h.is_closed)
  unfolding leave_call
  send_to_agent_returns h i c r e =
      let end = pump_ends w h c (h.conn c).pump refl in
      let waits : end.last.call i ≡ waiting c = ap (λ f. f i) end.calls ∙ e in
      let v = Serves-Reaches w unique (Reaches-trans w r end.runs) in
      let (o, h', st, left, same) =
        select_returns end.last i c waits (ready end.last i c v waits end.is_over) in
      (
        leave_call h' i c o (w.request i),
        next (next end.runs st) (leaves i c o left),
        o,
        ground arith,
        same ∙ end.closed,
      )

-- In every interleaving the hub neither writes to a closed channel nor closes one twice, and a call
-- of `SendToAgent` that returns a response returns one that bears the id of its own command.
pub hub_answers :
    (w : Setting) (h : Hub)
    → Reaches w new_hub h
    → (h.panicked ≡ false)
      × ((i : ℕ) (r : Response)
          → h.call i ≡ returned (Outcome.answered r)
          → r.cmd ≡ (w.request i).cmd.cmd)
hub_answers w h r = let v = Calm-Reaches w r in (v.unharmed, (λ i s e. v.told i s (ap told_by e)))
