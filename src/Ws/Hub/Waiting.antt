-- ===== src/Ws/Hub/Waiting.antt =====
-- internal/ws/hub/hub.go: what every interleaving keeps of a call that waits for an answer.
use database_flashback.Base.{
  ℕ, ◌<◌, ◌≡◌, refl, ap, true, false, ◌||◌, some, Bytes, eq_bytes, eq_bytes_refl, arith,
}
use database_flashback.Ws.Hub.{
  Hub, find, handle_connection, start_pump, start_refused, unregister, close_conn, drain, notify,
  close, store_conn,
}
use database_flashback.Ws.Hub.Calls.{
  load_conn, register_call, write_call, write_fails, take_response, leave_call,
}
use database_flashback.Ws.Hub.Steps.{
  Setting, Step, connect, start, start_fails, message, read_fails, unregisters, closes, drains,
  notifies, call, registers, marshal_fails, deadline_fails, writes, write_refused, answers,
  sees_closed, gives_up, shuts, leaves, Reaches, here, next, new_hub,
}
use database_flashback.Ws.Hub.Phases.{
  undrained, drained, shut, never_started, is_starting, held_by, registered_by, awaited_by,
  registered_by-held, awaited_by-held, registered_by-awaited, drained-shut, receive-Quiet,
}
use database_flashback.Ws.Hub.Pending.{
  find-forget_other, find-register, close_all-closed, close_all-find,
}

module _ (w : Setting)
    (unique : (i j : ℕ) → eq_bytes (w.request i).cmd.cmd (w.request j).cmd.cmd ≡ true → i ≡ j) where
  abbrev pub id_of : ℕ → Bytes
  id_of i = (w.request i).cmd.cmd

  pub record Serves (h : Hub) : Type 0 where
    pub entries : (a : Bytes) (c : ℕ) → h.conns a ≡ some c → c < h.next
    pub holds : (i c : ℕ) → held_by (h.call i) ≡ some c → c < h.next
    pub shuts : (c : ℕ) → shut (h.conn c).pump ≡ true → (h.conn c).is_open ≡ false
    pub starts :
        (c : ℕ) → is_starting (h.conn c).pump ≡ true → ((h.conn c).is_open || h.is_closed) ≡ true
    pub failed : (c : ℕ) → never_started (h.conn c).pump ≡ true → h.is_closed ≡ true
    pub found :
        (i c : ℕ)
        → registered_by (h.call i) ≡ some c
        → undrained (h.conn c).pump ≡ true
        → find (id_of i) (h.conn c).pending ≡ some i
    pub woken :
        (i c : ℕ)
        → awaited_by (h.call i) ≡ some c
        → drained (h.conn c).pump ≡ true
        → (h.chan i).closed ≡ true

  entries-Step :
      (h : Hub) {h' : Hub}
      → Serves h
      → Step w h h'
      → (a : Bytes) (c : ℕ) → h'.conns a ≡ some c
      → c < h'.next
  unfolding handle_connection start_pump start_refused unregister close_conn drain notify close
      load_conn register_call write_call write_fails take_response leave_call store_conn
  entries-Step h v (message d m p o) a c e =
      let q = receive-Quiet w h d m in ground (arith, v.entries a c, ap (λ f. f a) q.conns, q.next)
  entries-Step h v _ a c e = ground (arith, v.entries a c)

  holds-Step :
      (h : Hub) {h' : Hub}
      → Serves h
      → Step w h h'
      → (i c : ℕ) → held_by (h'.call i) ≡ some c
      → c < h'.next
  unfolding handle_connection start_pump start_refused unregister close_conn drain notify close
      load_conn register_call write_call write_fails take_response leave_call store_conn
  holds-Step h v (message d m p o) i c e =
      let q = receive-Quiet w h d m in ground (arith, v.holds i c, ap (λ f. f i) q.call, q.next)
  holds-Step h v (call j p) i c e = ground (arith, v.holds i c, v.entries (w.request j).agent_id c)
  holds-Step h v (registers j d p) i c e = ground (arith, v.holds i c, ap held_by p)
  holds-Step h v (marshal_fails j d p) i c e = ground (arith, v.holds i c, ap held_by p)
  holds-Step h v (deadline_fails j d p) i c e = ground (arith, v.holds i c, ap held_by p)
  holds-Step h v (writes j d p o) i c e = ground (arith, v.holds i c, ap held_by p)
  holds-Step h v (write_refused j d p) i c e = ground (arith, v.holds i c, ap held_by p)
  holds-Step h v (answers j d r p b) i c e = ground (arith, v.holds i c, ap held_by p)
  holds-Step h v (sees_closed j d p b k) i c e = ground (arith, v.holds i c, ap held_by p)
  holds-Step h v (gives_up j d p t) i c e = ground (arith, v.holds i c, ap held_by p)
  holds-Step h v (shuts j d p o) i c e = ground (arith, v.holds i c, ap held_by p)
  holds-Step h v (leaves j d o p) i c e = ground (arith, v.holds i c, ap held_by p)
  holds-Step h v _ i c e = ground (arith, v.holds i c)

  shuts-Step :
      (h : Hub) {h' : Hub}
      → Serves h
      → Step w h h'
      → (c : ℕ) → shut (h'.conn c).pump ≡ true
      → (h'.conn c).is_open ≡ false
  unfolding handle_connection start_pump start_refused unregister close_conn drain notify close
      load_conn register_call write_call write_fails take_response leave_call store_conn
  shuts-Step h v (message d m p o) c e =
      let q = receive-Quiet w h d m in ground (arith, v.shuts c, q.pump c, q.is_open c)
  shuts-Step h v (drains d p) c e = ground (arith, v.shuts c, v.shuts d, ap shut p)
  shuts-Step h v (notifies d p) c e = ground (arith, v.shuts c, v.shuts d, ap shut p)
  shuts-Step h v _ c e = ground (arith, v.shuts c)

  starts-Step :
      (h : Hub) {h' : Hub}
      → Serves h
      → Step w h h'
      → (c : ℕ) → is_starting (h'.conn c).pump ≡ true
      → ((h'.conn c).is_open || h'.is_closed) ≡ true
  unfolding handle_connection start_pump start_refused unregister close_conn drain notify close
      load_conn register_call write_call write_fails take_response leave_call store_conn
  starts-Step h v (message d m p o) c e =
      let q = receive-Quiet w h d m in
      ground (arith, v.starts c, q.pump c, q.is_open c, q.is_closed)
  starts-Step h v _ c e = ground (arith, v.starts c)

  failed-Step :
      (h : Hub) {h' : Hub}
      → Serves h
      → Step w h h'
      → (c : ℕ) → never_started (h'.conn c).pump ≡ true
      → h'.is_closed ≡ true
  unfolding handle_connection start_pump start_refused unregister close_conn drain notify close
      load_conn register_call write_call write_fails take_response leave_call store_conn
  failed-Step h v (message d m p o) c e =
      let q = receive-Quiet w h d m in ground (arith, v.failed c, q.pump c, q.is_closed)
  failed-Step h v (start_fails d p o) c e = ground (arith, v.failed c, v.starts d, ap is_starting p)
  failed-Step h v _ c e = ground (arith, v.failed c)

  found-Step :
      (h : Hub) {h' : Hub}
      → Serves h
      → Step w h h'
      → (i c : ℕ) → registered_by (h'.call i) ≡ some c
      → undrained (h'.conn c).pump ≡ true
      → find (id_of i) (h'.conn c).pending ≡ some i
  unfolding handle_connection start_pump start_refused unregister close_conn drain notify close
      load_conn register_call write_call write_fails take_response leave_call store_conn
  found-Step h v (message d m p o) i c e u =
      let q = receive-Quiet w h d m in
      ground (arith, v.found i c, ap (λ f. f i) q.call, q.pump c, q.pending c)
  found-Step h v (connect cert) i c e u =
      ground (arith, v.found i c, v.holds i c, registered_by-held (h.call i))
  found-Step h v (start d p) i c e u = ground (arith, v.found i c, ap undrained p)
  found-Step h v (read_fails d p) i c e u = ground (arith, v.found i c, ap undrained p)
  found-Step h v (unregisters d p) i c e u = ground (arith, v.found i c, ap undrained p)
  found-Step h v (closes d p) i c e u = ground (arith, v.found i c, ap undrained p)
  found-Step h v (registers j d p) i c e u = ground (
    arith,
    v.found i c,
    find-register (id_of i) (id_of j) j (h.conn d).pending,
    unique j i,
    eq_bytes_refl (id_of j),
  )
  found-Step h v (leaves j d o p) i c e u =
      ground
        (arith, v.found i c, find-forget_other (id_of i) (id_of j) (h.conn d).pending, unique j i)
  found-Step h v (marshal_fails j d p) i c e u = ground (arith, v.found i c, ap registered_by p)
  found-Step h v (deadline_fails j d p) i c e u = ground (arith, v.found i c, ap registered_by p)
  found-Step h v (writes j d p o) i c e u = ground (arith, v.found i c, ap registered_by p)
  found-Step h v (write_refused j d p) i c e u = ground (arith, v.found i c, ap registered_by p)
  found-Step h v (answers j d r p b) i c e u = ground (arith, v.found i c, ap registered_by p)
  found-Step h v (sees_closed j d p b k) i c e u = ground (arith, v.found i c, ap registered_by p)
  found-Step h v (gives_up j d p t) i c e u = ground (arith, v.found i c, ap registered_by p)
  found-Step h v (shuts j d p o) i c e u = ground (arith, v.found i c, ap registered_by p)
  found-Step h v _ i c e u = ground (arith, v.found i c)

  woken-Step :
      (h : Hub) {h' : Hub}
      → Serves h
      → Step w h h'
      → (i c : ℕ) → awaited_by (h'.call i) ≡ some c
      → drained (h'.conn c).pump ≡ true
      → (h'.chan i).closed ≡ true
  unfolding handle_connection start_pump start_refused unregister close_conn drain notify close
      load_conn register_call write_call write_fails take_response leave_call store_conn
  woken-Step h v (message d m p o) i c e u =
      let q = receive-Quiet w h d m in
      ground (arith, v.woken i c, ap (λ f. f i) q.call, q.pump c, q.closed i)
  woken-Step h v (drains d p) i c e u = ground (
    arith,
    v.woken i c,
    v.found i c,
    ap undrained p,
    close_all-closed (h.conn d).pending h.chan i,
    close_all-find (id_of i) (h.conn d).pending h.chan i,
    registered_by-awaited (h.call i),
  )
  woken-Step h v (notifies d p) i c e u = ground (arith, v.woken i c, ap drained p)
  woken-Step h v (writes j d p o) i c e u =
      ground (arith, v.woken i c, v.shuts d, o, drained-shut (h.conn d).pump)
  woken-Step h v (connect cert) i c e u =
      ground (arith, v.woken i c, v.holds i c, awaited_by-held (h.call i))
  woken-Step h v (marshal_fails j d p) i c e u = ground (arith, v.woken i c, ap awaited_by p)
  woken-Step h v (deadline_fails j d p) i c e u = ground (arith, v.woken i c, ap awaited_by p)
  woken-Step h v (write_refused j d p) i c e u = ground (arith, v.woken i c, ap awaited_by p)
  woken-Step h v (answers j d r p b) i c e u = ground (arith, v.woken i c, ap awaited_by p)
  woken-Step h v (sees_closed j d p b k) i c e u = ground (arith, v.woken i c, ap awaited_by p)
  woken-Step h v (gives_up j d p t) i c e u = ground (arith, v.woken i c, ap awaited_by p)
  woken-Step h v (shuts j d p o) i c e u = ground (arith, v.woken i c, ap awaited_by p)
  woken-Step h v _ i c e u = ground (arith, v.woken i c)

  Serves-Step : (h : Hub) {h' : Hub} → Serves h → Step w h h' → Serves h'
  Serves-Step h v st = record {
    entries = entries-Step h v st;
    holds = holds-Step h v st;
    shuts = shuts-Step h v st;
    starts = starts-Step h v st;
    failed = failed-Step h v st;
    found = found-Step h v st;
    woken = woken-Step h v st;
  }

  Serves-new_hub : Serves new_hub
  Serves-new_hub = record {
    entries = λ a c e. cc;
    holds = λ i c e. cc;
    shuts = λ c e. refl;
    starts = λ c e. cc;
    failed = λ c e. cc;
    found = λ i c e u. cc;
    woken = λ i c e u. cc;
  }

  pub Serves-Reaches : {h : Hub} → Reaches w new_hub h → Serves h
  Serves-Reaches here = Serves-new_hub
  Serves-Reaches (next {h} r st) = Serves-Step h (Serves-Reaches r) st
