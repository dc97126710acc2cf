-- ===== src/Ws/Hub/Channels.antt =====
-- internal/ws/hub/hub.go: the channels of the calls. None is closed twice or written to once it is closed,
-- and each gets answers to its own command only.
use database_flashback.Base.{
  ℕ, ◌≡◌, refl, ap, true, false, Option, none, some, List, Bytes, eq_bytes_refl, arith, inl, inr,
  Option-cases,
}
use database_flashback.Ws.Messages.{Message, Response}
use database_flashback.Ws.Hub.{
  Hub, find, handle_connection, start_pump, start_refused, unregister, close_conn, drain, notify,
  receive, close, register, store_conn, receive_command, send_response, offer, awaited,
}
use database_flashback.Ws.Hub.Calls.{
  load_conn, register_call, write_call, write_fails, take_response, leave_call,
}
use database_flashback.Ws.Hub.Steps.{
  Setting, Step, message, drains, call, registers, marshal_fails, deadline_fails, writes,
  write_refused, answers, sees_closed, gives_up, shuts, leaves, Reaches, here, next, new_hub,
}
use database_flashback.Ws.Hub.Phases.{receive-Quiet, listed_by, early, told_by, early-listed}
use database_flashback.Ws.Hub.Pending.{
  has_chan, tidy, keyed, has_chan-forget, has_chan-forget_self, tidy-forget, keyed-forget,
  has_chan-find, keyed-find, close_all_other, close_panics-tidy, close_all-buffer,
}

awaited-find :
    (p : List (Bytes × ℕ)) (o : Option Response) (i : ℕ) (r : Response)
    → awaited p o ≡ some (i, r)
    → find r.cmd p ≡ some i
unfolding awaited
awaited-find p none i r h = cc
awaited-find p (some s) i r h = ground (arith, h)

module _ (w : Setting) where
  abbrev pub id_of : ℕ → Bytes
  id_of i = (w.request i).cmd.cmd

  pub record Calm (h : Hub) : Type 0 where
    pub tables : (c : ℕ) → tidy (h.conn c).pending ≡ true
    pub keys : (c : ℕ) → keyed id_of (h.conn c).pending ≡ true
    pub listed : (i c : ℕ) → has_chan i (h.conn c).pending ≡ true → listed_by (h.call i) ≡ some c
    pub fresh : (i c : ℕ) → has_chan i (h.conn c).pending ≡ true → (h.chan i).closed ≡ false
    pub untouched : (i : ℕ) → early (h.call i) ≡ true → (h.chan i).closed ≡ false
    pub unharmed : h.panicked ≡ false
    pub buffered : (i : ℕ) (r : Response) → (h.chan i).buffer ≡ some r → r.cmd ≡ id_of i
    pub told : (i : ℕ) (r : Response) → told_by (h.call i) ≡ some r → r.cmd ≡ id_of i

  tables-Step :
      (h : Hub) {h' : Hub} → Calm h → Step w h h' → (c : ℕ) → tidy (h'.conn c).pending ≡ true
  unfolding handle_connection start_pump start_refused unregister close_conn drain notify close
      load_conn register_call write_call write_fails take_response leave_call store_conn register
      tidy keyed has_chan
  tables-Step h v (message d m p o) c =
      let q = receive-Quiet w h d m in ground (arith, v.tables c, q.pending c)
  tables-Step h v (registers j d p) c = ground (
    arith,
    v.tables c,
    tidy-forget (id_of j) (h.conn d).pending,
    has_chan-forget_self id_of j (h.conn d).pending,
    v.keys d,
  )
  tables-Step h v (leaves j d o p) c =
      ground (arith, v.tables c, tidy-forget (id_of j) (h.conn d).pending)
  tables-Step h v _ c = ground (arith, v.tables c)

  keys-Step :
      (h : Hub) {h' : Hub} → Calm h → Step w h h' → (c : ℕ) → keyed id_of (h'.conn c).pending ≡ true
  unfolding handle_connection start_pump start_refused unregister close_conn drain notify close
      load_conn register_call write_call write_fails take_response leave_call store_conn register
      tidy keyed has_chan
  keys-Step h v (message d m p o) c =
      let q = receive-Quiet w h d m in ground (arith, v.keys c, q.pending c)
  keys-Step h v (registers j d p) c =
      ground
        (arith, v.keys c, keyed-forget id_of (id_of j) (h.conn d).pending, eq_bytes_refl (id_of j))
  keys-Step h v (leaves j d o p) c =
      ground (arith, v.keys c, keyed-forget id_of (id_of j) (h.conn d).pending)
  keys-Step h v _ c = ground (arith, v.keys c)

  listed-Step :
      (h : Hub) {h' : Hub}
      → Calm h
      → Step w h h'
      → (i c : ℕ) → has_chan i (h'.conn c).pending ≡ true
      → listed_by (h'.call i) ≡ some c
  unfolding handle_connection start_pump start_refused unregister close_conn drain notify close
      load_conn register_call write_call write_fails take_response leave_call store_conn register
      tidy keyed has_chan
  listed-Step h v (message d m p o) i c e =
      let q = receive-Quiet w h d m in
      ground (arith, v.listed i c, q.pending c, ap (λ f. f i) q.call)
  listed-Step h v (call j p) i c e = ground (arith, v.listed i c, ap listed_by p)
  listed-Step h v (registers j d p) i c e = ground (
    arith,
    v.listed i c,
    ap listed_by p,
    has_chan-forget i (id_of j) (h.conn d).pending,
    v.listed i d,
  )
  listed-Step h v (marshal_fails j d p) i c e = ground (arith, v.listed i c, ap listed_by p)
  listed-Step h v (deadline_fails j d p) i c e = ground (arith, v.listed i c, ap listed_by p)
  listed-Step h v (writes j d p o) i c e = ground (arith, v.listed i c, ap listed_by p)
  listed-Step h v (write_refused j d p) i c e = ground (arith, v.listed i c, ap listed_by p)
  listed-Step h v (answers j d r p b) i c e = ground (arith, v.listed i c, ap listed_by p)
  listed-Step h v (sees_closed j d p b k) i c e = ground (arith, v.listed i c, ap listed_by p)
  listed-Step h v (gives_up j d p t) i c e = ground (arith, v.listed i c, ap listed_by p)
  listed-Step h v (shuts j d p o) i c e = ground (arith, v.listed i c, ap listed_by p)
  listed-Step h v (leaves j d o p) i c e = ground (
    arith,
    v.listed i c,
    ap listed_by p,
    has_chan-forget i (id_of j) (h.conn d).pending,
    has_chan-forget_self id_of j (h.conn d).pending,
    v.keys d,
  )
  listed-Step h v _ i c e = ground (arith, v.listed i c)

  fresh-Step :
      (h : Hub) {h' : Hub}
      → Calm h
      → Step w h h'
      → (i c : ℕ) → has_chan i (h'.conn c).pending ≡ true
      → (h'.chan i).closed ≡ false
  unfolding handle_connection start_pump start_refused unregister close_conn drain notify close
      load_conn register_call write_call write_fails take_response leave_call store_conn register
      tidy keyed has_chan
  fresh-Step h v (message d m p o) i c e =
      let q = receive-Quiet w h d m in ground (arith, v.fresh i c, q.pending c, q.closed i)
  fresh-Step h v (registers j d p) i c e = ground (
    arith,
    v.fresh i c,
    v.untouched j,
    ap early p,
    has_chan-forget i (id_of j) (h.conn d).pending,
  )
  fresh-Step h v (leaves j d o p) i c e =
      ground (arith, v.fresh i c, has_chan-forget i (id_of j) (h.conn d).pending)
  fresh-Step h v (drains d p) i c e =
      ground (
        arith,
        v.fresh i c,
        v.listed i c,
        v.listed i d,
        close_all_other (h.conn d).pending h.chan i,
      )
  fresh-Step h v _ i c e = ground (arith, v.fresh i c)

  untouched-Step :
      (h : Hub) {h' : Hub}
      → Calm h
      → Step w h h'
      → (i : ℕ) → early (h'.call i) ≡ true
      → (h'.chan i).closed ≡ false
  unfolding handle_connection start_pump start_refused unregister close_conn drain notify close
      load_conn register_call write_call write_fails take_response leave_call store_conn register
      tidy keyed has_chan
  untouched-Step h v (message d m p o) i e =
      let q = receive-Quiet w h d m in
      ground (arith, v.untouched i, q.closed i, ap (λ f. f i) q.call)
  untouched-Step h v (drains d p) i e = ground (
    arith,
    v.untouched i,
    v.listed i d,
    early-listed (h.call i),
    close_all_other (h.conn d).pending h.chan i,
  )
  untouched-Step h v (call j p) i e = ground (arith, v.untouched i, ap early p)
  untouched-Step h v _ i e = ground (arith, v.untouched i)

  unharmed-receive :
      (h : Hub) (d : ℕ) (m : Message)
      → Calm h
      → (receive w.sign_csr w.has_progress h d m).panicked ≡ false
  unfolding receive receive_command send_response offer
  unharmed-receive h d m v = elim (Option-cases (awaited (h.conn d).pending m.as_response)) [
    | inl nothing ↦ rw (nothing, receive) (ground (arith, v.unharmed))
    | inr ((i, r), e) ↦
        let f = awaited-find (h.conn d).pending m.as_response i r e in
        let waits = v.fresh i d (has_chan-find r.cmd i (h.conn d).pending f) in
        rw (e, receive) (ground (arith, v.unharmed, waits))
  ]

  buffered-receive :
      (h : Hub) (d : ℕ) (m : Message)
      → Calm h
      → (j : ℕ) (s : Response) → ((receive w.sign_csr w.has_progress h d m).chan j).buffer ≡ some s
      → s.cmd ≡ id_of j
  unfolding receive receive_command send_response offer
  buffered-receive h d m v j s b = elim (Option-cases (awaited (h.conn d).pending m.as_response)) [
    | inl nothing ↦ let b' = rw (nothing, receive) at b in ground (arith, v.buffered j s, b')
    | inr ((i, r), e) ↦
        let f = awaited-find (h.conn d).pending m.as_response i r e in
        let own = keyed-find id_of r.cmd i (h.conn d).pending (v.keys d) f in
        let b' = rw (e, receive) at b in ground (arith, v.buffered j s, b', own)
  ]

  unharmed-Step : (h : Hub) {h' : Hub} → Calm h → Step w h h' → h'.panicked ≡ false
  unfolding handle_connection start_pump start_refused unregister close_conn drain notify close
      load_conn register_call write_call write_fails take_response leave_call store_conn register
      tidy keyed has_chan
  unharmed-Step h v (message d m p o) = unharmed-receive h d m v
  unharmed-Step h v (drains d p) = ground (
    arith,
    v.unharmed,
    close_panics-tidy (h.conn d).pending h.chan (v.tables d) (λ i m. v.fresh i d m),
  )
  unharmed-Step h v _ = ground (arith, v.unharmed)

  buffered-Step :
      (h : Hub) {h' : Hub}
      → Calm h
      → Step w h h'
      → (i : ℕ) (r : Response) → (h'.chan i).buffer ≡ some r
      → r.cmd ≡ id_of i
  unfolding handle_connection start_pump start_refused unregister close_conn drain notify close
      load_conn register_call write_call write_fails take_response leave_call store_conn register
      tidy keyed has_chan
  buffered-Step h v (message d m p o) i r e = buffered-receive h d m v i r e
  buffered-Step h v (drains d p) i r e =
      ground (arith, v.buffered i r, close_all-buffer (h.conn d).pending h.chan i)
  buffered-Step h v _ i r e = ground (arith, v.buffered i r)

  told-Step :
      (h : Hub) {h' : Hub}
      → Calm h
      → Step w h h'
      → (i : ℕ) (r : Response) → told_by (h'.call i) ≡ some r
      → r.cmd ≡ id_of i
  unfolding handle_connection start_pump start_refused unregister close_conn drain notify close
      load_conn register_call write_call write_fails take_response leave_call store_conn register
      tidy keyed has_chan
  told-Step h v (message d m p o) i r e =
      let q = receive-Quiet w h d m in ground (arith, v.told i r, ap (λ f. f i) q.call)
  told-Step h v (answers j d s p b) i r e = ground (arith, v.told i r, v.buffered j s b)
  told-Step h v (leaves j d o p) i r e = ground (arith, v.told i r, v.told j r, ap told_by p)
  told-Step h v _ i r e = ground (arith, v.told i r)

  Calm-Step : (h : Hub) {h' : Hub} → Calm h → Step w h h' → Calm h'
  Calm-Step h v st = record {
    tables = tables-Step h v st;
    keys = keys-Step h v st;
    listed = listed-Step h v st;
    fresh = fresh-Step h v st;
    untouched = untouched-Step h v st;
    unharmed = unharmed-Step h v st;
    buffered = buffered-Step h v st;
    told = told-Step h v st;
  }

  Calm-new_hub : Calm new_hub
  unfolding tidy keyed has_chan
  Calm-new_hub = record {
    tables = λ c. refl;
    keys = λ c. refl;
    listed = λ i c e. cc;
    fresh = λ i c e. refl;
    untouched = λ i e. refl;
    unharmed = refl;
    buffered = λ i r e. cc;
    told = λ i r e. cc;
  }

  pub Calm-Reaches : {h : Hub} → Reaches w new_hub h → Calm h
  Calm-Reaches here = Calm-new_hub
  Calm-Reaches (next {h} r st) = Calm-Step h (Calm-Reaches r) st
