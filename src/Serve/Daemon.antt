-- ===== src/Serve/Daemon.antt =====
-- cmd/agent/serve.go: the handlers that `NewServeCommand` registers, and a sequence of commands.
use database_flashback.Base.{
  ◌++◌, ℕ, zero, suc, ◌≡◌, refl, ap, ◌∙◌, true, false, List, [], ◌∷◌, Bytes, text, eq_bytes,
  eq_bytes_refl, if◌then◌else◌, arith, All,
}
use database_flashback.Base.Names.{has}
use database_flashback.Rollback.Executor.{Driver}
use database_flashback.Ws.Messages.{
  Command, cmd_preflight, cmd_pitr_parse, cmd_pitr_execute, cmd_status, cmd_shutdown,
  cmd_pitr_cancel,
}
use database_flashback.Serve.Params.{
  Params, Host, Handled, ok_resp, err_resp, crashed, shutting_down, cancel_reply, param_string,
  param_strings,
}
use database_flashback.Serve.Execute.{
  State, delete_id, execute_checked, execute_sqls, handle_pitr_execute, handle_pitr_cancel,
  execute_named, batch_size_of,
}
use database_flashback.Serve.Parse.{handle_status, handle_preflight, handle_pitr_parse}

-- The handler of a kind of command.
pub data Kind : Type 0 where
  status shutdown preflight pitr_parse pitr_execute pitr_cancel : Kind
  unknown : Bytes → Kind

unfoldable pub kind_of : Bytes → Kind
kind_of k =
    if eq_bytes k cmd_status
    then status
    else if eq_bytes k cmd_shutdown
    then shutdown
    else if eq_bytes k cmd_preflight
    then preflight
    else if eq_bytes k cmd_pitr_parse
    then pitr_parse
    else if eq_bytes k cmd_pitr_execute
    then pitr_execute
    else if eq_bytes k cmd_pitr_cancel
    then pitr_cancel
    else unknown k

-- The answer to a cancellation says that there was nothing to cancel; other answers are free.
abbrev pub RefusesCancel : Kind → Bytes → Handled → Type 0
RefusesCancel pitr_cancel id answer = answer ≡ ok_resp (cancel_reply id false)
RefusesCancel _ id answer = Unit

abbrev pub NotCancelled : Command × Handled → Type 0
NotCancelled (c, answer) =
    RefusesCancel (kind_of c.kind) (param_string c.params (text "operationId")) answer

module _ (d : Driver) where
  -- `handleShutdown`.
  unfoldable pub handle_shutdown : State d → State d × Handled
  handle_shutdown s = (record s { stopped = true }, ok_resp shutting_down)

  unfoldable pub handle : Kind → Host → State d → Params → State d × Handled
  unfolding handle_shutdown handle_status handle_preflight handle_pitr_parse handle_pitr_execute
      handle_pitr_cancel
  handle status h s params = (s, handle_status h)
  handle shutdown h s params = handle_shutdown s
  handle preflight h s params = (s, handle_preflight h)
  handle pitr_parse h s params = (s, handle_pitr_parse h params)
  handle pitr_execute h s params = handle_pitr_execute d h s params
  handle pitr_cancel h s params = handle_pitr_cancel d s params
  handle (unknown k) h s params = (s, err_resp (text "unknown command type: " ++ k))

  abbrev answered : Command → Handled → List (Command × Handled) → List (Command × Handled)
  answered c crashed later = (c, crashed) ∷ []
  answered c (ok_resp r) later = (c, ok_resp r) ∷ later
  answered c (err_resp e) later = (c, err_resp e) ∷ later

  -- The commands that the agent reads, each with the host as it then is, and their answers; nothing
  -- is read after a crash.
  unfoldable pub handle_all : State d → List (Host × Command) → List (Command × Handled)
  unfolding handle kind_of
  handle_all s [] = []
  handle_all s ((h, c) ∷ cs) =
      let (next, answer) = handle (kind_of c.kind) h s c.params in
      answered c answer (handle_all next cs)

  delete_id-one : (id : Bytes) → delete_id id (id ∷ []) ≡ []
  unfolding delete_id
  delete_id-one id = rw (eq_bytes_refl id) refl

  execute_checked-cancels :
      (h : Host) (s : State d) (params : Params) (id : Bytes) (sqls : List Bytes) (size : ℕ)
      → s.cancels ≡ []
      → (execute_checked d h s params id sqls size).0.cancels ≡ []
  unfolding execute_checked
  execute_checked-cancels h s params id sqls zero none_yet = none_yet
  execute_checked-cancels h s params id sqls (suc n) none_yet =
      ap (λ c. delete_id id (id ∷ c)) none_yet ∙ delete_id-one id

  execute_sqls-cancels :
      (h : Host) (s : State d) (params : Params) (id : Bytes) (sqls : List Bytes)
      → s.cancels ≡ []
      → (execute_sqls d h s params id sqls).0.cancels ≡ []
  unfolding execute_sqls
  execute_sqls-cancels h s params id [] none_yet = none_yet
  execute_sqls-cancels h s params id (q ∷ sqls) none_yet =
      let size = batch_size_of (params (text "batchSize")) in
      ground (
        arith,
        ap (λ c. delete_id id (id ∷ c)) none_yet ∙ delete_id-one id,
        execute_checked-cancels h s params id (q ∷ sqls) size none_yet,
      )

  handle_pitr_execute-cancels :
      (h : Host) (s : State d) (params : Params)
      → s.cancels ≡ []
      → (handle_pitr_execute d h s params).0.cancels ≡ []
  unfolding handle_pitr_execute execute_named
  handle_pitr_execute-cancels h s params none_yet =
      cancels_of_id (param_string params (text "operationId"))
    where
      cancels_of_id : (id : Bytes) → (execute_named d h s params id).0.cancels ≡ []
      cancels_of_id [] = none_yet
      cancels_of_id (c ∷ id) =
          execute_sqls-cancels h s params (c ∷ id) (param_strings params (text "sql")) none_yet

  -- Between two commands no operation can be cancelled.
  handle-cancels :
      (k : Kind) (h : Host) (s : State d) (params : Params)
      → s.cancels ≡ []
      → (handle k h s params).0.cancels ≡ []
  unfolding handle handle_shutdown handle_pitr_cancel
  handle-cancels status h s params none_yet = none_yet
  handle-cancels shutdown h s params none_yet = none_yet
  handle-cancels preflight h s params none_yet = none_yet
  handle-cancels pitr_parse h s params none_yet = none_yet
  handle-cancels pitr_execute h s params none_yet = handle_pitr_execute-cancels h s params none_yet
  handle-cancels pitr_cancel h s params none_yet = none_yet
  handle-cancels (unknown k) h s params none_yet = none_yet

  handle-RefusesCancel :
      (k : Kind) (h : Host) (s : State d) (params : Params)
      → s.cancels ≡ []
      → RefusesCancel k (param_string params (text "operationId")) (handle k h s params).1
  unfolding handle handle_pitr_cancel has
  handle-RefusesCancel status h s params none_yet = tt
  handle-RefusesCancel shutdown h s params none_yet = tt
  handle-RefusesCancel preflight h s params none_yet = tt
  handle-RefusesCancel pitr_parse h s params none_yet = tt
  handle-RefusesCancel pitr_execute h s params none_yet = tt
  handle-RefusesCancel pitr_cancel h s params none_yet = rw none_yet refl
  handle-RefusesCancel (unknown k) h s params none_yet = tt

  answered-All :
      (c : Command) (answer : Handled) (later : List (Command × Handled))
      → NotCancelled (c, answer)
      → All NotCancelled later
      → All NotCancelled (answered c answer later)
  answered-All c crashed later now rest = (now, tt)
  answered-All c (ok_resp r) later now rest = (now, rest)
  answered-All c (err_resp e) later now rest = (now, rest)

  -- Of a daemon that has no operation in its map of cancel functions, as at its start, every
  -- command `pitr_cancel` in every sequence of commands is answered with "cancelled": false:
  -- since a handler runs to its end before the next command is read, no operation is ever cancelled.
  pub handle_all-NotCancelled :
      (s : State d) (cs : List (Host × Command))
      → s.cancels ≡ []
      → All NotCancelled (handle_all s cs)
  unfolding handle_all
  handle_all-NotCancelled s [] none_yet = tt
  handle_all-NotCancelled s ((h, c) ∷ cs) none_yet =
      let k = kind_of c.kind in
      let later =
        handle_all-NotCancelled (handle k h s c.params).0 cs
          (handle-cancels k h s c.params none_yet) in
      answered-All c (handle k h s c.params).1 _ (handle-RefusesCancel k h s c.params none_yet)
        later
