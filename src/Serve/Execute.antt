-- ===== src/Serve/Execute.antt =====
-- cmd/agent/serve.go: `handlePITRExecute` and `handlePITRCancel`, with the executor of
-- internal/rollback and the checkpoints of internal/checkpoint.
use database_flashback.Base.{
  ℕ, zero, suc, ◌+◌, ◌-◌, ◌/◌, Bool, true, false, Option, none, some, List, [], ◌∷◌, ◌++◌, Bytes,
  text, length, if◌then◌else◌, eq_bytes,
}
use database_flashback.Base.Names.{has}
use database_flashback.Base.Int.{pos}
use database_flashback.Rollback.Executor.{
  Driver, refused, other_error, BatchResult, ExecOptions, ExecResult, execute_on,
}
use database_flashback.Checkpoint.{Dir, CheckpointPlan, create_checkpoint, complete}
use database_flashback.Checkpoint.Life.{Update, update_batches}
use database_flashback.Ws.Messages.{Param, number_param}
use database_flashback.Serve.Params.{
  Params, Host, Handled, ok_resp, err_resp, crashed, execute_reply, cancel_reply, param_string,
  param_strings,
}

-- What `pushProgress` is called with; the estimate of the remaining time is left out.
pub record Progress : Type 0 where
  pub operation_id : Bytes
  pub batches_complete : ℕ
  pub batches_total : ℕ
  pub rows_restored : ℕ

-- A driver under a context that is over: no transaction begins.
abbrev refusing : Driver → Driver
refusing d = record d { begin = λ db. refused db (other_error (text "context canceled")) }

-- The daemon: the operations that can be cancelled, whether the root context is over, the directory
-- of checkpoints, the progress pushed so far, and the database.
pub record State (d : Driver) : Type 0 where
  pub cancels : List Bytes
  pub stopped : Bool
  pub dir : Dir
  pub pushed : List Progress
  pub db : d.Db

unfoldable pub delete_id : Bytes → List Bytes → List Bytes
delete_id id [] = []
delete_id id (x ∷ xs) = if eq_bytes x id then delete_id id xs else x ∷ delete_id id xs

-- `batchSize`: 100, or the whole part of a number above 0.
unfoldable pub batch_size_of : Option Param → ℕ
batch_size_of (some (number_param true n)) = n
batch_size_of _ = 100

abbrev pub completed_of : BatchResult → ℕ
completed_of b = elim b.error [ none ↦ suc b.batch_num | some _ ↦ b.batch_num ]

-- The calls of `UpdateBatch` and `pushProgress` that the callback `OnBatch` makes.
unfoldable pub updates_of : Host → ℕ → List BatchResult → List Update
updates_of h k [] = []
updates_of h k (b ∷ bs) =
    record { disk = h.disk k; now = h.clock k; completed = completed_of b }
    ∷ updates_of h (suc k) bs

unfoldable pushes_of : Bytes → ℕ → ℕ → List BatchResult → List Progress
pushes_of id total rows [] = []
pushes_of id total rows (b ∷ bs) =
    record {
      operation_id = id;
      batches_complete = completed_of b;
      batches_total = total;
      rows_restored = rows + b.rows_affected;
    }
    ∷ pushes_of id total (rows + b.rows_affected) bs

abbrev pub plan_of : Host → Params → Bytes → ℕ → CheckpointPlan
plan_of h params id total = record {
  recovery_id = id;
  table_name = param_string params (text "targetTable");
  recovery_time = elim (param_string params (text "recoveryTime")) [
    | [] ↦ 0
    | c ∷ t ↦ elim (h.parse_time (c ∷ t)) [ none ↦ 0 | some time ↦ time ]
  ];
  total_batches = total;
  table_order = [];
}

abbrev exec_options : ℕ → ExecOptions
exec_options size = record {
  batch_size = pos size;
  max_batch_bytes = pos 0;
  dry_run = false;
  on_batch = true;
}

module _ (d : Driver) where
  -- `executor.Execute` under the operation's context.
  unfoldable pub run_batches : Bool → d.Db → List Bytes → ℕ → d.Db × ExecResult × List BatchResult
  unfolding execute_on
  run_batches stopped db sqls size =
      if stopped
      then execute_on (refusing d) db sqls (exec_options size)
      else execute_on d db sqls (exec_options size)

  -- The handler behind its checks and behind `sql.Open`.
  unfoldable pub execute_checked :
      Host → State d → Params → Bytes → List Bytes → ℕ → State d × Handled
  unfolding run_batches updates_of pushes_of delete_id create_checkpoint complete
  execute_checked h s params id sqls zero = (s, crashed)
  execute_checked h s params id sqls (suc n) =
      let size = suc n in
      let total = (length sqls + size - 1) / size in
      let (db, result, calls) = run_batches s.stopped s.db sqls size in
      let created =
        (create_checkpoint h.dir_made (h.disk 0) (h.clock 0) (plan_of h params id total) s.dir).0 in
      let updated = update_batches id (updates_of h 1 calls) created in
      let last = suc (length calls) in
      let finished = (complete h.checksum_of (h.disk last) (h.clock last) id updated).0 in
      (
        record s {
          cancels = delete_id id (id ∷ s.cancels);
          dir = if s.stopped then updated else finished;
          pushed = s.pushed ++ pushes_of id total 0 calls;
          db = db;
        },
        ok_resp (
            execute_reply id s.stopped result.rows_affected result.batches_complete
              result.batches_total result.errors),
      )

  unfoldable pub execute_sqls : Host → State d → Params → Bytes → List Bytes → State d × Handled
  unfolding execute_checked batch_size_of
  execute_sqls h s params id [] = (s, err_resp (text "missing required param 'sql'"))
  execute_sqls h s params id (q ∷ sqls) = elim h.open_error [
    | some e ↦
        (record s { cancels = delete_id id (id ∷ s.cancels) }, err_resp (text "open MySQL: " ++ e))
    | none ↦ execute_checked h s params id (q ∷ sqls) (batch_size_of (params (text "batchSize")))
  ]

  -- The handler behind the read of the operation's id.
  unfoldable pub execute_named : Host → State d → Params → Bytes → State d × Handled
  unfolding execute_sqls param_strings
  execute_named h s params [] = (s, err_resp (text "missing required param 'operationId'"))
  execute_named h s params (c ∷ id) =
      execute_sqls h s params (c ∷ id) (param_strings params (text "sql"))

  -- `handlePITRExecute`.
  unfoldable pub handle_pitr_execute : Host → State d → Params → State d × Handled
  unfolding execute_named param_string
  handle_pitr_execute h s params =
      execute_named h s params (param_string params (text "operationId"))

  -- `handlePITRCancel`: cancelling changes no state that is seen later, since the entry goes when
  -- the operation's handler returns.
  unfoldable pub handle_pitr_cancel : State d → Params → State d × Handled
  unfolding has param_string
  handle_pitr_cancel s params =
      let id = param_string params (text "operationId") in
      (s, ok_resp (cancel_reply id (has id s.cancels)))
