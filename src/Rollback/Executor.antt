-- ===== src/Rollback/Executor.antt =====
-- internal/rollback/executor.go and options.go: `Execute`, `executeWithRetry`, `executeBatch`.
use database_flashback.Base.{
  ℕ, zero, suc, ◌+◌, ◌*◌, ◌/◌, Bool, false, ◌||◌, Option, none, some, List, [], ◌∷◌, ◌++◌, Bytes,
  text, decimal, length, take, ltb, leb, ◌==◌, if◌then◌else◌,
}
use database_flashback.Base.Int.{ℤ, pos, negsuc}
use database_flashback.Rollback.Batches.{build_batches, estimate_bytes}

-- An error of the database driver: the server's (errno and message), any other with its text, or
-- one that `executeBatch` wraps with "begin tx".
pub data DbError : Type 0 where
  mysql_error : ℕ → Bytes → DbError
  other_error : Bytes → DbError
  begin_tx : DbError → DbError

-- `errors.As(err, &mysqlErr)`, which looks through the wrapping.
unfoldable pub as_mysql : DbError → Option (ℕ × Bytes)
as_mysql (mysql_error number message) = some (number, message)
as_mysql (other_error t) = none
as_mysql (begin_tx e) = as_mysql e

-- `err.Error()` of an error that is not the server's.
unfoldable pub error_text : DbError → Bytes
error_text (mysql_error number message) = message
error_text (other_error t) = t
error_text (begin_tx e) = text "begin tx: " ++ error_text e

-- What `BeginTx` answers.
pub data Begun (Db Tx : Type 0) : Type 0 where
  opened : Tx → Begun Db Tx
  refused : Db → DbError → Begun Db Tx

-- The MySQL server behind `*sql.DB`, a parameter. `Db` is its state between transactions and `Tx`
-- its state inside one. `committed` and `pending` list the statements whose effects are durable,
-- and those that the open transaction holds.
pub record Driver : Type 1 where
  pub Db : Type 0
  pub Tx : Type 0
  pub begin : Db → Begun Db Tx
  pub exec : Tx → Bytes → Tx × Option DbError
  pub commit : Tx → Db × Option DbError
  pub rollback : Tx → Db
  pub committed : Db → List Bytes
  pub base : Tx → List Bytes
  pub pending : Tx → List Bytes

pub record ExecOptions : Type 0 where
  pub batch_size : ℤ
  pub max_batch_bytes : ℤ
  pub dry_run : Bool
  pub on_batch : Bool

pub record BatchResult : Type 0 where
  pub batch_num : ℕ
  pub sql_count : ℕ
  pub bytes_estimate : ℕ
  pub rows_affected : ℕ
  pub error : Option DbError

pub record BatchError : Type 0 where
  pub batch_num : ℕ
  pub sql : Bytes
  pub error : Bytes

pub record ExecResult : Type 0 where
  pub rows_affected : ℕ
  pub batches_total : ℕ
  pub batches_complete : ℕ
  pub errors : List BatchError

abbrev pub empty_result : ExecResult
empty_result = record { rows_affected = 0; batches_total = 0; batches_complete = 0; errors = [] }

-- `isRetryableError`.
unfoldable pub is_retryable_error : DbError → Bool
unfolding as_mysql
is_retryable_error e = elim (as_mysql e) [
  | none ↦ false
  | some (number, message) ↦ number == 1118 || number == 1206
]

-- `if v <= 0 { v = default }`.
unfoldable pub or_default : ℤ → ℕ → ℕ
or_default (pos zero) d = d
or_default (pos (suc n)) d = suc n
or_default (negsuc n) d = d

-- The `errMsg` of `Execute`.
unfoldable pub error_message : DbError → Bytes
unfolding as_mysql error_text
error_message e = elim (as_mysql e) [
  | none ↦ error_text e
  | some (number, message) ↦ text "MySQL errno " ++ (decimal number ++ (text ": " ++ message))
]

-- What a batch ends in. `stuck` is no Go value: the loop of the model ran out of fuel.
pub data Outcome : Type 0 where
  executed : ℕ → Outcome
  failed : DbError → Outcome
  stuck : Outcome

abbrev pub head_or : List Bytes → Bytes → Bytes
head_or [] d = d
head_or (x ∷ xs) d = x

-- The clamp at the top of the retry loop: `if size < 10 {…}`, then `if size > len(batch) {…}`.
unfoldable pub clamp_size : ℕ → ℕ → ℕ
clamp_size len size =
    let at_least = if ltb size 10 then 10 else size in if ltb len at_least then len else at_least

-- What one batch does to the result, and what `OnBatch` is called with.
unfoldable pub count_batch : ℕ → ExecResult → ExecResult
count_batch n result = record result {
  batches_complete = result.batches_complete + 1;
  rows_affected = result.rows_affected + n;
}

unfoldable pub add_error : ℕ → List Bytes → DbError → ExecResult → ExecResult
unfolding error_message
add_error i batch e result = record result {
  errors =
      result.errors
      ++ (record { batch_num = i; sql = head_or batch []; error = error_message e } ∷ []);
}

abbrev success_call : ℕ → List Bytes → ℕ → BatchResult
success_call i batch n = record {
  batch_num = i;
  sql_count = n;
  bytes_estimate = estimate_bytes batch;
  rows_affected = n;
  error = none;
}

abbrev failure_call : ℕ → List Bytes → DbError → BatchResult
failure_call i batch e = record {
  batch_num = i;
  sql_count = length batch;
  bytes_estimate = 0;
  rows_affected = 0;
  error = some e;
}

abbrev notify : Bool → BatchResult → List BatchResult → List BatchResult
notify on_batch call calls = if on_batch then calls ++ (call ∷ []) else calls

module _ (d : Driver) where
  open d use {Db, Tx, begin, exec, commit, rollback}

  -- What follows one `ExecContext`: the rest of the batch, or the error with the deferred rollback.
  unfoldable pub after_statement :
      (Tx → Db × Option DbError) → Tx × Option DbError → Db × Option DbError
  after_statement rest (tx, none) = rest tx
  after_statement rest (tx, some e) = (rollback tx, some e)

  -- The statements of a batch inside the transaction, then the commit (after which the deferred
  -- rollback does nothing).
  unfoldable pub run_statements : List Bytes → Tx → Db × Option DbError
  unfolding after_statement
  run_statements [] tx = commit tx
  run_statements (stmt ∷ batch) tx = after_statement (run_statements batch) (exec tx stmt)

  unfoldable pub begun_batch : List Bytes → Begun Db Tx → Db × Option DbError
  unfolding run_statements
  begun_batch batch (opened tx) = run_statements batch tx
  begun_batch batch (refused db e) = (db, some (begin_tx e))

  -- `executeBatch`.
  unfoldable pub execute_batch : Db → List Bytes → Db × Option DbError
  unfolding begun_batch
  execute_batch db batch = begun_batch batch (begin db)

  -- What follows an attempt at `size` statements: `again` retries at half the size.
  unfoldable pub after_attempt : ℕ → (Db → Db × Outcome) → Db × Option DbError → Db × Outcome
  unfolding is_retryable_error
  after_attempt size again (db, none) = (db, executed size)
  after_attempt size again (db, some e) =
      if is_retryable_error e
      then (if ltb (size / 2) 10 || leb size (size / 2) then (db, failed e) else again db)
      else (db, failed e)

  -- The loop of `executeWithRetry` over `size`, on fuel.
  unfoldable pub retry_loop : ℕ → List Bytes → ℕ → Db → Db × Outcome
  unfolding clamp_size execute_batch after_attempt
  retry_loop zero batch size db = (db, stuck)
  retry_loop (suc fuel) batch size db =
      let now = clamp_size (length batch) size in
      after_attempt now (retry_loop fuel batch (now / 2)) (execute_batch db (take now batch))

  -- `executeWithRetry`. The size at least halves, so the length of the batch is fuel enough.
  unfoldable pub execute_with_retry : Db → List Bytes → Db × Outcome
  unfolding retry_loop
  execute_with_retry db batch = retry_loop (suc (length batch)) batch (length batch) db

  -- What follows a batch: `next` goes on with the batches that are left, and an error stops the loop.
  unfoldable pub after_batch :
      Bool
      → ℕ
      → List Bytes
      → (ExecResult → List BatchResult → Db → Db × ExecResult × List BatchResult)
      → ExecResult
      → List BatchResult
      → Db × Outcome
      → Db × ExecResult × List BatchResult
  unfolding count_batch add_error
  after_batch on_batch i batch next result calls (db, executed n) =
      next (count_batch n result) (notify on_batch (success_call i batch n) calls) db
  after_batch on_batch i batch next result calls (db, failed e) =
      (db, add_error i batch e result, notify on_batch (failure_call i batch e) calls)
  after_batch on_batch i batch next result calls (db, stuck) = (db, result, calls)

  -- The loop of `Execute` over the batches, with the index `i`, the result so far and what
  -- `OnBatch` has been called with.
  unfoldable pub batches_loop :
      Bool
      → ℕ
      → List (List Bytes)
      → ExecResult
      → List BatchResult
      → Db
      → Db × ExecResult × List BatchResult
  unfolding execute_with_retry after_batch
  batches_loop on_batch i [] result calls db = (db, result, calls)
  batches_loop on_batch i (batch ∷ batches) result calls db =
      after_batch on_batch i batch (batches_loop on_batch (i + 1) batches) result calls
        (execute_with_retry db batch)

  -- `Execute` once a database is there. The result's time stamps are left out.
  unfoldable pub execute_on : Db → List Bytes → ExecOptions → Db × ExecResult × List BatchResult
  unfolding or_default batches_loop
  execute_on db [] opts = (db, empty_result, [])
  execute_on db (s ∷ sqls) opts =
      let size = or_default opts.batch_size 1000 in
      let limit = or_default opts.max_batch_bytes (10 * 1024 * 1024) in
      let batches = build_batches (s ∷ sqls) size limit in
      if opts.dry_run
      then (db, empty_result, [])
      else batches_loop opts.on_batch 0 batches
          (record empty_result { batches_total = length batches }) [] db

  -- `Execute`: `none` is the error "rollback: no database connection".
  unfoldable pub execute :
      Option Db → List Bytes → ExecOptions → Option (Db × ExecResult × List BatchResult)
  unfolding execute_on
  execute none sqls opts = none
  execute (some db) sqls opts = some (execute_on db sqls opts)
