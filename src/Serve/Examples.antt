-- ===== src/Serve/Examples.antt =====
-- cmd/agent/serve.go on small runs: a batch that fails, a cancellation, and a preview.
use database_flashback.Base.{
  ◌≡◌, refl, true, false, none, some, List, [], ◌∷◌, ◌++◌, Bytes, text, length, eq_bytes,
  if◌then◌else◌, inl, inr, All, join,
}
use database_flashback.Value.{str, insert_event, RowEvent}
use database_flashback.Reverse.{reverse_sql_batch}
use database_flashback.Rollback.Executor.{Driver, refused, other_error}
use database_flashback.Checkpoint.{Checkpoint, fine, read_checkpoint, complete_status}
use database_flashback.Ws.Messages.{
  Command, string_param, array_param, cmd_pitr_execute, cmd_pitr_cancel,
}
use database_flashback.Serve.Params.{
  Host, Params, PreviewEntry, ok_resp, parse_reply, execute_reply,
}
use database_flashback.Serve.Execute.{State, run_batches, execute_checked}
use database_flashback.Serve.Marked.{last_completed, execute_checked_complete}
use database_flashback.Serve.Daemon.{NotCancelled, handle_all, handle_all-NotCancelled}
use database_flashback.Serve.Parse.{reverse_reply}
use database_flashback.Serve.Parse.Preview.{Shows, reverse_reply-Shows}

-- A server that begins no transaction.
abbrev lost : Driver
lost = record {
  Db = List Bytes;
  Tx = List Bytes;
  begin = λ db. refused db (other_error (text "connection lost"));
  exec = λ tx s. (tx ++ (s ∷ []), none);
  commit = λ tx. (tx, none);
  rollback = λ tx. tx;
  committed = λ db. db;
  base = λ tx. tx;
  pending = λ tx. [];
}

abbrev host : Host
host = record {
  agent_id = text "a1";
  user = text "flash";
  database = text "shop";
  quote = λ s. s;
  connect_error = none;
  preflight = inl (text "unused");
  binlog_files = inr [];
  data_dir = inr (text "/data");
  binlog_dir = [];
  mysqlbinlog_path = [];
  parse_time = λ s. none;
  join_path = λ a b. a ++ (text "/" ++ b);
  parse = λ files opts. inr [];
  format_g = λ f. [];
  batch_error_text = λ e. [];
  open_error = none;
  dir_made = true;
  disk = λ i. fine;
  clock = λ i. i;
  checksum_of = λ cp. text "sum";
}

abbrev fresh : State lost
fresh = record {
  cancels = [];
  stopped = false;
  dir = record { data_dir = text "data"; files = [] };
  pushed = [];
  db = [];
}

abbrev no_params : Params
no_params key = none

abbrev two : List Bytes
two = text "a" ∷ text "b" ∷ []

execute_checked_complete_example :
    let ran = run_batches lost false fresh.db two 1 in
    let after = execute_checked lost host fresh no_params (text "op") two 1 in
    (cp : Checkpoint) × (read_checkpoint after.0.dir (text "op") ≡ some cp)
    × (cp.status ≡ complete_status)
    × (cp.completed_batches ≡ last_completed 0 ran.2)
    × (after.1
        ≡ ok_resp (
            execute_reply
              (text "op")
              false
              ran.1.rows_affected
              ran.1.batches_complete
              ran.1.batches_total
              ran.1.errors))
execute_checked_complete_example =
    execute_checked_complete lost host fresh no_params (text "op") two 0 refl refl λ i. refl

abbrev of_operation : Params
of_operation key =
    if eq_bytes key (text "operationId")
    then some (string_param (text "op"))
    else some (array_param (some (text "a") ∷ []))

abbrev execute_then_cancel : List (Host × Command)
execute_then_cancel =
    (host, record { cmd = text "1"; kind = cmd_pitr_execute; params = of_operation })
    ∷ (host, record { cmd = text "2"; kind = cmd_pitr_cancel; params = of_operation })
    ∷ []

handle_all-NotCancelled_example : All NotCancelled (handle_all lost fresh execute_then_cancel)
handle_all-NotCancelled_example = handle_all-NotCancelled lost fresh execute_then_cancel refl

abbrev inserted : Bytes → RowEvent
inserted id = record {
  type = insert_event;
  database = text "shop";
  table = text "users";
  timestamp = 0;
  before = none;
  after = some ((text "id", str id) ∷ []);
}

abbrev statements : List Bytes
statements =
    text "DELETE FROM `users` WHERE `id` = 'y' LIMIT 1;"
    ∷ text "DELETE FROM `users` WHERE `id` = 'x' LIMIT 1;"
    ∷ []

reverse_reply-Shows_example :
    (preview : List PreviewEntry) × (sample : Bytes) × (reverse_reply host
        (text "op")
        (inserted (text "x") ∷ inserted (text "y") ∷ [])
      ≡ ok_resp (parse_reply (text "op") 2 statements preview sample))
    × (length preview ≡ 2)
    × Shows (λ f. []) 0 (inserted (text "x") ∷ inserted (text "y") ∷ []) preview
unfolding reverse_sql_batch join
reverse_reply-Shows_example =
    reverse_reply-Shows host (text "op") (inserted (text "x")) (inserted (text "y") ∷ []) statements
      refl
