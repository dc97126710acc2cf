-- ===== src/Server/Operations.antt =====
-- internal/server/pitr/store.go and handler.go: the requests about recovery operations. The work that
-- `Start` and `Execute` launch is `Pitr.Operation`; here it is a list of what was launched. Creation
-- and update times but for the filter of `List`, and the results of preflight and execution and the
-- error, which `Status` only passes on, are left out.
use database_flashback.Base.{
  ℕ, Bool, true, false, ◌||◌, not, Option, none, some, List, [], ◌∷◌, ◌++◌, Bytes, text, eq_bytes,
  if◌then◌else◌,
}
use database_flashback.Base.Names.{has}
use database_flashback.Pitr.State.{OperationState, preflight, executing, same_state}
use database_flashback.Server.Shared.{Http, refused, replied, with_key, and_then}
use database_flashback.Server.Guard.{check_user, check_that}

pub record ReverseSqlEntry : Type 0 where
  pub sequence : ℕ
  pub sql_type : Bytes
  pub table_name : Bytes
  pub original_sql : Bytes
  pub reverse_sql : Bytes
  pub rows_affected : ℕ

pub record ParseSummary : Type 0 where
  pub parsed_at : ℕ
  pub rows_affected : ℕ
  pub sql_sample : Bytes
  pub reverse_sql : List ReverseSqlEntry
  pub sqls : List Bytes

pub record ProgressInfo : Type 0 where
  pub batches_complete : ℕ
  pub batches_total : ℕ
  pub rows_restored : ℕ
  estimated_remaining : Bytes

pub record StoredOperation : Type 0 where
  pub id : Bytes
  pub org_id : Bytes
  pub agent_id : Bytes
  pub target_table : Bytes
  pub recovery_time : ℕ
  pub mode : Bytes
  pub binlog_files : List Bytes
  pub start_time : Option ℕ
  pub start_pos : Option ℕ
  pub stop_pos : Option ℕ
  pub state : OperationState
  pub parse_result : Option ParseSummary
  pub progress : Option ProgressInfo
  pub created_at : ℕ

-- The goroutines that the handlers start: `runOperation`, and `executeOperation` with its statements.
pub data Launch : Type 0 where
  run_launched : Bytes → Bytes → Launch
  execute_launched : Bytes → Bytes → List Bytes → Launch

-- The store with the keys of its map, and what was launched.
pub record OperationStore : Type 0 where
  pub ops : Bytes → Option StoredOperation
  pub op_ids : List Bytes
  pub launched : List Launch

-- `Create` with an id, and `Update` of an operation that is there.
unfoldable pub put_operation : StoredOperation → OperationStore → OperationStore
unfolding has
put_operation o s = record s {
  ops = with_key o.id (some o) s.ops;
  op_ids = if has o.id s.op_ids then s.op_ids else s.op_ids ++ o.id ∷ [];
}

abbrev pub launch : Launch → OperationStore → OperationStore
launch l s = record s { launched = s.launched ++ l ∷ [] }

pub record StartRequest : Type 0 where
  pub agent_id : Bytes
  pub target_table : Bytes
  pub recovery_time : Bytes
  pub mode : Bytes
  pub binlog_files : List Bytes
  pub start_time : Bytes
  pub start_pos : Option ℕ
  pub stop_pos : Option ℕ

abbrev pub is_empty : Bytes → Bool
is_empty [] = true
is_empty (c ∷ s) = false

-- A user with an e-mail address.
unfoldable pub check_operator : Bytes → Bytes → Http Bytes
unfolding check_user
check_operator user email =
    if is_empty email then refused 401 (text "not authenticated") else check_user user

-- The fields of a start request, before the agent is looked up.
unfoldable pub check_start : (Bytes → Option ℕ) → StartRequest → Http (ℕ × Option ℕ)
unfolding check_that
check_start parse_time r =
    and_then
      (check_that 400 (text "agent_id, target_table, recovery_time, and mode are required")
        (not (
          is_empty r.agent_id
          || (is_empty r.target_table || (is_empty r.recovery_time || is_empty r.mode))))
        r)
      λ given.
        and_then
          (check_that 400 (text "mode must be \"preview\" or \"execute\"")
            (eq_bytes given.mode (text "preview") || eq_bytes given.mode (text "execute")) given)
          λ moded. elim (parse_time moded.recovery_time) [
            | none ↦ refused 400 (text "invalid recovery_time: expected ISO8601/RFC3339 format")
            | some time ↦
                if is_empty moded.start_time
                then replied 200 (time, none)
                else elim (parse_time moded.start_time) [
                  | none ↦ refused 400 (text "invalid start_time: expected ISO8601/RFC3339 format")
                  | some from ↦ replied 200 (time, some from)
                ]
          ]

-- The new operation of `Start`.
abbrev pub started : Bytes → ℕ → Bytes → StartRequest → ℕ → Option ℕ → StoredOperation
started id now org r time from = record {
  id = id;
  org_id = org;
  agent_id = r.agent_id;
  target_table = r.target_table;
  recovery_time = time;
  mode = r.mode;
  binlog_files = r.binlog_files;
  start_time = from;
  start_pos = r.start_pos;
  stop_pos = r.stop_pos;
  state = preflight;
  parse_result = none;
  progress = none;
  created_at = now;
}

-- What an agent reports of its progress; a field that is missing keeps its value.
pub record Report : Type 0 where
  pub batches_complete : Option ℕ
  pub batches_total : Option ℕ
  pub rows_restored : Option ℕ
  estimated_remaining : Option Bytes

abbrev kept {ℓ} : {A : Type ℓ} → A → Option A → A
kept old none = old
kept old (some new) = new

-- The progress that is shown or updated: none yet is all zero.
abbrev pub first_progress : Option ProgressInfo → ProgressInfo
first_progress none = record {
  batches_complete = 0;
  batches_total = 0;
  rows_restored = 0;
  estimated_remaining = [];
}
first_progress (some p) = p

-- The handler of progress notifications; only an operation that executes takes them.
unfoldable progress_pushed : Bytes → Report → OperationStore → OperationStore
unfolding same_state put_operation
progress_pushed [] r s = s
progress_pushed (c ∷ id) r s = elim (s.ops (c ∷ id)) [
  | none ↦ s
  | some op ↦
      if same_state op.state executing
      then (let p = first_progress op.progress in
          put_operation
            (record op {
              progress = some (record {
                batches_complete = kept p.batches_complete r.batches_complete;
                batches_total = kept p.batches_total r.batches_total;
                rows_restored = kept p.rows_restored r.rows_restored;
                estimated_remaining = kept p.estimated_remaining r.estimated_remaining;
              });
            })
            s)
      else s
]
