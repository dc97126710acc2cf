-- ===== src/Serve/Params.antt =====
-- cmd/agent/serve.go: the parameters of a command, and what all handlers share.
use database_flashback.Base.{
  ℕ, Bool, true, Option, none, some, List, [], ◌∷◌, ◌++◌, concat, Bytes, text, ◌==◌, if◌then◌else◌,
  ◌⊎◌, inl, inr, Error,
}
use database_flashback.Value.{Float, RowEvent}
use database_flashback.Parser.Ddl.{trim_space}
use database_flashback.Rollback.Executor.{DbError, BatchError, as_mysql, error_text}
use database_flashback.Connector.Preflight.{PreflightResult}
use database_flashback.Checkpoint.{Checkpoint, Disk}
use database_flashback.Flashback.Tool.{BinlogParseOpts}
use database_flashback.Ws.Messages.{Param, number_param, array_param, string_of}

abbrev pub Params : Type 0
Params = Bytes → Option Param

-- `paramString`.
unfoldable pub param_string : Params → Bytes → Bytes
unfolding trim_space
param_string params key = elim (string_of (params key)) [ none ↦ [] | some s ↦ trim_space s ]

-- `paramUint32`, of a number within the range.
unfoldable param_uint32 : Params → Bytes → ℕ
param_uint32 params key = elim (params key) [ some (number_param true n) ↦ n | _ ↦ 0 ]

-- The strings of an array that are not empty; nothing of a value that is no array.
unfoldable non_empty : List (Option Bytes) → List Bytes
non_empty [] = []
non_empty (some (c ∷ s) ∷ xs) = (c ∷ s) ∷ non_empty xs
non_empty (x ∷ xs) = non_empty xs

unfoldable pub param_strings : Params → Bytes → List Bytes
unfolding non_empty
param_strings params key = elim (params key) [ some (array_param xs) ↦ non_empty xs | _ ↦ [] ]

-- What the handlers find on the host.
pub record Host : Type 0 where
  pub agent_id : Bytes
  pub user : Bytes
  pub database : Bytes
  pub quote : Bytes → Bytes
  pub connect_error : Option DbError
  pub preflight : Bytes ⊎ PreflightResult
  pub binlog_files : Bytes ⊎ List (Bytes × ℕ)
  pub data_dir : Bytes ⊎ Bytes
  pub binlog_dir : Bytes
  pub mysqlbinlog_path : Bytes
  pub parse_time : Bytes → Option ℕ
  pub join_path : Bytes → Bytes → Bytes
  pub parse : List Bytes → BinlogParseOpts → Bytes ⊎ List RowEvent
  pub format_g : Float → Bytes
  pub batch_error_text : ℕ × Error → Bytes
  pub open_error : Option Bytes
  pub dir_made : Bool
  pub disk : ℕ → Disk
  pub clock : ℕ → ℕ
  pub checksum_of : Checkpoint → Bytes

pub record PreviewEntry : Type 0 where
  pub sequence : ℕ
  pub sql_type : Bytes
  pub table_name : Bytes
  pub reverse_sql : Bytes

-- The results of the handlers, before they are encoded.
pub data Reply : Type 0 where
  status_reply : Option Bytes → Reply
  shutting_down : Reply
  preflight_reply : PreflightResult → List Bytes → ℕ → Bytes → Reply
  parse_reply : Bytes → ℕ → List Bytes → List PreviewEntry → Bytes → Reply
  execute_reply : Bytes → Bool → ℕ → ℕ → ℕ → List BatchError → Reply
  cancel_reply : Bytes → Bool → Reply

-- `okResp`, `errResp`, or a run-time panic, which ends the process.
pub data Handled : Type 0 where
  ok_resp : Reply → Handled
  err_resp : Bytes → Handled
  crashed : Handled

abbrev grant_hint : Host → Bytes
grant_hint h = concat (
    text "On the MySQL server run: CREATE USER IF NOT EXISTS '"
    ∷ h.user
    ∷ text
        "'@'%' IDENTIFIED BY '<password>'; GRANT SELECT, REPLICATION SLAVE, REPLICATION CLIENT ON *.* TO '"
    ∷ h.user
    ∷ text "'@'%'; GRANT SELECT ON `"
    ∷ h.database
    ∷ text "`.* TO '"
    ∷ h.user
    ∷ text "'@'%'; FLUSH PRIVILEGES;"
    ∷ [])

abbrev access_denied : (Bytes → Bytes) → Host → Bytes → Bytes
access_denied quote h message = concat (
    text "MySQL access denied (user "
    ∷ quote h.user
    ∷ text ", database "
    ∷ quote h.database
    ∷ text "): "
    ∷ message
    ∷ text ". The MySQL account must be allowed from this agent's host. "
    ∷ grant_hint h
    ∷ [])

-- `friendlyConnError`; `quote` is the format %q.
unfoldable pub friendly_conn_error : Host → DbError → Bytes
unfolding as_mysql error_text
friendly_conn_error h e = elim (as_mysql e) [
  | none ↦ error_text e
  | some (number, message) ↦
      if number == 1045 then access_denied h.quote h message else error_text e
]

abbrev timed : Host → Bytes → Bytes → (Option ℕ → Bytes ⊎ BinlogParseOpts) → Bytes ⊎ BinlogParseOpts
timed h name [] next = next none
timed h name (c ∷ s) next = elim (h.parse_time (c ∷ s)) [
  | none ↦ inl (text "invalid " ++ (name ++ text ": expected RFC3339"))
  | some t ↦ next (some t)
]

-- `buildBinlogParseOpts`.
unfoldable pub build_binlog_parse_opts : Host → Params → Bytes ⊎ BinlogParseOpts
unfolding param_string param_uint32
build_binlog_parse_opts h params = elim (param_string params (text "targetTable")) [
  | [] ↦ inl (text "missing required param 'targetTable'")
  | c ∷ table ↦ timed h (text "startTime") (param_string params (text "startTime")) λ start.
      timed h (text "endTime") (param_string params (text "endTime")) λ stop. inr (record {
        target_table = c ∷ table;
        start_time = start;
        end_time = stop;
        start_pos = param_uint32 params (text "startPos");
        stop_pos = param_uint32 params (text "stopPos");
        mysqlbinlog_path = h.mysqlbinlog_path;
      })
]
