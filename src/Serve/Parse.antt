-- ===== src/Serve/Parse.antt =====
-- cmd/agent/serve.go: `handleStatus`, `handlePreflight` and `handlePITRParse`.
pub mod Preview
use database_flashback.Base.{
  ℕ, zero, suc, ◌+◌, ◌-◌, Bool, true, false, Option, none, some, List, [], ◌∷◌, ◌++◌, Bytes, text,
  length, if◌then◌else◌, ltb, ◌⊎◌, inl, inr, get_elem?, Error,
}
use database_flashback.Value.{
  Float, EventType, insert_event, update_event, delete_event, unknown_event, RowEvent,
}
use database_flashback.Reverse.{reverse_sql_batch}
use database_flashback.Flashback.Tool.{BinlogParseOpts}
use database_flashback.Flashback.Run.{binlog_paths}
use database_flashback.Serve.Params.{
  Params, Host, PreviewEntry, Handled, ok_resp, err_resp, status_reply, preflight_reply,
  parse_reply, param_string, param_strings, friendly_conn_error, build_binlog_parse_opts,
}

-- `checkMySQL` and `handleStatus`.
unfoldable pub handle_status : Host → Handled
unfolding friendly_conn_error
handle_status h = elim h.connect_error [
  | none ↦ ok_resp (status_reply none)
  | some e ↦ ok_resp (status_reply (some (friendly_conn_error h e)))
]

abbrev names_of : List (Bytes × ℕ) → List Bytes
names_of [] = []
names_of (f ∷ fs) = f.0 ∷ names_of fs

abbrev total_size : List (Bytes × ℕ) → ℕ
total_size [] = 0
total_size (f ∷ fs) = f.1 + total_size fs

abbrev reported_dir : Host → Bytes
reported_dir h = elim h.binlog_dir [
  | c ∷ dir ↦ c ∷ dir
  | [] ↦ elim h.data_dir [ inl e ↦ [] | inr dir ↦ dir ]
]

-- `handlePreflight`.
unfoldable pub handle_preflight : Host → Handled
unfolding friendly_conn_error
handle_preflight h = elim h.connect_error [
  | some e ↦ err_resp (text "connect to MySQL: " ++ friendly_conn_error h e)
  | none ↦ elim h.preflight [
    | inl e ↦ err_resp (text "preflight: " ++ e)
    | inr res ↦ elim h.binlog_files [
      | inl e ↦ err_resp (text "list binlog files: " ++ e)
      | inr files ↦
          ok_resp (preflight_reply res (names_of files) (total_size files) (reported_dir h))
    ]
  ]
]

-- The files that the command names, or all files of the server.
abbrev selected_files : Host → Params → Bytes ⊎ List Bytes
selected_files h params = elim (param_strings params (text "binlogFiles")) [
  | f ∷ fs ↦ inr (f ∷ fs)
  | [] ↦ elim h.connect_error [
    | some e ↦ inl (text "connect to MySQL: " ++ friendly_conn_error h e)
    | none ↦ elim h.binlog_files [
      | inl e ↦ inl (text "list binlog files: " ++ e)
      | inr files ↦ inr (names_of files)
    ]
  ]
]

abbrev binlog_directory : Host → Bytes ⊎ Bytes
binlog_directory h = elim h.binlog_dir [
  | c ∷ dir ↦ inr (c ∷ dir)
  | [] ↦ elim h.data_dir [
    | inl e ↦ inl (text "resolve binlog directory: " ++ e)
    | inr dir ↦ inr dir
  ]
]

abbrev pub type_text : EventType → Bytes
type_text insert_event = text "INSERT"
type_text update_event = text "UPDATE"
type_text delete_event = text "DELETE"
type_text (unknown_event t) = t

-- `revSQL` of the event at `i`.
abbrev pub mirrored : List Bytes → ℕ → Bytes
mirrored sqls i =
    if ltb i (length sqls)
    then elim (get_elem? sqls (length sqls - 1 - i)) [ none ↦ [] | some sql ↦ sql ]
    else []

-- The loop of the preview, over `Events` from the index `i` for at most `k` entries.
unfoldable pub preview_from : ℕ → ℕ → List RowEvent → List Bytes → List PreviewEntry
preview_from i zero events sqls = []
preview_from i (suc k) [] sqls = []
preview_from i (suc k) (e ∷ es) sqls =
    record {
      sequence = suc i;
      sql_type = type_text e.type;
      table_name = e.table;
      reverse_sql = mirrored sqls i;
    }
    ∷ preview_from (suc i) k es sqls

-- `maxEntries`.
abbrev pub max_entries : List Bytes → ℕ
max_entries sqls = if ltb 1_000 (length sqls) then 1_000 else length sqls

abbrev pub sql_sample : List Bytes → Bytes
sql_sample [] = []
sql_sample (sql ∷ sqls) = sql

-- The answer to what `ReverseSQLBatch` gives.
abbrev pub batch_reply : Host → Bytes → List RowEvent → List Bytes × Option (ℕ × Error) → Handled
batch_reply h id events (sqls, some err) =
    err_resp (text "generate reverse SQL: " ++ h.batch_error_text err)
batch_reply h id events (sqls, none) = ok_resp (
    parse_reply id (length events) sqls (preview_from 0 (max_entries sqls) events sqls)
      (sql_sample sqls))

-- The answer to events that were parsed.
unfoldable pub reverse_reply : Host → Bytes → List RowEvent → Handled
unfolding preview_from
reverse_reply h id [] = ok_resp (parse_reply id 0 [] [] [])
reverse_reply h id (e ∷ es) = batch_reply h id (e ∷ es) (reverse_sql_batch h.format_g (e ∷ es) [])

-- `handlePITRParse`.
unfoldable pub handle_pitr_parse : Host → Params → Handled
unfolding build_binlog_parse_opts param_string param_strings friendly_conn_error binlog_paths
    reverse_reply
handle_pitr_parse h params = elim (build_binlog_parse_opts h params) [
  | inl e ↦ err_resp e
  | inr opts ↦ elim (selected_files h params) [
    | inl e ↦ err_resp e
    | inr [] ↦ err_resp (text "no binlog files to parse")
    | inr (f ∷ fs) ↦ elim (binlog_directory h) [
      | inl e ↦ err_resp e
      | inr dir ↦ elim (h.parse (binlog_paths h.join_path dir (f ∷ fs)) opts) [
        | inl e ↦ err_resp (text "parse binlogs: " ++ e)
        | inr events ↦ reverse_reply h (param_string params (text "operationId")) events
      ]
    ]
  ]
]
