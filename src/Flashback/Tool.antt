-- ===== src/Flashback/Tool.antt =====
-- cmd/agent/flashback.go: `parseBinlogWithMySQLBinlog` around its loop. The program mysqlbinlog and the
-- query for the names of the columns are parameters, and so is the local time that a time reads.
use database_flashback.Base.{
  ℕ, Option, none, some, List, [], ◌∷◌, ◌++◌, Bytes, text, decimal, ltb, if◌then◌else◌, ◌==◌, ◌⊎◌,
  inl, inr,
}
use database_flashback.Value.{Float, RowEvent}
use database_flashback.Flashback.Scan.{parse_output}

pub record BinlogParseOpts : Type 0 where
  pub target_table : Bytes
  pub start_time : Option ℕ
  pub end_time : Option ℕ
  pub start_pos : ℕ
  pub stop_pos : ℕ
  pub mysqlbinlog_path : Bytes

abbrev onto : ℕ → Option (Bytes × Bytes) → Option (Bytes × Bytes)
onto c none = none
onto c (some (a, b)) = some (c ∷ a, b)

-- `strings.SplitN(s, ".", 2)`, where it gives two parts.
unfoldable split_table : Bytes → Option (Bytes × Bytes)
split_table [] = none
split_table (c ∷ s) = let rest = onto c (split_table s) in if c == b'.' then some ([], s) else rest

-- A run of the program: it could not be started, or its lines and how it ended.
pub data ToolRun : Type 0 where
  not_started : Bytes → ToolRun
  ran : List Bytes → Option Bytes → ToolRun

module _ (local_time : ℕ → Bytes) where
  abbrev time_flag : Bytes → Option ℕ → List Bytes
  time_flag flag none = []
  time_flag flag (some t) = (flag ++ local_time t) ∷ []

  abbrev position_flag : Bytes → ℕ → List Bytes
  position_flag flag p = if ltb 0 p then (flag ++ decimal p) ∷ [] else []

  -- The arguments of mysqlbinlog.
  unfoldable tool_args : BinlogParseOpts → List Bytes → List Bytes
  tool_args o paths =
      (text "--no-defaults" ∷ text "--base64-output=DECODE-ROWS" ∷ text "--verbose" ∷ [])
      ++ (time_flag (text "--start-datetime=") o.start_time
          ++ (time_flag (text "--stop-datetime=") o.end_time
              ++ (position_flag (text "--start-position=") o.start_pos
                  ++ (position_flag (text "--stop-position=") o.stop_pos ++ paths))))

abbrev tool_path : BinlogParseOpts → Bytes
tool_path o = elim o.mysqlbinlog_path [ [] ↦ text "mysqlbinlog" | c ∷ p ↦ c ∷ p ]

-- An exit with an error counts only where no event was read.
unfoldable after_run : List RowEvent → Option Bytes → Bytes ⊎ List RowEvent
after_run [] (some e) = inl (text "mysqlbinlog failed: " ++ e)
after_run events exit = inr events

module _ (zero_float : Float) (scan_float : Bytes → Option Float) (local_time : ℕ → Bytes)
    (tool : Bytes → List Bytes → ToolRun) (column_names : Bytes → Bytes → List Bytes) where
  -- `parseBinlogWithMySQLBinlog`; without names of columns they are numbered.
  unfoldable parse_binlog_with_tool : List Bytes → BinlogParseOpts → Bytes ⊎ List RowEvent
  unfolding split_table tool_args after_run parse_output
  parse_binlog_with_tool paths o = elim (split_table o.target_table) [
    | none ↦ inl (text "invalid target table: expected schema.table format")
    | some (database, table) ↦ elim (tool (tool_path o) (tool_args local_time o paths)) [
      | not_started e ↦ inl e
      | ran lines exit ↦
          after_run
            (parse_output zero_float scan_float database table (column_names database table) lines)
            exit
    ]
  ]
