-- ===== src/Flashback/Run.antt =====
-- cmd/agent/flashback.go: `RunFlashback`. The connector is a parameter, by the answers of its methods.
use database_flashback.Base.{
  ℕ, Bool, Option, none, some, List, [], ◌∷◌, Bytes, if◌then◌else◌, ◌⊎◌, inl, inr, eq_bytes,
}
use database_flashback.Base.Int.{ℤ}
use database_flashback.Value.{Float, RowEvent}
use database_flashback.Reverse.{reverse_sql_batch}
use database_flashback.Connector.Preflight.{PreflightResult, is_fail}
use database_flashback.Flashback.Tool.{BinlogParseOpts}

pub record FlashbackOptions : Type 0 where
  pub target_table : Bytes
  pub recovery_time : Bytes
  pub output_file : Bytes
  pub dry_run : Bool
  pub batch_size : ℤ

-- The answers of the methods of a connected `Connector`, with `resolveDataDir` as the fallback.
pub record Source : Type 0 where
  pub preflight : Bytes ⊎ PreflightResult
  pub binlog_files : Bytes ⊎ List Bytes
  pub binlog_dir : Bytes ⊎ Bytes
  pub data_dir : Bytes ⊎ Bytes

-- How a run ends: in an error at a stage, or with what becomes of the statements.
pub data Ending : Type 0 where
  bad_time preflight_error preflight_failed listing_failed no_files no_directory parse_failed
        no_events not_reversed :
      Ending
  printed : List Bytes → Ending
  written : Bytes → List Bytes → Ending
  executed : List Bytes → ℤ → Ending

abbrev pub directory_of : Source → Option Bytes
directory_of s = elim s.binlog_dir [
  | inr (c ∷ dir) ↦ some (c ∷ dir)
  | inr [] ↦ elim s.data_dir [ inl e ↦ none | inr dir ↦ some dir ]
  | inl e ↦ elim s.data_dir [ inl e' ↦ none | inr dir ↦ some dir ]
]

-- The end of `RunFlashback`: the output mode.
unfoldable pub use_statements : FlashbackOptions → List Bytes → Ending
use_statements o sqls =
    if o.dry_run
    then printed sqls
    else if eq_bytes o.output_file []
    then executed sqls o.batch_size
    else written o.output_file sqls

-- `binlogPaths`.
unfoldable pub binlog_paths : (Bytes → Bytes → Bytes) → Bytes → List Bytes → List Bytes
binlog_paths join_path dir [] = []
binlog_paths join_path dir (n ∷ ns) = join_path dir n ∷ binlog_paths join_path dir ns

module _ (format_g : Float → Bytes) (parse_time : Bytes → Option ℕ)
    (join_path : Bytes → Bytes → Bytes)
    (parse : List Bytes → BinlogParseOpts → Bytes ⊎ List RowEvent) where
  unfoldable pub reverse_events : FlashbackOptions → List RowEvent → Ending
  unfolding use_statements
  reverse_events o [] = no_events
  reverse_events o (e ∷ es) =
      let (sqls, failure) = reverse_sql_batch format_g (e ∷ es) [] in
      elim failure [ none ↦ use_statements o sqls | some _ ↦ not_reversed ]

  unfoldable pub parse_files : FlashbackOptions → ℕ → Source → List Bytes → Ending
  unfolding binlog_paths reverse_events
  parse_files o time s [] = no_files
  parse_files o time s (n ∷ ns) = elim (directory_of s) [
    | none ↦ no_directory
    | some dir ↦
        elim (parse (binlog_paths join_path dir (n ∷ ns)) (record {
          target_table = o.target_table;
          start_time = none;
          end_time = some time;
          start_pos = 0;
          stop_pos = 0;
          mysqlbinlog_path = [];
        })) [ inl e ↦ parse_failed | inr events ↦ reverse_events o events ]
  ]

  -- `RunFlashback` with a connected connector.
  unfoldable pub run_flashback : FlashbackOptions → Source → Ending
  unfolding parse_files
  run_flashback o s = elim (parse_time o.recovery_time) [
    | none ↦ bad_time
    | some time ↦ elim s.preflight [
      | inl e ↦ preflight_error
      | inr res ↦ if is_fail res.status then preflight_failed else elim s.binlog_files [
        | inl e ↦ listing_failed
        | inr names ↦ parse_files o time s names
      ]
    ]
  ]
