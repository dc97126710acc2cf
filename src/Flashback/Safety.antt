-- ===== src/Flashback/Safety.antt =====
-- cmd/agent/flashback.go: when `RunFlashback` changes the database.
use database_flashback.Base.{
  ℕ, ◌≡◌, refl, ap, sym, ◌∙◌, ◌⊎◌, inl, inr, false, Option, none, some, List, [], ◌∷◌, Bytes,
  eq_bytes, eq_bytes_sound, arith, Error, Bool-cases,
}
use database_flashback.Base.Int.{ℤ}
use database_flashback.Value.{Float, RowEvent}
use database_flashback.Reverse.{reverse_sql_batch}
use database_flashback.Connector.Preflight.{PreflightResult, is_fail}
use database_flashback.Flashback.Tool.{BinlogParseOpts}
use database_flashback.Flashback.Run.{
  FlashbackOptions, Source, executed, use_statements, directory_of, binlog_paths, reverse_events,
  parse_files, run_flashback,
}

-- What a run that executes statements was asked for.
pub record Asked (o : FlashbackOptions) (size : ℤ) : Type 0 where
  pub wet : o.dry_run ≡ false
  pub no_file : o.output_file ≡ []
  pub same_size : size ≡ o.batch_size

use_statements-executed :
    (o : FlashbackOptions) (out sqls : List Bytes) (size : ℤ)
    → use_statements o out ≡ executed sqls size
    → Asked o size × (sqls ≡ out)
unfolding use_statements
use_statements-executed o out sqls size h = elim (Bool-cases o.dry_run) [
  | inl dry ↦ absurd (ground (arith, h, dry))
  | inr wet ↦ elim (Bool-cases (eq_bytes o.output_file [])) [
    | inr named ↦ absurd (ground (arith, h, wet, named))
    | inl unnamed ↦ (
      record {
        wet = wet;
        no_file = eq_bytes_sound o.output_file [] unnamed;
        same_size = ground (arith, h, wet, unnamed);
      },
      ground (arith, h, wet, unnamed),
    )
  ]
]

module _ (format_g : Float → Bytes) (parse_time : Bytes → Option ℕ)
    (join_path : Bytes → Bytes → Bytes)
    (parse : List Bytes → BinlogParseOpts → Bytes ⊎ List RowEvent) where
  reverse_events-executed :
      (o : FlashbackOptions) (events : List RowEvent) (sqls : List Bytes) (size : ℤ)
      → reverse_events format_g parse_time join_path parse o events ≡ executed sqls size
      → Asked o size × (reverse_sql_batch format_g events [] ≡ (sqls, none))
  unfolding reverse_events
  reverse_events-executed o [] sqls size h = cc
  reverse_events-executed o (e ∷ es) sqls size h =
      next (reverse_sql_batch format_g (e ∷ es) []) refl
    where
      next :
          (out : List Bytes × Option (ℕ × Error))
          → reverse_sql_batch format_g (e ∷ es) [] ≡ out
          → Asked o size × (reverse_sql_batch format_g (e ∷ es) [] ≡ (sqls, none))
      next (out, some err) q = absurd (ground (arith, h, q))
      next (out, none) q =
          let used = use_statements-executed o out sqls size (ground (arith, h, q)) in
          (used.0, q ∙ ap (λ l. (l, none)) (sym used.1))

  -- The events whose reverse a run executes.
  pub record Executes (o : FlashbackOptions) (s : Source) (sqls : List Bytes) (size : ℤ)
      : Type 0 where
    pub names : List Bytes
    pub opts : BinlogParseOpts
    pub events : List RowEvent
    pub parsed : parse names opts ≡ inr events
    pub table : opts.target_table ≡ o.target_table
    pub until : opts.end_time ≡ parse_time o.recovery_time
    pub asked : Asked o size
    pub reversed : reverse_sql_batch format_g events [] ≡ (sqls, none)

  parse_files-executed :
      (o : FlashbackOptions) (time : ℕ) (s : Source) (names : List Bytes) (sqls : List Bytes)
      (size : ℤ)
      → parse_time o.recovery_time ≡ some time
      → parse_files format_g parse_time join_path parse o time s names ≡ executed sqls size
      → Executes o s sqls size
  unfolding parse_files
  parse_files-executed o time s [] sqls size at_time h = cc
  parse_files-executed o time s (n ∷ ns) sqls size at_time h = next (directory_of s) refl
    where
      opts : BinlogParseOpts
      opts = record {
        target_table = o.target_table;
        start_time = none;
        end_time = some time;
        start_pos = 0;
        stop_pos = 0;
        mysqlbinlog_path = [];
      }

      read :
          (dir : Bytes) (events : Bytes ⊎ List RowEvent)
          → directory_of s ≡ some dir
          → parse (binlog_paths join_path dir (n ∷ ns)) opts ≡ events
          → Executes o s sqls size
      read dir (inl e) q p = absurd (ground (arith, h, q, p))
      read dir (inr events) q p =
          let used = reverse_events-executed o events sqls size (ground (arith, h, q, p)) in
          record {
            names = binlog_paths join_path dir (n ∷ ns);
            opts = opts;
            events = events;
            parsed = p;
            table = refl;
            until = sym at_time;
            asked = used.0;
            reversed = used.1;
          }

      next : (dir : Option Bytes) → directory_of s ≡ dir → Executes o s sqls size
      next none q = absurd (ground (arith, h, q))
      next (some dir) q = read dir (parse (binlog_paths join_path dir (n ∷ ns)) opts) q refl

  -- A run that executes statements had a recovery time that can be read, was not a dry run and had no
  -- output file; the preflight of the server gave a result and the result was not FAIL; the parser
  -- gave events for the table and up to the time that was asked for; and the statements are the
  -- reverse of those events, run with the batch size that was asked for.
  pub run_flashback-executed :
      (o : FlashbackOptions) (s : Source) (sqls : List Bytes) (size : ℤ)
      → run_flashback format_g parse_time join_path parse o s ≡ executed sqls size
      → (res : PreflightResult) × (s.preflight ≡ inr res)
        × (is_fail res.status ≡ false)
        × Executes o s sqls size
  unfolding run_flashback
  run_flashback-executed o s sqls size h =
      at_time (parse_time o.recovery_time) s.preflight s.binlog_files refl refl refl
    where
      named :
          (time : ℕ) (res : PreflightResult) (files : Bytes ⊎ List Bytes)
          → parse_time o.recovery_time ≡ some time
          → s.preflight ≡ inr res
          → s.binlog_files ≡ files
          → is_fail res.status ≡ false
          → Executes o s sqls size
      named time res (inl e) t p f sound = absurd (ground (arith, h, t, p, f, sound))
      named time res (inr names) t p f sound =
          parse_files-executed o time s names sqls size t (ground (arith, h, t, p, f, sound))

      at_time :
          (time : Option ℕ) (answer : Bytes ⊎ PreflightResult) (files : Bytes ⊎ List Bytes)
          → parse_time o.recovery_time ≡ time
          → s.preflight ≡ answer
          → s.binlog_files ≡ files
          → (res : PreflightResult) × (s.preflight ≡ inr res)
            × (is_fail res.status ≡ false)
            × Executes o s sqls size
      at_time none answer files t p f = absurd (ground (arith, h, t))
      at_time (some time) (inl e) files t p f = absurd (ground (arith, h, t, p))
      at_time (some time) (inr res) files t p f = elim (Bool-cases (is_fail res.status)) [
        | inl failed_check ↦ absurd (ground (arith, h, t, p, failed_check))
        | inr sound ↦ (res, p, sound, named time res files t p f sound)
      ]
