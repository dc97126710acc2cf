-- ===== src/Flashback/Examples.antt =====
-- Output of mysqlbinlog for the table db.users.
use database_flashback.Base.{
  ◌≡◌, refl, ℕ, zero, suc, arith, some, none, Option, List, [], ◌∷◌, ◌++◌, map, concat, Bytes, text,
  length,
}
use database_flashback.Base.Int.{pos, negsuc}
use database_flashback.Value.{Float, float64, int, str, null, image_set, update_event, delete_event}
use database_flashback.Parser.Ddl.{contains, index_of}
use database_flashback.Flashback.Scan.{parse_column_value, row_kind, parse_output}
use database_flashback.Flashback.Blocks.{Block, lines_of, event_of, parse_output-blocks}
use mathlib.Core.List.{cons≢nil, reverse}
use database_flashback.Value.{Value, insert_event}
use database_flashback.Flashback.Scan.{make_row_event}
use database_flashback.Flashback.Undoable.{
  Row, inserted, updated, IsWhole, event_of_row, undone, reverse_sql_batch-make_row_event,
}
use database_flashback.Base.{inr, false, join, All, map, some, none, no_image, List, ◌++◌, Bytes}
use database_flashback.Value.{RowEvent}
use database_flashback.Connector.Preflight.{warn, PreflightResult, is_fail}
use database_flashback.Flashback.Run.{FlashbackOptions, Source, run_flashback}
use database_flashback.Flashback.Safety.{Executes, run_flashback-executed}
use database_flashback.Reverse.{reverse_sql_batch}

abbrev no_float : Bytes → Option Float
no_float s = none

values :
    (parse_column_value (float64 0) no_float (text "'it''s'") ≡ str (text "it''s"))
    × (parse_column_value (float64 0) no_float (text "-1 (4294967295)") ≡ int (negsuc 0))
    × (parse_column_value (float64 0) no_float (text "NULL") ≡ null)
unfolding parse_column_value
values = (refl, refl, refl)

abbrev names : List Bytes
names = text "id" ∷ text "name" ∷ []

abbrev renamed : Block
renamed = record {
  type = update_event;
  head = text "### UPDATE `db`.`users`";
  body =
      text "### WHERE"
      ∷ text "###   @1=1"
      ∷ text "###   @2='a'"
      ∷ text "### SET"
      ∷ text "###   @1=1"
      ∷ text "###   @2='b'"
      ∷ [];
  rest = [];
}

abbrev removed : Block
removed = record {
  type = delete_event;
  head = text "### DELETE FROM `db`.`users`";
  body = text "### WHERE" ∷ text "###   @1=2" ∷ text "###   @2=NULL" ∷ [];
  rest = text "# at 412" ∷ text "COMMIT/*!*/;" ∷ [];
}

events : event_of (float64 0) no_float (text "db") (text "users") names renamed ≡ record {
  type = update_event;
  database = text "db";
  table = text "users";
  timestamp = 0;
  before = some ((text "id", int (pos 1)) ∷ (text "name", str (text "a")) ∷ []);
  after = some ((text "id", int (pos 1)) ∷ (text "name", str (text "b")) ∷ []);
}
unfolding event_of index_of image_set parse_column_value
events = refl

parse_output-blocks_example :
    parse_output
      (float64 0)
      no_float
      (text "db")
      (text "users")
      names
      (concat (map lines_of (renamed ∷ removed ∷ [])) ++ (text "# End of log file" ∷ []))
    ≡ map (event_of (float64 0) no_float (text "db") (text "users") names) (renamed ∷ removed ∷ [])
unfolding row_kind contains index_of
parse_output-blocks_example =
    parse_output-blocks (float64 0) no_float (text "db") (text "users") names
      (renamed ∷ removed ∷ []) (text "# End of log file")
      (
        (
          refl,
          (
            (refl, refl),
            ((refl, refl), ((refl, refl), ((refl, refl), ((refl, refl), ((refl, refl), tt))))),
          ),
          tt,
        ),
        (
          (
            refl,
            ((refl, refl), ((refl, refl), ((refl, refl), tt))),
            ((refl, refl), ((refl, refl), tt)),
          ),
          tt,
        ),
      )
      (refl, refl) (omega arith)

abbrev zeros : ℕ → Bytes
zeros zero = []
zeros (suc n) = 0 ∷ zeros n

length-zeros : (n : ℕ) → length (zeros n) ≡ n
length-zeros zero = refl
length-zeros (suc n) = omega (arith, length-zeros n)

abbrev no_digits : Float → Bytes
no_digits f = []

abbrev one_insert : List RowEvent
one_insert =
    record {
      type = insert_event;
      database = text "db";
      table = text "users";
      timestamp = 0;
      before = none;
      after = some ((text "id", str (text "x")) ∷ []);
    }
    ∷ []

-- An UPDATE of which one value was lost, and behind it an UPDATE and an INSERT.
abbrev three_values : List Value
three_values = int (pos 1) ∷ str (text "a") ∷ int (pos 1) ∷ []

abbrev later_rows : List Row
later_rows =
    updated (int (pos 1) ∷ str (text "a") ∷ []) (int (pos 1) ∷ str (text "b") ∷ [])
    ∷ inserted (int (pos 2) ∷ str (text "c") ∷ [])
    ∷ []

later_rows-IsWhole : All IsWhole later_rows
later_rows-IsWhole = ((refl, λ e. cons≢nil e), ((λ e. cons≢nil e), tt))

abbrev later_events : List RowEvent
later_events = map (event_of_row no_digits (text "db") (text "users") names) later_rows

abbrev undone_rows : List Bytes
undone_rows = reverse (map (undone no_digits (text "db") (text "users") names) later_rows)

reverse_sql_batch-make_row_event_example :
    (reverse_sql_batch no_digits later_events [] ≡ (undone_rows, none))
    × (reverse_sql_batch no_digits
          (one_insert
            ++ (make_row_event update_event (text "db") (text "users") three_values names
                ∷ later_events))
          []
        ≡ (undone_rows, some (1, no_image)))
reverse_sql_batch-make_row_event_example =
    reverse_sql_batch-make_row_event no_digits (text "db") (text "users") names one_insert
      three_values later_rows refl later_rows-IsWhole

abbrev wanted : FlashbackOptions
wanted = record {
  target_table = text "db.users";
  recovery_time = text "now";
  output_file = [];
  dry_run = false;
  batch_size = pos 50;
}

abbrev server : Source
server = record {
  preflight = inr (record { status = warn; version = text "8.0.36"; checks = [] });
  binlog_files = inr (text "binlog.000001" ∷ []);
  binlog_dir = inr [];
  data_dir = inr (text "/data");
}

abbrev one_delete : List Bytes
one_delete = text "DELETE FROM `users` WHERE `id` = 'x' LIMIT 1;" ∷ []

run_flashback-executed_example :
    (res : PreflightResult) × (server.preflight ≡ inr res)
    × (is_fail res.status ≡ false)
    × Executes
        (λ f. [])
        (λ t. some 7)
        (λ dir name. dir ++ name)
        (λ files opts. inr one_insert)
        wanted
        server
        one_delete
        (pos 50)
unfolding run_flashback reverse_sql_batch join
run_flashback-executed_example =
    run_flashback-executed (λ f. []) (λ t. some 7) (λ dir name. dir ++ name)
      (λ files opts. inr one_insert) wanted server one_delete (pos 50) refl
