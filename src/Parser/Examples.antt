-- ===== src/Parser/Examples.antt =====
-- The reader and the parser at concrete inputs.
use database_flashback.Base.{
  ◌≡◌, refl, ℕ, ◌+◌, ◌*◌, ◌^◌, true, false, Option, some, none, List, ◌∷◌, [], ◌++◌, All, Bytes,
  text, length, ok, fails, no_image, is_some,
}
use database_flashback.Base.Int.{pos}
use database_flashback.Value.{Float, int, image_set, insert_event, delete_event, RowEvent}
use database_flashback.Wire.{EventHeader, little_endian}
use database_flashback.TableMap.{zero_meta, TableMap, new_registry}
use database_flashback.TableMap.MysqlType
use database_flashback.Reverse.{reverse_sql}
use database_flashback.Parser.Reader.{crc32, crc_bytes, crc_bits, new_binlog_reader, binlog_magic}
use database_flashback.Parser.Ddl.{
  table_object, is_ddl, extract_ddl_info, match_prefix, contains, index_of,
}
use database_flashback.Parser.Dispatch.{ParseOptions, BinlogParser, handle_delete_rows_event}
use database_flashback.Parser.Files.{ParseResult, parse_files}
use database_flashback.Parser.Window.{Wanted}
use database_flashback.Parser.Images.{handle_delete_rows_event_irreversible}
use database_flashback.Parser.Filter.{parse_files-Wanted}

crc_check : crc32 (b'1' ∷ b'2' ∷ b'3' ∷ b'4' ∷ b'5' ∷ b'6' ∷ b'7' ∷ b'8' ∷ b'9' ∷ []) ≡ 0xCBF43926
unfolding crc32 crc_bytes crc_bits
crc_check = refl

statements :
    (is_ddl (text "  drop table `a``b`.t;") ≡ true)
    × (extract_ddl_info (text "  drop table `a``b`.t;") (text "db") ≡ (table_object, text "a`b.t"))
    × (extract_ddl_info (text "ALTER TABLE users ADD c INT") (text "db")
        ≡ (table_object, text "db.users"))
    × (is_ddl (text "INSERT INTO t VALUES (1)") ≡ false)
unfolding is_ddl extract_ddl_info match_prefix contains index_of
statements = (refl, refl, refl, refl)

abbrev users : TableMap
users = record {
  table_id = 7;
  database = text "db";
  table = text "users";
  column_count = 1;
  column_types = MysqlType.tiny ∷ [];
  column_meta = zero_meta MysqlType.tiny ∷ [];
}

abbrev options : ParseOptions
options = record {
  start_time = some (5 * 10 ^ 9);
  end_time = some (9 * 10 ^ 9);
  target_table = text "db.users";
}

abbrev parser : BinlogParser
parser = record {
  reader = new_binlog_reader;
  reg = record { maps = λ id. some users };
  events = [];
  checksum_enabled = false;
  skip_checksum = false;
  ddl_events = [];
  opts = options;
}

abbrev delete_header : EventHeader
delete_header = record {
  timestamp = 6;
  type = 32;
  server_id = 1;
  event_len = 33;
  next_pos = 100;
  flags = 0;
}

-- A DELETE_ROWS event with the row 5.
abbrev delete_payload : Bytes
delete_payload = 7 ∷ 0 ∷ 0 ∷ 0 ∷ 0 ∷ 0 ∷ 1 ∷ 0 ∷ 1 ∷ 1 ∷ 0 ∷ 5 ∷ []

abbrev deleted_row : RowEvent
deleted_row = record {
  type = delete_event;
  database = text "db";
  table = text "users";
  timestamp = 6;
  before = none;
  after = some ((text "col_0", int (pos 5)) ∷ []);
}

abbrev no_floats : Float → Bytes
no_floats f = []

handled :
    handle_delete_rows_event parser delete_header delete_payload false
    ≡ ok (record parser { events = deleted_row ∷ [] })
unfolding handle_delete_rows_event image_set little_endian
handled = refl

handle_delete_rows_event_irreversible_example :
    (new : List RowEvent) × (deleted_row ∷ [] ≡ new)
    × All
        (λ e.
          (e.type ≡ delete_event)
          × (is_some e.after ≡ true)
          × (reverse_sql no_floats e [] ≡ fails no_image))
        new
handle_delete_rows_event_irreversible_example =
    handle_delete_rows_event_irreversible no_floats [] parser
      (record parser { events = deleted_row ∷ [] }) delete_header delete_payload false handled

-- A file with the magic number, a table map of `db.users` at the second 6, and a WRITE_ROWS event at
-- the second 6, and one at the second 10.
abbrev event_bytes : ℕ → ℕ → Bytes → Bytes
event_bytes time type payload =
    (time
      ∷ 0
      ∷ 0
      ∷ 0
      ∷ type
      ∷ 1
      ∷ 0
      ∷ 0
      ∷ 0
      ∷ (19 + length payload)
      ∷ 0
      ∷ 0
      ∷ 0
      ∷ 0
      ∷ 0
      ∷ 0
      ∷ 0
      ∷ 0
      ∷ 0
      ∷ [])
    ++ payload

abbrev map_payload : Bytes
map_payload =
    (7 ∷ 0 ∷ 0 ∷ 0 ∷ 0 ∷ 0 ∷ 1 ∷ 0 ∷ 2 ∷ [])
    ++ (text "db" ++ ((0 ∷ 5 ∷ []) ++ (text "users" ++ (0 ∷ 1 ∷ 1 ∷ 0 ∷ []))))

abbrev file : Bytes
file =
    binlog_magic
    ++ (event_bytes 6 19 map_payload
        ++ (event_bytes 6 23 delete_payload ++ event_bytes 10 23 delete_payload))

abbrev files : Bytes → Option Bytes
files path = some file

abbrev inserted_row : RowEvent
inserted_row = record {
  type = insert_event;
  database = text "db";
  table = text "users";
  timestamp = 6;
  before = none;
  after = some ((text "col_0", int (pos 5)) ∷ []);
}

abbrev result : ParseResult
result = record {
  parser = record parser { reg = new_registry };
  found = inserted_row ∷ [];
  complete = true;
}

found : parse_files files parser (text "binlog.1" ∷ []) options ≡ ok result
unfolding parse_files image_set
found = refl

parse_files-Wanted_example : All (Wanted options) (inserted_row ∷ [])
parse_files-Wanted_example =
    parse_files-Wanted files parser (text "binlog.1" ∷ []) options result found
