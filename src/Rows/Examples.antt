-- ===== src/Rows/Examples.antt =====
-- Rows events at concrete payloads.
use database_flashback.Base.{
  ◌≡◌, refl, arith, false, some, none, [], ◌∷◌, ◌++◌, Bytes, text, ok, stuck, Ends,
}
use database_flashback.Wire.{got, length_encoded_int, little_endian, bitmap_byte_size}
use database_flashback.TableMap.{zero_meta, TableMap, Registry}
use database_flashback.TableMap.MysqlType
use database_flashback.Rows.Event.{
  PostHeader, parse_row_post_header, parse_write_rows_event, parse_delete_rows_event,
  parse_update_rows_event,
}
use database_flashback.Rows.Ends.{parse_rows_events-Ends, parse_rows_events_stuck}

abbrev users : TableMap
users = record {
  table_id = 7;
  database = text "db";
  table = text "users";
  column_count = 2;
  column_types = MysqlType.tiny ∷ MysqlType.varchar ∷ [];
  column_meta = zero_meta MysqlType.tiny ∷ zero_meta MysqlType.varchar ∷ [];
}

abbrev registry : Registry
registry = record { maps = λ id. some users }

abbrev header : Bytes
header = 7 ∷ 0 ∷ 0 ∷ 0 ∷ 0 ∷ 0 ∷ 1 ∷ 0 ∷ []

-- Two columns, both present: a row -2, "ab", and a row 3, NULL.
abbrev two_rows : Bytes
two_rows = header ++ (2 ∷ 3 ∷ 0 ∷ 0xfe ∷ 2 ∷ 0 ∷ b'a' ∷ b'b' ∷ 2 ∷ 3 ∷ [])

abbrev no_columns_payload : Bytes
no_columns_payload = header ++ (0 ∷ 1 ∷ [])

abbrev post_header : PostHeader
post_header = record { body = 8; table_id = 7; flags = 1 }

two_rows_header : parse_row_post_header two_rows false ≡ ok post_header
unfolding parse_row_post_header little_endian
two_rows_header = refl

no_columns_header : parse_row_post_header no_columns_payload false ≡ ok post_header
unfolding parse_row_post_header little_endian
no_columns_header = refl

two_rows_count : length_encoded_int two_rows 8 ≡ got 2 9
unfolding length_encoded_int
two_rows_count = refl

no_columns_count : length_encoded_int no_columns_payload 8 ≡ got 0 9
unfolding length_encoded_int
no_columns_count = refl

one_byte : bitmap_byte_size 2 ≡ 1
unfolding bitmap_byte_size
one_byte = refl

no_byte : bitmap_byte_size 0 ≡ 0
unfolding bitmap_byte_size
no_byte = refl

parse_rows_events-Ends_example :
    Ends (λ out. Unit {0}) (parse_write_rows_event 30 (some registry) two_rows false)
    × Ends (λ out. Unit {0}) (parse_delete_rows_event 30 (some registry) two_rows false)
    × Ends (λ out. Unit {0}) (parse_update_rows_event 30 (some registry) two_rows false)
parse_rows_events-Ends_example =
    parse_rows_events-Ends 30 (some registry) two_rows false post_header 2 9 (omega arith)
      (omega arith) (omega arith) two_rows_header two_rows_count
      (λ e. absurd (omega (arith, one_byte, e)))

parse_rows_events_stuck_example :
    (parse_write_rows_event 1000 none no_columns_payload false ≡ stuck)
    × (parse_delete_rows_event 1000 none no_columns_payload false ≡ stuck)
    × (parse_update_rows_event 1000 none no_columns_payload false ≡ stuck)
parse_rows_events_stuck_example =
    parse_rows_events_stuck 1000 none no_columns_payload false post_header 0 9 (omega arith)
      (omega arith) no_columns_header no_columns_count no_byte (omega arith)
