-- ===== src/Parser/Dispatch.antt =====
-- internal/parser/parser.go: the parser's state, and what it does with one event.
use database_flashback.Base.{
  ℕ, suc, ◌+◌, ◌-◌, ◌%◌, ◌^◌, Bool, true, false, not, ◌&&◌, Option, none, some, List, [], ◌∷◌, ◌++◌,
  map, Bytes, text, length, drop, ltb, ◌==◌, if◌then◌else◌, eq_bytes, ◌>>=◌, Result, ok, err,
  unexpected_eof,
}
use database_flashback.Value.{EventType, insert_event, update_event, delete_event, RowEvent}
use database_flashback.Wire.{EventHeader, little_endian, bytes_at, byte_at}
use database_flashback.TableMap.{TableMap, parse_table_map, Registry, registry_set, registry_get}
use database_flashback.Rows.Event.{
  RowData, RowEventData, parse_write_rows_event, parse_delete_rows_event, parse_update_rows_event,
}
use database_flashback.Parser.Reader.{BinlogReader, enable_checksum}
use database_flashback.Parser.Ddl.{ObjectType, is_ddl, extract_ddl_info}

pub record DdlEvent : Type 0 where
  pub timestamp : ℕ
  pub statement : Bytes
  pub object_type : ObjectType
  pub object_name : Bytes
  pub position : ℕ

-- The bounds are nanoseconds since 1970; a zero `time.Time` is `none`.
pub record ParseOptions : Type 0 where
  pub start_time : Option ℕ
  pub end_time : Option ℕ
  pub target_table : Bytes

pub record BinlogParser : Type 0 where
  pub reader : BinlogReader
  pub reg : Registry
  pub events : List RowEvent
  pub checksum_enabled : Bool
  pub skip_checksum : Bool
  pub ddl_events : List DdlEvent
  pub opts : ParseOptions

-- `handleFormatDescriptionEvent`.
unfoldable pub handle_format_description_event : BinlogParser → Bytes → Result BinlogParser
handle_format_description_event p payload =
    let size = length payload in
    if ltb size 57
    then err unexpected_eof
    else if ltb 92 size && (byte_at payload (size - 1) == 1 && not p.skip_checksum)
    then ok (record p { checksum_enabled = true; reader = enable_checksum p.reader })
    else ok p

unfoldable pub handle_table_map_event : BinlogParser → Bytes → Result BinlogParser
unfolding parse_table_map registry_set
handle_table_map_event p payload =
    parse_table_map payload >>= λ tm. ok (record p { reg = registry_set p.reg tm })

abbrev pub database_of : Option TableMap → Bytes
database_of none = []
database_of (some tm) = tm.database

abbrev pub table_of : Option TableMap → Bytes
table_of none = []
table_of (some tm) = tm.table

abbrev pub qualified : Bytes → Bytes → Bytes
qualified database table = database ++ (text "." ++ table)

-- The filter of `convertToRowEvents`: an empty target lets every table through.
unfoldable pub is_target : Bytes → Bytes → Bytes → Bool
is_target [] database table = true
is_target (c ∷ target) database table = eq_bytes (qualified database table) (c ∷ target)

abbrev pub to_row_event : EventHeader → Bytes → Bytes → EventType → RowData → RowEvent
to_row_event hdr database table type row = record {
  type = type;
  database = database;
  table = table;
  timestamp = hdr.timestamp;
  before = row.before;
  after = row.after;
}

-- `convertToRowEvents`. (`extractPrimaryKey` gives nil.)
unfoldable pub convert_to_row_events :
    BinlogParser → EventHeader → RowEventData → EventType → BinlogParser
unfolding is_target
convert_to_row_events p hdr rows type =
    let tm = registry_get p.reg rows.table_id in
    let database = database_of tm in
    let table = table_of tm in
    if is_target p.opts.target_table database table
    then record p { events = p.events ++ map (to_row_event hdr database table type) rows.rows }
    else p

-- The rows events: as many rounds as the payload has bytes, and one.
unfoldable pub handle_write_rows_event :
    BinlogParser → EventHeader → Bytes → Bool → Result BinlogParser
unfolding parse_write_rows_event convert_to_row_events
handle_write_rows_event p hdr payload v2 =
    parse_write_rows_event (suc (length payload)) (some p.reg) payload v2 >>= λ rows.
    ok (convert_to_row_events p hdr rows insert_event)

unfoldable pub handle_delete_rows_event :
    BinlogParser → EventHeader → Bytes → Bool → Result BinlogParser
unfolding parse_delete_rows_event convert_to_row_events
handle_delete_rows_event p hdr payload v2 =
    parse_delete_rows_event (suc (length payload)) (some p.reg) payload v2 >>= λ rows.
    ok (convert_to_row_events p hdr rows delete_event)

unfoldable pub handle_update_rows_event :
    BinlogParser → EventHeader → Bytes → Bool → Result BinlogParser
unfolding parse_update_rows_event convert_to_row_events
handle_update_rows_event p hdr payload v2 =
    parse_update_rows_event (suc (length payload)) (some p.reg) payload v2 >>= λ rows.
    ok (convert_to_row_events p hdr rows update_event)

unfoldable pub handle_rotate_event : BinlogParser → Bytes → Result BinlogParser
handle_rotate_event p payload = if ltb (length payload) 8 then err unexpected_eof else ok p

-- The statement of a QUERY event, if it is DDL. `NextPos - EventLen` wraps at 32 bits.
unfoldable pub record_ddl : BinlogParser → EventHeader → Bytes → Bytes → BinlogParser
unfolding is_ddl extract_ddl_info
record_ddl p hdr database sql =
    let info = extract_ddl_info sql database in
    let ddl : DdlEvent = record {
      timestamp = hdr.timestamp;
      statement = sql;
      object_type = info.0;
      object_name = info.1;
      position = (hdr.next_pos + 2 ^ 32 - hdr.event_len) % 2 ^ 32;
    } in
    if is_ddl sql then record p { ddl_events = p.ddl_events ++ (ddl ∷ []) } else p

unfoldable pub handle_query_event : BinlogParser → EventHeader → Bytes → Result BinlogParser
unfolding record_ddl
handle_query_event p hdr payload =
    let db_len = byte_at payload 8 in
    let at = 13 + little_endian (bytes_at payload 11 2) in
    if ltb (length payload) 13
    then ok p
    else if ltb (length payload) (at + db_len + 1)
    then ok p
    else ok (record_ddl p hdr (bytes_at payload at db_len) (drop (at + db_len + 1) payload))

-- The `switch` of `dispatch`: codes with what is done for them, and the default.
unfoldable pub handler :
    ℕ → List (ℕ × Result BinlogParser) → Result BinlogParser → Result BinlogParser
handler t [] other = other
handler t ((code, result) ∷ cases) other = if t == code then result else handler t cases other

unfoldable pub handlers : BinlogParser → EventHeader → Bytes → List (ℕ × Result BinlogParser)
unfolding handle_format_description_event handle_table_map_event handle_write_rows_event
    handle_update_rows_event handle_delete_rows_event handle_rotate_event handle_query_event
handlers p hdr payload =
    (15, handle_format_description_event p payload)
    ∷ (19, handle_table_map_event p payload)
    ∷ (23, handle_write_rows_event p hdr payload false)
    ∷ (30, handle_write_rows_event p hdr payload true)
    ∷ (24, handle_update_rows_event p hdr payload false)
    ∷ (31, handle_update_rows_event p hdr payload true)
    ∷ (25, handle_delete_rows_event p hdr payload false)
    ∷ (32, handle_delete_rows_event p hdr payload true)
    ∷ (4, handle_rotate_event p payload)
    ∷ (16, ok p)
    ∷ (2, handle_query_event p hdr payload)
    ∷ []

-- `dispatch`.
unfoldable pub dispatch : BinlogParser → EventHeader → Bytes → Result BinlogParser
unfolding handler handlers
dispatch p hdr payload = handler hdr.type (handlers p hdr payload) (ok p)
