-- ===== src/Flashback/Scan.antt =====
-- cmd/agent/flashback.go: the loop of `parseBinlogWithMySQLBinlog` over the output of mysqlbinlog,
-- `makeRowEvent`, and `parseColumnValue`. What `%f` reads is a parameter.
use database_flashback.Base.{
  ℕ, zero, suc, ◌+◌, ◌-◌, ◌*◌, ◌/◌, ◌%◌, ◌^◌, Bool, true, false, not, ◌&&◌, ◌||◌, Option, none,
  some, List, [], ◌∷◌, ◌++◌, Bytes, text, length, take, drop, ltb, leb, ◌==◌, if◌then◌else◌,
  eq_bytes,
}
use mathlib.Core.List.{reverse}
use database_flashback.Base.Int.{ℤ, pos, negsuc}
use database_flashback.Value.{
  Float, Value, null, int, float, str, Image, image_set, EventType, insert_event, update_event,
  delete_event, unknown_event, RowEvent,
}
use database_flashback.Rows.Column.{col_name}
use database_flashback.Parser.Ddl.{trim_space, has_prefix, contains, index_of}

-- The digits at the front, as a number, and whether there is one.
unfoldable pub digits : ℕ → Bool → Bytes → Option ℕ
digits n seen [] = if seen then some n else none
digits n seen (c ∷ s) =
    let rest = digits (n * 10 + (c - b'0')) true s in
    if leb b'0' c && leb c b'9' then rest else if seen then some n else none

-- An int64, or the error of a number that does not fit.
abbrev positive : Option ℕ → Option ℤ
positive none = none
positive (some n) = if ltb n (2 ^ 63) then some (pos n) else none

abbrev negative : Option ℕ → Option ℤ
negative none = none
negative (some zero) = some (pos 0)
negative (some (suc n)) = if ltb n (2 ^ 63) then some (negsuc n) else none

-- `fmt.Sscanf(s, "%d", &i)`, on a text without space in front.
unfoldable pub scan_int : Bytes → Option ℤ
unfolding digits
scan_int [] = none
scan_int (c ∷ s) =
    if c == b'-'
    then negative (digits 0 false s)
    else if c == b'+'
    then positive (digits 0 false s)
    else positive (digits 0 false (c ∷ s))

-- `strings.Trim(s, "'")` and `strings.HasSuffix(s, "'")`.
abbrev trim_quotes_left : Bytes → Bytes
trim_quotes_left [] = []
trim_quotes_left (c ∷ s) = let rest = trim_quotes_left s in if c == b'\'' then rest else c ∷ s

unfoldable trim_quotes : Bytes → Bytes
trim_quotes s = reverse (trim_quotes_left (reverse (trim_quotes_left s)))

abbrev is_quoted : Bytes → Bool
is_quoted s = has_prefix s (text "'") && has_prefix (reverse s) (text "'")

abbrev float_or : Value → Option Float → Value
float_or fallback none = fallback
float_or fallback (some f) = float f

module _ (zero_float : Float) (scan_float : Bytes → Option Float) where
  -- A number with a point, of which `%d` has read the front: a `%f` that fails leaves 0.
  unfoldable number_value : Bytes → Option ℤ → Value
  unfolding contains
  number_value s none = float_or (str s) (scan_float s)
  number_value s (some i) =
      if contains s (text ".") then float_or (float zero_float) (scan_float s) else int i

  unfoldable trimmed_value : Bytes → Value
  unfolding trim_quotes scan_int number_value
  trimmed_value s =
      if eq_bytes s (text "NULL") || eq_bytes s (text "'NULL'")
      then null
      else if is_quoted s
      then str (trim_quotes s)
      else number_value s (scan_int s)

  -- `parseColumnValue`.
  unfoldable pub parse_column_value : Bytes → Value
  unfolding trimmed_value trim_space
  parse_column_value s = trimmed_value (trim_space s)

-- The name of column `i` in `makeRowEvent`.
abbrev named_or_col : ℕ → List Bytes → Bytes
named_or_col i [] = col_name i
named_or_col i ([] ∷ names) = col_name i
named_or_col i ((c ∷ name) ∷ names) = c ∷ name

unfoldable pub column_name : List Bytes → ℕ → Bytes
unfolding col_name
column_name names i = named_or_col i (drop i names)

-- The loops that fill a map, from column `i` on.
unfoldable pub fill : List Bytes → ℕ → List Value → Image → Image
unfolding column_name image_set
fill names i [] m = m
fill names i (v ∷ vals) m = fill names (i + 1) vals (image_set (column_name names i) v m)

abbrev pub plain_event : EventType → Bytes → Bytes → Option Image → Option Image → RowEvent
plain_event type database table before after = record {
  type = type;
  database = database;
  table = table;
  timestamp = 0;
  before = before;
  after = after;
}

-- `makeRowEvent`. The event has no time stamp. An UPDATE with an odd number of values has no image.
unfoldable pub make_row_event : EventType → Bytes → Bytes → List Value → List Bytes → RowEvent
unfolding fill
make_row_event delete_event database table vals names =
    plain_event delete_event database table (some (fill names 0 vals [])) none
make_row_event insert_event database table vals names =
    plain_event insert_event database table none (some (fill names 0 vals []))
make_row_event update_event database table vals names =
    let half = length vals / 2 in
    if length vals % 2 == 0
    then plain_event update_event database table (some (fill names 0 (take half vals) []))
        (some (fill names 0 (drop half vals) []))
    else plain_event update_event database table none none
make_row_event (unknown_event t) database table vals names =
    plain_event (unknown_event t) database table none none

pub record ScanState : Type 0 where
  pub events : List RowEvent
  pub ev_type : EventType
  pub values : List Value
  pub in_row : Bool

abbrev pub first_state : ScanState
first_state = record { events = []; ev_type = unknown_event []; values = []; in_row = false }

-- `strings.IndexByte(line, '=')` is above 0, and what stands behind.
abbrev pub behind_equals : Bytes → Option ℕ → Option Bytes
behind_equals line none = none
behind_equals line (some zero) = none
behind_equals line (some (suc n)) = some (drop (suc n + 1) line)

-- Which kind of row a line begins, for a table's pattern.
unfoldable pub row_kind : Bytes → Bytes → Option EventType
unfolding contains
row_kind pattern' line =
    if contains line (text "### DELETE FROM " ++ pattern')
    then some delete_event
    else if contains line (text "### INSERT INTO " ++ pattern')
    then some insert_event
    else if contains line (text "### UPDATE " ++ pattern')
    then some update_event
    else none

-- Lines longer than the buffer of a `bufio.Scanner` end the scan, and nobody asks for its error.
abbrev pub max_token : ℕ
max_token = 65536

unfoldable pub scanned : List Bytes → List Bytes
scanned [] = []
scanned (line ∷ lines) =
    let rest = scanned lines in if ltb (length line) max_token then line ∷ rest else []

abbrev pub table_pattern : Bytes → Bytes → Bytes
table_pattern database table = text "`" ++ (database ++ (text "`.`" ++ (table ++ text "`")))

module _ (zero_float : Float) (scan_float : Bytes → Option Float) (database table : Bytes)
    (names : List Bytes) where
  -- `events = append(events, makeRowEvent(…))` for the row so far.
  unfoldable pub flush : ScanState → ScanState
  unfolding make_row_event
  flush s =
      if s.in_row
      then record s {
        events = s.events ++ (make_row_event s.ev_type database table s.values names ∷ []);
      }
      else s

  unfoldable pub added : ScanState → Option Bytes → ScanState
  unfolding parse_column_value
  added s none = s
  added s (some value') = record s {
    values = s.values ++ (parse_column_value zero_float scan_float value' ∷ []);
  }

  -- A line that begins no row.
  unfoldable pub other_line : ScanState → Bytes → ScanState
  unfolding added flush index_of
  other_line s line =
      let t =
        if s.in_row && has_prefix line (text "###   @")
        then added s (behind_equals line (index_of line (text "=")))
        else s in
      if t.in_row && not (has_prefix line (text "###"))
      then record (flush t) { values = []; in_row = false }
      else t

  unfoldable pub kind_line : ScanState → Bytes → Option EventType → ScanState
  unfolding flush other_line
  kind_line s line (some type) = record (flush s) { ev_type = type; values = []; in_row = true }
  kind_line s line none = other_line s line

  -- The body of the loop.
  unfoldable pub scan_line : ScanState → Bytes → ScanState
  unfolding kind_line row_kind
  scan_line s line = kind_line s line (row_kind (table_pattern database table) line)

  unfoldable pub scan_lines : ScanState → List Bytes → ScanState
  unfolding scan_line
  scan_lines s [] = s
  scan_lines s (line ∷ lines) = scan_lines (scan_line s line) lines

  -- Behind the loop: a last row that has values.
  unfoldable pub last_row : ScanState → List RowEvent
  unfolding flush
  last_row s = if s.in_row && ltb 0 (length s.values) then (flush s).events else s.events

  -- The events that the output gives.
  unfoldable pub parse_output : List Bytes → List RowEvent
  unfolding scanned scan_lines last_row
  parse_output lines = last_row (scan_lines first_state (scanned lines))
