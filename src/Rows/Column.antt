-- ===== src/Rows/Column.antt =====
-- internal/parser/rows_event.go: `readColumnValue`, the choice of the reader by the column's type.
use database_flashback.Base.{
  ℕ, ◌+◌, ◌^◌, Bytes, text, ◌++◌, length, leb, if◌then◌else◌, decimal, List, ◌∷◌, [], Result, ok,
  panic,
}
use database_flashback.Base.Int.{signed}
use database_flashback.Value.{null, int, float, float32, float64, Image, image_set}
use database_flashback.Wire.{little_endian}
use database_flashback.TableMap.{ColumnMeta, is_one_of}
use database_flashback.TableMap.MysqlType
use database_flashback.Rows.Cell.{
  Cell, value, failed, panics, safe_read_value, read_if_whole, read_year, parse_varchar,
  parse_string, parse_bit, parse_enum, parse_set, parse_blob,
}
use database_flashback.Rows.Temporal.{
  parse_date, parse_old_time, parse_old_timestamp, parse_old_datetime, parse_timestamp2,
  parse_datetime2, parse_time2,
}
use database_flashback.Rows.Decimal.{parse_decimal}

-- `colName`: the name is made of the index; the table map is not asked.
unfoldable pub col_name : ℕ → Bytes
unfolding decimal
col_name i = text "col_" ++ decimal i

-- The `default` case.
unfoldable pub skip_unknown : Bytes → ℕ → Cell
skip_unknown buf p = value null (if leb (p + 4) (length buf) then p + 4 else length buf)

-- A `switch` on the code `t`: its cases with their codes, and the default.
unfoldable pub choose : ℕ → List (List ℕ × Cell) → Cell → Cell
choose t [] other = other
choose t ((codes, c) ∷ cases) other = if is_one_of t codes then c else choose t cases other

-- The cases of the switch of `readColumnValue`.
unfoldable pub column_cases : Bytes → ℕ → ColumnMeta → List (List ℕ × Cell)
unfolding safe_read_value read_if_whole read_year parse_varchar parse_string parse_bit parse_enum
    parse_set parse_blob parse_date parse_old_time parse_old_timestamp parse_old_datetime
    parse_timestamp2 parse_datetime2 parse_time2 parse_decimal
column_cases buf p meta =
    ((MysqlType.tiny ∷ []), safe_read_value buf p 1)
    ∷ ((MysqlType.short ∷ []), safe_read_value buf p 2)
    ∷ ((MysqlType.long ∷ []), safe_read_value buf p 4)
    ∷ (
      (MysqlType.longlong ∷ []),
      read_if_whole buf p 8 (λ b. int (signed (2 ^ 63) (little_endian b))),
    )
    ∷ ((MysqlType.int24 ∷ []), read_if_whole buf p 3 (λ b. int (signed (2 ^ 23) (little_endian b))))
    ∷ ((MysqlType.float ∷ []), read_if_whole buf p 4 (λ b. float (float32 (little_endian b))))
    ∷ ((MysqlType.double ∷ []), read_if_whole buf p 8 (λ b. float (float64 (little_endian b))))
    ∷ ((MysqlType.null ∷ []), value null p)
    ∷ ((MysqlType.decimal ∷ MysqlType.newdecimal ∷ []), parse_decimal buf p meta)
    ∷ ((MysqlType.timestamp ∷ []), parse_old_timestamp buf p)
    ∷ ((MysqlType.timestamp2 ∷ []), parse_timestamp2 buf p meta.fsp)
    ∷ ((MysqlType.datetime ∷ []), parse_old_datetime buf p)
    ∷ ((MysqlType.datetime2 ∷ []), parse_datetime2 buf p meta.fsp)
    ∷ ((MysqlType.date ∷ MysqlType.newdate ∷ []), parse_date buf p)
    ∷ ((MysqlType.time ∷ []), parse_old_time buf p)
    ∷ ((MysqlType.time2 ∷ []), parse_time2 buf p meta.fsp)
    ∷ ((MysqlType.year ∷ []), read_year buf p)
    ∷ ((MysqlType.varchar ∷ MysqlType.var_string ∷ []), parse_varchar buf p)
    ∷ ((MysqlType.string ∷ []), parse_string buf p meta)
    ∷ ((MysqlType.bit ∷ []), parse_bit buf p meta)
    ∷ ((MysqlType.enum ∷ []), parse_enum buf p meta)
    ∷ ((MysqlType.set ∷ []), parse_set buf p meta)
    ∷ ((MysqlType.tiny_blob ∷ []), parse_blob buf p 1)
    ∷ ((MysqlType.blob ∷ []), parse_blob buf p 2)
    ∷ ((MysqlType.medium_blob ∷ []), parse_blob buf p 3)
    ∷ ((MysqlType.long_blob ∷ MysqlType.json ∷ MysqlType.geometry ∷ []), parse_blob buf p 4)
    ∷ []

-- The switch.
unfoldable pub read_cell : Bytes → ℕ → ℕ → ColumnMeta → Cell
unfolding choose column_cases skip_unknown
read_cell buf p t meta = choose t (column_cases buf p meta) (skip_unknown buf p)

-- What becomes of the reader's result: an error is logged, and the column is nil.
unfoldable pub store_cell : Image → ℕ → Cell → Result (Image × ℕ)
unfolding col_name
store_cell values i (value v p) = ok (image_set (col_name i) v values, p)
store_cell values i (failed p) = ok (image_set (col_name i) null values, p)
store_cell values i panics = panic

unfoldable pub read_column_value : Bytes → ℕ → ℕ → ColumnMeta → Image → ℕ → Result (Image × ℕ)
unfolding read_cell store_cell
read_column_value buf p t meta values i = store_cell values i (read_cell buf p t meta)
