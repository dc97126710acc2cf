-- ===== src/TableMap/Examples.antt =====
-- A table map of five columns.
use database_flashback.Base.{◌≡◌, refl, arith, [], ◌∷◌, Bytes, text, List, map, concat, ok}
use database_flashback.Base.Int.{pos}
use database_flashback.Wire.{little_endian}
use database_flashback.Wire.Layout.{le_bytes}
use database_flashback.Wire.Packed.{encode_length}
use database_flashback.TableMap.{TableMap, ColumnMeta, zero_meta, parse_table_map}
use database_flashback.TableMap.Parse.{name_part, block_part, encode_table_map}
use database_flashback.TableMap.Columns.{
  Column, long_column, varchar_column, decimal_column, datetime2_column, bit_column, column_type,
  metadata, described, parse_table_map-encode_columns,
}
use database_flashback.TableMap.Shape.{IsConsistent, parse_table_map-IsConsistent}

-- INT, VARCHAR(300), DECIMAL(10, 2), DATETIME(3), and BIT(10) as its comment describes it.
abbrev columns : List Column
columns =
    long_column
    ∷ varchar_column 300
    ∷ decimal_column 10 2
    ∷ datetime2_column 3
    ∷ bit_column 2 1
    ∷ []

abbrev metas : List ColumnMeta
metas =
    record (zero_meta 3) { length = pos 11 }
    ∷ record (zero_meta 15) { length = pos 300 }
    ∷ record (zero_meta 246) { precision = 10; scale = 2 }
    ∷ record (zero_meta 18) { fsp = 3 }
    ∷ record (zero_meta 16) { bit_bits = 2; bit_bytes = 2; length = pos 10 }
    ∷ []

abbrev orders : TableMap
orders = record {
  table_id = 7;
  database = text "shop";
  table = text "orders";
  column_count = 5;
  column_types = 3 ∷ 15 ∷ 246 ∷ 18 ∷ 16 ∷ [];
  column_meta = metas;
}

abbrev orders_payload : Bytes
orders_payload =
    7 ∷ 0 ∷ 0 ∷ 0 ∷ 0 ∷ 0 ∷ 1 ∷ 0 ∷ 4 ∷ b's' ∷ b'h' ∷ b'o' ∷ b'p' ∷ 0 ∷ 6 ∷ b'o' ∷ b'r' ∷ b'd'
    ∷ b'e' ∷ b'r' ∷ b's' ∷ 0 ∷ 5 ∷ 3 ∷ 15 ∷ 246 ∷ 18 ∷ 16 ∷ 7 ∷ 44 ∷ 1 ∷ 10 ∷ 2 ∷ 3 ∷ 2 ∷ 2 ∷ 0 ∷ []

orders_parsed : parse_table_map orders_payload ≡ ok orders
unfolding parse_table_map little_endian
orders_parsed = refl

orders_laid_out :
    encode_table_map 7 1
      (text "shop")
      (text "orders")
      (map column_type columns)
      (concat (map metadata columns))
      (0 ∷ [])
    ≡ orders_payload
unfolding encode_table_map name_part block_part le_bytes encode_length column_type metadata
orders_laid_out = refl

parse_table_map-encode_columns_example :
    parse_table_map (
      encode_table_map 7 1
        (text "shop")
        (text "orders")
        (map column_type columns)
        (concat (map metadata columns))
        (0 ∷ []))
    ≡ ok orders
unfolding encode_table_map name_part block_part le_bytes encode_length column_type metadata
    described
parse_table_map-encode_columns_example =
    parse_table_map-encode_columns 7 1 (text "shop") (text "orders") columns (0 ∷ []) (omega arith)
      (omega arith)

parse_table_map-IsConsistent_example : IsConsistent orders
parse_table_map-IsConsistent_example =
    parse_table_map-IsConsistent orders_payload orders (omega arith) (omega arith) orders_parsed
