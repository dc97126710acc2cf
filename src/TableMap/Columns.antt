-- ===== src/TableMap/Columns.antt =====
-- internal/parser/table_map.go: the metadata of a table's columns as it is written for each type, and
-- what `ParseTableMap` makes of it.
use database_flashback.Base.{
  ℕ, ◌+◌, ◌*◌, ◌/◌, ◌%◌, ◌^◌, ◌<◌, ◌≡◌, refl, ap, ◌∙◌, List, [], ◌∷◌, ◌++◌, map, concat, arith,
  Bytes, length, append_assoc, sym, length-append, length-map, ok, ◌||◌, ◌==◌, if◌then◌else◌,
}
use mathlib.Core.List.{append-nil}
use database_flashback.Base.Int.{pos}
use database_flashback.Wire.Layout.{byte_at-middle}
use database_flashback.TableMap.MysqlType
use database_flashback.TableMap.{
  ColumnMeta, zero_meta, meta_byte, meta_pair, bit_length, parse_column_metadata, parse_columns,
  parse_table_map,
}
use database_flashback.TableMap.Parse.{encode_table_map, parse_table_map-encode_table_map}

-- A column by its type and what the metadata says of it: the precision and the scale, the length
-- of the display, the greatest length, the bits in the last byte and the number of the bytes in
-- front of it, the digits of a fraction of a second, the size of a length, the number of members
-- and the size of a value, the greatest length and the real type.
pub data Column : Type 0 where
  decimal_column : ℕ → ℕ → Column
  tiny_column short_column int24_column long_column longlong_column date_column year_column : Column
  float_column double_column varchar_column : ℕ → Column
  bit_column : ℕ → ℕ → Column
  timestamp2_column datetime2_column time2_column : ℕ → Column
  blob_column json_column geometry_column : ℕ → Column
  enum_column set_column : ℕ → ℕ → Column
  string_column : ℕ → ℕ → Column

unfoldable pub column_type : Column → ℕ
column_type (decimal_column p s) = MysqlType.newdecimal
column_type tiny_column = MysqlType.tiny
column_type short_column = MysqlType.short
column_type int24_column = MysqlType.int24
column_type long_column = MysqlType.long
column_type longlong_column = MysqlType.longlong
column_type date_column = MysqlType.date
column_type year_column = MysqlType.year
column_type (float_column n) = MysqlType.float
column_type (double_column n) = MysqlType.double
column_type (varchar_column n) = MysqlType.varchar
column_type (bit_column b k) = MysqlType.bit
column_type (timestamp2_column f) = MysqlType.timestamp2
column_type (datetime2_column f) = MysqlType.datetime2
column_type (time2_column f) = MysqlType.time2
column_type (blob_column n) = MysqlType.blob
column_type (json_column n) = MysqlType.json
column_type (geometry_column n) = MysqlType.geometry
column_type (enum_column n k) = MysqlType.enum
column_type (set_column n k) = MysqlType.set
column_type (string_column n t) = MysqlType.string

-- The bytes of the metadata, in the order in which the comments of the parser give them.
unfoldable pub metadata : Column → Bytes
metadata (decimal_column p s) = p ∷ s ∷ []
metadata (float_column n) = n ∷ []
metadata (double_column n) = n ∷ []
metadata (varchar_column n) = (n % 256) ∷ (n / 256) ∷ []
metadata (bit_column b k) = b ∷ (k + 1) ∷ []
metadata (timestamp2_column f) = f ∷ []
metadata (datetime2_column f) = f ∷ []
metadata (time2_column f) = f ∷ []
metadata (blob_column n) = n ∷ []
metadata (json_column n) = n ∷ []
metadata (geometry_column n) = n ∷ []
metadata (enum_column n k) = n ∷ k ∷ []
metadata (set_column n k) = n ∷ k ∷ []
metadata (string_column n t) = n ∷ t ∷ []
metadata _ = []

-- The entry that describes the column; a field that the type does not have is 0.
abbrev entry : Column → ColumnMeta → ColumnMeta
entry (decimal_column p s) m = record m { precision = p; scale = s }
entry tiny_column m = record m { length = pos 4 }
entry short_column m = record m { length = pos 6 }
entry int24_column m = record m { length = pos 8 }
entry long_column m = record m { length = pos 11 }
entry longlong_column m = record m { length = pos 20 }
entry date_column m = m
entry year_column m = m
entry (float_column n) m = record m { length = pos n }
entry (double_column n) m = record m { length = pos n }
entry (varchar_column n) m = record m { length = pos n }
entry (bit_column b k) m = record m {
  bit_bits = b;
  bit_bytes = k + 1;
  length = pos (k * 8 + (if b == 0 then 8 else b));
}
entry (timestamp2_column f) m = record m { fsp = f }
entry (datetime2_column f) m = record m { fsp = f }
entry (time2_column f) m = record m { fsp = f }
entry (blob_column n) m = record m { length = pos n }
entry (json_column n) m = record m { length = pos n }
entry (geometry_column n) m = record m { length = pos n }
entry (enum_column n k) m = record m { length = pos n; enum_set_size = k }
entry (set_column n k) m = record m { length = pos n; enum_set_size = k }
entry (string_column n t) m = record m {
  real_type = t;
  length = pos n;
  enum_set_size = if t == MysqlType.enum || t == MysqlType.set then n else 0;
}

unfoldable pub described : Column → ColumnMeta
unfolding column_type
described c = entry c (zero_meta (column_type c))

module _ (before : Bytes) (m : ColumnMeta) where
  one_byte :
      (a : ℕ) (rest : Bytes) (set : ℕ → ColumnMeta)
      → meta_byte (before ++ a ∷ rest) (length before) m set ≡ (set a, length before + 1)
  unfolding meta_byte
  one_byte a rest set =
      ground (arith, byte_at-middle before a rest, length-append before (a ∷ rest))

  two_bytes :
      (a b : ℕ) (rest : Bytes) (set : ℕ → ℕ → ColumnMeta)
      → meta_pair (before ++ a ∷ b ∷ rest) (length before) m set ≡ (set a b, length before + 2)
  unfolding meta_pair
  two_bytes a b rest set =
      let second =
        simp (append_assoc, length-append) at (byte_at-middle (before ++ a ∷ []) b rest) in
      ground
        (arith, byte_at-middle before a (b ∷ rest), second, length-append before (a ∷ b ∷ rest))

whole_word : (n : ℕ) → n % 256 + n / 256 * 256 ≡ n
whole_word n = omega arith

bit_length_lem : (b k : ℕ) → bit_length b (k + 1) ≡ pos (k * 8 + (if b == 0 then 8 else b))
bit_length_lem b k = ground arith

abbrev read_string : ℕ → ℕ → ColumnMeta
read_string t n =
    if t == MysqlType.enum || t == MysqlType.set
    then record (zero_meta MysqlType.string) { real_type = t; length = pos n; enum_set_size = n }
    else record (zero_meta MysqlType.string) { real_type = t; length = pos n }

abbrev with_length : ℕ → ℕ → ColumnMeta
with_length t n = record (zero_meta t) { length = pos n }

abbrev with_fsp : ℕ → ℕ → ColumnMeta
with_fsp t f = record (zero_meta t) { fsp = f }

read_string-entry :
    (n t : ℕ)
    → (if t == MysqlType.enum || t == MysqlType.set
        then record (zero_meta MysqlType.string) {
          real_type = t;
          length = pos n;
          enum_set_size = n;
        }
        else record (zero_meta MysqlType.string) { real_type = t; length = pos n })
      ≡ entry (string_column n t) (zero_meta MysqlType.string)
read_string-entry n t = ground arith

parse_column :
    (before : Bytes) (c : Column) (rest : Bytes)
    → parse_column_metadata
        (before ++ (metadata c ++ rest))
        (length before)
        (column_type c)
        (zero_meta (column_type c))
      ≡ (described c, length before + length (metadata c))
unfolding parse_column_metadata column_type metadata described
parse_column before (decimal_column p s) rest =
    two_bytes before (zero_meta MysqlType.newdecimal) p s rest
      (λ x y. record (zero_meta MysqlType.newdecimal) { precision = x; scale = y })
parse_column before tiny_column rest = ground arith
parse_column before short_column rest = ground arith
parse_column before int24_column rest = ground arith
parse_column before long_column rest = ground arith
parse_column before longlong_column rest = ground arith
parse_column before date_column rest = ground arith
parse_column before year_column rest = ground arith
parse_column before (float_column n) rest =
    one_byte before (zero_meta MysqlType.float) n rest (with_length MysqlType.float)
parse_column before (double_column n) rest =
    one_byte before (zero_meta MysqlType.double) n rest (with_length MysqlType.double)
parse_column before (timestamp2_column f) rest =
    one_byte before (zero_meta MysqlType.timestamp2) f rest (with_fsp MysqlType.timestamp2)
parse_column before (datetime2_column f) rest =
    one_byte before (zero_meta MysqlType.datetime2) f rest (with_fsp MysqlType.datetime2)
parse_column before (time2_column f) rest =
    one_byte before (zero_meta MysqlType.time2) f rest (with_fsp MysqlType.time2)
parse_column before (blob_column n) rest =
    one_byte before (zero_meta MysqlType.blob) n rest (with_length MysqlType.blob)
parse_column before (json_column n) rest =
    one_byte before (zero_meta MysqlType.json) n rest (with_length MysqlType.json)
parse_column before (geometry_column n) rest =
    one_byte before (zero_meta MysqlType.geometry) n rest (with_length MysqlType.geometry)
parse_column before (enum_column n k) rest =
    two_bytes before (zero_meta MysqlType.enum) n k rest
      (λ x y. record (zero_meta MysqlType.enum) { enum_set_size = y; length = pos x })
parse_column before (set_column n k) rest =
    two_bytes before (zero_meta MysqlType.set) n k rest
      (λ x y. record (zero_meta MysqlType.set) { enum_set_size = y; length = pos x })
parse_column before (varchar_column n) rest =
    two_bytes before (zero_meta MysqlType.varchar) (n % 256) (n / 256) rest
      (λ x y. record (zero_meta MysqlType.varchar) { length = pos (x + y * 256) })
    ∙ ap (λ x. (record (zero_meta MysqlType.varchar) { length = pos x }, length before + 2))
        (whole_word n)
parse_column before (bit_column b k) rest =
    two_bytes before (zero_meta MysqlType.bit) b (k + 1) rest (λ x y.
      record (zero_meta MysqlType.bit) { bit_bits = x; bit_bytes = y; length = bit_length x y })
    ∙ ap
        (λ x. (
          record (zero_meta MysqlType.bit) { bit_bits = b; bit_bytes = k + 1; length = x },
          length before + 2,
        ))
        (bit_length_lem b k)
parse_column before (string_column n t) rest =
    two_bytes before (zero_meta MysqlType.string) n t rest (λ x y. read_string y x)
    ∙ ap (λ m. (m, length before + 2)) (read_string-entry n t)

-- The entries of all columns, behind the metadata of the columns before.
parse_columns_lem :
    (before : Bytes) (cs : List Column) (rest : Bytes)
    → parse_columns
        (before ++ (concat (map metadata cs) ++ rest))
        (length before)
        (map column_type cs)
      ≡ map described cs
unfolding parse_columns
parse_columns_lem before [] rest = refl
parse_columns_lem before (c ∷ cs) rest =
    let more = concat (map metadata cs) in
    let first = parse_column before c (more ++ rest) in
    let behind = parse_columns_lem (before ++ metadata c) cs rest in
    let later : parse_columns (before ++ (metadata c ++ (more ++ rest)))
          (length before + length (metadata c)) (map column_type cs)
        ≡ map described cs =
      rw (append_assoc, length-append) at behind in
    let now : parse_columns (before ++ (metadata c ++ (more ++ rest))) (length before)
          (column_type c ∷ map column_type cs)
        ≡ described c ∷ map described cs =
      rw first (ap (λ ms. described c ∷ ms) later) in
    ap (λ b. parse_columns (before ++ b) (length before) (column_type c ∷ map column_type cs))
      (append_assoc (metadata c) more rest)
    ∙ now

parse_columns-metadata :
    (cs : List Column)
    → parse_columns (concat (map metadata cs)) 0 (map column_type cs) ≡ map described cs
parse_columns-metadata cs =
    ap (λ b. parse_columns b 0 (map column_type cs)) (sym (append-nil _))
    ∙ parse_columns_lem [] cs []

-- `ParseTableMap` reads back every field of a TABLE_MAP payload laid out as documented: the id, the
-- names, the type of each column, and what its metadata says of it, for columns of the types that
-- are listed in `Column` with their metadata in the order that the parser's comments give. Whatever
-- follows (the NULL bitmap) is ignored.
pub parse_table_map-encode_columns :
    (id flags : ℕ) (database table : Bytes) (cs : List Column) (rest : Bytes)
    → id < 2 ^ 48
    → length (
        encode_table_map id flags database table
          (map column_type cs)
          (concat (map metadata cs))
          rest)
      < 2 ^ 62
    → parse_table_map (
        encode_table_map id flags database table
          (map column_type cs)
          (concat (map metadata cs))
          rest)
      ≡ ok (record {
        table_id = id;
        database = database;
        table = table;
        column_count = length cs;
        column_types = map column_type cs;
        column_meta = map described cs;
      })
parse_table_map-encode_columns id flags database table cs rest h small =
    parse_table_map-encode_table_map id flags database table (map column_type cs)
      (concat (map metadata cs)) rest h small
    ∙ rw (parse_columns-metadata cs, length-map column_type cs) refl
