-- ===== src/TableMap.antt =====
-- internal/parser/table_map.go: column metadata, TABLE_MAP events, and the registry of tables.
-- `MysqlType` holds the type codes; `Parse` proves what `ParseTableMap` returns.
pub mod MysqlType
pub mod Parse
pub mod Columns
pub mod Shape
mod Examples
use database_flashback.Base.{
  ℕ, ◌+◌, ◌-◌, ◌*◌, Bool, false, ◌||◌, Option, none, some, List, [], ◌∷◌, Bytes, length, ltb, leb,
  ◌==◌, if◌then◌else◌, ◌>>=◌, Result, ok, err, unexpected_eof,
}
use database_flashback.Base.Int.{ℤ, pos, negsuc}
use database_flashback.Wire.{
  little_endian, bytes_at, byte_at, length_encoded_int, or_eof, sized_string,
}

-- `Signed`, which nothing writes or reads, is left out. `Length` can be negative for a BIT column.
pub record ColumnMeta : Type 0 where
  pub type : ℕ
  pub precision : ℕ
  pub scale : ℕ
  pub length : ℤ
  pub fsp : ℕ
  pub bit_bits : ℕ
  pub bit_bytes : ℕ
  pub real_type : ℕ
  pub enum_set_size : ℕ

abbrev pub zero_meta : ℕ → ColumnMeta
zero_meta t = record {
  type = t;
  precision = 0;
  scale = 0;
  length = pos 0;
  fsp = 0;
  bit_bits = 0;
  bit_bytes = 0;
  real_type = 0;
  enum_set_size = 0;
}

pub record TableMap : Type 0 where
  pub table_id : ℕ
  pub database : Bytes
  pub table : Bytes
  pub column_count : ℕ
  pub column_types : Bytes
  pub column_meta : List ColumnMeta

-- One `case` of a `switch` lists several values.
abbrev pub is_one_of : ℕ → List ℕ → Bool
is_one_of t [] = false
is_one_of t (c ∷ cs) = t == c || is_one_of t cs

-- `(meta.BitBytes-1)*8 + bits`, with 8 bits for a `BitBits` of 0.
abbrev bit_length : ℕ → ℕ → ℤ
bit_length bits count =
    let total = count * 8 + (if bits == 0 then 8 else bits) in
    if ltb total 8 then negsuc (7 - total) else pos (total - 8)

-- The cases that read one byte, or two, of metadata, if these are there: what they do to the
-- column's entry is the last argument.
unfoldable meta_byte : Bytes → ℕ → ColumnMeta → (ℕ → ColumnMeta) → ColumnMeta × ℕ
meta_byte meta_bytes meta_pos meta set =
    if ltb meta_pos (length meta_bytes)
    then (set (byte_at meta_bytes meta_pos), meta_pos + 1)
    else (meta, meta_pos)

unfoldable meta_pair : Bytes → ℕ → ColumnMeta → (ℕ → ℕ → ColumnMeta) → ColumnMeta × ℕ
meta_pair meta_bytes meta_pos meta set =
    if leb (meta_pos + 2) (length meta_bytes)
    then (set (byte_at meta_bytes meta_pos) (byte_at meta_bytes (meta_pos + 1)), meta_pos + 2)
    else (meta, meta_pos)

-- `parseColumnMetadata`: the entry and the position behind its metadata.
unfoldable pub parse_column_metadata : Bytes → ℕ → ℕ → ColumnMeta → ColumnMeta × ℕ
unfolding meta_byte meta_pair
parse_column_metadata meta_bytes meta_pos t meta =
    let one = meta_byte meta_bytes meta_pos meta in
    let two = meta_pair meta_bytes meta_pos meta in
    if is_one_of t (MysqlType.decimal ∷ MysqlType.newdecimal ∷ [])
    then two (λ a b. record meta { precision = a; scale = b })
    else if t == MysqlType.tiny
    then (record meta { length = pos 4 }, meta_pos)
    else if t == MysqlType.short
    then (record meta { length = pos 6 }, meta_pos)
    else if t == MysqlType.long
    then (record meta { length = pos 11 }, meta_pos)
    else if is_one_of t (MysqlType.float ∷ MysqlType.double ∷ [])
    then one (λ a. record meta { length = pos a })
    else if is_one_of t (
        MysqlType.timestamp ∷ MysqlType.date ∷ MysqlType.time ∷ MysqlType.datetime
        ∷ MysqlType.newdate ∷ MysqlType.year ∷ [])
    then (meta, meta_pos)
    else if t == MysqlType.longlong
    then (record meta { length = pos 20 }, meta_pos)
    else if t == MysqlType.int24
    then (record meta { length = pos 8 }, meta_pos)
    else if is_one_of t (MysqlType.varchar ∷ MysqlType.var_string ∷ [])
    then two (λ a b. record meta { length = pos (a + b * 256) })
    else if t == MysqlType.bit
    then two (λ a b. record meta { bit_bits = a; bit_bytes = b; length = bit_length a b })
    else if is_one_of t (MysqlType.timestamp2 ∷ MysqlType.datetime2 ∷ MysqlType.time2 ∷ [])
    then one (λ a. record meta { fsp = a })
    else if is_one_of t (
        MysqlType.tiny_blob ∷ MysqlType.blob ∷ MysqlType.medium_blob ∷ MysqlType.long_blob
        ∷ MysqlType.json ∷ MysqlType.geometry ∷ [])
    then one (λ a. record meta { length = pos a })
    else if is_one_of t (MysqlType.enum ∷ MysqlType.set ∷ [])
    then two (λ a b. record meta { enum_set_size = b; length = pos a })
    else if t == MysqlType.string
    then two (λ a b.
      if b == MysqlType.enum || b == MysqlType.set
      then record meta { real_type = b; length = pos a; enum_set_size = a }
      else record meta { real_type = b; length = pos a })
    else if leb (meta_pos + 2) (length meta_bytes)
    then (meta, meta_pos + 2)
    else if ltb meta_pos (length meta_bytes)
    then (meta, meta_pos + 1)
    else (meta, meta_pos)

-- The loop over the columns.
unfoldable pub parse_columns : Bytes → ℕ → Bytes → List ColumnMeta
unfolding parse_column_metadata
parse_columns meta_bytes meta_pos [] = []
parse_columns meta_bytes meta_pos (t ∷ types) =
    let (meta, meta_pos') = parse_column_metadata meta_bytes meta_pos t (zero_meta t) in
    meta ∷ parse_columns meta_bytes meta_pos' types

-- The database and the table name: a length byte, the name, and a terminator that is skipped.
unfoldable pub counted_name : Bytes → ℕ → Result (Bytes × ℕ)
counted_name payload p =
    let len = byte_at payload p in
    if leb (length payload) p
    then err unexpected_eof
    else if ltb (length payload) (p + 1 + len + 1)
    then err unexpected_eof
    else ok (bytes_at payload (p + 1) len, p + 1 + len + 1)

-- A count, and then that many bytes: the column types, and the block of metadata. (Of the types a
-- copy is made, by a `make` that panics where the slice does.)
unfoldable pub counted_block : Bytes → ℕ → Result (ℕ × Bytes × ℕ)
unfolding length_encoded_int sized_string
counted_block payload p =
    or_eof (length_encoded_int payload p)
      (λ n q. sized_string payload n q >>= λ r. ok (n, r.0, r.1))

-- The part of `ParseTableMap` behind the two names.
unfoldable pub table_columns : Bytes → ℕ → Bytes → Bytes → ℕ → Result TableMap
unfolding counted_block parse_columns
table_columns payload id database table p = do
  types ← counted_block payload p
  metas ← counted_block payload types.2
  ok (record {
    table_id = id;
    database = database;
    table = table;
    column_count = types.0;
    column_types = types.1;
    column_meta = parse_columns metas.1 0 types.1;
  })

-- `ParseTableMap`.
unfoldable pub parse_table_map : Bytes → Result TableMap
unfolding counted_name table_columns
parse_table_map payload = if ltb (length payload) 8 then err unexpected_eof else do
  database ← counted_name payload 8
  table ← counted_name payload database.1
  table_columns payload (little_endian (bytes_at payload 0 6)) database.0 table.0 table.1

-- `TableMapRegistry`: the map from table ids.
pub record Registry : Type 0 where
  pub maps : ℕ → Option TableMap

abbrev pub new_registry : Registry
new_registry = record { maps = λ id. none }

unfoldable pub registry_set : Registry → TableMap → Registry
registry_set r tm = record { maps = λ id. if id == tm.table_id then some tm else r.maps id }

abbrev pub registry_get : Registry → ℕ → Option TableMap
registry_get r id = r.maps id

unfoldable registry_delete : Registry → ℕ → Registry
registry_delete r gone = record { maps = λ id. if id == gone then none else r.maps id }
