-- ===== src/Rows/Cell.antt =====
-- internal/parser/rows_event.go: the readers of one column value: integers, floats, strings, blobs,
-- bits, enums and sets.
use database_flashback.Base.{
  ℕ, ◌+◌, ◌%◌, ◌^◌, ◌&&◌, Bytes, length, take, ltb, leb, ◌==◌, if◌then◌else◌,
}
use database_flashback.Base.Int.{ℤ, pos, signed}
use database_flashback.Value.{Value, null, int, str, blob}
use database_flashback.Wire.{Read, got, eof, little_endian, bytes_at, byte_at, read_int, half_word}
use database_flashback.TableMap.{ColumnMeta}
use database_flashback.TableMap.MysqlType

-- A reader's `(val, pos, err)`: a value and the position behind it, or an error and the position
-- that is returned beside it. `panics` is an index out of range.
pub data Cell : Type 0 where
  value : Value → ℕ → Cell
  failed : ℕ → Cell
  panics : Cell

abbrev cell {ℓ} : {A : Type ℓ} → (A → Value) → Read A → Cell
cell make (got a p) = value (make a) p
cell make (eof p) = failed p

-- `safeRead` at 1 byte and `safeReadValue`.
unfoldable pub safe_read_value : Bytes → ℕ → ℕ → Cell
unfolding read_int
safe_read_value buf p n = cell int (read_int buf p n)

-- The cases under `if pos+n <= len(data)`, which leave a nil value and the position as it was.
unfoldable pub read_if_whole : Bytes → ℕ → ℕ → (Bytes → Value) → Cell
read_if_whole buf p n make =
    if leb (p + n) (length buf) then value (make (bytes_at buf p n)) (p + n) else value null p

unfoldable pub read_year : Bytes → ℕ → Cell
read_year buf p =
    if ltb (length buf) (p + 1) then failed p else value (int (pos (1900 + byte_at buf p))) (p + 1)

-- The `len` bytes at `p` as a value, once a length has been read.
unfoldable pub sized_cell : (Bytes → Value) → Bytes → ℕ → ℕ → Cell
sized_cell make buf p len =
    if ltb (length buf) (p + len) then failed p else value (make (bytes_at buf p len)) (p + len)

unfoldable pub parse_varchar : Bytes → ℕ → Cell
unfolding sized_cell
parse_varchar buf p =
    if ltb (length buf) (p + 2)
    then failed p
    else sized_cell str buf (p + 2) (little_endian (bytes_at buf p 2))

unfoldable pub parse_blob : Bytes → ℕ → ℕ → Cell
unfolding sized_cell
parse_blob buf p len_bytes =
    if ltb (length buf) (p + len_bytes)
    then failed p
    else sized_cell blob buf (p + len_bytes) (little_endian (bytes_at buf p len_bytes))

abbrev pub at_least_one : ℕ → ℕ
at_least_one n = if n == 0 then 1 else n

-- Only the 8 lowest bytes of an int64 take part: a shift by 64 or more gives 0.
abbrev pub int64_of : Bytes → ℤ
int64_of bytes = signed half_word (little_endian (take 8 bytes))

unfoldable pub parse_enum : Bytes → ℕ → ColumnMeta → Cell
unfolding sized_cell
parse_enum buf p meta = sized_cell (λ b. int (int64_of b)) buf p (at_least_one meta.enum_set_size)

unfoldable pub parse_set : Bytes → ℕ → ColumnMeta → Cell
unfolding sized_cell
parse_set buf p meta = sized_cell blob buf p (at_least_one meta.enum_set_size)

unfoldable pub parse_string : Bytes → ℕ → ColumnMeta → Cell
unfolding parse_enum parse_set sized_cell
parse_string buf p meta =
    if meta.real_type == MysqlType.enum
    then parse_enum buf p meta
    else if meta.real_type == MysqlType.set
    then parse_set buf p meta
    else if leb (length buf) p
    then failed p
    else sized_cell str buf (p + 1) (byte_at buf p)

-- The mask of `parseBit`: for a bit count from 1 to 7, that many low bits of the whole value.
unfoldable pub bit_value : ℕ → Bytes → ℤ
bit_value bits bytes =
    let v = little_endian bytes in
    signed half_word (if ltb 0 bits && ltb bits 8 then v % 2 ^ bits else v)

unfoldable pub parse_bit : Bytes → ℕ → ColumnMeta → Cell
unfolding sized_cell bit_value
parse_bit buf p meta =
    let count = at_least_one meta.bit_bytes in
    sized_cell (λ b. if leb count 8 then int (bit_value meta.bit_bits b) else blob b) buf p count
