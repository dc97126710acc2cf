-- ===== src/Rows/Event.antt =====
-- internal/parser/rows_event.go: the header of a rows event, one row image, and the rows of an event.
use database_flashback.Base.{
  ℕ, zero, suc, ◌+◌, ◌*◌, Bool, Option, none, some, List, [], ◌∷◌, ◌++◌, Bytes, length, drop, ltb,
  leb, if◌then◌else◌, ◌>>=◌, Result, ok, err, panic, stuck, unexpected_eof, invalid_length,
}
use database_flashback.Value.{null, Image, image_set}
use database_flashback.Wire.{
  or_eof, little_endian, bytes_at, byte_at, length_encoded_int, add_int, gt_int, half_word, slice,
  sized_string, bitmap_byte_size, is_bit_set,
}
use database_flashback.TableMap.{ColumnMeta, zero_meta, TableMap, Registry, registry_get}
use database_flashback.Rows.Column.{col_name, read_column_value}

pub record RowData : Type 0 where
  pub before : Option Image
  pub after : Option Image

pub record RowEventData : Type 0 where
  pub table_id : ℕ
  pub flags : ℕ
  pub column_count : ℕ
  pub rows : List RowData

-- The position behind the header, the table's id and the flags.
pub record PostHeader : Type 0 where
  pub body : ℕ
  pub table_id : ℕ
  pub flags : ℕ

-- `parseRowPostHeader`.
unfoldable pub parse_row_post_header : Bytes → Bool → Result PostHeader
parse_row_post_header payload v2 =
    let id = little_endian (bytes_at payload 0 6) in
    let flags = little_endian (bytes_at payload 6 2) in
    let extra = little_endian (bytes_at payload 8 2) in
    if ltb (length payload) 6
    then err unexpected_eof
    else if ltb (length payload) 8
    then err unexpected_eof
    else if v2
    then (if ltb (length payload) 10
        then err unexpected_eof
        else if ltb extra 2
        then err invalid_length
        else if ltb (length payload) (8 + extra)
        then err unexpected_eof
        else ok (record { body = 8 + extra; table_id = id; flags = flags }))
    else ok (record { body = 8; table_id = id; flags = flags })

-- `tm.ColumnTypes[i]` and `tm.ColumnMeta[i]`, or their zero values.
abbrev pub first_meta : ℕ → List ColumnMeta → Result (ℕ × ColumnMeta)
first_meta t [] = panic
first_meta t (meta ∷ metas) = ok (t, meta)

unfoldable pub column_at : Option TableMap → ℕ → Result (ℕ × ColumnMeta)
column_at none i = ok (0, zero_meta 0)
column_at (some tm) i =
    if ltb i (length tm.column_types)
    then first_meta (byte_at tm.column_types i) (drop i tm.column_meta)
    else ok (0, zero_meta 0)

-- The round of the loop over the columns for column `i`.
unfoldable pub read_column :
    Bytes → Option TableMap → Bytes → Bytes → ℕ → Image × ℕ → Result (Image × ℕ)
unfolding column_at read_column_value is_bit_set col_name
read_column payload tm present nulls i (values, p) =
    if is_bit_set present i
    then (if is_bit_set nulls i
        then ok (image_set (col_name i) null values, p)
        else (column_at tm i >>= λ c. read_column_value payload p c.0 c.1 values i))
    else ok (values, p)

-- The loop over the columns, with the rounds that are left.
unfoldable pub columns_loop :
    Bytes → Option TableMap → Bytes → Bytes → ℕ → ℕ → Image × ℕ → Result (Image × ℕ)
unfolding read_column
columns_loop payload tm present nulls zero i state = ok state
columns_loop payload tm present nulls (suc left) i state =
    read_column payload tm present nulls i state
    >>= columns_loop payload tm present nulls left (i + 1)

-- `int(colCount)` as a number of rounds: none, if it is negative.
abbrev pub rounds : ℕ → ℕ
rounds count = if ltb count half_word then count else 0

-- `parseRowAfter`: one row image, and the position behind it.
unfoldable pub parse_row_after : Bytes → Option TableMap → ℕ → ℕ → Bytes → Result (Image × ℕ)
unfolding sized_string bitmap_byte_size columns_loop
parse_row_after payload tm p count present = do
  nulls ← sized_string payload (bitmap_byte_size count) p
  columns_loop payload tm present nulls.0 (rounds count) 0 ([], nulls.1)

-- The body of the loop over the rows of a WRITE_ROWS and of a DELETE_ROWS event: the image becomes
-- the row's `After` in both.
unfoldable pub one_image : Bytes → Option TableMap → ℕ → Bytes → ℕ → Result (RowData × ℕ)
unfolding parse_row_after
one_image payload tm count present p = parse_row_after payload tm p count present >>= λ r.
    ok (record { before = none; after = some r.0 }, r.1)

-- The body of the loop of an UPDATE_ROWS event.
unfoldable pub two_images : Bytes → Option TableMap → ℕ → Bytes → Bytes → ℕ → Result (RowData × ℕ)
unfolding parse_row_after
two_images payload tm count before_present after_present p = do
  before ← parse_row_after payload tm p count before_present
  after ← parse_row_after payload tm before.1 count after_present
  ok (record { before = some before.0; after = some after.0 }, after.1)

-- `for pos < len(payload)`, on fuel, with the rows so far.
unfoldable pub rows_loop :
    (ℕ → Result (RowData × ℕ)) → ℕ → ℕ → ℕ → List RowData → Result (List RowData)
rows_loop row size zero p rows = stuck
rows_loop row size (suc fuel) p rows =
    let next = row p >>= λ r. rows_loop row size fuel r.1 (rows ++ (r.0 ∷ [])) in
    if leb size p then ok rows else next

-- `p.registry.Get(p.currentTableID)`.
unfoldable pub lookup_table_map : Option Registry → ℕ → Option TableMap
lookup_table_map none id = none
lookup_table_map (some r) id = registry_get r id

abbrev event_data : PostHeader → ℕ → List RowData → RowEventData
event_data h count rows = record {
  table_id = h.table_id;
  flags = h.flags;
  column_count = count;
  rows = rows;
}

-- What `ParseWriteRowsEvent` and `ParseDeleteRowsEvent` do behind the column count.
unfoldable pub one_image_body :
    ℕ → Option Registry → Bytes → PostHeader → ℕ → ℕ → Result RowEventData
unfolding sized_string one_image rows_loop lookup_table_map bitmap_byte_size
one_image_body fuel registry payload h count p = do
  present ← sized_string payload (bitmap_byte_size count) p
  rows ←
      rows_loop (one_image payload (lookup_table_map registry h.table_id) count present.0)
        (length payload) fuel present.1 []
  ok (event_data h count rows)

unfoldable pub two_images_body :
    ℕ → Option Registry → Bytes → PostHeader → ℕ → ℕ → Result RowEventData
unfolding slice two_images rows_loop lookup_table_map bitmap_byte_size
two_images_body fuel registry payload h count p =
    let size = bitmap_byte_size count in
    let middle = add_int p size in
    let body = add_int middle size in
    if gt_int (add_int p (size * 2)) (length payload) then err unexpected_eof else do
      before_present ← slice payload p middle
      after_present ← slice payload middle body
      rows ←
          rows_loop
            (two_images payload (lookup_table_map registry h.table_id) count before_present
              after_present)
            (length payload) fuel body []
      ok (event_data h count rows)

-- `ParseWriteRowsEvent` and `ParseDeleteRowsEvent`, which differ only in their messages.
unfoldable pub parse_write_rows_event : ℕ → Option Registry → Bytes → Bool → Result RowEventData
unfolding parse_row_post_header length_encoded_int one_image_body
parse_write_rows_event fuel registry payload v2 = parse_row_post_header payload v2 >>= λ h.
    or_eof (length_encoded_int payload h.body) (one_image_body fuel registry payload h)

unfoldable pub parse_delete_rows_event : ℕ → Option Registry → Bytes → Bool → Result RowEventData
unfolding parse_row_post_header length_encoded_int one_image_body
parse_delete_rows_event fuel registry payload v2 = parse_row_post_header payload v2 >>= λ h.
    or_eof (length_encoded_int payload h.body) (one_image_body fuel registry payload h)

unfoldable pub parse_update_rows_event : ℕ → Option Registry → Bytes → Bool → Result RowEventData
unfolding parse_row_post_header length_encoded_int two_images_body
parse_update_rows_event fuel registry payload v2 = parse_row_post_header payload v2 >>= λ h.
    or_eof (length_encoded_int payload h.body) (two_images_body fuel registry payload h)
