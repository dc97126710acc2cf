-- ===== src/TableMap/Parse.antt =====
-- internal/parser/table_map.go: what `ParseTableMap` makes of a well-formed payload, and of a
-- payload whose counts are out of range.
use database_flashback.Base.{
  ltb-false, ℕ, ◌+◌, ◌^◌, ◌<◌, ◌≡◌, sym, ◌∙◌, [], ◌∷◌, ◌++◌, arith, Bytes, length, append_assoc,
  length-append, ap, ok,
}
use mathlib.Core.Path.{ap₂}
use database_flashback.Wire.{got, little_endian, bytes_at, length_encoded_int, sized_string}
use database_flashback.Wire.Layout.{
  le_bytes, length-le_bytes, little_endian-le_bytes, bytes_at-middle, byte_at-middle,
}
use database_flashback.Wire.Packed.{
  encode_length, length_encoded_int-encode_length, sized_string_fits,
}
use database_flashback.TableMap.{
  TableMap, parse_columns, counted_name, counted_block, table_columns, parse_table_map,
}

-- The layout that MySQL documents: a name with its length and a terminator, a block with its size.
unfoldable pub name_part : Bytes → Bytes
name_part s = length s ∷ (s ++ (0 ∷ []))

unfoldable pub block_part : Bytes → Bytes
block_part b = encode_length (length b) ++ b

unfoldable pub encode_table_map : ℕ → ℕ → Bytes → Bytes → Bytes → Bytes → Bytes → Bytes
encode_table_map id flags database table types metas rest =
    (le_bytes 6 id ++ le_bytes 2 flags)
    ++ (name_part database ++ (name_part table ++ (block_part types ++ (block_part metas ++ rest))))

-- A reader behind one more part.
behind {ℓ} :
    {R : Type ℓ} (read : Bytes → ℕ → R) (before part after : Bytes) {r : R}
    → read ((before ++ part) ++ after) (length (before ++ part)) ≡ r
    → read (before ++ (part ++ after)) (length before + length part) ≡ r
behind read before part after h =
    ap (read (before ++ (part ++ after))) (sym (length-append before part))
    ∙ ap (λ b. read b (length (before ++ part))) (sym (append_assoc before part after))
    ∙ h

counted_name-name_part :
    (before s after : Bytes)
    → counted_name (before ++ (name_part s ++ after)) (length before)
      ≡ ok (s, length before + length (name_part s))
unfolding counted_name name_part
counted_name-name_part before s after =
    let name : bytes_at (before ++ (length s ∷ ((s ++ (0 ∷ [])) ++ after))) (length before + 1)
          (length s)
        ≡ s =
      simp append_assoc (
        simp (append_assoc, length-append) at
          (bytes_at-middle (before ++ (length s ∷ [])) s ((0 ∷ []) ++ after))) in
    ground (
      arith,
      name,
      byte_at-middle before (length s) ((s ++ (0 ∷ [])) ++ after),
      length-append before (length s ∷ ((s ++ (0 ∷ [])) ++ after)),
      length-append (s ++ (0 ∷ [])) after,
      length-append s (0 ∷ []),
    )

-- The bytes behind the count.
block_content :
    (before b after : Bytes)
    → bytes_at
        (before ++ (block_part b ++ after))
        (length before + length (encode_length (length b)))
        (length b)
      ≡ b
unfolding block_part
block_content before b after = simp append_assoc (
    simp (append_assoc, length-append) at
      (bytes_at-middle (before ++ encode_length (length b)) b after))

block_count :
    (before b after : Bytes)
    → length (before ++ (block_part b ++ after)) < 2 ^ 62
    → length_encoded_int (before ++ (block_part b ++ after)) (length before)
      ≡ got (length b) (length before + length (encode_length (length b)))
unfolding block_part
block_count before b after small = rw append_assoc (
    length_encoded_int-encode_length before (length b) (b ++ after) (
      omega (
        arith,
        small,
        length-append before ((encode_length (length b) ++ b) ++ after),
        length-append (encode_length (length b) ++ b) after,
        length-append (encode_length (length b)) b,
      )))

block_bytes :
    (before b after : Bytes)
    → length (before ++ (block_part b ++ after)) < 2 ^ 62
    → sized_string
        (before ++ (block_part b ++ after))
        (length b)
        (length before + length (encode_length (length b)))
      ≡ ok (b, length before + length (block_part b))
unfolding block_part
block_bytes before b after small =
    let parts = length-append before ((encode_length (length b) ++ b) ++ after) in
    let inner = length-append (encode_length (length b) ++ b) after in
    let size = length-append (encode_length (length b)) b in
    sized_string_fits _ (length b) (length before + length (encode_length (length b)))
      (omega (arith, parts, inner, size)) small
    ∙ ap₂ (λ x y. ok (x, y)) (block_content before b after) (omega (arith, size))

counted_block-block_part :
    (before b after : Bytes)
    → length (before ++ (block_part b ++ after)) < 2 ^ 62
    → counted_block (before ++ (block_part b ++ after)) (length before)
      ≡ ok (length b, b, length before + length (block_part b))
unfolding counted_block
counted_block-block_part before b after small =
    rw (block_count before b after small, counted_block) (rw (block_bytes before b after small))

table_columns-lem :
    (before : Bytes) (id : ℕ) (database table types metas rest : Bytes)
    → length (before ++ (block_part types ++ (block_part metas ++ rest))) < 2 ^ 62
    → table_columns
        (before ++ (block_part types ++ (block_part metas ++ rest)))
        id
        database
        table
        (length before)
      ≡ ok (record {
        table_id = id;
        database = database;
        table = table;
        column_count = length types;
        column_types = types;
        column_meta = parse_columns metas 0 types;
      })
unfolding table_columns
table_columns-lem before id database table types metas rest small =
    let again : length ((before ++ block_part types) ++ (block_part metas ++ rest)) < 2 ^ 62 =
      rw append_assoc small in
    rw (counted_block-block_part before types (block_part metas ++ rest) small) (
      rw (
        behind counted_block before (block_part types) (block_part metas ++ rest)
          (counted_block-block_part (before ++ block_part types) metas rest again)))

abbrev header : ℕ → ℕ → Bytes
header id flags = le_bytes 6 id ++ le_bytes 2 flags

length-header : (id flags : ℕ) → length (header id flags) ≡ 8
length-header id flags = omega (
  arith,
  length-append (le_bytes 6 id) (le_bytes 2 flags),
  length-le_bytes 6 id,
  length-le_bytes 2 flags,
)

header_id :
    (id flags : ℕ) (rest : Bytes)
    → id < 2 ^ 48
    → little_endian (bytes_at (header id flags ++ rest) 0 6) ≡ id
header_id id flags rest h =
    ap little_endian (
      simp append_assoc
        (simp length-le_bytes at (bytes_at-middle [] (le_bytes 6 id) (le_bytes 2 flags ++ rest))))
    ∙ little_endian-le_bytes 6 id (omega arith)

first_name :
    (id flags : ℕ) (s after : Bytes)
    → counted_name (header id flags ++ (name_part s ++ after)) 8 ≡ ok (s, 8 + length (name_part s))
first_name id flags s after =
    rw (length-header id flags) at (counted_name-name_part (header id flags) s after)

second_name :
    (id flags : ℕ) (s t after : Bytes)
    → counted_name
        (header id flags ++ (name_part s ++ (name_part t ++ after)))
        (8 + length (name_part s))
      ≡ ok (t, 8 + length (name_part s) + length (name_part t))
second_name id flags s t after =
    rw (length-append, length-header id flags) at
      (rw (length-header id flags) at (
        behind counted_name (header id flags) (name_part s) (name_part t ++ after)
          (counted_name-name_part (header id flags ++ name_part s) t after)))

abbrev expected : ℕ → Bytes → Bytes → Bytes → Bytes → TableMap
expected id database table types metas = record {
  table_id = id;
  database = database;
  table = table;
  column_count = length types;
  column_types = types;
  column_meta = parse_columns metas 0 types;
}

columns_behind :
    (id flags : ℕ) (s t types metas rest : Bytes)
    → length (
        header id flags
        ++ (name_part s ++ (name_part t ++ (block_part types ++ (block_part metas ++ rest)))))
      < 2 ^ 62
    → table_columns
        (header id flags
          ++ (name_part s ++ (name_part t ++ (block_part types ++ (block_part metas ++ rest)))))
        id
        s
        t
        (8 + length (name_part s) + length (name_part t))
      ≡ ok (expected id s t types metas)
columns_behind id flags s t types metas rest small =
    let tail = block_part types ++ (block_part metas ++ rest) in
    let front = (header id flags ++ name_part s) ++ name_part t in
    let whole =
      table_columns-lem front id s t types metas rest (rw (append_assoc, append_assoc) small) in
    let read = λ (b : Bytes) (p : ℕ). table_columns b id s t p in
    rw (length-append, length-header id flags) at
      (rw append_assoc at (behind read (header id flags ++ name_part s) (name_part t) tail whole))

-- `ParseTableMap` reads back every field of a TABLE_MAP payload laid out as documented: the id, the
-- names, the types, and the metadata of each type; whatever follows (the NULL bitmap) is ignored.
pub parse_table_map-encode_table_map :
    (id flags : ℕ) (database table types metas rest : Bytes)
    → id < 2 ^ 48
    → length (encode_table_map id flags database table types metas rest) < 2 ^ 62
    → parse_table_map (encode_table_map id flags database table types metas rest)
      ≡ ok (record {
        table_id = id;
        database = database;
        table = table;
        column_count = length types;
        column_types = types;
        column_meta = parse_columns metas 0 types;
      })
unfolding parse_table_map encode_table_map
parse_table_map-encode_table_map id flags database table types metas rest h small =
    let tail = block_part types ++ (block_part metas ++ rest) in
    let names = name_part database ++ (name_part table ++ tail) in
    rw
      (ltb-false (length (header id flags ++ names)) 8
        (omega (arith, length-append (header id flags) names, length-header id flags)))
      (rw (header_id id flags names h) (
        rw (first_name id flags database (name_part table ++ tail)) (
          rw (second_name id flags database table tail)
            (columns_behind id flags database table types metas rest small))))
