-- ===== src/TableMap/Shape.antt =====
-- internal/parser/table_map.go: the shape of any table map that `ParseTableMap` returns, and the
-- counts on which it panics.
use database_flashback.Base.{
  subst, ℕ, suc, ◌+◌, ◌^◌, ◌≤◌, ◌<◌, ◌≡◌, refl, ap, inl, inr, Bytes, IsByte, All, length,
  Bool-cases, leb, ltb, leb→le, ltb-false, OkThen, OkThen-bind, ◌>>=◌, Result, ok, err, panic,
  stuck, arith, [], ◌∷◌,
}
use database_flashback.Wire.{Read, got, eof, or_eof, length_encoded_int, sized_string, half_word}
use database_flashback.Wire.Layout.{length-bytes_at}
use database_flashback.Wire.Packed.{length_encoded_int-bounds, sized_string_lem}
use database_flashback.TableMap.{
  TableMap, parse_columns, parse_column_metadata, zero_meta, counted_name, counted_block,
  table_columns, parse_table_map,
}

length-parse_columns :
    (metas : Bytes) (p : ℕ) (types : Bytes) → length (parse_columns metas p types) ≡ length types
unfolding parse_columns
length-parse_columns metas p [] = refl
length-parse_columns metas p (t ∷ types) =
    ap suc (length-parse_columns metas (parse_column_metadata metas p t (zero_meta t)).1 types)

-- What a block promises: as many bytes as its count says.
abbrev IsBlock : ℕ × Bytes × ℕ → Type 0
IsBlock r = length r.1 ≡ r.0

sized_string-IsBlock :
    (buf : Bytes) (n p : ℕ)
    → n < 2 ^ 64
    → p ≤ length buf
    → length buf < 2 ^ 62
    → OkThen (λ r. IsBlock (n, r.0, r.1)) (sized_string buf n p)
sized_string-IsBlock buf n p wide inside small =
    rw (sized_string_lem buf n p inside wide small) (elim (Bool-cases (leb (p + n) (length buf))) [
      | inl fits ↦ rw fits (length-bytes_at buf p n (leb→le (p + n) (length buf) fits))
      | inr over ↦ rw over (elim (Bool-cases (ltb (p + n) half_word)) [
        | inl short ↦ rw short tt
        | inr wraps ↦ rw wraps tt
      ])
    ])

counted_block-IsBlock :
    (buf : Bytes) (p : ℕ)
    → All IsByte buf
    → length buf < 2 ^ 62
    → OkThen IsBlock (counted_block buf p)
unfolding counted_block
counted_block-IsBlock buf p bytes small = go (length_encoded_int buf p) refl
  where
    go :
        (r : Read ℕ)
        → length_encoded_int buf p ≡ r
        → OkThen IsBlock (or_eof r (λ n q. sized_string buf n q >>= λ s. ok (n, s.0, s.1)))
    go (eof q) e = tt
    go (got n q) e =
        let (_, inside, wide) = length_encoded_int-bounds buf p n q bytes e in
        OkThen-bind (λ s. IsBlock (n, s.0, s.1)) IsBlock (sized_string buf n q)
          (λ s. ok (n, s.0, s.1)) (sized_string-IsBlock buf n q wide inside small) (λ s h. h)

-- There is a type and a metadata entry for each column that is counted.
pub record IsConsistent (tm : TableMap) : Type 0 where
  pub typed : length tm.column_types ≡ tm.column_count
  pub described : length tm.column_meta ≡ tm.column_count

table_columns-IsConsistent :
    (buf : Bytes) (id : ℕ) (s t : Bytes) (p : ℕ)
    → All IsByte buf
    → length buf < 2 ^ 62
    → OkThen IsConsistent (table_columns buf id s t p)
unfolding table_columns
table_columns-IsConsistent buf id s t p bytes small =
    OkThen-bind IsBlock IsConsistent (counted_block buf p) _
      (counted_block-IsBlock buf p bytes small)
      λ types h.
        OkThen-bind IsBlock IsConsistent (counted_block buf types.2) _
          (counted_block-IsBlock buf types.2 bytes small)
          λ metas _. record {
            typed = h;
            described = omega (arith, h, length-parse_columns metas.1 0 types.1);
          }

anything : {A : Type 0} (m : Result A) → OkThen (λ _. Unit {0}) m
anything (ok a) = tt
anything (err e) = tt
anything panic = tt
anything stuck = tt

parse_table_map_shape :
    (buf : Bytes) → All IsByte buf → length buf < 2 ^ 62 → OkThen IsConsistent (parse_table_map buf)
unfolding parse_table_map
parse_table_map_shape buf bytes small = elim (Bool-cases (ltb (length buf) 8)) [
  | inl short ↦ rw short tt
  | inr long ↦ rw long (
      OkThen-bind (λ _. Unit {0}) IsConsistent (counted_name buf 8) _
        (anything (counted_name buf 8))
        λ database _.
          OkThen-bind (λ _. Unit {0}) IsConsistent (counted_name buf database.1) _
            (anything (counted_name buf database.1))
            λ table _. table_columns-IsConsistent buf _ database.0 table.0 table.1 bytes small)
]

-- Whatever bytes it is given (fewer than 2 ^ 62), a table map that `ParseTableMap` returns has
-- exactly one type and one metadata entry for each column it counts, so that reading a row indexes
-- neither list out of range.
pub parse_table_map-IsConsistent :
    (buf : Bytes) (tm : TableMap)
    → All IsByte buf
    → length buf < 2 ^ 62
    → parse_table_map buf ≡ ok tm
    → IsConsistent tm
parse_table_map-IsConsistent buf tm bytes small e =
    subst (OkThen IsConsistent) e (parse_table_map_shape buf bytes small)

block_panics :
    (buf : Bytes) (p n q : ℕ)
    → All IsByte buf
    → length buf < 2 ^ 62
    → length_encoded_int buf p ≡ got n q
    → 2 ^ 63 ≤ n
    → counted_block buf p ≡ panic
unfolding counted_block
block_panics buf p n q bytes small e big =
    let (_, inside, wide) = length_encoded_int-bounds buf p n q bytes e in
    rw e (rw (sized_string_lem buf n q inside wide small) (ground arith))

-- A TABLE_MAP payload whose two names can be read and whose column count, as a length-encoded
-- integer, is 2 ^ 63 or more, makes `ParseTableMap` panic instead of returning an error.
parse_table_map_panics :
    (buf : Bytes) (database table : Bytes × ℕ) (n q : ℕ)
    → All IsByte buf
    → length buf < 2 ^ 62
    → 8 ≤ length buf
    → counted_name buf 8 ≡ ok database
    → counted_name buf database.1 ≡ ok table
    → length_encoded_int buf table.1 ≡ got n q
    → 2 ^ 63 ≤ n
    → parse_table_map buf ≡ panic
unfolding parse_table_map table_columns
parse_table_map_panics buf database table n q bytes small long d t e big =
    rw (ltb-false (length buf) 8 long)
      (rw d (rw t (rw (block_panics buf table.1 n q bytes small e big))))
