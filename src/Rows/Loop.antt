-- ===== src/Rows/Loop.antt =====
-- internal/parser/rows_event.go: the loop over the rows of an event ends if the columns-present bitmap
-- has a byte, and runs for ever if it has none and bytes are left.
use database_flashback.Base.{
  ◌≢◌, ℕ, zero, suc, ◌+◌, ◌*◌, ◌≤◌, ◌<◌, Option, none, some, List, [], ◌∷◌, ◌++◌, Bytes, length,
  drop, ltb, leb, arith, Bool-cases, inl, inr, Result, Ends, Ends-bind, Ends-weaken,
}
use database_flashback.Value.{Image}
use database_flashback.Wire.{
  byte_at, add_int, gt_int, half_word, word, slice, sized_string, bitmap_byte_size, is_bit_set,
}
use database_flashback.TableMap.{ColumnMeta, TableMap, Registry}
use database_flashback.Rows.Cell.{Cell}
use database_flashback.Rows.Column.{store_cell, read_column_value}
use database_flashback.Rows.Event.{
  RowData, PostHeader, column_at, first_meta, read_column, columns_loop, rounds, parse_row_after,
  one_image, two_images, rows_loop, lookup_table_map, one_image_body, two_images_body,
}
use database_flashback.Rows.Progress.{Span, Moves, read_to, stopped_at, broken}
use database_flashback.Rows.Advance.{read_cell-Moves}

store_cell-Ends :
    (buf : Bytes) (p : ℕ) (values : Image) (i : ℕ) (c : Cell)
    → Moves buf p c
    → Ends (λ r. Span buf p r.1) (store_cell values i c)
unfolding store_cell
store_cell-Ends buf p values i c (read_to s) = s
store_cell-Ends buf p values i c (stopped_at s) = s
store_cell-Ends buf p values i c broken = tt

first_meta-Ends : (t : ℕ) (metas : List ColumnMeta) → Ends (λ c. Unit {0}) (first_meta t metas)
first_meta-Ends t [] = tt
first_meta-Ends t (meta ∷ metas) = tt

column_at-Ends : (tm : Option TableMap) (i : ℕ) → Ends (λ c. Unit {0}) (column_at tm i)
unfolding column_at
column_at-Ends none i = tt
column_at-Ends (some tm) i = elim (Bool-cases (ltb i (length tm.column_types))) [
  | inl known ↦ rw known (first_meta-Ends (byte_at tm.column_types i) (drop i tm.column_meta))
  | inr beyond ↦ rw beyond tt
]

module _ (payload : Bytes) (tm : Option TableMap) (present nulls : Bytes) where
  read_column-Ends :
      (i : ℕ) (state : Image × ℕ)
      → state.1 ≤ length payload
      → Ends (λ r. Span payload state.1 r.1) (read_column payload tm present nulls i state)
  unfolding read_column read_column_value
  read_column-Ends i (values, p) h = elim (Bool-cases (is_bit_set present i)) [
    | inr left_out ↦ rw left_out (omega arith, h)
    | inl there ↦ elim (Bool-cases (is_bit_set nulls i)) [
      | inl is_null ↦ rw (there, is_null) (omega arith, h)
      | inr not_null ↦
          rw (there, not_null)
            (Ends-bind (λ c. Unit {0}) (λ r. Span payload p r.1) (column_at tm i) _
              (column_at-Ends tm i)
              (λ c u. store_cell-Ends payload p values i _ (read_cell-Moves payload p c.0 c.1 h)))
    ]
  ]

  columns_loop-Ends :
      (left i : ℕ) (state : Image × ℕ)
      → state.1 ≤ length payload
      → Ends (λ r. Span payload state.1 r.1) (columns_loop payload tm present nulls left i state)
  unfolding columns_loop
  columns_loop-Ends zero i state h = (omega arith, h)
  columns_loop-Ends (suc left) i state h =
      Ends-bind (λ r. Span payload state.1 r.1) (λ r. Span payload state.1 r.1)
        (read_column payload tm present nulls i state) _ (read_column-Ends i state h)
        (λ r s.
          Ends-weaken (λ q. Span payload r.1 q.1) (λ q. Span payload state.1 q.1) _
            (λ q t. (omega (arith, s.0, t.0), t.1)) (columns_loop-Ends left (i + 1) r s.1))

sized_string-Ends :
    (buf : Bytes) (len p : ℕ)
    → p ≤ length buf
    → length buf < half_word
    → len < word
    → len ≢ 0
    → Ends (λ r. (p < r.1) × (r.1 ≤ length buf)) (sized_string buf len p)
unfolding sized_string slice
sized_string-Ends buf len p h small fits some' = ground (arith, h, small, fits, some')

bitmap_byte_size-word : (n : ℕ) → bitmap_byte_size n < word
unfolding bitmap_byte_size
bitmap_byte_size-word n = ground arith

module _ (payload : Bytes) (tm : Option TableMap) (count : ℕ) (small : length payload < half_word)
    (bitmap : bitmap_byte_size count ≢ 0) where
  -- A row image takes at least the bytes of its null bitmap.
  parse_row_after-Ends :
      (p : ℕ) (present : Bytes)
      → p ≤ length payload
      → Ends (λ r. (p < r.1) × (r.1 ≤ length payload)) (parse_row_after payload tm p count present)
  unfolding parse_row_after
  parse_row_after-Ends p present h =
      Ends-bind (λ r. (p < r.1) × (r.1 ≤ length payload)) (λ r. (p < r.1) × (r.1 ≤ length payload))
        _ _
        (sized_string-Ends payload (bitmap_byte_size count) p h small (bitmap_byte_size-word count)
          bitmap)
        (λ nulls s.
          Ends-weaken (λ q. Span payload nulls.1 q.1) (λ r. (p < r.1) × (r.1 ≤ length payload)) _
            (λ q t. (omega (arith, s.0, t.0), t.1))
            (columns_loop-Ends payload tm present nulls.0 (rounds count) 0 ([], nulls.1) s.1))

  one_image-Ends :
      (present : Bytes) (p : ℕ)
      → p ≤ length payload
      → Ends (λ r. (p < r.1) × (r.1 ≤ length payload)) (one_image payload tm count present p)
  unfolding one_image
  one_image-Ends present p h =
      Ends-bind (λ r. (p < r.1) × (r.1 ≤ length payload)) (λ r. (p < r.1) × (r.1 ≤ length payload))
        _ _ (parse_row_after-Ends p present h) (λ r s. s)

  two_images-Ends :
      (before_present after_present : Bytes) (p : ℕ)
      → p ≤ length payload
      → Ends
          (λ r. (p < r.1) × (r.1 ≤ length payload))
          (two_images payload tm count before_present after_present p)
  unfolding two_images
  two_images-Ends before_present after_present p h =
      Ends-bind (λ r. (p < r.1) × (r.1 ≤ length payload)) (λ r. (p < r.1) × (r.1 ≤ length payload))
        _ _ (parse_row_after-Ends p before_present h)
        (λ before s.
          Ends-bind (λ r. (before.1 < r.1) × (r.1 ≤ length payload))
            (λ r. (p < r.1) × (r.1 ≤ length payload)) _ _
            (parse_row_after-Ends before.1 after_present s.1)
            (λ after t. (omega (arith, s.0, t.0), t.1)))

-- A loop whose body moves forward inside the payload ends.
rows_loop-Ends :
    (row : ℕ → Result (RowData × ℕ)) (size fuel p : ℕ) (rows : List RowData)
    → ((q : ℕ) → q ≤ size → Ends (λ r. (q < r.1) × (r.1 ≤ size)) (row q))
    → p ≤ size
    → size < fuel + p
    → Ends (λ out. Unit {0}) (rows_loop row size fuel p rows)
unfolding rows_loop
rows_loop-Ends row size zero p rows step h enough = absurd (omega arith)
rows_loop-Ends row size (suc fuel) p rows step h enough = elim (Bool-cases (leb size p)) [
  | inl at_end ↦ rw at_end tt
  | inr more ↦ rw more (
      Ends-bind (λ r. (p < r.1) × (r.1 ≤ size)) (λ out. Unit {0}) (row p) _ (step p h)
        (λ r s.
          rows_loop-Ends row size fuel r.1 (rows ++ (r.0 ∷ [])) step s.1
            (omega (arith, s.0, enough))))
]

pub one_image_body-Ends :
    (fuel : ℕ) (registry : Option Registry) (payload : Bytes) (h : PostHeader) (count p : ℕ)
    → length payload < half_word
    → bitmap_byte_size count ≢ 0
    → p ≤ length payload
    → length payload < fuel
    → Ends (λ out. Unit {0}) (one_image_body fuel registry payload h count p)
unfolding one_image_body
one_image_body-Ends fuel registry payload h count p small bitmap inside enough =
    Ends-bind (λ r. (p < r.1) × (r.1 ≤ length payload)) (λ out. Unit {0}) _ _
      (sized_string-Ends payload (bitmap_byte_size count) p inside small
        (bitmap_byte_size-word count) bitmap)
      (λ present s.
        let tm = lookup_table_map registry h.table_id in
        Ends-bind (λ rows. Unit {0}) (λ out. Unit {0}) _ _
          (rows_loop-Ends (one_image payload tm count present.0) (length payload) fuel present.1 []
            (one_image-Ends payload tm count small bitmap present.0) s.1 (omega (arith, enough)))
          (λ rows u. tt))

slice-Ends : (buf : Bytes) (lo hi : ℕ) → Ends (λ s. (lo ≤ hi) × (hi ≤ length buf)) (slice buf lo hi)
unfolding slice
slice-Ends buf lo hi = ground arith

pub two_images_body-Ends :
    (fuel : ℕ) (registry : Option Registry) (payload : Bytes) (h : PostHeader) (count p : ℕ)
    → length payload < half_word
    → bitmap_byte_size count ≢ 0
    → length payload < fuel
    → Ends (λ out. Unit {0}) (two_images_body fuel registry payload h count p)
unfolding two_images_body
two_images_body-Ends fuel registry payload h count p small bitmap enough =
    let size = bitmap_byte_size count in
    let middle = add_int p size in
    let body = add_int middle size in
    let tm = lookup_table_map registry h.table_id in
    elim (Bool-cases (gt_int (add_int p (size * 2)) (length payload))) [
      | inl short ↦ rw short tt
      | inr long ↦ rw long (
          Ends-bind (λ s. (p ≤ middle) × (middle ≤ length payload)) (λ out. Unit {0}) _ _
            (slice-Ends payload p middle)
            (λ before_present s.
              Ends-bind (λ s. (middle ≤ body) × (body ≤ length payload)) (λ out. Unit {0}) _ _
                (slice-Ends payload middle body)
                (λ after_present t.
                  Ends-bind (λ rows. Unit {0}) (λ out. Unit {0}) _ _
                    (rows_loop-Ends (two_images payload tm count before_present after_present)
                      (length payload) fuel body []
                      (two_images-Ends payload tm count small bitmap before_present after_present)
                      t.1 (omega (arith, enough)))
                    (λ rows u. tt))))
    ]
