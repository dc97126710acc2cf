-- ===== src/Rows/Progress.antt =====
-- internal/parser/rows_event.go: the column readers and the loop over the columns never move back, and
-- never leave the payload.
use database_flashback.Base.{
  ℕ, ◌+◌, ◌≤◌, Bool, true, false, Bytes, length, ltb, leb, if◌then◌else◌, arith, Bool-cases, inl,
  inr,
}
use database_flashback.Value.{Value, str, blob, int}
use database_flashback.Wire.{little_endian, bytes_at, read_bytes, read_int}
use database_flashback.TableMap.{ColumnMeta}
use database_flashback.Rows.Cell.{
  Cell, value, failed, panics, safe_read_value, read_if_whole, read_year, sized_cell, parse_varchar,
  parse_blob, parse_enum, parse_set, parse_string, parse_bit, at_least_one, int64_of, bit_value,
}
use database_flashback.Rows.Temporal.{number_cell}

abbrev pub Span : Bytes → ℕ → ℕ → Type 0
Span buf p q = (p ≤ q) × (q ≤ length buf)

-- The position that a reader returns, whatever the outcome, is in the payload and not before `p`.
pub data Moves (buf : Bytes) (p : ℕ) : Cell → Type 0 where
  read_to : {v : Value} {q : ℕ} → Span buf p q → Moves buf p (value v q)
  stopped_at : {q : ℕ} → Span buf p q → Moves buf p (failed q)
  broken : Moves buf p panics

module _ (buf : Bytes) where
  pub Moves-if :
      (p : ℕ) (b : Bool) (c d : Cell)
      → Moves buf p c
      → Moves buf p d
      → Moves buf p (if b then c else d)
  Moves-if p true c d h k = h
  Moves-if p false c d h k = k

  pub Moves-later : (p q : ℕ) (c : Cell) → p ≤ q → Moves buf q c → Moves buf p c
  Moves-later p q c h (read_to (k, l)) = read_to (omega arith, l)
  Moves-later p q c h (stopped_at (k, l)) = stopped_at (omega arith, l)
  Moves-later p q c h broken = broken

  -- A reader that first takes `n` bytes.
  pub Moves-behind :
      (p n : ℕ) (c : Cell)
      → p ≤ length buf
      → (p + n ≤ length buf → Moves buf (p + n) c)
      → Moves buf p (if ltb (length buf) (p + n) then failed p else c)
  Moves-behind p n c h k = elim (Bool-cases (ltb (length buf) (p + n))) [
    | inl short ↦ rw short (stopped_at (omega arith, h))
    | inr enough ↦ rw enough (Moves-later p (p + n) c (omega arith) (k (ground (arith, enough))))
  ]

  sized_cell-Moves :
      (make : Bytes → Value) (p len : ℕ) → p ≤ length buf → Moves buf p (sized_cell make buf p len)
  unfolding sized_cell
  sized_cell-Moves make p len h = Moves-behind p len _ h (λ le. read_to (omega arith, le))

  pub number_cell-Moves :
      (p n : ℕ) (print : ℕ → Bytes) → p ≤ length buf → Moves buf p (number_cell buf p n print)
  unfolding number_cell
  number_cell-Moves p n print h = Moves-behind p n _ h (λ le. read_to (omega arith, le))

  pub safe_read_value-Moves : (p n : ℕ) → p ≤ length buf → Moves buf p (safe_read_value buf p n)
  unfolding safe_read_value read_int read_bytes
  safe_read_value-Moves p n h = elim (Bool-cases (ltb (length buf) (p + n))) [
    | inl short ↦ rw short (stopped_at (omega arith, h))
    | inr enough ↦ rw enough (read_to (omega arith, ground (arith, enough)))
  ]

  pub read_if_whole-Moves :
      (p n : ℕ) (make : Bytes → Value) → p ≤ length buf → Moves buf p (read_if_whole buf p n make)
  unfolding read_if_whole
  read_if_whole-Moves p n make h = elim (Bool-cases (leb (p + n) (length buf))) [
    | inl enough ↦ rw enough (read_to (omega arith, ground (arith, enough)))
    | inr short ↦ rw short (read_to (omega arith, h))
  ]

  pub read_year-Moves : (p : ℕ) → p ≤ length buf → Moves buf p (read_year buf p)
  unfolding read_year
  read_year-Moves p h = Moves-behind p 1 _ h (λ le. read_to (omega arith, le))

  pub parse_varchar-Moves : (p : ℕ) → p ≤ length buf → Moves buf p (parse_varchar buf p)
  unfolding parse_varchar
  parse_varchar-Moves p h =
      Moves-behind p 2 _ h
        (λ le. sized_cell-Moves str (p + 2) (little_endian (bytes_at buf p 2)) le)

  pub parse_blob-Moves : (p n : ℕ) → p ≤ length buf → Moves buf p (parse_blob buf p n)
  unfolding parse_blob
  parse_blob-Moves p n h =
      Moves-behind p n _ h
        (λ le. sized_cell-Moves blob (p + n) (little_endian (bytes_at buf p n)) le)

  pub parse_enum-Moves :
      (p : ℕ) (meta : ColumnMeta) → p ≤ length buf → Moves buf p (parse_enum buf p meta)
  unfolding parse_enum
  parse_enum-Moves p meta h =
      sized_cell-Moves (λ b. int (int64_of b)) p (at_least_one meta.enum_set_size) h

  pub parse_set-Moves :
      (p : ℕ) (meta : ColumnMeta) → p ≤ length buf → Moves buf p (parse_set buf p meta)
  unfolding parse_set
  parse_set-Moves p meta h = sized_cell-Moves blob p (at_least_one meta.enum_set_size) h

  pub parse_bit-Moves :
      (p : ℕ) (meta : ColumnMeta) → p ≤ length buf → Moves buf p (parse_bit buf p meta)
  unfolding parse_bit
  parse_bit-Moves p meta h =
      let count = at_least_one meta.bit_bytes in
      sized_cell-Moves (λ b. if leb count 8 then int (bit_value meta.bit_bits b) else blob b) p
        count h

  short_string-Moves :
      (p len : ℕ)
      → p ≤ length buf
      → Moves buf p (if leb (length buf) p then failed p else sized_cell str buf (p + 1) len)
  short_string-Moves p len h = elim (Bool-cases (leb (length buf) p)) [
    | inl gone ↦ rw gone (stopped_at (omega arith, h))
    | inr there ↦ rw there (
        Moves-later p (p + 1) _ (omega arith)
          (sized_cell-Moves str (p + 1) len (ground (arith, there))))
  ]

  pub parse_string-Moves :
      (p : ℕ) (meta : ColumnMeta) → p ≤ length buf → Moves buf p (parse_string buf p meta)
  unfolding parse_string
  parse_string-Moves p meta h =
      Moves-if p _ _ _ (parse_enum-Moves p meta h)
        (Moves-if p _ _ _ (parse_set-Moves p meta h) (short_string-Moves p _ h))
