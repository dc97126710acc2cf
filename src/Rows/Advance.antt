-- ===== src/Rows/Advance.antt =====
-- internal/parser/rows_event.go: no column reader moves back or leaves the payload.
use database_flashback.Base.{
  ℕ, ◌+◌, ◌≤◌, ◌^◌, Bool, true, false, List, [], ◌∷◌, All, Bytes, length, ltb, leb, if◌then◌else◌,
  arith, Bool-cases, inl, inr,
}
use database_flashback.Base.Int.{signed}
use database_flashback.Value.{Value, int, float, float32, float64}
use database_flashback.Wire.{Read, got, little_endian, bytes_at, eof, read_bytes, read_uint_be}
use database_flashback.TableMap.{ColumnMeta, is_one_of}
use database_flashback.Rows.Cell.{Cell, value, panics}
use database_flashback.Rows.Temporal.{
  parse_date, parse_old_time, parse_old_timestamp, parse_old_datetime, fraction,
  read_fractional_part, timestamp2_cell, parse_timestamp2, fraction_cell, timestamp_text,
  datetime_text, date_text, time_text, datetime2_cell, parse_datetime2, time2_cell, parse_time2,
}
use database_flashback.Rows.Decimal.{parse_decimal}
use database_flashback.Rows.Column.{choose, column_cases, read_cell, skip_unknown}
use database_flashback.Rows.Progress.{
  Span, Moves, read_to, stopped_at, broken, Moves-if, Moves-later, Moves-behind, number_cell-Moves,
  safe_read_value-Moves, read_if_whole-Moves, read_year-Moves, parse_varchar-Moves,
  parse_blob-Moves, parse_enum-Moves, parse_set-Moves, parse_bit-Moves, parse_string-Moves,
}

-- The same for a single read.
data ReadMoves (buf : Bytes) (p : ℕ) : Read ℕ → Type 0 where
  got_to : {n q : ℕ} → Span buf p q → ReadMoves buf p (got n q)
  eof_at : {q : ℕ} → Span buf p q → ReadMoves buf p (eof q)

module _ (buf : Bytes) where
  ReadMoves-if :
      (p : ℕ) (b : Bool) (c d : Read ℕ)
      → ReadMoves buf p c
      → ReadMoves buf p d
      → ReadMoves buf p (if b then c else d)
  ReadMoves-if p true c d h k = h
  ReadMoves-if p false c d h k = k

  fraction-ReadMoves : (p n unit : ℕ) → p ≤ length buf → ReadMoves buf p (fraction buf p n unit)
  unfolding fraction
  fraction-ReadMoves p n unit h = elim (Bool-cases (ltb (length buf) (p + n))) [
    | inl short ↦ rw short (eof_at (omega arith, h))
    | inr enough ↦ rw enough (got_to (omega arith, ground (arith, enough)))
  ]

  read_uint_be-ReadMoves : (p n : ℕ) → p ≤ length buf → ReadMoves buf p (read_uint_be buf p n)
  unfolding read_uint_be read_bytes
  read_uint_be-ReadMoves p n h = elim (Bool-cases (ltb (length buf) (p + n))) [
    | inl short ↦ rw short (eof_at (omega arith, h))
    | inr enough ↦ rw enough (got_to (omega arith, ground (arith, enough)))
  ]

  read_fractional_part-ReadMoves :
      (p fsp : ℕ) → p ≤ length buf → ReadMoves buf p (read_fractional_part buf p fsp)
  unfolding read_fractional_part
  read_fractional_part-ReadMoves p fsp h =
      ReadMoves-if p (leb 5 fsp) _ _ (fraction-ReadMoves p 3 1000 h) (
        ReadMoves-if p (leb 3 fsp) _ _ (fraction-ReadMoves p 2 100000 h) (
          ReadMoves-if p (leb 1 fsp) _ (got 0 p) (fraction-ReadMoves p 1 10000000 h)
            (got_to (omega arith, h))))

  fraction_cell-Moves :
      (p fsp : ℕ) (is_zero : Bool) (nil whole : Bytes) (r : Read ℕ)
      → ReadMoves buf p r
      → Moves buf p (fraction_cell fsp is_zero nil whole r)
  unfolding fraction_cell
  fraction_cell-Moves p fsp is_zero nil whole r (eof_at h) = stopped_at h
  fraction_cell-Moves p fsp is_zero nil whole r (got_to h) =
      Moves-if buf p is_zero _ _ (read_to h)
        (Moves-if buf p _ _ _ (read_to h) (Moves-if buf p _ _ _ broken (read_to h)))

  timestamp2_cell-Moves :
      (p fsp secs : ℕ) (r : Read ℕ) → ReadMoves buf p r → Moves buf p (timestamp2_cell fsp secs r)
  unfolding timestamp2_cell
  timestamp2_cell-Moves p fsp secs r (got_to h) = read_to h
  timestamp2_cell-Moves p fsp secs r (eof_at h) = stopped_at h

  parse_timestamp2-Moves : (p fsp : ℕ) → p ≤ length buf → Moves buf p (parse_timestamp2 buf p fsp)
  unfolding parse_timestamp2
  parse_timestamp2-Moves p fsp h = Moves-behind buf p 4 _ h (λ le.
      timestamp2_cell-Moves (p + 4) fsp (little_endian (bytes_at buf p 4))
        (read_fractional_part buf (p + 4) fsp) (read_fractional_part-ReadMoves (p + 4) fsp le))

  datetime2_cell-Moves :
      (p fsp : ℕ) (r : Read ℕ) → ReadMoves buf p r → Moves buf p (datetime2_cell buf fsp r)
  unfolding datetime2_cell
  datetime2_cell-Moves p fsp r (eof_at h) = stopped_at h
  datetime2_cell-Moves p fsp r (got_to {n = n} {q = q} h) =
      Moves-later buf p q _ h.0
        (fraction_cell-Moves q fsp _ _ _ _ (read_fractional_part-ReadMoves q fsp h.1))

  time2_cell-Moves :
      (p fsp : ℕ) (r : Read ℕ) → ReadMoves buf p r → Moves buf p (time2_cell buf fsp r)
  unfolding time2_cell
  time2_cell-Moves p fsp r (eof_at h) = stopped_at h
  time2_cell-Moves p fsp r (got_to {n = n} {q = q} h) =
      Moves-later buf p q _ h.0
        (fraction_cell-Moves q fsp _ _ _ _ (read_fractional_part-ReadMoves q fsp h.1))

  parse_datetime2-Moves : (p fsp : ℕ) → p ≤ length buf → Moves buf p (parse_datetime2 buf p fsp)
  unfolding parse_datetime2
  parse_datetime2-Moves p fsp h = datetime2_cell-Moves p fsp _ (read_uint_be-ReadMoves p 5 h)

  parse_time2-Moves : (p fsp : ℕ) → p ≤ length buf → Moves buf p (parse_time2 buf p fsp)
  unfolding parse_time2
  parse_time2-Moves p fsp h = time2_cell-Moves p fsp _ (read_uint_be-ReadMoves p 3 h)

  placed-Moves :
      (p total : ℕ) (a b : Value) (bad : Bool)
      → p ≤ length buf
      → Moves buf p (
          if ltb (length buf) (p + total)
          then value a p
          else if bad
          then panics
          else value b (p + total))
  placed-Moves p total a b bad h = elim (Bool-cases (ltb (length buf) (p + total))) [
    | inl short ↦ rw short (read_to (omega arith, h))
    | inr enough ↦
        rw enough (Moves-if buf p bad _ _ broken (read_to (omega arith, ground (arith, enough))))
  ]

  parse_decimal-Moves :
      (p : ℕ) (meta : ColumnMeta) → p ≤ length buf → Moves buf p (parse_decimal buf p meta)
  unfolding parse_decimal
  parse_decimal-Moves p meta h = placed-Moves p _ _ _ _ h

  skip_unknown-Moves : (p : ℕ) → p ≤ length buf → Moves buf p (skip_unknown buf p)
  unfolding skip_unknown
  skip_unknown-Moves p h = read_to (ground (arith, h), ground (arith, h))

  choose-Moves :
      (p t : ℕ) (cases : List (List ℕ × Cell)) (other : Cell)
      → All (λ c. Moves buf p c.1) cases
      → Moves buf p other
      → Moves buf p (choose t cases other)
  unfolding choose
  choose-Moves p t [] other h k = k
  choose-Moves p t ((codes, c) ∷ cases) other h k =
      Moves-if buf p (is_one_of t codes) c (choose t cases other) h.0
        (choose-Moves p t cases other h.1 k)

  -- Every column reader returns a position in the payload, and not before the one it is given.
  pub read_cell-Moves :
      (p t : ℕ) (meta : ColumnMeta) → p ≤ length buf → Moves buf p (read_cell buf p t meta)
  unfolding read_cell column_cases parse_date parse_old_time parse_old_timestamp parse_old_datetime
  read_cell-Moves p t meta h =
      choose-Moves p t (column_cases buf p meta) (skip_unknown buf p)
        (
          safe_read_value-Moves buf p 1 h,
          (
            safe_read_value-Moves buf p 2 h,
            (
              safe_read_value-Moves buf p 4 h,
              (
                read_if_whole-Moves buf p 8 (λ b. int (signed (2 ^ 63) (little_endian b))) h,
                (
                  read_if_whole-Moves buf p 3 (λ b. int (signed (2 ^ 23) (little_endian b))) h,
                  (
                    read_if_whole-Moves buf p 4 (λ b. float (float32 (little_endian b))) h,
                    (
                      read_if_whole-Moves buf p 8 (λ b. float (float64 (little_endian b))) h,
                      (
                        read_to (omega arith, h),
                        (
                          parse_decimal-Moves p meta h,
                          (
                            number_cell-Moves buf p 4 timestamp_text h,
                            (
                              parse_timestamp2-Moves p meta.fsp h,
                              (
                                number_cell-Moves buf p 8 datetime_text h,
                                (
                                  parse_datetime2-Moves p meta.fsp h,
                                  (
                                    number_cell-Moves buf p 4 date_text h,
                                    (
                                      number_cell-Moves buf p 3 time_text h,
                                      (
                                        parse_time2-Moves p meta.fsp h,
                                        (
                                          read_year-Moves buf p h,
                                          (
                                            parse_varchar-Moves buf p h,
                                            (
                                              parse_string-Moves buf p meta h,
                                              (
                                                parse_bit-Moves buf p meta h,
                                                (
                                                  parse_enum-Moves buf p meta h,
                                                  (
                                                    parse_set-Moves buf p meta h,
                                                    (
                                                      parse_blob-Moves buf p 1 h,
                                                      (
                                                        parse_blob-Moves buf p 2 h,
                                                        (
                                                          parse_blob-Moves buf p 3 h,
                                                          (parse_blob-Moves buf p 4 h, tt),
                                                        ),
                                                      ),
                                                    ),
                                                  ),
                                                ),
                                              ),
                                            ),
                                          ),
                                        ),
                                      ),
                                    ),
                                  ),
                                ),
                              ),
                            ),
                          ),
                        ),
                      ),
                    ),
                  ),
                ),
              ),
            ),
          ),
        )
        (skip_unknown-Moves p h)
