-- ===== src/Rows/Ends.antt =====
-- internal/parser/rows_event.go: which rows events are read to an end.
use database_flashback.Base.{
  ◌≡◌, refl, ◌≢◌, ℕ, zero, suc, ◌-◌, ◌≤◌, ◌<◌, ◌^◌, Bool, true, false, Option, none, some, List, [],
  ◌∷◌, ◌++◌, All, Bytes, IsByte, length, ltb, leb, arith, Result, ok, stuck, Ends,
}
use database_flashback.Wire.{
  got, length_encoded_int, add_int, gt_int, half_word, slice, sized_string, bitmap_byte_size,
}
use database_flashback.Wire.Packed.{length_encoded_int-bounds}
use database_flashback.TableMap.{TableMap, Registry}
use database_flashback.Rows.Event.{
  RowData, PostHeader, parse_row_post_header, columns_loop, rounds, parse_row_after, one_image,
  two_images, rows_loop, lookup_table_map, one_image_body, two_images_body, parse_write_rows_event,
  parse_delete_rows_event, parse_update_rows_event,
}
use database_flashback.Rows.Loop.{one_image_body-Ends, two_images_body-Ends}

-- If the column count that a rows event states makes a columns-present bitmap of at least one byte,
-- the reading of the event as WRITE_ROWS, DELETE_ROWS or UPDATE_ROWS comes to an end (in rows, an
-- error or a panic): fuel of more rounds than the payload has bytes is not used up.
pub parse_rows_events-Ends :
    (fuel : ℕ) (registry : Option Registry) (payload : Bytes) (v2 : Bool) (h : PostHeader)
    (count p : ℕ)
    → All IsByte payload
    → length payload < 2 ^ 63
    → length payload < fuel
    → parse_row_post_header payload v2 ≡ ok h
    → length_encoded_int payload h.body ≡ got count p
    → bitmap_byte_size count ≢ 0
    → Ends (λ out. Unit {0}) (parse_write_rows_event fuel registry payload v2)
      × Ends (λ out. Unit {0}) (parse_delete_rows_event fuel registry payload v2)
      × Ends (λ out. Unit {0}) (parse_update_rows_event fuel registry payload v2)
unfolding parse_write_rows_event parse_delete_rows_event parse_update_rows_event
parse_rows_events-Ends fuel registry payload v2 h count p bytes small enough header counted bitmap =
    let (_, inside, _) = length_encoded_int-bounds payload h.body count p bytes counted in
    let one = one_image_body-Ends fuel registry payload h count p small bitmap inside enough in
    rw (header, counted)
      (one, one, two_images_body-Ends fuel registry payload h count p small bitmap enough)

-- A row that takes no bytes is read again and again.
rows_loop_stuck :
    (row : ℕ → Result (RowData × ℕ)) (size fuel p : ℕ) (rows : List RowData) (d : RowData)
    → row p ≡ ok (d, p)
    → p < size
    → rows_loop row size fuel p rows ≡ stuck
unfolding rows_loop
rows_loop_stuck row size zero p rows d e h = refl
rows_loop_stuck row size (suc fuel) p rows d e h =
    let more : leb size p ≡ false = ground arith in
    rw (more, e) (rows_loop_stuck row size fuel p (rows ++ (d ∷ [])) d e h)

module _ (payload : Bytes) (p : ℕ) (h : p ≤ length payload)
    (small : length payload < half_word) where
  stays : add_int p 0 ≡ p
  stays = omega (arith, h, small)

  fits : gt_int p (length payload) ≡ false
  fits =
      let inside : ltb (length payload) p ≡ false = ground (arith, h) in
      let low : ltb p half_word ≡ true = ground (arith, h, small) in rw (inside, low) refl

  empty_slice : slice payload p p ≡ ok []
  unfolding slice
  empty_slice =
      let none_cut : p - p ≡ 0 = omega arith in
      let reach : leb p (length payload) ≡ true = ground (arith, h) in
      let self : leb p p ≡ true = ground arith in rw (reach, self, none_cut) refl

  empty_bitmap : sized_string payload 0 p ≡ ok ([], p)
  unfolding sized_string
  empty_bitmap = rw (stays, fits, empty_slice) refl

no_rounds : (count : ℕ) → count < 2 ^ 64 → bitmap_byte_size count ≡ 0 → rounds count ≡ 0
unfolding bitmap_byte_size
no_rounds count h e = ground (arith, h, e)

module _ (payload : Bytes) (tm : Option TableMap) (count p : ℕ) (small : length payload < half_word)
    (inside : p ≤ length payload) (wide : count < 2 ^ 64)
    (none_there : bitmap_byte_size count ≡ 0) where
  parse_row_after_empty :
      (present : Bytes) → parse_row_after payload tm p count present ≡ ok ([], p)
  unfolding parse_row_after columns_loop
  parse_row_after_empty present =
      rw (none_there, empty_bitmap payload p inside small, no_rounds count wide none_there) refl

  one_image_empty :
      (present : Bytes)
      → one_image payload tm count present p ≡ ok (record { before = none; after = some [] }, p)
  unfolding one_image
  one_image_empty present = rw (parse_row_after_empty present) refl

  two_images_empty :
      (before_present after_present : Bytes)
      → two_images payload tm count before_present after_present p
        ≡ ok (record { before = some []; after = some [] }, p)
  unfolding two_images
  two_images_empty before_present after_present =
      rw (parse_row_after_empty before_present) (rw (parse_row_after_empty after_present) refl)

-- If the stated column count makes a columns-present bitmap of no bytes (as 0 does, and a count
-- close to 2^64), and bytes follow the header, then no number of rounds is enough for any of the
-- three kinds of event: the loop appends an empty row each time and does not move.
pub parse_rows_events_stuck :
    (fuel : ℕ) (registry : Option Registry) (payload : Bytes) (v2 : Bool) (h : PostHeader)
    (count p : ℕ)
    → All IsByte payload
    → length payload < 2 ^ 63
    → parse_row_post_header payload v2 ≡ ok h
    → length_encoded_int payload h.body ≡ got count p
    → bitmap_byte_size count ≡ 0
    → p < length payload
    → (parse_write_rows_event fuel registry payload v2 ≡ stuck)
      × (parse_delete_rows_event fuel registry payload v2 ≡ stuck)
      × (parse_update_rows_event fuel registry payload v2 ≡ stuck)
unfolding parse_write_rows_event parse_delete_rows_event parse_update_rows_event one_image_body
    two_images_body
parse_rows_events_stuck fuel registry payload v2 h count p bytes small header counted empty more =
    let (_, inside, wide) = length_encoded_int-bounds payload h.body count p bytes counted in
    let tm = lookup_table_map registry h.table_id in
    let empty_row = one_image_empty payload tm count p small inside wide empty [] in
    let loop =
      rows_loop_stuck (one_image payload tm count []) (length payload) fuel p [] _ empty_row more in
    let one : one_image_body fuel registry payload h count p ≡ stuck =
      rw (empty, empty_bitmap payload p inside small, loop) refl in
    let two_rows = two_images_empty payload tm count p small inside wide empty [] [] in
    let pair_loop =
      rows_loop_stuck (two_images payload tm count [] []) (length payload) fuel p [] _ two_rows
        more in
    let two : two_images_body fuel registry payload h count p ≡ stuck =
      rw (empty, stays payload p inside small)
        (rw (stays payload p inside small, fits payload p inside small)
          (rw (empty_slice payload p inside small) (rw pair_loop refl))) in
    rw (header, counted) (one, one, two)
