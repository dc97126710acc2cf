-- ===== src/Parser/Images.antt =====
-- internal/parser/parser.go and internal/parser/rows_event.go: which images the events of each kind have,
-- and what that means for their reversal.
use database_flashback.Base.{
  ◌≡◌, refl, sym, subst, ℕ, zero, suc, Bool, true, Option, none, some, List, [], ◌∷◌, ◌++◌, map,
  All, All-append, Bytes, length, leb, Result, ok, OkThen, OkThen-any, OkThen-bind, Bool-cases, inl,
  inr, is_some, fails, no_image,
}
use mathlib.Core.List
use database_flashback.Value.{Float, EventType, delete_event, RowEvent}
use database_flashback.Wire.{
  EventHeader, or_eof, Read, got, eof, length_encoded_int, sized_string, bitmap_byte_size,
}
use database_flashback.TableMap.{TableMap, Registry, registry_get}
use database_flashback.Reverse.{reverse_sql, reverse_by_type, reverse_delete}
use database_flashback.Rows.Event.{
  RowData, RowEventData, PostHeader, parse_row_post_header, parse_row_after, one_image, two_images,
  rows_loop, lookup_table_map, one_image_body, parse_delete_rows_event,
}
use database_flashback.Parser.Dispatch.{
  BinlogParser, is_target, to_row_event, database_of, table_of, convert_to_row_events,
  handle_delete_rows_event,
}

rows_loop-All :
    (P : RowData → Type 0) (row : ℕ → Result (RowData × ℕ)) (size fuel p : ℕ) (rows : List RowData)
    → ((q : ℕ) → OkThen (λ r. P r.0) (row q))
    → All P rows
    → OkThen (All P) (rows_loop row size fuel p rows)
unfolding rows_loop
rows_loop-All P row size zero p rows step h = tt
rows_loop-All P row size (suc fuel) p rows step h = elim (Bool-cases (leb size p)) [
  | inl at_end ↦ rw at_end h
  | inr more ↦ rw more (
      OkThen-bind (λ r. P r.0) (All P) (row p) _ (step p)
        (λ r x.
          rows_loop-All P row size fuel r.1 (rows ++ (r.0 ∷ [])) step
            (All-append P rows (r.0 ∷ []) h (x, tt))))
]

abbrev OnlyAfter : RowData → Type 0
OnlyAfter row = (row.before ≡ none) × (is_some row.after ≡ true)

abbrev Both : RowData → Type 0
Both row = (is_some row.before ≡ true) × (is_some row.after ≡ true)

one_image-OnlyAfter :
    (payload : Bytes) (tm : Option TableMap) (count : ℕ) (present : Bytes) (p : ℕ)
    → OkThen (λ r. OnlyAfter r.0) (one_image payload tm count present p)
unfolding one_image
one_image-OnlyAfter payload tm count present p =
    OkThen-bind (λ r. Unit {0}) (λ r. OnlyAfter r.0) (parse_row_after payload tm p count present) _
      (OkThen-any _) (λ r u. (refl, refl))

two_images-Both :
    (payload : Bytes) (tm : Option TableMap) (count : ℕ) (before_present after_present : Bytes)
    (p : ℕ)
    → OkThen (λ r. Both r.0) (two_images payload tm count before_present after_present p)
unfolding two_images
two_images-Both payload tm count before_present after_present p =
    OkThen-bind (λ r. Unit {0}) (λ r. Both r.0) (parse_row_after payload tm p count before_present)
      _ (OkThen-any _)
      (λ before u.
        OkThen-bind (λ r. Unit {0}) (λ r. Both r.0)
          (parse_row_after payload tm before.1 count after_present) _ (OkThen-any _)
          (λ after v. (refl, refl)))

one_image_body-OnlyAfter :
    (fuel : ℕ) (registry : Option Registry) (payload : Bytes) (h : PostHeader) (count p : ℕ)
    → OkThen (λ d. All OnlyAfter d.rows) (one_image_body fuel registry payload h count p)
unfolding one_image_body
one_image_body-OnlyAfter fuel registry payload h count p =
    OkThen-bind (λ s. Unit {0}) (λ d. All OnlyAfter d.rows)
      (sized_string payload (bitmap_byte_size count) p) _ (OkThen-any _)
      (λ present u.
        let tm = lookup_table_map registry h.table_id in
        OkThen-bind (All OnlyAfter) (λ d. All OnlyAfter d.rows)
          (rows_loop (one_image payload tm count present.0) (length payload) fuel present.1 []) _
          (rows_loop-All OnlyAfter (one_image payload tm count present.0) (length payload) fuel
            present.1 [] (one_image-OnlyAfter payload tm count present.0) tt)
          (λ rows x. x))

or_eof-OkThen :
    (P : RowEventData → Type 0) (r : Read ℕ) (next : ℕ → ℕ → Result RowEventData)
    → ((a p : ℕ) → OkThen P (next a p))
    → OkThen P (or_eof r next)
or_eof-OkThen P (got a p) next h = h a p
or_eof-OkThen P (eof p) next h = tt

parse_delete_rows_event-OnlyAfter :
    (fuel : ℕ) (registry : Option Registry) (payload : Bytes) (v2 : Bool)
    → OkThen (λ d. All OnlyAfter d.rows) (parse_delete_rows_event fuel registry payload v2)
unfolding parse_delete_rows_event
parse_delete_rows_event-OnlyAfter fuel registry payload v2 =
    OkThen-bind (λ h. Unit {0}) (λ d. All OnlyAfter d.rows) (parse_row_post_header payload v2) _
      (OkThen-any _)
      (λ h u.
        or_eof-OkThen (λ d. All OnlyAfter d.rows) (length_encoded_int payload h.body)
          (one_image_body fuel registry payload h)
          (one_image_body-OnlyAfter fuel registry payload h))

-- The events that a rows event adds behind those that are there.
abbrev Adds : (RowEvent → Type 0) → BinlogParser → BinlogParser → Type 0
Adds Q p q = (new : List RowEvent) × (q.events ≡ p.events ++ new) × All Q new

All-map :
    (P : RowData → Type 0) (Q : RowEvent → Type 0) (f : RowData → RowEvent) (rows : List RowData)
    → ((row : RowData) → P row → Q (f row))
    → All P rows
    → All Q (map f rows)
All-map P Q f [] g h = tt
All-map P Q f (row ∷ rows) g h = (g row h.0, All-map P Q f rows g h.1)

convert_to_row_events-Adds :
    (P : RowData → Type 0) (Q : RowEvent → Type 0) (p : BinlogParser) (hdr : EventHeader)
    (rows : RowEventData) (type : EventType)
    → ((database table : Bytes) (row : RowData)
        → P row
        → Q (to_row_event hdr database table type row))
    → All P rows.rows
    → Adds Q p (convert_to_row_events p hdr rows type)
unfolding convert_to_row_events
convert_to_row_events-Adds P Q p hdr rows type g h =
    let tm = registry_get p.reg rows.table_id in
    let database = database_of tm in
    let table = table_of tm in
    elim (Bool-cases (is_target p.opts.target_table database table)) [
      | inl meant ↦
          let f = to_row_event hdr database table type in
          rw meant (map f rows.rows, refl, All-map P Q f rows.rows (g database table) h)
      | inr passed ↦ rw passed ([], sym (List.append-nil p.events), tt)
    ]

reverse_delete_event :
    (format_g : Float → Bytes) (e : RowEvent) (pk : List Bytes)
    → e.type ≡ delete_event
    → e.before ≡ none
    → reverse_sql format_g e pk ≡ fails no_image
unfolding reverse_sql reverse_by_type reverse_delete
reverse_delete_event format_g e pk t b = rw (t, b) refl

-- Every row event that a DELETE_ROWS event adds is a delete event that cannot be reversed: its row
-- stands in the after image, and `ReverseSQL` returns the error that there is no before image,
-- whatever the primary key.
pub handle_delete_rows_event_irreversible :
    (format_g : Float → Bytes) (pk : List Bytes) (p q : BinlogParser) (hdr : EventHeader)
    (payload : Bytes) (v2 : Bool)
    → handle_delete_rows_event p hdr payload v2 ≡ ok q
    → (new : List RowEvent) × (q.events ≡ p.events ++ new)
      × All
          (λ e.
            (e.type ≡ delete_event)
            × (is_some e.after ≡ true)
            × (reverse_sql format_g e pk ≡ fails no_image))
          new
unfolding handle_delete_rows_event
handle_delete_rows_event_irreversible format_g pk p q hdr payload v2 h =
    let Q = λ (e : RowEvent).
      (e.type ≡ delete_event)
      × (is_some e.after ≡ true)
      × (reverse_sql format_g e pk ≡ fails no_image) in
    let all =
      OkThen-bind (λ d. All OnlyAfter d.rows) (Adds Q p)
        (parse_delete_rows_event (suc (length payload)) (some p.reg) payload v2)
        (λ rows. ok (convert_to_row_events p hdr rows delete_event))
        (parse_delete_rows_event-OnlyAfter (suc (length payload)) (some p.reg) payload v2)
        (λ rows x.
          convert_to_row_events-Adds OnlyAfter Q p hdr rows delete_event
            (λ database table row r. (
              refl,
              r.1,
              reverse_delete_event format_g (to_row_event hdr database table delete_event row) pk
                  refl r.0,
            ))
            x) in
    subst (OkThen (Adds Q p)) h all
