-- ===== src/Flashback/Undoable.antt =====
-- cmd/agent/flashback.go and internal/parser/reverse.go: which of the events read from mysqlbinlog have a
-- reverse statement.
use database_flashback.Base.{
  ◌≡◌, refl, ap, ◌≢◌, ℕ, ◌+◌, ◌/◌, ◌%◌, ◌<◌, some, List, [], ◌∷◌, Bytes, length, take, drop,
  length-drop, sym, ◌∙◌, none, ◌++◌, map, All, append_assoc, length-append, take-append,
  drop-append, ◌==◌, if◌then◌else◌, done, fails, no_image, arith, eq_bytes, Bool-cases, inl, inr,
}
use mathlib.Core.List.{cons≢nil, reverse, append-nil, reverse-cons, reverse-append}
use database_flashback.Value.{
  Float, Value, Image, RowEvent, image_set, insert_event, update_event, delete_event,
}
use database_flashback.Reverse.{
  after_event, batch_loop, reverse_sql_batch, reverse_sql, reverse_by_type, reverse_update,
}
use database_flashback.Reverse.Statement.{delete_where, insert_row, update_where}
use database_flashback.Reverse.Lookup.{full}
use database_flashback.Reverse.Render.{
  render, reverse_sql_insert, reverse_sql_delete, reverse_sql_update,
}
use database_flashback.Flashback.Scan.{column_name, fill, plain_event, make_row_event}

image_set-nonempty : (k : Bytes) (v : Value) (m : Image) → image_set k v m ≢ []
unfolding image_set
image_set-nonempty k v [] e = cons≢nil e
image_set-nonempty k v ((j, w) ∷ m) e = elim (Bool-cases (eq_bytes j k)) [
  | inl same ↦ cons≢nil (rw same at e)
  | inr differ ↦ cons≢nil (rw differ at e)
]

fill-nonempty :
    (names : List Bytes) (i : ℕ) (vals : List Value) (m : Image) → m ≢ [] → fill names i vals m ≢ []
unfolding fill
fill-nonempty names i [] m h = h
fill-nonempty names i (v ∷ vals) m h =
    fill-nonempty names (i + 1) vals (image_set (column_name names i) v m)
      (image_set-nonempty (column_name names i) v m)

-- The map of at least one value has an entry.
filled : (names : List Bytes) (vals : List Value) → vals ≢ [] → fill names 0 vals [] ≢ []
unfolding fill
filled names [] h = absurd (h refl)
filled names (v ∷ vals) h =
    fill-nonempty names 1 vals (image_set (column_name names 0) v [])
      (image_set-nonempty (column_name names 0) v [])

drop-nonempty : (n : ℕ) (vals : List Value) → n < length vals → drop n vals ≢ []
drop-nonempty n vals h e =
    let l = length-drop n vals in
    let z : length (drop n vals) ≡ 0 = ap length e in absurd (omega (arith, h, l, z))

half_less : (vals : List Value) → vals ≢ [] → length vals / 2 < length vals
half_less [] h = absurd (h refl)
half_less (v ∷ vals) h = omega arith

update_event_sql :
    (format_g : Float → Bytes) (database table : Bytes) (vals : List Value) (names : List Bytes)
    → vals ≢ []
    → reverse_sql format_g (make_row_event update_event database table vals names) [] ≡ (
        if length vals % 2 == 0
        then done (
            render format_g table (
              update_where
                (full (fill names 0 (take (length vals / 2) vals) []))
                (full (fill names 0 (drop (length vals / 2) vals) []))))
        else fails no_image)
unfolding make_row_event reverse_sql reverse_by_type reverse_update
update_event_sql format_g database table vals names h =
    let half = length vals / 2 in
    elim (Bool-cases (length vals % 2 == 0)) [
      | inl even ↦ rw even (
          reverse_sql_update format_g
            (plain_event update_event database table (some (fill names 0 (take half vals) []))
              (some (fill names 0 (drop half vals) [])))
            (fill names 0 (take half vals) []) (fill names 0 (drop half vals) []) refl refl refl
            (filled names (drop half vals) (drop-nonempty half vals (half_less vals h))))
      | inr odd ↦ rw odd refl
    ]

after_nil : (before after : List Value) → before ++ after ≡ [] → after ≡ []
after_nil [] after e = e
after_nil (v ∷ before) after e = absurd (cons≢nil e)

odd-nonempty : (vals : List Value) → length vals % 2 ≡ 1 → vals ≢ []
odd-nonempty [] odd e = absurd (omega (arith, odd))
odd-nonempty (v ∷ vals) odd e = cons≢nil e

length-reverse {ℓ} : {A : Type ℓ} (xs : List A) → length (reverse xs) ≡ length xs
length-reverse [] = refl
length-reverse (x ∷ xs) =
    let now = ap length (reverse-cons x xs) ∙ length-append (reverse xs) (x ∷ []) in
    omega (arith, now, length-reverse xs)

-- A row that mysqlbinlog printed, by its values; an UPDATE has those before and those after.
pub data Row : Type 0 where
  inserted deleted : List Value → Row
  updated : List Value → List Value → Row

abbrev pub IsWhole : Row → Type 0
IsWhole (inserted vals) = vals ≢ []
IsWhole (deleted vals) = vals ≢ []
IsWhole (updated before after) = (length before ≡ length after) × (after ≢ [])

module _ (format_g : Float → Bytes) (database table : Bytes) (names : List Bytes) where
  -- The event of a row, as the parser makes it of the values in the order of the lines.
  abbrev pub event_of_row : Row → RowEvent
  event_of_row (inserted vals) = make_row_event insert_event database table vals names
  event_of_row (deleted vals) = make_row_event delete_event database table vals names
  event_of_row (updated before after) =
      make_row_event update_event database table (before ++ after) names

  -- What undoes the row, with the values under their columns.
  abbrev pub undone : Row → Bytes
  undone (inserted vals) = render format_g table (delete_where (full (fill names 0 vals [])))
  undone (deleted vals) = render format_g table (insert_row (full (fill names 0 vals [])))
  undone (updated before after) =
      render format_g table
        (update_where (full (fill names 0 before [])) (full (fill names 0 after [])))

  -- The two halves of the values of an UPDATE.
  updated_halves :
      (before after : List Value)
      → length before ≡ length after
      → (length (before ++ after) % 2 ≡ 0) × (length (before ++ after) / 2 ≡ length before)
  updated_halves before after h =
      let l = length-append before after in (omega (arith, h, l), omega (arith, h, l))

  updated_sql :
      (before after : List Value)
      → length before ≡ length after
      → after ≢ []
      → reverse_sql format_g (event_of_row (updated before after)) []
        ≡ done (undone (updated before after))
  updated_sql before after same h =
      let (even, half) = updated_halves before after same in
      rw (even, half, take-append before after, drop-append before after) at
        (update_event_sql format_g database table (before ++ after) names
          (λ e. h (after_nil before after e)))

  reverse_sql-row :
      (r : Row) → IsWhole r → reverse_sql format_g (event_of_row r) [] ≡ done (undone r)
  unfolding make_row_event
  reverse_sql-row (inserted vals) h =
      reverse_sql_insert format_g (make_row_event insert_event database table vals names)
        (fill names 0 vals []) refl refl (filled names vals h)
  reverse_sql-row (deleted vals) h =
      reverse_sql_delete format_g (make_row_event delete_event database table vals names)
        (fill names 0 vals []) refl refl
  reverse_sql-row (updated before after) h = updated_sql before after h.0 h.1

  -- The loop over the last rows of a list, the latest first.
  batch_loop-rows :
      (rows : List Row) (more : List RowEvent) (stmts : List Bytes)
      → All IsWhole rows
      → batch_loop format_g [] (reverse (map event_of_row rows) ++ more) stmts
        ≡ batch_loop format_g [] more (stmts ++ reverse (map undone rows))
  unfolding batch_loop
  batch_loop-rows [] more stmts h = ap (batch_loop format_g [] more) (sym (append-nil stmts))
  batch_loop-rows (r ∷ rows) more stmts h =
      let event = event_of_row r in
      let events = reverse (map event_of_row rows) in
      let texts = reverse (map undone rows) in
      let order : reverse (event ∷ map event_of_row rows) ++ more ≡ events ++ (event ∷ more) =
        ap (λ l. l ++ more) (reverse-cons event (map event_of_row rows))
        ∙ append_assoc events (event ∷ []) more in
      let written : (stmts ++ texts) ++ (undone r ∷ [])
          ≡ stmts ++ reverse (undone r ∷ map undone rows) =
        append_assoc stmts texts (undone r ∷ [])
        ∙ ap (λ l. stmts ++ l) (sym (reverse-cons (undone r) (map undone rows))) in
      ap (λ l. batch_loop format_g [] l stmts) order
      ∙ batch_loop-rows rows (event ∷ more) stmts h.1
      ∙ ap (after_event format_g (batch_loop format_g [] more) (length more) (stmts ++ texts))
          (reverse_sql-row r h.0)
      ∙ ap (batch_loop format_g [] more) written

  reverse_sql_batch-rows :
      (later : List Row)
      → All IsWhole later
      → reverse_sql_batch format_g (map event_of_row later) [] ≡ (reverse (map undone later), none)
  unfolding reverse_sql_batch
  reverse_sql_batch-rows later h =
      ap (λ l. batch_loop format_g [] l []) (sym (append-nil (reverse (map event_of_row later))))
      ∙ batch_loop-rows later [] [] h
      ∙ refl

  odd_row :
      (vals : List Value)
      → length vals % 2 ≡ 1
      → reverse_sql format_g (make_row_event update_event database table vals names) []
        ≡ fails no_image
  odd_row vals odd =
      rw odd at (update_event_sql format_g database table vals names (odd-nonempty vals odd))

  batch_stops :
      (before : List RowEvent) (event : RowEvent) (texts : List Bytes)
      → reverse_sql format_g event [] ≡ fails no_image
      → batch_loop format_g [] (event ∷ before) texts ≡ (texts, some (length before, no_image))
  unfolding batch_loop
  batch_stops before event texts e =
      ap (after_event format_g (batch_loop format_g [] before) (length before) texts) e

  -- For rows with at least one value each, whose UPDATEs have as many values before as after, the
  -- batch over the parser's events gives for each row, the latest first, the statement that undoes
  -- it, made of the values as they were read. An UPDATE with an odd number of values in front of
  -- them, whatever events are in front of that, ends the batch: the same statements are given beside
  -- an error at its index, and no earlier event is reversed.
  pub reverse_sql_batch-make_row_event :
      (earlier : List RowEvent) (vals : List Value) (later : List Row)
      → length vals % 2 ≡ 1
      → All IsWhole later
      → (reverse_sql_batch format_g (map event_of_row later) []
          ≡ (reverse (map undone later), none))
        × (reverse_sql_batch format_g
              (earlier
                ++ (make_row_event update_event database table vals names ∷ map event_of_row later))
              []
            ≡ (reverse (map undone later), some (length earlier, no_image)))
  unfolding reverse_sql_batch
  reverse_sql_batch-make_row_event earlier vals later odd h =
      let event = make_row_event update_event database table vals names in
      let events = map event_of_row later in
      let texts = reverse (map undone later) in
      let order : reverse (earlier ++ (event ∷ events))
          ≡ reverse events ++ (event ∷ reverse earlier) =
        reverse-append earlier (event ∷ events)
        ∙ ap (λ l. l ++ reverse earlier) (reverse-cons event events)
        ∙ append_assoc (reverse events) (event ∷ []) (reverse earlier) in
      (
        reverse_sql_batch-rows later h,
        ap (λ l. batch_loop format_g [] l []) order
            ∙ batch_loop-rows later (event ∷ reverse earlier) [] h
            ∙ batch_stops (reverse earlier) event texts (odd_row vals odd)
            ∙ ap (λ n. (texts, some (n, no_image))) (length-reverse earlier),
      )
