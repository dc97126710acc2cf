-- ===== src/Reverse.antt =====
-- internal/parser/reverse.go: the statement that undoes a row event, as text, and the batch of them.
-- `Statement` is the meaning of such statements on a table, `Render` ties the text to it, `Change`
-- undoes one event, `Undo` proves that a batch restores the table.
pub mod Statement
pub mod Render
pub mod Lookup
pub mod Change
pub mod Undo
mod Examples
use database_flashback.Base.{
  ℕ, Bool, Option, none, some, List, [], ◌∷◌, ◌++◌, Bytes, text, join, map, length, Try, done,
  fails, map_try, Error, no_image, no_columns, unsupported,
}
use mathlib.Core.List.{reverse}
use database_flashback.Base.Sort.{sort_strings}
use database_flashback.Value.{
  Float, Value, null, int, float, str, blob, time, other, Image, image_get, keys, EventType,
  insert_event, update_event, delete_event, unknown_event, RowEvent, format_column_value,
}

-- `sortedKeys`.
unfoldable pub sorted_keys : Image → List Bytes
unfolding sort_strings
sorted_keys m = sort_strings (keys m)

-- `m[c]`, which is nil where there is no entry.
abbrev value_or_null : Option Value → Value
value_or_null none = null
value_or_null (some v) = v

abbrev pub value_at : Image → Bytes → Value
value_at m c = value_or_null (image_get c m)

abbrev pub ticked : Bytes → Bytes
ticked c = text "`" ++ (c ++ text "`")

module _ (format_g : Float → Bytes) where
  -- `buildCondition`.
  unfoldable pub build_condition : Bytes → Value → Bytes
  unfolding format_column_value
  build_condition col null = ticked col ++ text " IS NULL"
  build_condition col (int n) = ticked col ++ (text " = " ++ format_column_value format_g (int n))
  build_condition col (float f) =
      ticked col ++ (text " = " ++ format_column_value format_g (float f))
  build_condition col (str s) = ticked col ++ (text " = " ++ format_column_value format_g (str s))
  build_condition col (blob b) = ticked col ++ (text " = " ++ format_column_value format_g (blob b))
  build_condition col (time t) = ticked col ++ (text " = " ++ format_column_value format_g (time t))
  build_condition col (other t) =
      ticked col ++ (text " = " ++ format_column_value format_g (other t))

  -- The loop of `buildWhereClause`: a column without an entry is passed over.
  unfoldable pub conditions : Image → List Bytes → List Bytes
  unfolding build_condition image_get
  conditions values [] = []
  conditions values (col ∷ cols) = elim (image_get col values) [
    | none ↦ conditions values cols
    | some v ↦ build_condition col v ∷ conditions values cols
  ]

  abbrev where_of : List Bytes → Try Bytes
  where_of [] = fails no_columns
  where_of (c ∷ cs) = done (text " WHERE " ++ join (text " AND ") (c ∷ cs))

  abbrev columns_of : Image → List Bytes → List Bytes
  columns_of values [] = sorted_keys values
  columns_of values (c ∷ cs) = c ∷ cs

  unfoldable pub build_where_clause : Image → List Bytes → Try Bytes
  unfolding conditions sorted_keys
  build_where_clause values pk = where_of (conditions values (columns_of values pk))

  unfoldable pub reverse_insert : RowEvent → List Bytes → Try Bytes
  unfolding build_where_clause
  reverse_insert event pk = elim event.after [
    | none ↦ fails no_image
    | some after ↦
        map_try
          (λ where_text.
            text "DELETE FROM " ++ (ticked event.table ++ (where_text ++ text " LIMIT 1;")))
          (build_where_clause after pk)
  ]

  unfoldable pub reverse_delete : RowEvent → Try Bytes
  unfolding sorted_keys format_column_value
  reverse_delete event = elim event.before [
    | none ↦ fails no_image
    | some before ↦
        let cols = sorted_keys before in
        done (
          text "INSERT INTO "
          ++ (ticked event.table
              ++ (text " ("
                  ++ (join (text ", ") (map ticked cols)
                      ++ (text ") VALUES ("
                          ++ (join (text ", ")
                                (map (λ c. format_column_value format_g (value_at before c)) cols)
                              ++ text ");"))))))
  ]

  abbrev assignment : Image → Bytes → Bytes
  assignment values c = ticked c ++ (text " = " ++ format_column_value format_g (value_at values c))

  abbrev update_text : Bytes → Image → Bytes → Bytes
  update_text table before where_text =
      text "UPDATE "
      ++ (ticked table
          ++ (text " SET "
              ++ (join (text ", ") (map (assignment before) (sorted_keys before))
                  ++ (where_text ++ text " LIMIT 1;"))))

  unfoldable pub reverse_update : RowEvent → List Bytes → Try Bytes
  unfolding build_where_clause sorted_keys format_column_value
  reverse_update event pk = elim event.before [
    | none ↦ fails no_image
    | some before ↦ elim event.after [
      | none ↦ fails no_image
      | some after ↦ map_try (update_text event.table before) (build_where_clause after pk)
    ]
  ]

  unfoldable pub reverse_by_type : EventType → RowEvent → List Bytes → Try Bytes
  unfolding reverse_insert reverse_delete reverse_update
  reverse_by_type insert_event event pk = reverse_insert event pk
  reverse_by_type delete_event event pk = reverse_delete event
  reverse_by_type update_event event pk = reverse_update event pk
  reverse_by_type (unknown_event t) event pk = fails unsupported

  -- `ReverseSQL`.
  unfoldable pub reverse_sql : RowEvent → List Bytes → Try Bytes
  unfolding reverse_by_type
  reverse_sql event pk = reverse_by_type event.type event pk

  -- What follows the reverse of one event, with the index `i` of the event: the statements so far
  -- are returned beside the error.
  abbrev pub after_event :
      (List Bytes → List Bytes × Option (ℕ × Error))
      → ℕ
      → List Bytes
      → Try Bytes
      → List Bytes × Option (ℕ × Error)
  after_event next i stmts (done sql) = next (stmts ++ (sql ∷ []))
  after_event next i stmts (fails e) = (stmts, some (i, e))

  -- The loop of `ReverseSQLBatch`, over the events from the last to the first.
  unfoldable pub batch_loop :
      List Bytes → List RowEvent → List Bytes → List Bytes × Option (ℕ × Error)
  unfolding reverse_sql
  batch_loop pk [] stmts = (stmts, none)
  batch_loop pk (event ∷ earlier) stmts =
      after_event (batch_loop pk earlier) (length earlier) stmts (reverse_sql event pk)

  unfoldable pub reverse_sql_batch : List RowEvent → List Bytes → List Bytes × Option (ℕ × Error)
  unfolding batch_loop
  reverse_sql_batch events pk = batch_loop pk (reverse events) []
