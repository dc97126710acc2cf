-- ===== src/Reverse/Render.antt =====
-- internal/parser/reverse.go: the text that the code writes is the text of a statement that names
-- all columns of the event's image with their values.
use database_flashback.Base.{
  ◌≡◌, refl, ap, ◌∙◌, ◌≢◌, true, some, List, [], ◌∷◌, ◌++◌, Bytes, text, join, map, done, All,
}
use mathlib.Core.List.{cons≢nil}
use database_flashback.Base.Sort.{sort_strings}
use database_flashback.Value.{
  Float, Value, Image, keys, insert_event, update_event, delete_event, RowEvent,
  format_column_value,
}
use database_flashback.Reverse.{
  sorted_keys, value_at, ticked, build_condition, conditions, build_where_clause, where_of,
  reverse_insert, reverse_delete, reverse_update, reverse_by_type, reverse_sql,
}
use database_flashback.Reverse.Statement.{Statement, delete_where, insert_row, update_where, pairs}
use database_flashback.Base.Names.{has}
use database_flashback.Reverse.Lookup.{
  full, image_get-known, sorted_keys-known, sort_strings-nonempty,
}

pairs-nil : (m : Image) (cs : List Bytes) → pairs m cs ≡ [] → cs ≡ []
pairs-nil m [] e = refl
pairs-nil m (c ∷ cs) e = absurd (cons≢nil e)

module _ (format_g : Float → Bytes) where
  condition_text : Bytes × Value → Bytes
  unfolding build_condition
  condition_text (c, v) = build_condition format_g c v

  literal_text : Bytes × Value → Bytes
  literal_text (c, v) = format_column_value format_g v

  assignment_text : Bytes × Value → Bytes
  assignment_text (c, v) = ticked c ++ (text " = " ++ format_column_value format_g v)

  name_text : Bytes × Value → Bytes
  name_text (c, v) = ticked c

  where_text : Image → Bytes
  unfolding condition_text
  where_text conds = text " WHERE " ++ join (text " AND ") (map condition_text conds)

  unfoldable pub render : Bytes → Statement → Bytes
  unfolding where_text name_text literal_text assignment_text
  render table (delete_where conds) =
      text "DELETE FROM " ++ (ticked table ++ (where_text conds ++ text " LIMIT 1;"))
  render table (insert_row values) =
      text "INSERT INTO "
      ++ (ticked table
          ++ (text " ("
              ++ (join (text ", ") (map name_text values)
                  ++ (text ") VALUES ("
                      ++ (join (text ", ") (map literal_text values) ++ text ");")))))
  render table (update_where sets conds) =
      text "UPDATE "
      ++ (ticked table
          ++ (text " SET "
              ++ (join (text ", ") (map assignment_text sets)
                  ++ (where_text conds ++ text " LIMIT 1;"))))

  map-pairs :
      (f : Bytes × Value → Bytes) (m : Image) (cs : List Bytes)
      → map f (pairs m cs) ≡ map (λ c. f (c, value_at m c)) cs
  map-pairs f m [] = refl
  map-pairs f m (c ∷ cs) = ap (λ r. f (c, value_at m c) ∷ r) (map-pairs f m cs)

  conditions-pairs :
      (m : Image) (cs : List Bytes)
      → All (λ c. has c (keys m) ≡ true) cs
      → conditions format_g m cs ≡ map condition_text (pairs m cs)
  unfolding conditions condition_text
  conditions-pairs m [] h = refl
  conditions-pairs m (c ∷ cs) h =
      rw (image_get-known c m h.0, conditions) (rw (conditions-pairs m cs h.1) refl)

  where_of-map :
      (f : Bytes × Value → Bytes) (ps : Image)
      → ps ≢ []
      → where_of format_g (map f ps) ≡ done (text " WHERE " ++ join (text " AND ") (map f ps))
  where_of-map f [] h = absurd (h refl)
  where_of-map f (p ∷ ps) h = refl

  full-nonempty : (m : Image) → m ≢ [] → full m ≢ []
  unfolding sorted_keys
  full-nonempty [] h e = h refl
  full-nonempty ((k, v) ∷ m) h e =
      sort_strings-nonempty k (keys m) (pairs-nil ((k, v) ∷ m) (sort_strings (k ∷ keys m)) e)

  build_where_clause-full :
      (m : Image) → m ≢ [] → build_where_clause format_g m [] ≡ done (where_text (full m))
  unfolding build_where_clause where_text
  build_where_clause-full m h =
      ap (where_of format_g) (conditions-pairs m (sorted_keys m) (sorted_keys-known m))
      ∙ where_of-map condition_text (full m) (full-nonempty m h)

  pub reverse_sql_insert :
      (event : RowEvent) (r : Image)
      → event.type ≡ insert_event
      → event.after ≡ some r
      → r ≢ []
      → reverse_sql format_g event [] ≡ done (render event.table (delete_where (full r)))
  unfolding reverse_sql reverse_by_type reverse_insert render
  reverse_sql_insert event r t a h = rw (t, a, build_where_clause-full r h) refl

  pub reverse_sql_delete :
      (event : RowEvent) (r : Image)
      → event.type ≡ delete_event
      → event.before ≡ some r
      → reverse_sql format_g event [] ≡ done (render event.table (insert_row (full r)))
  unfolding reverse_sql reverse_by_type reverse_delete render name_text literal_text
  reverse_sql_delete event r t b =
      rw (t, b, map-pairs name_text r (sorted_keys r), map-pairs literal_text r (sorted_keys r))
        refl

  pub reverse_sql_update :
      (event : RowEvent) (b a : Image)
      → event.type ≡ update_event
      → event.before ≡ some b
      → event.after ≡ some a
      → a ≢ []
      → reverse_sql format_g event [] ≡ done (render event.table (update_where (full b) (full a)))
  unfolding reverse_sql reverse_by_type reverse_update render assignment_text
  reverse_sql_update event b a t e e' h =
      rw (t, e, e', build_where_clause-full a h, map-pairs assignment_text b (sorted_keys b)) refl
