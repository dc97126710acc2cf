-- ===== src/Reverse/Examples.antt =====
-- Reverse statements at concrete events, and the batch theorem on an update, an insert and a delete.
use database_flashback.Base.{ℕ, ◌≡◌, refl, some, none, List, [], ◌∷◌, Bytes, text, map, done, join}
use mathlib.Core.List.{Perm, cons≢nil, not-mem-nil, eq-or-mem_of_mem-cons}
use mathlib.Core.List
use database_flashback.Base.Int.{pos}
use database_flashback.Base.Sort.{insert_key, sort_strings}
use database_flashback.Value.{
  Float, int, str, Image, insert_event, update_event, delete_event, RowEvent, format_column_value,
  escape_string, image_get,
}
use database_flashback.Base.Int.{format_int}
use database_flashback.Reverse.{
  sorted_keys, reverse_sql, reverse_by_type, reverse_insert, reverse_delete, reverse_update,
  build_where_clause, conditions, build_condition, reverse_sql_batch,
}
use database_flashback.Reverse.Statement.{Statement, run_all}
use database_flashback.Reverse.Render.{render}
use database_flashback.Reverse.Undo.{History, reverse_sql_batch_undoes}
use database_flashback.Reverse.Change.{inserted, deleted, updated, Shaped-nil, Shaped-cons}

abbrev no_floats : Float → Bytes
no_floats f = []

abbrev row : ℕ → Bytes → Image
row n name = (text "id", int (pos n)) ∷ (text "name", str name) ∷ []

abbrev columns : List Bytes
columns = text "id" ∷ text "name" ∷ []

abbrev rename : RowEvent
rename = record {
  type = update_event;
  database = text "db";
  table = text "users";
  timestamp = 0;
  before = some (row 1 (text "a"));
  after = some (row 1 (text "b"));
}

abbrev add : RowEvent
add = record {
  type = insert_event;
  database = text "db";
  table = text "users";
  timestamp = 0;
  before = none;
  after = some (row 2 (text "c"));
}

abbrev remove : RowEvent
remove = record {
  type = delete_event;
  database = text "db";
  table = text "users";
  timestamp = 0;
  before = some (row 1 (text "b"));
  after = none;
}

texts :
    (reverse_sql no_floats rename (text "id" ∷ [])
      ≡ done (text "UPDATE `users` SET `id` = 1, `name` = 'a' WHERE `id` = 1 LIMIT 1;"))
    × (reverse_sql no_floats add []
        ≡ done (text "DELETE FROM `users` WHERE `id` = 2 AND `name` = 'c' LIMIT 1;"))
    × (reverse_sql no_floats remove []
        ≡ done (text "INSERT INTO `users` (`id`, `name`) VALUES (1, 'b');"))
unfolding reverse_sql reverse_by_type reverse_insert reverse_delete reverse_update
    build_where_clause conditions build_condition sorted_keys insert_key sort_strings
    format_column_value escape_string image_get format_int join
texts = (refl, refl, refl)

abbrev before_all : List Image
before_all = row 1 (text "a") ∷ []

abbrev after_all : List Image
after_all = row 2 (text "c") ∷ []

history : History columns before_all (rename ∷ add ∷ remove ∷ []) after_all
history = (
  row 1 (text "b") ∷ [],
  updated (row 1 (text "a")) (row 1 (text "b")) [] refl refl refl refl refl (List.Perm.refl _)
      (List.Perm.refl _),
  (
    row 2 (text "c") ∷ row 1 (text "b") ∷ [],
    inserted (row 2 (text "c")) refl refl refl (List.Perm.refl _),
    (after_all, deleted (row 1 (text "b")) refl refl refl (List.Perm.swap _ _ []), refl),
  ),
)

reverse_sql_batch_undoes_example :
    (stmts : List Statement) × (reverse_sql_batch no_floats (rename ∷ add ∷ remove ∷ []) []
      ≡ (map (render no_floats (text "users")) stmts, none))
    × Perm (run_all columns stmts after_all) before_all
reverse_sql_batch_undoes_example =
    reverse_sql_batch_undoes no_floats columns (text "users") before_all after_all after_all
      (rename ∷ add ∷ remove ∷ []) (((refl, tt), (tt, tt))) cons≢nil
      (Shaped-cons columns (row 2 (text "c")) [] refl (Shaped-nil columns))
      (refl, (refl, (refl, tt))) history (List.Perm.refl after_all)
