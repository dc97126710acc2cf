-- ===== src/Base/Sort.antt =====
-- `sort.Strings`: the result is determined by the keys, so any sort models it.
use database_flashback.Base.Tests.{if◌then◌else◌}
use database_flashback.Base.Text.{Bytes, lt_bytes}
use mathlib.Core.List.{List, [], ◌∷◌}

unfoldable pub insert_key : Bytes → List Bytes → List Bytes
insert_key k [] = k ∷ []
insert_key k (j ∷ js) = if lt_bytes j k then j ∷ insert_key k js else k ∷ j ∷ js

unfoldable pub sort_strings : List Bytes → List Bytes
unfolding insert_key
sort_strings [] = []
sort_strings (k ∷ ks) = insert_key k (sort_strings ks)
