-- ===== src/Reverse/Statement.antt =====
-- internal/parser/reverse.go: what the generated statements mean to a table. A row is the list of
-- its columns' values, a table the list of its rows; the order of the rows carries no meaning.
use database_flashback.Base.{
  Bool, true, false, ◌&&◌, Option, none, some, List, [], ◌∷◌, Bytes, map, if◌then◌else◌,
}
use database_flashback.Value.{Value, Image, image_get}
use database_flashback.Base.Int.{ℤ}
use database_flashback.Reverse.{value_at}
use mathlib.Core.List.{List-discrete}
use native.Mathlib.Decide.{ℕ_discrete}

pub ℤ-discrete : Discrete ℤ
ℤ-discrete = hlevel ℕ_discrete

pub Value-discrete : Discrete Value
Value-discrete = hlevel (ℕ_discrete, List-discrete ℕ_discrete, ℤ-discrete)

unfoldable pub same_value : Value → Value → Bool
same_value v w = elim (Value-discrete v w) [ yes e ↦ true | no n ↦ false ]

-- The columns `cs` with their values in `m`.
abbrev pub pairs : Image → List Bytes → Image
pairs m cs = map (λ c. (c, value_at m c)) cs

-- DELETE … WHERE … LIMIT 1; INSERT …; UPDATE … SET … WHERE … LIMIT 1.
pub data Statement : Type 0 where
  delete_where : Image → Statement
  insert_row : Image → Statement
  update_where : Image → Image → Statement

-- A conjunction of `col = value` and `col IS NULL`.
unfoldable pub holds : Image → Image → Bool
unfolding same_value
holds [] row = true
holds ((c, v) ∷ conds) row = same_value (value_at row c) v && holds conds row

unfoldable pub delete_first : Image → List Image → List Image
unfolding holds
delete_first conds [] = []
delete_first conds (row ∷ rows) = if holds conds row then rows else row ∷ delete_first conds rows

abbrev pub or_value : Option Value → Value → Value
or_value none w = w
or_value (some v) w = v

-- SET: a column that is named takes the new value.
unfoldable pub assign : Image → Image → Image
assign sets [] = []
assign sets ((c, w) ∷ row) = (c, or_value (image_get c sets) w) ∷ assign sets row

unfoldable pub update_first : Image → Image → List Image → List Image
unfolding holds assign
update_first sets conds [] = []
update_first sets conds (row ∷ rows) =
    if holds conds row then assign sets row ∷ rows else row ∷ update_first sets conds rows

-- A statement on a table with the columns `cols`.
unfoldable pub run : List Bytes → Statement → List Image → List Image
unfolding delete_first update_first
run cols (delete_where conds) rows = delete_first conds rows
run cols (insert_row values) rows = pairs values cols ∷ rows
run cols (update_where sets conds) rows = update_first sets conds rows

unfoldable pub run_all : List Bytes → List Statement → List Image → List Image
unfolding run
run_all cols [] rows = rows
run_all cols (s ∷ stmts) rows = run_all cols stmts (run cols s rows)
