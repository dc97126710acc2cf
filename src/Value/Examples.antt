-- ===== src/Value/Examples.antt =====
-- Values as SQL text, and the theorems about quoted values at concrete inputs.
use database_flashback.Base.{decimal_padded, ◌≡◌, refl, arith, [], ◌∷◌, ◌++◌, Bytes, text, some}
use database_flashback.Base.Int.{format_int, negsuc}
use database_flashback.Value.{
  Float, null, int, str, blob, time, quote, escape_string, format_column_value,
}
use database_flashback.Value.Literal.{
  backslash, add, add_all, read_standard, read_default, read_standard-escape_string,
  read_default_swallows,
}

abbrev no_floats : Float → Bytes
no_floats f = []

formats :
    (format_column_value no_floats (int (negsuc 0)) ≡ text "-1")
    × (format_column_value no_floats (str (text "it's")) ≡ text "'it''s'")
    × (format_column_value no_floats (blob (0x1a ∷ 0x2b ∷ [])) ≡ text "X'1A2B'")
    × (format_column_value no_floats null ≡ text "NULL")
unfolding format_column_value format_int
formats = (refl, refl, refl, refl)

formats_time :
    format_column_value no_floats
      (time (record { year = 2023; month = 1; day = 15; hour = 10; minute = 30; second = 0 }))
    ≡ text "'2023-01-15 10:30:00'"
unfolding format_column_value decimal_padded
formats_time = refl

read_standard-escape_string_example :
    read_standard (escape_string (text "it's \\") ++ (quote ∷ text ", 1"))
    ≡ some (text "it's \\", text ", 1")
read_standard-escape_string_example =
    read_standard-escape_string (text "it's \\") (text ", 1") (omega arith)

read_default_swallows_example :
    read_default (escape_string (text "C:" ++ (backslash ∷ [])) ++ (quote ∷ text ", 'x');"))
    ≡ add_all (text "C:") (add quote (read_default (text ", 'x');")))
read_default_swallows_example = read_default_swallows (text "C:") (text ", 'x');") (omega arith)

-- The value takes in the comma and the next opening quote.
swallowed :
    read_default (escape_string (text "C:" ++ (backslash ∷ [])) ++ (quote ∷ text ", 'x');"))
    ≡ some (text "C:', ", text "x');")
unfolding read_default escape_string
swallowed = refl
