-- ===== src/Value.antt =====
-- internal/parser/sql.go and internal/connector/types.go: column values, row events, and the text
-- of a value as SQL. `Literal` proves how that text is read back.
pub mod Literal
mod Examples
use database_flashback.Base.{
  ℕ, ◌/◌, ◌%◌, ◌+◌, ◌-◌, Bool, true, ◌&&◌, ◌||◌, Option, none, some, List, [], ◌∷◌, ◌++◌, Bytes,
  text, ltb, leb, ◌==◌, if◌then◌else◌, decimal_padded, eq_bytes,
}
use database_flashback.Base.Int.{ℤ, format_int}

-- A float64 by its bits, or the float64 that the float32 with these bits converts to.
pub data Float : Type 0 where
  float64 : ℕ → Float
  float32 : ℕ → Float

-- A `time.Time`, by the fields that the layout "2006-01-02 15:04:05" prints.
pub record DateTime : Type 0 where
  pub year : ℕ
  pub month : ℕ
  pub day : ℕ
  pub hour : ℕ
  pub minute : ℕ
  pub second : ℕ

-- The `interface{}` of a column; `other` holds the `%v` text of any further type.
pub data Value : Type 0 where
  null : Value
  int : ℤ → Value
  float : Float → Value
  str : Bytes → Value
  blob : Bytes → Value
  time : DateTime → Value
  other : Bytes → Value

-- A `map[string]interface{}`, by its entries; `image_set` is `m[k] = v`.
abbrev pub Image : Type 0
Image = List (Bytes × Value)

unfoldable pub image_get : Bytes → Image → Option Value
image_get k [] = none
image_get k ((j, v) ∷ m) = if eq_bytes j k then some v else image_get k m

unfoldable pub image_set : Bytes → Value → Image → Image
image_set k v [] = (k, v) ∷ []
image_set k v ((j, w) ∷ m) = if eq_bytes j k then (k, v) ∷ m else (j, w) ∷ image_set k v m

abbrev pub keys : Image → List Bytes
keys [] = []
keys ((k, v) ∷ m) = k ∷ keys m

pub data EventType : Type 0 where
  insert_event update_event delete_event : EventType
  unknown_event : Bytes → EventType

-- `nil` images are `none`. `PrimaryKey`, which the parser always leaves nil, is left out.
pub record RowEvent : Type 0 where
  pub type : EventType
  pub database : Bytes
  pub table : Bytes
  pub timestamp : ℕ
  pub before : Option Image
  pub after : Option Image

abbrev quote : ℕ
quote = b'\''

-- `escapeString`: each quote is doubled.
unfoldable pub escape_string : Bytes → Bytes
escape_string [] = []
escape_string (c ∷ s) = if c == quote then quote ∷ quote ∷ escape_string s else c ∷ escape_string s

unfoldable is_printable_binary : Bytes → Bool
is_printable_binary [] = true
is_printable_binary (c ∷ s) =
    (leb 0x20 c && leb c 0x7e || (c == 9 || (c == 10 || c == 13))) && is_printable_binary s

hex_digit : ℕ → ℕ
hex_digit d = if ltb d 10 then b'0' + d else b'A' + (d - 10)

-- `%X` of a byte slice.
unfoldable hex_encode : Bytes → Bytes
unfolding hex_digit
hex_encode [] = []
hex_encode (c ∷ s) = hex_digit (c / 16) ∷ hex_digit (c % 16) ∷ hex_encode s

-- "2006-01-02 15:04:05".
unfoldable pub format_time : DateTime → Bytes
format_time t =
    decimal_padded 4 t.year
    ++ (text "-"
        ++ (decimal_padded 2 t.month
            ++ (text "-"
                ++ (decimal_padded 2 t.day
                    ++ (text " "
                        ++ (decimal_padded 2 t.hour
                            ++ (text ":"
                                ++ (decimal_padded 2 t.minute
                                    ++ (text ":" ++ decimal_padded 2 t.second)))))))))

abbrev pub quoted : Bytes → Bytes
quoted s = quote ∷ (s ++ (quote ∷ []))

-- `FormatColumnValue`, which returns no error. `%g` is a parameter.
module _ (format_g : Float → Bytes) where
  unfoldable pub format_column_value : Value → Bytes
  unfolding escape_string is_printable_binary hex_encode format_time
  format_column_value null = text "NULL"
  format_column_value (int n) = format_int n
  format_column_value (float f) = format_g f
  format_column_value (str s) = quoted (escape_string s)
  format_column_value (blob b) =
      if is_printable_binary b then quoted (escape_string b) else b'X' ∷ quoted (hex_encode b)
  format_column_value (time t) = quoted (format_time t)
  format_column_value (other t) = quoted (escape_string t)
