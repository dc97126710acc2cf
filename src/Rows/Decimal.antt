-- ===== src/Rows/Decimal.antt =====
-- internal/parser/rows_event.go: `parseDecimal`, which reads a sign byte and groups of nine digits in
-- 4 bytes each.
use database_flashback.Base.{
  ℕ, zero, suc, ◌+◌, ◌-◌, ◌*◌, ◌/◌, ◌%◌, ◌^◌, Bool, [], ◌∷◌, Bytes, ◌++◌, text, length, ltb, leb,
  ◌==◌, if◌then◌else◌, decimal,
}
use database_flashback.Value.{str}
use database_flashback.Wire.{little_endian, bytes_at, byte_at}
use database_flashback.TableMap.{ColumnMeta}
use database_flashback.Rows.Cell.{Cell, value, panics}

-- The `count` lowest decimal digits of `v`, the most significant first.
unfoldable group_digits : ℕ → ℕ → Bytes
group_digits zero v = []
group_digits (suc d) v = (b'0' + v / 10 ^ d % 10) ∷ group_digits d v

-- `^groupVal` of a uint32 for a negative number.
abbrev group_value : Bool → Bytes → ℕ
group_value negative bytes = let v = little_endian bytes in if negative then 2 ^ 32 - 1 - v else v

-- How many digits the last group holds.
abbrev last_digits : ℕ → ℕ
last_digits len = if ltb 0 (len % 9) then len % 9 else 9

-- The loop over `groups` groups at `p`; the digits of all but the last are nine.
unfoldable groups_loop : Bool → Bytes → ℕ → ℕ → ℕ → Bytes
unfolding group_digits
groups_loop negative buf len zero p = []
groups_loop negative buf len (suc groups) p =
    group_digits (if groups == 0 then last_digits len else 9)
      (group_value negative (bytes_at buf p 4))
    ++ groups_loop negative buf len groups (p + 4)

-- `parseDecimalSimple`.
unfoldable decimal_placeholder : ℕ → ℕ → Bytes
unfolding decimal
decimal_placeholder precision scale =
    text "<decimal(" ++ (decimal precision ++ (text "," ++ (decimal scale ++ text ")>")))

abbrev point_digits : Bytes → Bytes
point_digits [] = []
point_digits (d ∷ digits) = text "." ++ (d ∷ digits)

abbrev whole_digits : Bytes → Bytes
whole_digits [] = text "0"
whole_digits (d ∷ digits) = d ∷ digits

unfoldable decimal_text : Bool → Bytes → Bytes → Bytes
decimal_text negative whole fraction =
    let digits = whole_digits whole ++ point_digits fraction in
    if negative then text "-" ++ digits else digits

-- A scale above the precision makes `integralLen` negative: the division rounds towards zero, and
-- `make` with a negative capacity panics.
unfoldable pub parse_decimal : Bytes → ℕ → ColumnMeta → Cell
unfolding groups_loop decimal_text decimal_placeholder
parse_decimal buf p meta =
    let precision = if meta.precision == 0 then 10 else meta.precision in
    let scale = meta.scale in
    let integral = precision - scale in
    let int_groups = (integral + 8) / 9 in
    let frac_groups = (scale + 8) / 9 in
    let negative_groups = (scale - precision - 8) / 9 in
    let total_bytes = 1 + (int_groups + frac_groups - negative_groups) * 4 in
    let negative = leb 0x80 (byte_at buf p) in
    if ltb (length buf) (p + total_bytes)
    then value (str (decimal_placeholder precision scale)) p
    else if ltb precision scale
    then panics
    else value
        (str (
          decimal_text negative (groups_loop negative buf integral int_groups (p + 1))
            (groups_loop negative buf scale frac_groups (p + 1 + int_groups * 4))))
        (p + total_bytes)
