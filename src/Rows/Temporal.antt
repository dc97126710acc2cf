-- ===== src/Rows/Temporal.antt =====
-- internal/parser/rows_event.go: the readers of DATE, TIME, TIMESTAMP and DATETIME columns, of the
-- old formats and of those with fractional seconds.
use database_flashback.Base.{
  ℕ, ◌+◌, ◌-◌, ◌*◌, ◌/◌, ◌%◌, ◌^◌, Bool, ◌&&◌, Bytes, ◌++◌, text, length, take, ltb, leb, ◌==◌,
  if◌then◌else◌, decimal_padded,
}
use database_flashback.Value.{str, DateTime, format_time}
use database_flashback.Wire.{Read, got, eof, little_endian, bytes_at, read_uint_be}
use database_flashback.Rows.Cell.{Cell, value, failed, panics}

abbrev colons : ℕ → ℕ → ℕ → Bytes
colons h m s =
    decimal_padded 2 h ++ (text ":" ++ (decimal_padded 2 m ++ (text ":" ++ decimal_padded 2 s)))

abbrev dashes : ℕ → ℕ → ℕ → Bytes
dashes y m d =
    decimal_padded 4 y ++ (text "-" ++ (decimal_padded 2 m ++ (text "-" ++ decimal_padded 2 d)))

-- A reader of `n` bytes, lowest first, and the text of the number.
unfoldable pub number_cell : Bytes → ℕ → ℕ → (ℕ → Bytes) → Cell
number_cell buf p n print =
    if ltb (length buf) (p + n)
    then failed p
    else value (str (print (little_endian (bytes_at buf p n)))) (p + n)

unfoldable pub date_text : ℕ → Bytes
date_text v = if v == 0 then text "0000-00-00" else dashes (v / 10000) (v / 100 % 100) (v % 100)

unfoldable pub parse_date : Bytes → ℕ → Cell
unfolding number_cell date_text
parse_date buf p = number_cell buf p 4 date_text

unfoldable pub time_text : ℕ → Bytes
time_text v = colons (v / 10000) (v / 100 % 100) (v % 100)

unfoldable pub parse_old_time : Bytes → ℕ → Cell
unfolding number_cell time_text
parse_old_time buf p = number_cell buf p 3 time_text

-- `time.Unix(secs, 0).UTC()`: the day is counted from 1 March of the year 0, so that the leap day
-- is the last of its year.
unfoldable civil : ℕ → DateTime
civil secs =
    let z = secs / 86400 + 719468 in
    let era = z / 146097 in
    let doe = z % 146097 in
    let yoe = (doe + doe / 36524 - doe / 1460 - doe / 146096) / 365 in
    let doy = doe - (365 * yoe + yoe / 4 - yoe / 100) in
    let mp = (5 * doy + 2) / 153 in
    let month = if ltb mp 10 then mp + 3 else mp - 9 in
    record {
      year = yoe + era * 400 + (if leb month 2 then 1 else 0);
      month = month;
      day = doy - (153 * mp + 2) / 5 + 1;
      hour = secs % 86400 / 3600;
      minute = secs % 3600 / 60;
      second = secs % 60;
    }

abbrev zero_datetime : Bytes
zero_datetime = text "0000-00-00 00:00:00"

unfoldable pub timestamp_text : ℕ → Bytes
unfolding civil format_time
timestamp_text secs = if secs == 0 then zero_datetime else format_time (civil secs)

unfoldable pub parse_old_timestamp : Bytes → ℕ → Cell
unfolding number_cell timestamp_text
parse_old_timestamp buf p = number_cell buf p 4 timestamp_text

unfoldable pub datetime_text : ℕ → Bytes
datetime_text v =
    let date = v / 1000000 in
    let time = v % 1000000 in
    if v == 0
    then zero_datetime
    else dashes (date / 10000) (date / 100 % 100) (date % 100)
      ++ (text " " ++ colons (time / 10000) (time / 100 % 100) (time % 100))

unfoldable pub parse_old_datetime : Bytes → ℕ → Cell
unfolding number_cell datetime_text
parse_old_datetime buf p = number_cell buf p 8 datetime_text

-- `readFractionalPart`: the nanoseconds.
unfoldable pub fraction : Bytes → ℕ → ℕ → ℕ → Read ℕ
fraction buf p n unit =
    if ltb (length buf) (p + n)
    then eof p
    else got (little_endian (bytes_at buf p n) * unit) (p + n)

unfoldable pub read_fractional_part : Bytes → ℕ → ℕ → Read ℕ
unfolding fraction
read_fractional_part buf p fsp =
    if leb 5 fsp
    then fraction buf p 3 1000
    else if leb 3 fsp
    then fraction buf p 2 100000
    else if leb 1 fsp
    then fraction buf p 1 10000000
    else got 0 p

-- `fractionalFormat`: how many digits of the second `Format` prints.
abbrev fraction_digits : ℕ → ℕ
fraction_digits fsp = if leb 1 fsp && leb fsp 6 then fsp else 6

-- The text of a TIMESTAMP2 value; nanoseconds from 10^9 on are carried into the seconds.
unfoldable timestamp2_text : ℕ → ℕ → ℕ → Bytes
unfolding civil format_time
timestamp2_text fsp secs nanos =
    let at = civil (secs + nanos / 10 ^ 9) in
    if secs == 0 && nanos == 0
    then zero_datetime
    else if fsp == 0
    then format_time at
    else format_time at
      ++ (text "." ++ take (fraction_digits fsp) (decimal_padded 9 (nanos % 10 ^ 9)))

unfoldable pub timestamp2_cell : ℕ → ℕ → Read ℕ → Cell
unfolding timestamp2_text
timestamp2_cell fsp secs (got nanos p) = value (str (timestamp2_text fsp secs nanos)) p
timestamp2_cell fsp secs (eof p) = failed p

unfoldable pub parse_timestamp2 : Bytes → ℕ → ℕ → Cell
unfolding timestamp2_cell read_fractional_part
parse_timestamp2 buf p fsp =
    if ltb (length buf) (p + 4)
    then failed p
    else timestamp2_cell fsp (little_endian (bytes_at buf p 4))
        (read_fractional_part buf (p + 4) fsp)

-- What DATETIME2 and TIME2 print: the text `zero` for a value that is zero before its fraction;
-- else the text `whole`, and behind it `fracStr[:fsp]`, which panics if there are fewer digits.
unfoldable pub fraction_cell : ℕ → Bool → Bytes → Bytes → Read ℕ → Cell
fraction_cell fsp is_zero zero whole (eof p) = failed p
fraction_cell fsp is_zero zero whole (got nanos p) =
    let digits = decimal_padded 9 nanos in
    if is_zero
    then value (str zero) p
    else if fsp == 0
    then value (str whole) p
    else if ltb (length digits) fsp
    then panics
    else value (str (whole ++ (text "." ++ take fsp digits))) p

unfoldable pub datetime2_cell : Bytes → ℕ → Read ℕ → Cell
unfolding fraction_cell read_fractional_part
datetime2_cell buf fsp (eof p) = failed p
datetime2_cell buf fsp (got n p) =
    let ym = n / 2 ^ 22 % 2 ^ 17 in
    let day = n / 2 ^ 17 % 32 in
    let hour = n / 2 ^ 12 % 32 in
    let minute = n / 64 % 64 in
    let sec = n % 64 in
    let is_zero = ym == 0 && (day == 0 && (hour == 0 && (minute == 0 && sec == 0))) in
    fraction_cell fsp is_zero zero_datetime
      (dashes (ym / 13) (ym % 13) day ++ (text " " ++ colons hour minute sec))
      (read_fractional_part buf p fsp)

unfoldable pub parse_datetime2 : Bytes → ℕ → ℕ → Cell
unfolding datetime2_cell read_uint_be
parse_datetime2 buf p fsp = datetime2_cell buf fsp (read_uint_be buf p 5)

unfoldable pub time2_cell : Bytes → ℕ → Read ℕ → Cell
unfolding fraction_cell read_fractional_part
time2_cell buf fsp (eof p) = failed p
time2_cell buf fsp (got n p) =
    let negative = n / 2 ^ 23 % 2 == 1 in
    let v = if negative then 2 ^ 23 - 1 - n % 2 ^ 23 else n in
    let hour = v / 2 ^ 12 % 2 ^ 11 in
    let minute = v / 64 % 64 in
    let sec = v % 64 in
    let whole = colons hour minute sec in
    fraction_cell fsp (hour == 0 && (minute == 0 && sec == 0)) (text "00:00:00")
      (if negative then text "-" ++ whole else whole) (read_fractional_part buf p fsp)

unfoldable pub parse_time2 : Bytes → ℕ → ℕ → Cell
unfolding time2_cell read_uint_be
parse_time2 buf p fsp = time2_cell buf fsp (read_uint_be buf p 3)
