-- ===== src/TableMap/MysqlType.antt =====
-- internal/parser/table_map.go: the column type codes MYSQL_TYPE_….
use database_flashback.Base.{ℕ}

abbrev pub decimal : ℕ
decimal = 0

abbrev pub tiny : ℕ
tiny = 1

abbrev pub short : ℕ
short = 2

abbrev pub long : ℕ
long = 3

abbrev pub float : ℕ
float = 4

abbrev pub double : ℕ
double = 5

abbrev pub null : ℕ
null = 6

abbrev pub timestamp : ℕ
timestamp = 7

abbrev pub longlong : ℕ
longlong = 8

abbrev pub int24 : ℕ
int24 = 9

abbrev pub date : ℕ
date = 10

abbrev pub time : ℕ
time = 11

abbrev pub datetime : ℕ
datetime = 12

abbrev pub year : ℕ
year = 13

abbrev pub newdate : ℕ
newdate = 14

abbrev pub varchar : ℕ
varchar = 15

abbrev pub bit : ℕ
bit = 16

abbrev pub timestamp2 : ℕ
timestamp2 = 17

abbrev pub datetime2 : ℕ
datetime2 = 18

abbrev pub time2 : ℕ
time2 = 19

abbrev pub json : ℕ
json = 245

abbrev pub newdecimal : ℕ
newdecimal = 246

abbrev pub enum : ℕ
enum = 247

abbrev pub set : ℕ
set = 248

abbrev pub tiny_blob : ℕ
tiny_blob = 249

abbrev pub medium_blob : ℕ
medium_blob = 250

abbrev pub long_blob : ℕ
long_blob = 251

abbrev pub blob : ℕ
blob = 252

abbrev pub var_string : ℕ
var_string = 253

abbrev pub string : ℕ
string = 254

abbrev pub geometry : ℕ
geometry = 255
