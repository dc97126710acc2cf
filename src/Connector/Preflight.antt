-- ===== src/Connector/Preflight.antt =====
-- internal/connector/mysql.go and types.go: `Preflight` and its checks. The answers of the server, the
-- text of a quoted name and of a quotient are parameters.
pub mod Verdict
use database_flashback.Base.{
  ℕ, zero, suc, ◌+◌, ◌-◌, Bool, true, false, not, Option, none, some, List, [], ◌∷◌, ◌++◌, Bytes,
  text, decimal, length, ltb, leb, ◌==◌, if◌then◌else◌, eq_bytes, join, ◌||◌, ◌&&◌,
}
use database_flashback.Base.Int.{ℤ, pos, negsuc}
use database_flashback.Parser.Ddl.{to_upper, trim_space, contains}
use database_flashback.Flashback.Scan.{scan_int}
use database_flashback.Connector.Mysql.{format_bytes}

pub data PreflightStatus : Type 0 where
  pass warn fail : PreflightStatus

pub record PreflightCheck : Type 0 where
  pub name : Bytes
  pub status : PreflightStatus
  pub message : Bytes

pub record PreflightResult : Type 0 where
  pub status : PreflightStatus
  pub version : Bytes
  pub checks : List PreflightCheck

-- What a query comes to: the text of its error, or a value.
pub data Answer (A : Type 0) : Type 0 where
  query_error : Bytes → Answer A
  given : A → Answer A

-- The name before the first byte that is neither a digit nor a dot, unless that is the first byte.
abbrev is_version_byte : ℕ → Bool
is_version_byte c = c == b'.' || (leb b'0' c && leb c b'9')

version_prefix : Bytes → Bytes
version_prefix [] = []
version_prefix (c ∷ s) = let rest = version_prefix s in if is_version_byte c then c ∷ rest else []

abbrev stripped : Bytes → Bytes
stripped v = elim (version_prefix v) [ [] ↦ v | c ∷ s ↦ c ∷ s ]

-- `strings.SplitN(v, ".", …)`: the parts between dots, of which the first three are read.
split_dots : Bytes → Bytes → List Bytes
split_dots part [] = part ∷ []
split_dots part (c ∷ s) =
    let next = part ∷ split_dots [] s in
    let same = split_dots (part ++ c ∷ []) s in if c == b'.' then next else same

-- `fmt.Sscanf(part, "%d", &n)`, which leaves 0 where nothing is read.
abbrev scanned_number : List Bytes → ℕ → ℤ
scanned_number [] i = pos 0
scanned_number (p ∷ ps) zero = elim (scan_int (trim_space p)) [ none ↦ pos 0 | some n ↦ n ]
scanned_number (p ∷ ps) (suc i) = scanned_number ps i

-- `parseVersion`: major, minor and patch.
unfoldable pub parse_version : Bytes → ℤ × ℤ × ℤ
unfolding version_prefix split_dots
parse_version v =
    let parts = split_dots [] (stripped v) in
    (scanned_number parts 0, scanned_number parts 1, scanned_number parts 2)

abbrev pub less_than : ℤ → ℕ → Bool
less_than (pos n) k = ltb n k
less_than (negsuc n) k = true

abbrev pub check : Bytes → PreflightStatus → Bytes → PreflightCheck
check name status message = record { name = name; status = status; message = message }

unfoldable pub check_version : Answer Bytes → PreflightCheck
unfolding parse_version
check_version (query_error e) =
    check (text "MySQL Version") fail (text "cannot query version: " ++ e)
check_version (given version) =
    if less_than (parse_version version).0 8
    then check (text "MySQL Version") fail
        (text "MySQL " ++ (version ++ text " detected; MySQL 8.0+ required"))
    else check (text "MySQL Version") pass version

unfoldable pub check_binlog_format : Answer Bytes → PreflightCheck
unfolding to_upper
check_binlog_format (query_error e) =
    check (text "Binlog Format") fail (text "cannot query binlog_format: " ++ e)
check_binlog_format (given value') =
    if not (eq_bytes (to_upper value') (text "ROW"))
    then check (text "Binlog Format") fail
        (text "binlog_format is " ++ (value' ++ text "; ROW required for PITR"))
    else check (text "Binlog Format") pass (text "binlog_format is ROW")

unfoldable pub check_log_bin : Answer Bytes → PreflightCheck
unfolding to_upper
check_log_bin (query_error e) =
    check (text "Binary Logging Enabled") fail (text "cannot query log_bin: " ++ e)
check_log_bin (given value') =
    if not (eq_bytes (to_upper value') (text "ON")) && not (eq_bytes value' (text "1"))
    then check (text "Binary Logging Enabled") fail
        (text "binary logging is not enabled (log_bin is OFF)")
    else check (text "Binary Logging Enabled") pass (text "binary logging is ON")

abbrev pub required : List Bytes
required = text "SELECT" ∷ text "REPLICATION SLAVE" ∷ text "REPLICATION CLIENT" ∷ []

unfoldable pub missing_from : Bytes → List Bytes → List Bytes
unfolding contains
missing_from grants [] = []
missing_from grants (priv ∷ privs) =
    if not (contains grants priv)
      && (not (contains grants (text "ALL PRIVILEGES")) && not (contains grants (text "ALL")))
    then priv ∷ missing_from grants privs
    else missing_from grants privs

-- `checkRequiredPrivileges`.
unfoldable pub check_required_privileges : List Bytes → List Bytes
unfolding missing_from to_upper join
check_required_privileges grants = missing_from (to_upper (join (text " ") grants)) required

unfoldable pub check_privileges : Answer (List Bytes) → PreflightCheck
unfolding check_required_privileges join
check_privileges (query_error e) =
    check (text "User Privileges") fail (text "cannot query grants: " ++ e)
check_privileges (given grants) = elim (check_required_privileges grants) [
  | [] ↦ check (text "User Privileges") pass (text "required privileges granted")
  | p ∷ ps ↦
      check (text "User Privileges") warn
        (text "missing recommended privileges: " ++ join (text ", ") (p ∷ ps))
]

-- The tables and columns that the rows of the query name, in the order of the tables.
unfoldable count_columns : Bytes → ℕ → ℕ → List Bytes → ℕ × ℕ
count_columns last tables columns [] = (tables, columns)
count_columns last tables columns (t ∷ ts) =
    count_columns t (if eq_bytes t last then tables else suc tables) (suc columns) ts

module _ (quotient : ℕ → ℕ → Bytes) (quote : Bytes → Bytes) where
  -- The size may be NULL; `none` of the result is the panic of `formatBytes`.
  unfoldable check_database_size : Bytes → Answer (Option ℕ) → PreflightCheck
  unfolding format_bytes
  check_database_size [] q =
      check (text "Database Size") warn (text "no database configured; skipping size check")
  check_database_size (c ∷ name) (query_error e) =
      check (text "Database Size") warn (text "cannot estimate database size: " ++ e)
  check_database_size (c ∷ name) (given none) =
      check (text "Database Size") warn (text "database appears empty or has no tables")
  check_database_size (c ∷ name) (given (some size)) = elim (format_bytes quotient size) [
    | none ↦ check (text "Database Size") warn []
    | some t ↦
        check (text "Database Size") pass (
          text "estimated database size: "
          ++ (decimal size ++ (text " bytes (" ++ (t ++ text ")"))))
  ]

  unfoldable pub check_column_metadata : Bytes → Answer (List Bytes) → PreflightCheck
  unfolding count_columns
  check_column_metadata [] q =
      check (text "Column Metadata") warn
        (text "no database configured; skipping column metadata check")
  check_column_metadata (c ∷ name) (query_error e) =
      check (text "Column Metadata") fail (text "cannot query column metadata: " ++ e)
  check_column_metadata (c ∷ name) (given tables) =
      let counts = count_columns [] 0 0 tables in
      check (text "Column Metadata") pass (
        text "found "
        ++ (decimal counts.0
            ++ (text " tables with "
                ++ (decimal counts.1 ++ (text " columns in database " ++ quote (c ∷ name))))))

  unfoldable check_foreign_keys : Bytes → Answer ℕ → PreflightCheck
  check_foreign_keys [] q =
      check (text "Foreign Key Dependencies") warn
        (text "no database configured; skipping FK check")
  check_foreign_keys (c ∷ name) (query_error e) =
      check (text "Foreign Key Dependencies") warn (text "cannot query FK constraints: " ++ e)
  check_foreign_keys (c ∷ name) (given n) =
      if ltb 0 n
      then check (text "Foreign Key Dependencies") pass (
          text "found "
          ++ (decimal n ++ (text " foreign key constraint(s) in database " ++ quote (c ∷ name))))
      else check (text "Foreign Key Dependencies") pass
          (text "no foreign key constraints in database " ++ quote (c ∷ name))

-- The server's answers to the queries of `Preflight`.
pub record Server : Type 0 where
  pub version : Answer Bytes
  pub binlog_format : Answer Bytes
  pub log_bin : Answer Bytes
  pub grants : Answer (List Bytes)
  pub size : Answer (Option ℕ)
  pub column_tables : Answer (List Bytes)
  pub foreign_keys : Answer ℕ

abbrev pub is_fail : PreflightStatus → Bool
is_fail fail = true
is_fail _ = false

abbrev pub is_pass : PreflightStatus → Bool
is_pass pass = true
is_pass _ = false

-- `if check.Status == PreflightFail { res.Status = PreflightFail }`.
abbrev pub fail_if : PreflightCheck → PreflightStatus → PreflightStatus
fail_if c status = if is_fail c.status then fail else status

module _ (quotient : ℕ → ℕ → Bytes) (quote : Bytes → Bytes) where
  -- `Preflight` of a connected connector for the database `name`.
  unfoldable pub run_preflight : Bytes → Server → PreflightResult
  unfolding check_version check_binlog_format check_log_bin check_privileges check_database_size
      check_column_metadata check_foreign_keys
  run_preflight name s =
      let ver = check_version s.version in
      let format = check_binlog_format s.binlog_format in
      let logs = check_log_bin s.log_bin in
      let privs = check_privileges s.grants in
      let size = check_database_size quotient quote name s.size in
      let columns = check_column_metadata quotient quote name s.column_tables in
      let keys = check_foreign_keys quotient quote name s.foreign_keys in
      record {
        status = fail_if privs (fail_if logs (fail_if format (fail_if ver pass)));
        version = if is_pass ver.status then ver.message else [];
        checks =
            (if is_pass ver.status then record ver { message = [] } else ver)
            ∷ format
            ∷ logs
            ∷ privs
            ∷ size
            ∷ columns
            ∷ keys
            ∷ [];
      }
