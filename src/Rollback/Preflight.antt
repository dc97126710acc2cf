-- ===== src/Rollback/Preflight.antt =====
-- internal/rollback/preflight.go: `PreflightRunner`. The answers of the server, the clock and the
-- texts of times and of sizes with a unit are parameters; a size or a retention is not negative.
pub mod Privileges
use database_flashback.Base.{
  ℕ, zero, suc, ◌+◌, ◌*◌, ◌/◌, ◌%◌, Bool, true, false, not, ◌&&◌, ◌||◌, Option, none, some, List,
  [], ◌∷◌, ◌++◌, Bytes, text, decimal, length, join, ltb, leb, ◌==◌, eq_bytes, if◌then◌else◌,
}
use database_flashback.Base.Int.{ℤ, pos, negsuc}
use database_flashback.Parser.Ddl.{to_upper, contains}
use database_flashback.Connector.Preflight.{
  PreflightStatus, pass, warn, fail, PreflightCheck, PreflightResult, Answer, query_error, given,
  parse_version, less_than, is_fail, is_pass, fail_if, check, required,
}

-- What `SHOW BINARY LOGS` comes to: an error at once or between rows, or the sizes of the files.
pub data LogListing : Type 0 where
  not_listed cut_short : Bytes → LogListing
  listed : List ℕ → LogListing

-- The answers of the server; a value may be NULL.
pub record ServerAnswers : Type 0 where
  pub version : Answer Bytes
  pub binlog_format : Answer Bytes
  pub row_image : Answer Bytes
  pub logs : LogListing
  pub expire_seconds : Answer (Option ℕ)
  pub expire_days : Answer (Option ℕ)
  pub grants : Answer (List Bytes)
  pub data_dir : Answer Bytes
  pub data_size : Answer (Option ℕ)

-- The recovery time: how long ago it is, in nanoseconds, and its text and that of its age.
pub record RecoveryPoint : Type 0 where
  pub age : ℕ
  pub time_text : Bytes
  pub hours_text : Bytes

-- 5.7 or later.
abbrev is_too_old : ℤ × ℤ × ℤ → Bool
is_too_old (pos major, minor, patch) = ltb major 5 || (major == 5 && less_than minor 7)
is_too_old (negsuc n, minor, patch) = true

unfoldable check_server_version : Answer Bytes → PreflightCheck
unfolding parse_version
check_server_version (query_error e) =
    check (text "MySQL Version") fail (text "cannot query version: " ++ e)
check_server_version (given version) =
    if is_too_old (parse_version version)
    then check (text "MySQL Version") fail
        (text "MySQL " ++ (version ++ text " detected; 5.7+ required"))
    else check (text "MySQL Version") pass version

unfoldable check_row_format : Answer Bytes → PreflightCheck
unfolding to_upper
check_row_format (query_error e) =
    check (text "Binlog Format") fail (text "cannot query binlog_format: " ++ e)
check_row_format (given format) =
    if eq_bytes (to_upper format) (text "ROW")
    then check (text "Binlog Format") pass (text "binlog_format is ROW")
    else check (text "Binlog Format") fail
        (text "binlog_format is " ++ (format ++ text "; ROW required"))

unfoldable check_binlog_row_image : Answer Bytes → PreflightCheck
unfolding to_upper
check_binlog_row_image (query_error e) =
    check (text "Binlog Row Image") warn (text "cannot query binlog_row_image: " ++ e)
check_binlog_row_image (given image) =
    if eq_bytes (to_upper image) (text "FULL")
    then check (text "Binlog Row Image") pass (text "binlog_row_image is FULL")
    else check (text "Binlog Row Image") warn
        (text "binlog_row_image is " ++ (image ++ text "; FULL recommended for PITR"))

-- The retention in seconds; the older variable counts only where the newer cannot be queried.
unfoldable retention : Answer (Option ℕ) → Answer (Option ℕ) → Option ℕ
retention (given seconds) days = seconds
retention (query_error e) (given (some days)) = some (days * 86_400)
retention (query_error e) (given none) = none
retention (query_error e) (query_error e') = none

-- Whether the recovery time lies before the retention.
unfoldable is_expired : Option RecoveryPoint → Option ℕ → Bool
is_expired (some point) (some seconds) = ltb 0 seconds && ltb (seconds * 1_000_000_000) point.age
is_expired _ _ = false

total_bytes : List ℕ → ℕ
total_bytes [] = 0
total_bytes (n ∷ ns) = n + total_bytes ns

-- `%.0f` of a number of hours: to the nearest, and to the even one of two.
abbrev rounded_hours : ℕ → ℕ
rounded_hours seconds =
    let q = seconds / 3600 in
    let r = seconds % 3600 in if ltb r 1800 || (r == 1800 && q % 2 == 0) then q else suc q

module _ (size_text duration_text : ℕ → Bytes) where
  -- `formatDuration` of whole seconds.
  format_duration : ℕ → Bytes
  format_duration seconds =
      if leb 86_400 seconds
      then decimal (seconds / 86_400) ++ text "d"
      else if leb 3600 seconds
      then decimal (rounded_hours seconds) ++ text "h"
      else duration_text seconds

  abbrev expired_text : RecoveryPoint → ℕ → Bytes
  expired_text point seconds =
      text "recovery time "
      ++ (point.time_text
          ++ (text " is "
              ++ (point.hours_text
                  ++ (text "h ago but binlogs expire after " ++ format_duration seconds))))

  abbrev availability : Option RecoveryPoint → Option ℕ → List ℕ → PreflightCheck
  availability (some point) (some seconds) sizes =
      if is_expired (some point) (some seconds)
      then check (text "Binlog Availability") fail (expired_text point seconds)
      else check (text "Binlog Availability") pass (
          decimal (length sizes)
          ++ (text " binary logs found ("
              ++ (size_text (total_bytes sizes)
                  ++ (text "), retention: " ++ format_duration seconds))))
  availability none (some seconds) sizes = check (text "Binlog Availability") pass (
      decimal (length sizes)
      ++ (text " binary logs found ("
          ++ (size_text (total_bytes sizes) ++ (text "), retention: " ++ format_duration seconds))))
  availability point none sizes = check (text "Binlog Availability") pass (
      decimal (length sizes)
      ++ (text " binary logs found (" ++ (size_text (total_bytes sizes) ++ text ")")))

  unfoldable check_binlog_availability :
      Option RecoveryPoint → LogListing → Answer (Option ℕ) → Answer (Option ℕ) → PreflightCheck
  unfolding is_expired retention format_duration total_bytes
  check_binlog_availability point (not_listed e) seconds days =
      check (text "Binlog Availability") fail (text "cannot query binary logs: " ++ e)
  check_binlog_availability point (cut_short e) seconds days =
      check (text "Binlog Availability") fail (text "error iterating binary logs: " ++ e)
  check_binlog_availability point (listed []) seconds days =
      check (text "Binlog Availability") fail (text "no binary logs found on the server")
  check_binlog_availability point (listed (n ∷ ns)) seconds days =
      availability point (retention seconds days) (n ∷ ns)

  unfoldable check_disk_space : Answer Bytes → Answer (Option ℕ) → PreflightCheck
  check_disk_space (query_error e) size =
      check (text "Disk Space") warn (text "cannot query datadir: " ++ e)
  check_disk_space (given dir) (query_error e) =
      check (text "Disk Space") warn (text "cannot estimate data size: " ++ e)
  check_disk_space (given dir) (given (some (suc n))) =
      check (text "Disk Space") pass
        (text "datadir: " ++ (dir ++ (text ", estimated data: " ++ size_text (suc n))))
  check_disk_space (given dir) (given _) = check (text "Disk Space") pass (text "datadir: " ++ dir)

absent : Bytes → List Bytes → List Bytes
unfolding contains
absent grants [] = []
absent grants (priv ∷ privs) =
    let rest = absent grants privs in if contains grants priv then rest else priv ∷ rest

-- `checkRequiredPrivileges`.
unfoldable pub missing_privileges : List Bytes → List Bytes
unfolding absent to_upper join contains
missing_privileges grants =
    let upper = to_upper (join (text " ") grants) in
    if contains upper (text "ALL PRIVILEGES") || contains upper (text " ALL ")
    then []
    else absent upper required

unfoldable check_permissions : Answer (List Bytes) → PreflightCheck
unfolding missing_privileges join
check_permissions (query_error e) =
    check (text "Permissions") fail (text "cannot query grants: " ++ e)
check_permissions (given grants) = elim (missing_privileges grants) [
  | [] ↦ check (text "Permissions") pass (text "required privileges granted")
  | p ∷ ps ↦
      check (text "Permissions") fail
        (text "missing required privileges: " ++ join (text ", ") (p ∷ ps))
]

-- `Run`.
unfoldable run_checks :
    (ℕ → Bytes) → (ℕ → Bytes) → Option RecoveryPoint → ServerAnswers → PreflightResult
unfolding check_server_version check_row_format check_binlog_row_image check_binlog_availability
    check_permissions check_disk_space
run_checks size_text duration_text point s =
    let version = check_server_version s.version in
    let format = check_row_format s.binlog_format in
    let image = check_binlog_row_image s.row_image in
    let logs =
      check_binlog_availability size_text duration_text point s.logs s.expire_seconds
        s.expire_days in
    let grants = check_permissions s.grants in
    let disk = check_disk_space size_text duration_text s.data_dir s.data_size in
    record {
      status = fail_if grants (fail_if logs (fail_if format (fail_if version pass)));
      version = if is_pass version.status then version.message else [];
      checks = version ∷ format ∷ image ∷ logs ∷ grants ∷ disk ∷ [];
    }
