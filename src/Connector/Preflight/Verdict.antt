-- ===== src/Connector/Preflight/Verdict.antt =====
-- internal/connector/mysql.go: what the status of `Preflight` says of its checks.
use database_flashback.Base.{
  ℕ, ◌≡◌, refl, Bool, true, false, ◌||◌, List, [], ◌∷◌, Bytes, if◌then◌else◌, arith, ◌≢◌,
}
use database_flashback.Connector.Preflight.{
  pass, fail, query_error, Server, is_fail, check_version, check_binlog_format, check_log_bin,
  check_privileges, check_column_metadata, run_preflight, PreflightCheck,
}

-- Some check of a result has failed.
abbrev any_fails : List PreflightCheck → Bool
any_fails [] = false
any_fails (c ∷ cs) = is_fail c.status || any_fails cs

columns_fail :
    (quotient : ℕ → ℕ → Bytes) (quote : Bytes → Bytes) (name e : Bytes)
    → name ≢ []
    → is_fail (check_column_metadata quotient quote name (query_error e)).status ≡ true
unfolding check_column_metadata
columns_fail quotient quote [] e named = absurd (named refl)
columns_fail quotient quote (c ∷ name) e named = refl

-- The check of the version, of the format, of the log or of the privileges fails.
abbrev one_of_four : Server → Bool
one_of_four s =
    is_fail (check_version s.version).status
    || (is_fail (check_binlog_format s.binlog_format).status
        || (is_fail (check_log_bin s.log_bin).status || is_fail (check_privileges s.grants).status))

-- The status of `Preflight` is FAIL exactly if the check of the version, of the format, of the log or
-- of the privileges failed, and PASS otherwise; it is never WARN.
run_preflight_verdict :
    (quotient : ℕ → ℕ → Bytes) (quote : Bytes → Bytes) (name : Bytes) (s : Server)
    → (run_preflight quotient quote name s).status ≡ (if one_of_four s then fail else pass)
unfolding run_preflight
run_preflight_verdict quotient quote name s = ground arith

-- Where the checks of the version, the format, the log and the privileges do not fail and the columns
-- of the configured database cannot be queried, the status of `Preflight` is PASS although one of the
-- checks in its result has failed.
run_preflight_columns :
    (quotient : ℕ → ℕ → Bytes) (quote : Bytes → Bytes) (name : Bytes) (s : Server) (e : Bytes)
    → one_of_four s ≡ false
    → name ≢ []
    → s.column_tables ≡ query_error e
    → let res = run_preflight quotient quote name s in
      (res.status ≡ pass) × (any_fails res.checks ≡ true)
unfolding run_preflight
run_preflight_columns quotient quote name s e four named broken =
    let columns : is_fail (check_column_metadata quotient quote name s.column_tables).status
        ≡ true =
      rw broken (columns_fail quotient quote name e named) in
    (ground (arith, four), ground (arith, columns))
