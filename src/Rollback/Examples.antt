-- ===== src/Rollback/Examples.antt =====
-- Concrete runs of the executor, and its theorems at them.
use database_flashback.Parser.Ddl.{to_upper, contains}
use database_flashback.Connector.Preflight.{check_required_privileges}
use database_flashback.Rollback.Preflight.{missing_privileges}
use database_flashback.Rollback.Preflight.Privileges.{check_required_privileges-missing_privileges}
use database_flashback.Base.{
  ◌⊎◌, join, ◌≡◌, refl, true, false, Option, none, some, List, [], ◌∷◌, ◌++◌, arith, Bytes, text,
  length, concat, All, ltb, if◌then◌else◌,
}
use database_flashback.Base.Int.{pos}
use database_flashback.Rollback.Batches.{
  IsBounded, build_batches, concat-build_batches, build_batches-IsBounded,
}
use database_flashback.Rollback.Executor.{
  Driver, opened, DbError, mysql_error, ExecOptions, execute_batch, execute_with_retry, execute_on,
}
use database_flashback.Rollback.Retry.{
  IsTransactional, AllOrNothing, Returns, execute_batch-AllOrNothing, execute_with_retry-Returns,
}
use database_flashback.Rollback.Commits.{
  Accounts, batches_of, fresh_result, execute_on-Accounts, execute_on_all,
}

-- A server that refuses the eleventh statement of a transaction with error 1206.
limited_exec : List Bytes × List Bytes → Bytes → (List Bytes × List Bytes) × Option DbError
limited_exec (kept, held) s =
    if ltb (length held) 10
    then ((kept, held ++ (s ∷ [])), none)
    else ((kept, held), some (mysql_error 1206 []))

abbrev limited : Driver
limited = record {
  Db = List Bytes;
  Tx = List Bytes × List Bytes;
  begin = λ db. opened (db, []);
  exec = limited_exec;
  commit = λ tx. (tx.0 ++ tx.1, none);
  rollback = λ tx. tx.0;
  committed = λ db. db;
  base = λ tx. tx.0;
  pending = λ tx. tx.1;
}

limited-IsTransactional : IsTransactional limited
unfolding limited_exec
limited-IsTransactional = record {
  begin_opens = λ db tx h. ground arith;
  begin_refuses = λ db db' e h. cc;
  exec_adds = λ tx tx' s h. ground arith;
  exec_fails = λ tx tx' s e h. ground arith;
  commit_keeps = λ tx db h. ground arith;
  commit_fails = λ tx db e h. ground arith;
  rollback_drops = λ tx. refl;
}

abbrev one : List Bytes
one = text "DELETE FROM `t` WHERE `id` = 1 LIMIT 1;" ∷ []

abbrev four : List Bytes
four = text "a" ∷ text "bb" ∷ text "ccc" ∷ text "dddd" ∷ []

abbrev twenty : List Bytes
twenty = four ++ (four ++ (four ++ (four ++ four)))

abbrev plain : ExecOptions
plain = record { batch_size = pos 0; max_batch_bytes = pos 0; dry_run = false; on_batch = true }

-- A count bound of 2, and a byte bound of 6.
batches_by_count :
    build_batches four 2 100 ≡ (text "a" ∷ text "bb" ∷ []) ∷ (text "ccc" ∷ text "dddd" ∷ []) ∷ []
unfolding build_batches
batches_by_count = refl

batches_by_bytes :
    build_batches four 9 6 ≡ (text "a" ∷ text "bb" ∷ text "ccc" ∷ []) ∷ (text "dddd" ∷ []) ∷ []
unfolding build_batches
batches_by_bytes = refl

-- Twenty statements: the first attempt fails, the second commits ten, and nothing is left to do.
twenty_drops_ten :
    let out = execute_on limited [] twenty plain in
    (out.1.rows_affected ≡ 10)
    × (out.1.errors ≡ [])
    × (out.1.batches_complete ≡ 1)
    × (length out.0 ≡ 10)
unfolding execute_on build_batches limited_exec
twenty_drops_ten = (refl, refl, refl, refl)

concat-build_batches_example : concat (build_batches four 2 100) ≡ four
concat-build_batches_example = concat-build_batches four 2 100

build_batches-IsBounded_example : All (IsBounded 2 6) (build_batches four 2 6)
build_batches-IsBounded_example = build_batches-IsBounded four 2 6 (omega arith)

execute_batch-AllOrNothing_example :
    let out = execute_batch limited one twenty in AllOrNothing one twenty out.0 out.1
execute_batch-AllOrNothing_example =
    execute_batch-AllOrNothing limited limited-IsTransactional one twenty

execute_with_retry-Returns_example :
    let out = execute_with_retry limited one twenty in Returns one twenty out.0 out.1
execute_with_retry-Returns_example =
    execute_with_retry-Returns limited limited-IsTransactional one twenty

execute_on-Accounts_example :
    let out = execute_on limited one twenty plain in
    Accounts (batches_of twenty plain) one out.0 (fresh_result twenty plain) out.1
execute_on-Accounts_example =
    execute_on-Accounts limited limited-IsTransactional one twenty plain refl

execute_on_all_example : (execute_on limited one four plain).0 ≡ one ++ four
unfolding execute_on build_batches limited_exec
execute_on_all_example = execute_on_all limited limited-IsTransactional one four plain refl refl

-- Grants on a schema whose name has the letters ALL in it.
abbrev of_mall : List Bytes
of_mall = text "GRANT SELECT ON `mall`.* TO `u`@`%`" ∷ []

check_required_privileges-missing_privileges_example :
    (check_required_privileges of_mall ≡ missing_privileges of_mall)
    ⊎ ((contains (to_upper (join (text " ") of_mall)) (text "ALL") ≡ true)
        × (check_required_privileges of_mall ≡ []))
check_required_privileges-missing_privileges_example =
    check_required_privileges-missing_privileges of_mall

-- The connector finds nothing missing there, and the executor's checks find two privileges missing.
mall_hides_missing :
    (check_required_privileges of_mall ≡ [])
    × (missing_privileges of_mall ≡ text "REPLICATION SLAVE" ∷ text "REPLICATION CLIENT" ∷ [])
unfolding check_required_privileges missing_privileges
mall_hides_missing = (refl, refl)
