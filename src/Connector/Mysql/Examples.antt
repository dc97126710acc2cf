-- ===== src/Connector/Mysql/Examples.antt =====
-- internal/connector/mysql.go: `ExecuteRollback` on a server that refuses one statement.
use database_flashback.Base.{
  ◌-◌, ◌≡◌, refl, false, Option, none, some, List, [], ◌∷◌, ◌++◌, arith, Bytes, text, length,
  concat, eq_bytes, if◌then◌else◌,
}
use database_flashback.Base.Int.{pos}
use database_flashback.Rollback.Executor.{
  Driver, opened, DbError, mysql_error, or_default, execute_batch,
}
use database_flashback.Rollback.Retry.{IsTransactional}
use database_flashback.Connector.Mysql.{RollbackResult, batches_from, execute_rollback}
use database_flashback.Connector.Mysql.Commits.{Chosen, execute_rollback-Chosen}

-- A server on which the statement "bad" fails.
picky_exec : List Bytes × List Bytes → Bytes → (List Bytes × List Bytes) × Option DbError
picky_exec (kept, held) s =
    if eq_bytes s (text "bad")
    then ((kept, held), some (mysql_error 1146 []))
    else ((kept, held ++ (s ∷ [])), none)

abbrev picky : Driver
picky = record {
  Db = List Bytes;
  Tx = List Bytes × List Bytes;
  begin = λ db. opened (db, []);
  exec = picky_exec;
  commit = λ tx. (tx.0 ++ tx.1, none);
  rollback = λ tx. tx.0;
  committed = λ db. db;
  base = λ tx. tx.0;
  pending = λ tx. tx.1;
}

picky-IsTransactional : IsTransactional picky
unfolding picky_exec
picky-IsTransactional = record {
  begin_opens = λ db tx h. ground arith;
  begin_refuses = λ db db' e h. cc;
  exec_adds = λ tx tx' s h. ground arith;
  exec_fails = λ tx tx' s e h. ground arith;
  commit_keeps = λ tx db h. ground arith;
  commit_fails = λ tx db e h. ground arith;
  rollback_drops = λ tx. refl;
}

abbrev three : List Bytes
three = text "a" ∷ text "bad" ∷ text "c" ∷ []

execute_rollback-Chosen_example :
    let batches = batches_from 3 (or_default (pos 1) 100 - 1) three in
    (db' : List Bytes) × (r : RollbackResult) × (kept : List Bytes) × (execute_rollback picky
        (some [])
        three
        (pos 1)
        false
      ≡ some (db', r))
    × (concat batches ≡ three)
    × Chosen batches r.batches_completed (length r.errors) kept
    × (db' ≡ kept)
execute_rollback-Chosen_example =
    execute_rollback-Chosen picky picky-IsTransactional [] three (pos 1)

-- The middle batch fails, and the last one is committed behind it.
execute_rollback_kept :
    (r : RollbackResult) × (execute_rollback picky (some []) three (pos 1) false
      ≡ some (text "a" ∷ text "c" ∷ [], r))
unfolding execute_rollback picky_exec execute_batch
execute_rollback_kept = (_, refl)
