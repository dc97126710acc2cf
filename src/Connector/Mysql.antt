-- ===== src/Connector/Mysql.antt =====
-- internal/connector/mysql.go: `ExecuteRollback` and `executeBatch`, `ParseBinlog`, and helpers.
pub mod Commits
pub mod Units
mod Examples
use database_flashback.Base.{
  ℕ, zero, suc, ◌+◌, ◌-◌, ◌*◌, ◌/◌, Bool, true, false, not, Option, none, some, List, [], ◌∷◌, ◌++◌,
  Bytes, text, decimal, length, take, drop, ltb, leb, ◌==◌, if◌then◌else◌, eq_bytes, join, ◌⊎◌, inl,
  inr, ◌||◌, ◌&&◌,
}
use database_flashback.Base.Names.{has}
use database_flashback.Base.Int.{ℤ, pos, negsuc}
use database_flashback.Rollback.Executor.{Driver, DbError, execute_batch, or_default, error_text}

-- The loop of `formatBytes`: the unit and the index of its letter.
unfoldable pub unit_loop : ℕ → ℕ → ℕ → ℕ → Option (ℕ × ℕ)
unit_loop zero n div exp = none
unit_loop (suc fuel) n div exp =
    let rest = unit_loop fuel (n / 1024) (div * 1024) (exp + 1) in
    if leb 1024 n then rest else some (div, exp)

-- `formatBytes` of a size that is not negative: the plain number, or the number over a unit with the
-- unit's letter. `none` is the panic of an index out of range, or a loop that does not end.
unfoldable pub byte_unit : ℕ → Option (ℕ × ℕ)
unfolding unit_loop
byte_unit b = if ltb b 1024 then some (1, 0) else unit_loop 64 (b / 1024) 1024 0

abbrev pub letters : Bytes
letters = text "KMGTPE"

abbrev letter_at : Bytes → ℕ → Option ℕ
letter_at [] i = none
letter_at (c ∷ cs) zero = some c
letter_at (c ∷ cs) (suc i) = letter_at cs i

unfoldable pub format_bytes : (ℕ → ℕ → Bytes) → ℕ → Option Bytes
unfolding byte_unit
format_bytes quotient b = if ltb b 1024 then some (decimal b ++ text " B") else elim (byte_unit b) [
  | none ↦ none
  | some (div, exp) ↦ elim (letter_at letters exp) [
    | none ↦ none
    | some c ↦ some (quotient b div ++ (text " " ++ (c ∷ text "B")))
  ]
]

-- `sqls[i:end]` for i = 0, batchSize, …, on fuel; a batch has `suc n` statements at most.
unfoldable pub batches_from : ℕ → ℕ → List Bytes → List (List Bytes)
batches_from zero n sqls = []
batches_from (suc fuel) n [] = []
batches_from (suc fuel) n (s ∷ sqls) = (s ∷ take n sqls) ∷ batches_from fuel n (drop n sqls)

pub record RollbackResult : Type 0 where
  pub batches_completed : ℕ
  pub errors : List (ℕ × DbError)

-- An entry of `Errors`, before `fmt.Sprintf("batch %d: %v", result.BatchesCompleted, err)`.
abbrev pub batch_error : RollbackResult → DbError → ℕ × DbError
batch_error r e = (r.batches_completed, e)

module _ (d : Driver) where
  open d use {Db}

  abbrev pub count_batch : RollbackResult → Option DbError → RollbackResult
  count_batch r none = record r { batches_completed = suc r.batches_completed }
  count_batch r (some e) = record r { errors = r.errors ++ batch_error r e ∷ [] }

  -- The loop over the batches; an error does not end it.
  unfoldable pub rollback_loop : List (List Bytes) → Db → RollbackResult → Db × RollbackResult
  rollback_loop [] db r = (db, r)
  rollback_loop (batch ∷ batches) db r =
      let out = execute_batch d db batch in rollback_loop batches (out.0) (count_batch r (out.1))

  -- `ExecuteRollback`; `none` is the error "connector: not connected".
  unfoldable pub execute_rollback : Option Db → List Bytes → ℤ → Bool → Option (Db × RollbackResult)
  unfolding batches_from rollback_loop or_default
  execute_rollback none sqls batch_size dry_run = none
  execute_rollback (some db) sqls batch_size dry_run =
      let nothing : RollbackResult = record { batches_completed = 0; errors = [] } in
      if dry_run
      then some (db, nothing)
      else some (
          rollback_loop (batches_from (length sqls) (or_default batch_size 100 - 1) sqls) db
            nothing)

-- The requested files that the server does not have.
unfoldable missing_files : List Bytes → List Bytes → List Bytes
unfolding has
missing_files available [] = []
missing_files available (f ∷ fs) =
    if has f available then missing_files available fs else f ∷ missing_files available fs

-- `ParseBinlog`, with what `GetBinlogFiles` gives; it finds no events, or an error.
unfoldable parse_binlog : Bool → Bytes ⊎ List Bytes → List Bytes → Bytes ⊎ Unit {0}
unfolding missing_files
parse_binlog connected available [] = inl (
    if connected
    then text "connector: no binlog files specified"
    else text "connector: not connected")
parse_binlog false available (f ∷ fs) = inl (text "connector: not connected")
parse_binlog true (inl e) (f ∷ fs) = inl (text "connector: cannot list binlog files: " ++ e)
parse_binlog true (inr names) (f ∷ fs) = elim (missing_files names (f ∷ fs)) [
  | [] ↦ inr tt
  | m ∷ ms ↦ inl (text "connector: binlog files not found: " ++ join (text ", ") (m ∷ ms))
]
