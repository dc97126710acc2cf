-- ===== src/Connector/Mysql/Commits.antt =====
-- internal/connector/mysql.go: what `ExecuteRollback` commits.
use database_flashback.Base.{
  ℕ, zero, suc, ◌+◌, ◌-◌, ◌≤◌, ◌≡◌, refl, sym, ap, ◌∙◌, false, Option, none, some, List, [], ◌∷◌,
  ◌++◌, Bytes, length, take, drop, arith, append_assoc, append-nil, concat, take-append-drop,
  length-append, length-drop,
}
use database_flashback.Base.Int.{ℤ}
use database_flashback.Rollback.Executor.{Driver, DbError, execute_batch, or_default}
use database_flashback.Rollback.Retry.{IsTransactional, AllOrNothing, execute_batch-AllOrNothing}
use database_flashback.Connector.Mysql.{
  RollbackResult, batch_error, batches_from, count_batch, rollback_loop, execute_rollback,
}

-- `Chosen batches n m kept`: `n` of the batches, in their order, make up `kept`, and `m` are missing.
pub data Chosen : List (List Bytes) → ℕ → ℕ → List Bytes → Type 0 where
  over : Chosen [] 0 0 []
  took :
      (b : List Bytes) {bs : List (List Bytes)} {n m : ℕ} {kept : List Bytes}
      → Chosen bs n m kept
      → Chosen (b ∷ bs) (suc n) m (b ++ kept)
  skipped :
      (b : List Bytes) {bs : List (List Bytes)} {n m : ℕ} {kept : List Bytes}
      → Chosen bs n m kept
      → Chosen (b ∷ bs) n (suc m) kept

-- The batches are the statements, cut without loss.
concat-batches_from :
    (fuel n : ℕ) (sqls : List Bytes) → length sqls ≤ fuel → concat (batches_from fuel n sqls) ≡ sqls
unfolding batches_from
concat-batches_from zero n [] h = refl
concat-batches_from zero n (s ∷ sqls) h = absurd (omega arith)
concat-batches_from (suc fuel) n [] h = refl
concat-batches_from (suc fuel) n (s ∷ sqls) h =
    let rest = concat-batches_from fuel n (drop n sqls) (omega (arith, length-drop n sqls)) in
    ap (λ t. s ∷ t) (ap (λ t. take n sqls ++ t) rest ∙ take-append-drop n sqls)

-- What a run has done to the committed statements and to the result.
pub record Skips (bs : List (List Bytes)) (before after : List Bytes) (r r' : RollbackResult)
    : Type 0 where
  pub done : ℕ
  pub lost : ℕ
  pub kept : List Bytes
  pub chosen : Chosen bs done lost kept
  pub appended : after ≡ before ++ kept
  pub completed : r'.batches_completed ≡ r.batches_completed + done
  pub errors : length r'.errors ≡ length r.errors + lost

module _ (d : Driver) (t : IsTransactional d) where
  after_batch :
      (b : List Bytes) (bs : List (List Bytes)) (before : List Bytes) (mid : d.Db)
      (after : List Bytes) (r r' : RollbackResult) (e : Option DbError)
      → AllOrNothing before b (d.committed mid) e
      → Skips bs (d.committed mid) after (count_batch d r e) r'
      → Skips (b ∷ bs) before after r r'
  after_batch b bs before mid after r r' none all s = record {
    done = suc s.done;
    lost = s.lost;
    kept = b ++ s.kept;
    chosen = took b s.chosen;
    appended = s.appended ∙ (ap (λ x. x ++ s.kept) all ∙ append_assoc before b s.kept);
    completed = omega (arith, s.completed);
    errors = s.errors;
  }
  after_batch b bs before mid after r r' (some e) nothing s = record {
    done = s.done;
    lost = suc s.lost;
    kept = s.kept;
    chosen = skipped b s.chosen;
    appended = s.appended ∙ ap (λ x. x ++ s.kept) nothing;
    completed = s.completed;
    errors = omega (arith, s.errors, length-append r.errors (batch_error r e ∷ []));
  }

  rollback_loop-Skips :
      (bs : List (List Bytes)) (db : d.Db) (r : RollbackResult)
      → let out = rollback_loop d bs db r in Skips bs (d.committed db) (d.committed out.0) r out.1
  unfolding rollback_loop
  rollback_loop-Skips [] db r = record {
    done = 0;
    lost = 0;
    kept = [];
    chosen = over;
    appended = sym (append-nil (d.committed db));
    completed = omega arith;
    errors = omega arith;
  }
  rollback_loop-Skips (b ∷ bs) db r =
      let out = execute_batch d db b in
      after_batch b bs (d.committed db) out.0 _ r _ out.1 (execute_batch-AllOrNothing d t db b)
        (rollback_loop-Skips bs out.0 (count_batch d r out.1))

  -- `ExecuteRollback` on a connected server with transactions, not dry: it returns a result; the
  -- statements committed behind those before are, in order, those of as many whole batches as
  -- `BatchesCompleted` says, and every other batch has one error. A batch that fails does not stop
  -- the batches behind it.
  pub execute_rollback-Chosen :
      (db : d.Db) (sqls : List Bytes) (batch_size : ℤ)
      → let batches = batches_from (length sqls) (or_default batch_size 100 - 1) sqls in
        (db' : d.Db) × (r : RollbackResult) × (kept : List Bytes) × (execute_rollback d
            (some db)
            sqls
            batch_size
            false
          ≡ some (db', r))
        × (concat batches ≡ sqls)
        × Chosen batches r.batches_completed (length r.errors) kept
        × (d.committed db' ≡ d.committed db ++ kept)
  unfolding execute_rollback
  execute_rollback-Chosen db sqls batch_size =
      let batches = batches_from (length sqls) (or_default batch_size 100 - 1) sqls in
      let nothing : RollbackResult = record { batches_completed = 0; errors = [] } in
      let out = rollback_loop d batches db nothing in
      let s = rollback_loop-Skips batches db nothing in
      let completed : out.1.batches_completed ≡ s.done = omega (arith, s.completed) in
      let errors : length out.1.errors ≡ s.lost = omega (arith, s.errors) in
      (
        out.0,
        out.1,
        s.kept,
        refl,
        concat-batches_from (length sqls) (or_default batch_size 100 - 1) sqls (omega arith),
        rw (completed, errors) s.chosen,
        s.appended,
      )
