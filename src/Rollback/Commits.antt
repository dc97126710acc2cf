-- ===== src/Rollback/Commits.antt =====
-- What a whole run of `Execute` has committed, and what its result says of it.
use database_flashback.Base.{
  ◌*◌, if◌then◌else◌, ℕ, suc, ◌+◌, ◌≤◌, ◌<◌, ◌≡◌, refl, sym, ◌∙◌, Bool, false, none, List, [], ◌∷◌,
  ◌++◌, arith, Bytes, length, take, take_all, append_assoc, append-nil, ap, concat, length-append,
  length-take,
}
use database_flashback.Rollback.Batches.{estimate_bytes, build_batches, concat-build_batches}
use database_flashback.Rollback.Executor.{
  Driver, DbError, Outcome, executed, failed, stuck, ExecResult, ExecOptions, head_or,
  error_message, BatchResult, or_default, empty_result, count_batch, add_error, after_batch,
  batches_loop, execute_with_retry, execute_on,
}
use database_flashback.Rollback.Retry.{IsTransactional, Returns, execute_with_retry-Returns}

-- `Kept batches kept`: `kept` is, for a first part of the batches, the first statements of each.
pub data Kept : List (List Bytes) → List Bytes → Type 0 where
  stop : (bs : List (List Bytes)) → Kept bs []
  keep :
      (b : List Bytes) (bs : List (List Bytes)) (n : ℕ) {kept : List Bytes}
      → n ≤ length b
      → Kept bs kept
      → Kept (b ∷ bs) (take n b ++ kept)

-- What a run promises over what was committed before and the result before it.
pub record Accounts (bs : List (List Bytes)) (before after : List Bytes) (r r' : ExecResult)
    : Type 0 where
  pub kept : List Bytes
  pub kept_part : Kept bs kept
  pub appended : after ≡ before ++ kept
  pub counted : r'.rows_affected ≡ r.rows_affected + length kept
  pub complete : r'.batches_complete ≤ r.batches_complete + length bs
  pub ended : length r'.errors ≤ length r.errors + 1
  pub all_done :
      length r'.errors ≤ length r.errors → r'.batches_complete ≡ r.batches_complete + length bs

length-add_error :
    (i : ℕ) (b : List Bytes) (e : DbError) (r : ExecResult)
    → length (add_error i b e r).errors ≡ suc (length r.errors)
unfolding add_error
length-add_error i b e r = omega (
  arith,
  length-append r.errors
      (record { batch_num = i; sql = head_or b []; error = error_message e } ∷ []),
)

length-take_le : (n : ℕ) (b : List Bytes) → n ≤ length b → length (take n b) ≡ n
length-take_le n b h = omega (arith, length-take n b)

module _ (d : Driver) (t : IsTransactional d) where
  -- A committed batch in front of what the rest of the run does.
  keep-Accounts :
      (b : List Bytes) (bs : List (List Bytes)) (n : ℕ) (before mid after : List Bytes)
      (r r' : ExecResult)
      → n ≤ length b
      → mid ≡ before ++ take n b
      → Accounts bs mid after (count_batch n r) r'
      → Accounts (b ∷ bs) before after r r'
  unfolding count_batch
  keep-Accounts b bs n before mid after r r' h e a = record {
    kept = take n b ++ a.kept;
    kept_part = keep b bs n h a.kept_part;
    appended = a.appended ∙ ap (λ p. p ++ a.kept) e ∙ append_assoc before (take n b) a.kept;
    counted = omega (arith, a.counted, length-append (take n b) a.kept, length-take_le n b h);
    complete = omega (arith, a.complete);
    ended = a.ended;
    all_done = λ none_new. omega (arith, a.all_done none_new);
  }

  after_batch-Accounts :
      (on_batch : Bool) (i : ℕ) (b : List Bytes) (bs : List (List Bytes))
      (next : ExecResult → List BatchResult → d.Db → d.Db × ExecResult × List BatchResult)
      (r : ExecResult) (calls : List BatchResult) (db : d.Db) (o : d.Db × Outcome)
      → Returns (d.committed db) b (d.committed o.0) o.1
      → ((r' : ExecResult) (calls' : List BatchResult) (db' : d.Db)
          → Accounts bs
              (d.committed db')
              (d.committed (next r' calls' db').0)
              r'
              (next r' calls' db').1)
      → let out = after_batch d on_batch i b next r calls o in
        Accounts (b ∷ bs) (d.committed db) (d.committed out.0) r out.1
  unfolding after_batch
  after_batch-Accounts on_batch i b bs next r calls db (db', executed n) h ih =
      keep-Accounts b bs n (d.committed db) (d.committed db') _ r _ h.1 h.0 (
        ih (count_batch n r)
          (if on_batch
            then calls
              ++ (record {
                batch_num = i;
                sql_count = n;
                bytes_estimate = estimate_bytes b;
                rows_affected = n;
                error = none;
              }
                  ∷ [])
            else calls)
          db')
  after_batch-Accounts on_batch i b bs next r calls db (db', failed e) h ih = record {
    kept = [];
    kept_part = stop (b ∷ bs);
    appended = h ∙ sym (append-nil (d.committed db));
    counted = unfold add_error in omega arith;
    complete = unfold add_error in omega arith;
    ended = omega (arith, length-add_error i b e r);
    all_done = λ none_new. absurd (omega (arith, length-add_error i b e r, none_new));
  }
  after_batch-Accounts on_batch i b bs next r calls db (db', stuck) h ih = absurd h

  batches_loop-Accounts :
      (bs : List (List Bytes)) (on_batch : Bool) (i : ℕ) (r : ExecResult) (calls : List BatchResult)
      (db : d.Db)
      → let out = batches_loop d on_batch i bs r calls db in
        Accounts bs (d.committed db) (d.committed out.0) r out.1
  unfolding batches_loop
  batches_loop-Accounts [] on_batch i r calls db = record {
    kept = [];
    kept_part = stop [];
    appended = sym (append-nil (d.committed db));
    counted = omega arith;
    complete = omega arith;
    ended = omega arith;
    all_done = λ _. omega arith;
  }
  batches_loop-Accounts (b ∷ bs) on_batch i r calls db =
      after_batch-Accounts on_batch i b bs (batches_loop d on_batch (i + 1) bs) r calls db
        (execute_with_retry d db b) (execute_with_retry-Returns d t db b)
        (batches_loop-Accounts bs on_batch (i + 1))

length-Kept :
    {bs : List (List Bytes)} {kept : List Bytes} → Kept bs kept → length kept ≤ length (concat bs)
length-Kept (stop bs) = omega arith
length-Kept (keep b bs n {kept = kept} h k) = omega (
  arith,
  length-Kept k,
  length-append (take n b) kept,
  length-append b (concat bs),
  length-take_le n b h,
)

nil_of_length : (xs : List Bytes) → length xs ≤ 0 → [] ≡ xs
nil_of_length [] h = refl
nil_of_length (x ∷ xs) h = absurd (omega arith)

-- Where nothing was cut off, everything was kept.
Kept-whole :
    {bs : List (List Bytes)} {kept : List Bytes}
    → Kept bs kept
    → length (concat bs) ≤ length kept
    → kept ≡ concat bs
Kept-whole (stop bs) h = nil_of_length (concat bs) h
Kept-whole (keep b bs n {kept = kept} h k) full =
    let sizes : (length b ≤ n) × (length (concat bs) ≤ length kept) = omega (
      arith,
      full,
      length-Kept k,
      length-append (take n b) kept,
      length-append b (concat bs),
      length-take_le n b h,
    ) in
    ap (λ t. t ++ kept) (take_all n b sizes.0) ∙ ap (λ t. b ++ t) (Kept-whole k sizes.1)

-- The batches that `Execute` makes of its statements.
abbrev pub batches_of : List Bytes → ExecOptions → List (List Bytes)
batches_of sqls opts =
    build_batches sqls (or_default opts.batch_size 1000)
      (or_default opts.max_batch_bytes (10 * 1024 * 1024))

-- The result that the loop of `Execute` starts from.
abbrev pub fresh_result : List Bytes → ExecOptions → ExecResult
fresh_result sqls opts = record empty_result { batches_total = length (batches_of sqls opts) }

module _ (d : Driver) (t : IsTransactional d) where
  -- A run that is not dry, over a transactional server, leaves committed what was there before and
  -- behind it, in order, the first statements of each of a first part of the batches;
  -- `RowsAffected` is their number. At most one error is recorded, and where none is, every batch
  -- counts as complete.
  pub execute_on-Accounts :
      (db : d.Db) (sqls : List Bytes) (opts : ExecOptions)
      → opts.dry_run ≡ false
      → let out = execute_on d db sqls opts in
        Accounts
          (batches_of sqls opts)
          (d.committed db)
          (d.committed out.0)
          (fresh_result sqls opts)
          out.1
  unfolding execute_on build_batches
  execute_on-Accounts db [] opts h = record {
    kept = [];
    kept_part = stop [];
    appended = sym (append-nil (d.committed db));
    counted = omega arith;
    complete = omega arith;
    ended = omega arith;
    all_done = λ _. omega arith;
  }
  execute_on-Accounts db (s ∷ sqls) opts h = rw h (
      batches_loop-Accounts d t (batches_of (s ∷ sqls) opts) opts.on_batch 0
        (fresh_result (s ∷ sqls) opts) [] db)

  -- A run whose `RowsAffected` is the number of the statements has committed all of them, in order
  -- and behind what was committed before.
  pub execute_on_all :
      (db : d.Db) (sqls : List Bytes) (opts : ExecOptions)
      → opts.dry_run ≡ false
      → (execute_on d db sqls opts).1.rows_affected ≡ length sqls
      → d.committed (execute_on d db sqls opts).0 ≡ d.committed db ++ sqls
  execute_on_all db sqls opts h n =
      let a = execute_on-Accounts db sqls opts h in
      let parts =
        concat-build_batches sqls (or_default opts.batch_size 1000)
          (or_default opts.max_batch_bytes (10 * 1024 * 1024)) in
      a.appended
      ∙ ap (λ k. d.committed db ++ k)
          (Kept-whole a.kept_part (rw parts (omega (arith, a.counted, n))) ∙ parts)

  -- A run that records no error but whose `RowsAffected` is below the number of the statements
  -- counts every batch as complete, and yet fewer statements have been committed than were given.
  execute_on_lost :
      (db : d.Db) (sqls : List Bytes) (opts : ExecOptions)
      → opts.dry_run ≡ false
      → (execute_on d db sqls opts).1.errors ≡ []
      → (execute_on d db sqls opts).1.rows_affected < length sqls
      → ((execute_on d db sqls opts).1.batches_complete ≡ length (batches_of sqls opts))
        × (length (d.committed (execute_on d db sqls opts).0)
            < length (d.committed db) + length sqls)
  execute_on_lost db sqls opts h e n =
      let a = execute_on-Accounts db sqls opts h in
      (
        omega (arith, a.all_done (omega (arith, ap length e))),
        omega (arith, ap length a.appended, length-append (d.committed db) a.kept, a.counted, n),
      )
