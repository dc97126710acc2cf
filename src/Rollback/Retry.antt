-- ===== src/Rollback/Retry.antt =====
-- What one batch leaves committed, over a server whose transactions do what is documented of them.
use database_flashback.Base.{
  subst, ℕ, zero, suc, ◌/◌, ◌≤◌, ◌<◌, ◌≡◌, refl, ◌⊎◌, inl, inr, ◌∙◌, Option, none, some, List, [],
  ◌∷◌, ◌++◌, arith, Bytes, length, take, append_assoc, append-nil, ltb, leb, Bool-cases, ap, ◌||◌,
}
use database_flashback.Rollback.Executor.{
  Driver, Begun, opened, refused, DbError, Outcome, executed, failed, stuck, is_retryable_error,
  clamp_size, run_statements, begun_batch, after_statement, after_attempt, execute_batch,
  retry_loop, execute_with_retry,
}

-- The documented behaviour of transactions that the executor relies on.
pub record IsTransactional (d : Driver) : Type 0 where
  pub begin_opens :
      (db : d.Db) (tx : d.Tx)
      → d.begin db ≡ opened tx
      → (d.base tx ≡ d.committed db) × (d.pending tx ≡ [])
  pub begin_refuses :
      (db db' : d.Db) (e : DbError) → d.begin db ≡ refused db' e → d.committed db' ≡ d.committed db
  pub exec_adds :
      (tx tx' : d.Tx) (s : Bytes)
      → d.exec tx s ≡ (tx', none)
      → (d.base tx' ≡ d.base tx) × (d.pending tx' ≡ d.pending tx ++ (s ∷ []))
  pub exec_fails :
      (tx tx' : d.Tx) (s : Bytes) (e : DbError)
      → d.exec tx s ≡ (tx', some e)
      → d.base tx' ≡ d.base tx
  pub commit_keeps :
      (tx : d.Tx) (db : d.Db)
      → d.commit tx ≡ (db, none)
      → d.committed db ≡ d.base tx ++ d.pending tx
  pub commit_fails :
      (tx : d.Tx) (db : d.Db) (e : DbError)
      → d.commit tx ≡ (db, some e)
      → d.committed db ≡ d.base tx
  pub rollback_drops : (tx : d.Tx) → d.committed (d.rollback tx) ≡ d.base tx

-- All of the statements were added behind `before`, or none.
abbrev pub AllOrNothing : List Bytes → List Bytes → List Bytes → Option DbError → Type 0
AllOrNothing before batch after none = after ≡ before ++ batch
AllOrNothing before batch after (some e) = after ≡ before

-- What a batch of `len` statements promises, over what was committed before: `executed n` says that
-- exactly the first `n` statements were committed; an error, that none was.
abbrev pub Returns : List Bytes → List Bytes → List Bytes → Outcome → Type 0
Returns before batch after (executed n) = (after ≡ before ++ take n batch) × (n ≤ length batch)
Returns before batch after (failed e) = after ≡ before
Returns before batch after stuck = ⊥

clamp_size_id :
    (len size : ℕ) → size ≤ len → (10 ≤ size) ⊎ (size ≡ len) → clamp_size len size ≡ size
unfolding clamp_size
clamp_size_id len size h k = ground arith

module _ (d : Driver) (t : IsTransactional d) where
  commit-AllOrNothing :
      (tx : d.Tx) (r : d.Db × Option DbError)
      → d.commit tx ≡ r
      → AllOrNothing (d.base tx) (d.pending tx) (d.committed r.0) r.1
  commit-AllOrNothing tx (db, none) e = t.commit_keeps tx db e
  commit-AllOrNothing tx (db, some x) e = t.commit_fails tx db x e

  after_statement-AllOrNothing :
      (s : Bytes) (batch : List Bytes) (tx : d.Tx) (r : d.Tx × Option DbError)
      → d.exec tx s ≡ r
      → ((tx' : d.Tx)
          → AllOrNothing
              (d.base tx')
              (d.pending tx' ++ batch)
              (d.committed (run_statements d batch tx').0)
              (run_statements d batch tx').1)
      → let out = after_statement d (run_statements d batch) r in
        AllOrNothing (d.base tx) (d.pending tx ++ (s ∷ batch)) (d.committed out.0) out.1
  unfolding after_statement
  after_statement-AllOrNothing s batch tx (tx', none) e ih =
      let (kept, added) = t.exec_adds tx tx' s e in
      subst
        (λ b.
          AllOrNothing b (d.pending tx ++ (s ∷ batch)) (d.committed (run_statements d batch tx').0)
            (run_statements d batch tx').1)
        kept
        (subst
          (λ q.
            AllOrNothing (d.base tx') q (d.committed (run_statements d batch tx').0)
              (run_statements d batch tx').1)
          (ap (λ q. q ++ batch) added ∙ append_assoc (d.pending tx) (s ∷ []) batch) (ih tx'))
  after_statement-AllOrNothing s batch tx (tx', some x) e ih =
      t.rollback_drops tx' ∙ t.exec_fails tx tx' s x e

  run_statements-AllOrNothing :
      (batch : List Bytes) (tx : d.Tx)
      → let out = run_statements d batch tx in
        AllOrNothing (d.base tx) (d.pending tx ++ batch) (d.committed out.0) out.1
  unfolding run_statements
  run_statements-AllOrNothing [] tx = rw append-nil (commit-AllOrNothing tx (d.commit tx) refl)
  run_statements-AllOrNothing (s ∷ batch) tx =
      after_statement-AllOrNothing s batch tx (d.exec tx s) refl (run_statements-AllOrNothing batch)

  begun_batch-AllOrNothing :
      (batch : List Bytes) (db : d.Db) (b : Begun d.Db d.Tx)
      → d.begin db ≡ b
      → let out = begun_batch d batch b in
        AllOrNothing (d.committed db) batch (d.committed out.0) out.1
  unfolding begun_batch
  begun_batch-AllOrNothing batch db (opened tx) e =
      let (kept, fresh) = t.begin_opens db tx e in
      subst
        (λ b.
          AllOrNothing b batch (d.committed (run_statements d batch tx).0)
            (run_statements d batch tx).1)
        kept
        (subst
          (λ q.
            AllOrNothing (d.base tx) (q ++ batch) (d.committed (run_statements d batch tx).0)
              (run_statements d batch tx).1)
          fresh (run_statements-AllOrNothing batch tx))
  begun_batch-AllOrNothing batch db (refused db' x) e = t.begin_refuses db db' x e

  -- Over a transactional server, a batch is committed whole and in order behind what was committed
  -- before, or, when `executeBatch` returns an error, nothing of it is.
  pub execute_batch-AllOrNothing :
      (db : d.Db) (batch : List Bytes)
      → let out = execute_batch d db batch in
        AllOrNothing (d.committed db) batch (d.committed out.0) out.1
  unfolding execute_batch
  execute_batch-AllOrNothing db batch = begun_batch-AllOrNothing batch db (d.begin db) refl

  -- One attempt at `now` statements, with what the retries at half the size promise.
  after_attempt-Returns :
      (batch : List Bytes) (now : ℕ) (db : d.Db) (again : d.Db → d.Db × Outcome)
      (r : d.Db × Option DbError)
      → now ≤ length batch
      → AllOrNothing (d.committed db) (take now batch) (d.committed r.0) r.1
      → ((db' : d.Db)
          → 10 ≤ now / 2
          → now / 2 < now
          → Returns (d.committed db') batch (d.committed (again db').0) (again db').1)
      → let out = after_attempt d now again r in
        Returns (d.committed db) batch (d.committed out.0) out.1
  unfolding after_attempt
  after_attempt-Returns batch now db again (db', none) h a ih = (a, h)
  after_attempt-Returns batch now db again (db', some e) h a ih =
      elim (Bool-cases (is_retryable_error e)) [
        | inr fatal ↦ rw fatal a
        | inl retry ↦ rw retry (elim (Bool-cases (ltb (now / 2) 10 || leb now (now / 2))) [
          | inl small ↦ rw small a
          | inr large ↦ rw large (
              subst (λ b. Returns b batch (d.committed (again db').0) (again db').1) a
                (ih db' (ground arith) (ground arith)))
        ])
      ]

  retry_loop-Returns :
      (fuel : ℕ) (batch : List Bytes) (size : ℕ) (db : d.Db)
      → size < fuel
      → size ≤ length batch
      → (10 ≤ size) ⊎ (size ≡ length batch)
      → let out = retry_loop d fuel batch size db in
        Returns (d.committed db) batch (d.committed out.0) out.1
  unfolding retry_loop
  retry_loop-Returns zero batch size db f h k = absurd (omega arith)
  retry_loop-Returns (suc fuel) batch size db f h k = rw (clamp_size_id (length batch) size h k) (
      after_attempt-Returns batch size db (retry_loop d fuel batch (size / 2))
        (execute_batch d db (take size batch)) h (execute_batch-AllOrNothing db (take size batch))
        (λ db' big smaller.
          retry_loop-Returns fuel batch (size / 2) db' (omega arith) (omega arith) (inl big)))

  -- `executeWithRetry` ends on every batch. A reported success of `n` statements means that exactly
  -- the first `n` of the batch were committed, in order; an error means that none was.
  pub execute_with_retry-Returns :
      (db : d.Db) (batch : List Bytes)
      → let out = execute_with_retry d db batch in
        Returns (d.committed db) batch (d.committed out.0) out.1
  unfolding execute_with_retry
  execute_with_retry-Returns db batch =
      retry_loop-Returns (suc (length batch)) batch (length batch) db (omega arith) (omega arith)
        (inr refl)
