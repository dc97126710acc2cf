-- ===== src/Serve/Marked.antt =====
-- cmd/agent/serve.go: the checkpoint that `handlePITRExecute` leaves.
use database_flashback.Base.{
  ℕ, suc, ◌+◌, ◌-◌, ◌/◌, ◌≡◌, refl, ap, ◌∙◌, true, false, some, List, [], ◌∷◌, Bytes, length,
  eq_bytes_refl, arith,
}
use database_flashback.Rollback.Executor.{Driver, BatchResult}
use database_flashback.Checkpoint.{
  Checkpoint, fine, checkpoint_path, read_checkpoint, complete_status, first_checkpoint,
}
use database_flashback.Checkpoint.Life.{
  Update, updated, all_updated, finished, complete-create_checkpoint,
}
use database_flashback.Serve.Params.{Host, Params, ok_resp, execute_reply}
use database_flashback.Serve.Execute.{
  State, completed_of, updates_of, plan_of, run_batches, execute_checked,
}

-- The count of the last call of `OnBatch`.
abbrev pub last_completed : ℕ → List BatchResult → ℕ
last_completed n [] = n
last_completed n (b ∷ bs) = last_completed (completed_of b) bs

all_updated-completed :
    (h : Host) (k : ℕ) (bs : List BatchResult) (cp : Checkpoint)
    → ((i : ℕ) → h.disk i ≡ fine)
    → (all_updated (updates_of h k bs) cp).completed_batches
      ≡ last_completed cp.completed_batches bs
unfolding all_updated updates_of
all_updated-completed h k [] cp works = refl
all_updated-completed h k (b ∷ bs) cp works =
    let u : Update = record { disk = h.disk k; now = h.clock k; completed = completed_of b } in
    all_updated-completed h (suc k) bs (updated u cp) works
    ∙ ap (λ n. last_completed n bs) (ground (arith, works k))

-- When the disk takes every write and the agent is not shutting down, an execution with a batch size
-- above 0 leaves the operation's checkpoint with the status "complete" and the count of the last
-- batch that the executor reported, whatever errors the executor returned: a run that stopped at a
-- failed batch is marked complete too.
pub execute_checked_complete :
    (d : Driver) (h : Host) (s : State d) (params : Params) (id : Bytes) (sqls : List Bytes) (n : ℕ)
    → s.stopped ≡ false
    → h.dir_made ≡ true
    → ((i : ℕ) → h.disk i ≡ fine)
    → let ran = run_batches d false s.db sqls (suc n) in
      let after = execute_checked d h s params id sqls (suc n) in
      (cp : Checkpoint) × (read_checkpoint after.0.dir id ≡ some cp)
      × (cp.status ≡ complete_status)
      × (cp.completed_batches ≡ last_completed 0 ran.2)
      × (after.1
          ≡ ok_resp (
              execute_reply id false ran.1.rows_affected ran.1.batches_complete ran.1.batches_total
                ran.1.errors))
unfolding execute_checked
execute_checked_complete d h s params id sqls n running made works =
    let size = suc n in
    let total = (length sqls + size - 1) / size in
    let calls = (run_batches d false s.db sqls size).2 in
    let plan = plan_of h params id total in
    let us = updates_of h 1 calls in
    let last = suc (length calls) in
    let read =
      complete-create_checkpoint h.checksum_of plan us (h.clock 0) (h.clock last) s.dir id in
    (
      finished h.checksum_of (h.clock last) (all_updated us (first_checkpoint (h.clock 0) plan)),
      rw (running, made, works 0, works last)
          (read ∙ rw (eq_bytes_refl (checkpoint_path s.dir.data_dir id)) refl),
      refl,
      all_updated-completed h 1 calls (first_checkpoint (h.clock 0) plan) works,
      rw running refl,
    )
