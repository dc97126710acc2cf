-- ===== src/Checkpoint/Examples.antt =====
-- internal/checkpoint/manager.go on one recovery whose second update the disk refuses.
use database_flashback.Base.{◌≡◌, refl, true, some, List, [], ◌∷◌, text}
use database_flashback.Checkpoint.{
  CheckpointPlan, saved, directory, corrupt, Dir, fine, write_fails, read_checkpoint,
  checkpoint_path, checkpoint_dir, create_checkpoint, complete, complete_status, first_checkpoint,
}
use database_flashback.Checkpoint.Path.{path_join, clean, split_slash, resolve_all, resolve, joined}
use database_flashback.Checkpoint.Life.{
  Update, all_updated, update_batches, complete-create_checkpoint,
}

abbrev plan : CheckpointPlan
plan = record {
  recovery_id = text "r1";
  table_name = text "users";
  recovery_time = 5;
  total_batches = 3;
  table_order = [];
}

abbrev stored : Dir
stored = record {
  data_dir = text "/var/pitr/";
  files =
      (
        text "/var/pitr/checkpoints/r0.json",
        saved (first_checkpoint 1 (record plan { recovery_id = text "r0" })),
      )
      ∷ (text "/var/pitr/checkpoints/old", directory)
      ∷ (text "/var/pitr/checkpoints/r9.json", corrupt)
      ∷ [];
}

-- Two ids with one file.
cleaned : checkpoint_path (text "/var/pitr/") (text "./r1") ≡ text "/var/pitr/checkpoints/r1.json"
unfolding checkpoint_path checkpoint_dir path_join clean split_slash resolve_all resolve joined
cleaned = refl

abbrev three_updates : List Update
three_updates =
    record { disk = fine; now = 11; completed = 1 }
    ∷ record { disk = write_fails; now = 12; completed = 2 }
    ∷ record { disk = fine; now = 13; completed = 3 }
    ∷ []

complete-create_checkpoint_example :
    read_checkpoint
      (complete
        (λ _. text "sum")
        fine
        14
        (text "r1")
        (update_batches (text "r1") three_updates (create_checkpoint true fine 10 plan stored).0)).0
      (text "./r1")
    ≡ some (record {
      recovery_id = text "r1";
      table_name = text "users";
      recovery_time = 5;
      total_batches = 3;
      completed_batches = 3;
      table_order = [];
      last_commit_at = 14;
      status = complete_status;
      checksum = text "sum";
    })
unfolding all_updated checkpoint_path checkpoint_dir path_join clean split_slash resolve_all resolve
    joined
complete-create_checkpoint_example =
    complete-create_checkpoint (λ _. text "sum") plan three_updates 10 14 stored (text "./r1")
