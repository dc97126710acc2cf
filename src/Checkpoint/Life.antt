-- ===== src/Checkpoint/Life.antt =====
-- internal/checkpoint/manager.go: what a sequence of operations leaves of one checkpoint.
use database_flashback.Base.{
  ℕ, ◌≡◌, refl, ap, sym, ◌∙◌, ◌&&◌, inl, inr, Bool, true, false, none, some, List, [], ◌∷◌, ◌++◌,
  Bytes, text, eq_bytes, eq_bytes_refl, eq_bytes_sound, if◌then◌else◌, arith, append_assoc,
  Bool-cases, Option-cases,
}
use database_flashback.Base.Names.{eq_bytes_sym}
use database_flashback.Checkpoint.Path.{path_join, last_or, last_or-append, last_or-path_join}
use database_flashback.Checkpoint.{
  Files, decoded, checkpoint_dir, Checkpoint, CheckpointPlan, Entry, saved, corrupt, Dir, Disk,
  fine, write_fails, rename_fails, find_entry, remove_entry, put_entry, checkpoint_path, tmp_path,
  atomic_write, read_checkpoint, create_checkpoint, update_batch, complete, first_checkpoint,
  complete_status,
}

find_entry-remove_entry :
    (name k : Bytes) (dir : Files)
    → find_entry name (remove_entry k dir) ≡ (if eq_bytes k name then none else find_entry name dir)
unfolding find_entry remove_entry
find_entry-remove_entry name k [] = ground arith
find_entry-remove_entry name k ((j, e) ∷ dir) = elim (Bool-cases (eq_bytes j k)) [
  | inl same ↦
      rw (same, eq_bytes_sound j k same) (ground (arith, find_entry-remove_entry name k dir))
  | inr differs ↦ rw differs (elim (Bool-cases (eq_bytes j name)) [
    | inl here ↦ ground (arith, here, eq_bytes_sound j name here, differs, eq_bytes_sym k j)
    | inr later ↦ ground (arith, later, find_entry-remove_entry name k dir)
  ])
]

find_entry-put_entry :
    (name k : Bytes) (e : Entry) (dir : Files)
    → find_entry name (put_entry k e dir)
      ≡ (if eq_bytes k name then some e else find_entry name dir)
unfolding find_entry put_entry
find_entry-put_entry name k e dir = ground (arith, find_entry-remove_entry name k dir)

-- A temporary file has the path of no checkpoint: the paths end in different letters.
tmp_path-checkpoint_path : (d i j : Bytes) → eq_bytes (tmp_path d i) (checkpoint_path d j) ≡ false
unfolding checkpoint_path
tmp_path-checkpoint_path d i j = elim (Bool-cases (eq_bytes (tmp_path d i) (checkpoint_path d j))) [
  | inr differs ↦ differs
  | inl same ↦
      let ends_p = last_or-append 0 b'p' (checkpoint_path d i ++ text ".tm") in
      let ends_n = last_or-path_join 0 b'n' (checkpoint_dir d) (j ++ text ".jso") refl refl in
      let tmp = append_assoc (checkpoint_path d i) (text ".tm") (b'p' ∷ []) in
      let name = append_assoc j (text ".jso") (b'n' ∷ []) in
      let ends =
        sym ends_p
        ∙ ap (last_or 0) (tmp ∙ eq_bytes_sound (tmp_path d i) (checkpoint_path d j) same)
        ∙ ap (λ n. last_or 0 (path_join (checkpoint_dir d) n)) (sym name)
        ∙ ends_n in
      absurd (omega (arith, ends))
]

abbrev pub same_path : Bytes → Bytes → Bytes → Bool
same_path d i j = eq_bytes (checkpoint_path d i) (checkpoint_path d j)

abbrev succeeds : Disk → Bool
succeeds fine = true
succeeds _ = false

-- A write that succeeds changes what is read under its own path only, and one that fails, at whichever
-- point, changes nothing that is read.
write_read :
    (disk : Disk) (cp : Checkpoint) (dir : Dir) (j : Bytes)
    → read_checkpoint (atomic_write disk cp dir).0 j ≡ (
        if succeeds disk && same_path dir.data_dir cp.recovery_id j
        then some cp
        else read_checkpoint dir j)
unfolding read_checkpoint atomic_write
write_read fine cp dir j =
    let tmp = tmp_path dir.data_dir cp.recovery_id in
    let own = checkpoint_path dir.data_dir cp.recovery_id in
    let name = checkpoint_path dir.data_dir j in
    let written = put_entry tmp (saved cp) dir.files in
    ground (
      arith,
      find_entry-put_entry name own (saved cp) (remove_entry tmp written),
      find_entry-remove_entry name tmp written,
      find_entry-put_entry name tmp (saved cp) dir.files,
      tmp_path-checkpoint_path dir.data_dir cp.recovery_id j,
    )
write_read write_fails cp dir j =
    let tmp = tmp_path dir.data_dir cp.recovery_id in
    ground (
      arith,
      find_entry-put_entry (checkpoint_path dir.data_dir j) tmp corrupt dir.files,
      tmp_path-checkpoint_path dir.data_dir cp.recovery_id j,
    )
write_read rename_fails cp dir j =
    let tmp = tmp_path dir.data_dir cp.recovery_id in
    let name = checkpoint_path dir.data_dir j in
    ground (
      arith,
      find_entry-remove_entry name tmp (put_entry tmp (saved cp) dir.files),
      find_entry-put_entry name tmp (saved cp) dir.files,
      tmp_path-checkpoint_path dir.data_dir cp.recovery_id j,
    )

atomic_write-data_dir :
    (disk : Disk) (cp : Checkpoint) (dir : Dir)
    → (atomic_write disk cp dir).0.data_dir ≡ dir.data_dir
unfolding atomic_write
atomic_write-data_dir fine cp dir = refl
atomic_write-data_dir write_fails cp dir = refl
atomic_write-data_dir rename_fails cp dir = refl

-- One call of `UpdateBatch`: what the disk does, the time, and the count.
pub record Update : Type 0 where
  pub disk : Disk
  pub now : ℕ
  pub completed : ℕ

-- The checkpoint behind a list of updates: those that the disk took count.
abbrev pub updated : Update → Checkpoint → Checkpoint
updated u cp =
    if succeeds u.disk
    then record cp { completed_batches = u.completed; last_commit_at = u.now }
    else cp

unfoldable pub all_updated : List Update → Checkpoint → Checkpoint
all_updated [] cp = cp
all_updated (u ∷ us) cp = all_updated us (updated u cp)

unfoldable pub update_batches : Bytes → List Update → Dir → Dir
unfolding update_batch
update_batches id [] dir = dir
update_batches id (u ∷ us) dir =
    update_batches id us (update_batch u.disk u.now id u.completed dir).0

read_checkpoint-same :
    (dir : Dir) (i j : Bytes)
    → same_path dir.data_dir i j ≡ true
    → read_checkpoint dir i ≡ read_checkpoint dir j
unfolding read_checkpoint
read_checkpoint-same dir i j h =
    let e = eq_bytes_sound (checkpoint_path dir.data_dir i) (checkpoint_path dir.data_dir j) h in
    ap (λ p. decoded (find_entry p dir.files)) e

update_batch-data_dir :
    (u : Update) (id : Bytes) (dir : Dir)
    → (update_batch u.disk u.now id u.completed dir).0.data_dir ≡ dir.data_dir
unfolding update_batch
update_batch-data_dir u id dir = elim (Option-cases (read_checkpoint dir id)) [
  | inl missing ↦ ground (arith, missing)
  | inr (cp, found) ↦
      let written = record cp { completed_batches = u.completed; last_commit_at = u.now } in
      ground (arith, found, atomic_write-data_dir u.disk written dir)
]

update_batch-read :
    (u : Update) (id : Bytes) (cp : Checkpoint) (dir : Dir)
    → read_checkpoint dir id ≡ some cp
    → cp.recovery_id ≡ id
    → (j : Bytes)
    → read_checkpoint (update_batch u.disk u.now id u.completed dir).0 j
      ≡ (if same_path dir.data_dir id j then some (updated u cp) else read_checkpoint dir j)
unfolding update_batch
update_batch-read u id cp dir e own j =
    let now =
      write_read u.disk (record cp { completed_batches = u.completed; last_commit_at = u.now }) dir
        j in
    rw (e, update_batch)
      (ground
        (arith, now, ap (λ k. same_path dir.data_dir k j) own, e, read_checkpoint-same dir id j))

all_updated-id :
    (us : List Update) (cp : Checkpoint) → (all_updated us cp).recovery_id ≡ cp.recovery_id
unfolding all_updated
all_updated-id [] cp = refl
all_updated-id (u ∷ us) cp = ground (arith, all_updated-id us (updated u cp))

update_batches-read :
    (us : List Update) (id : Bytes) (cp : Checkpoint) (dir : Dir)
    → read_checkpoint dir id ≡ some cp
    → cp.recovery_id ≡ id
    → (j : Bytes)
    → read_checkpoint (update_batches id us dir) j
      ≡ (if same_path dir.data_dir id j then some (all_updated us cp) else read_checkpoint dir j)
unfolding update_batches all_updated
update_batches-read [] id cp dir e own j = ground (arith, e, read_checkpoint-same dir id j)
update_batches-read (u ∷ us) id cp dir e own j =
    let after = (update_batch u.disk u.now id u.completed dir).0 in
    let first = update_batch-read u id cp dir e own in
    let now : read_checkpoint after id ≡ some (updated u cp) =
      ground (arith, first id, eq_bytes_refl (checkpoint_path dir.data_dir id)) in
    let owned : (updated u cp).recovery_id ≡ id = ground (arith, own) in
    let there = update_batch-data_dir u id dir in
    ground (
      arith,
      update_batches-read us id (updated u cp) after now owned j,
      first j,
      ap (λ d. same_path d id j) there,
    )

abbrev pub finished : (Checkpoint → Bytes) → ℕ → Checkpoint → Checkpoint
finished checksum_of now cp =
    let done = record cp { status = complete_status; last_commit_at = now } in
    record done { checksum = checksum_of done }

-- The directory behind the first write.
abbrev begun : ℕ → CheckpointPlan → Dir → Dir
begun now plan dir = (atomic_write fine (first_checkpoint now plan) dir).0

update_batches-data_dir :
    (us : List Update) (id : Bytes) (dir : Dir) → (update_batches id us dir).data_dir ≡ dir.data_dir
unfolding update_batches
update_batches-data_dir [] id dir = refl
update_batches-data_dir (u ∷ us) id dir =
    update_batches-data_dir us id (update_batch u.disk u.now id u.completed dir).0
    ∙ update_batch-data_dir u id dir

-- A checkpoint that is created, updated any number of times and completed, with the first and the
-- last write done by the disk: what is read under any id whose file is the same, as `filepath.Join`
-- cleans the paths, is the plan with the count of the last update that the disk took, complete and
-- with its checksum; and what is read under an id with another file is as before.
pub complete-create_checkpoint :
    (checksum_of : Checkpoint → Bytes) (plan : CheckpointPlan) (us : List Update) (now later : ℕ)
    (dir : Dir) (j : Bytes)
    → let id = plan.recovery_id in
      let created = (create_checkpoint true fine now plan dir).0 in
      read_checkpoint (complete checksum_of fine later id (update_batches id us created)).0 j ≡ (
        if eq_bytes (checkpoint_path dir.data_dir id) (checkpoint_path dir.data_dir j)
        then some (finished checksum_of later (all_updated us (first_checkpoint now plan)))
        else read_checkpoint dir j)
unfolding create_checkpoint complete
complete-create_checkpoint checksum_of plan us now later dir j =
    let id = plan.recovery_id in
    let cp = first_checkpoint now plan in
    let created = begun now plan dir in
    let found : read_checkpoint created id ≡ some cp =
      ground (arith, write_read fine cp dir id, eq_bytes_refl (checkpoint_path dir.data_dir id)) in
    let run = update_batches-read us id cp created found refl in
    let last : read_checkpoint (update_batches id us created) id ≡ some (all_updated us cp) =
      ground (arith, run id, eq_bytes_refl (checkpoint_path created.data_dir id)) in
    let first_dir = atomic_write-data_dir fine cp dir in
    let last_dir = update_batches-data_dir us id created ∙ first_dir in
    rw (last, complete)
      (ground (
        arith,
        write_read fine (finished checksum_of later (all_updated us cp))
            (update_batches id us created) j,
        ap (λ k. same_path dir.data_dir k j) (all_updated-id us cp),
        ap (λ d. same_path d (all_updated us cp).recovery_id j) last_dir,
        ap (λ d. same_path d id j) first_dir,
        run j,
        write_read fine cp dir j,
      ))
