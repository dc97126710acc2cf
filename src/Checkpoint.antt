-- ===== src/Checkpoint.antt =====
-- internal/checkpoint/manager.go and types.go: checkpoints of recoveries as files of one directory.
-- `Path` is what `filepath.Join` gives on a system whose separator is the slash.
-- Each operation holds the manager's lock, so it is one function. The clock and what the disk does
-- are arguments. Encoding and decoding JSON is left out: a file holds a checkpoint, or is corrupt.
pub mod Path
pub mod Life
pub mod Listing
mod Examples
use database_flashback.Base.{
  ℕ, zero, suc, ◌-◌, Bool, true, false, Option, none, some, List, [], ◌∷◌, ◌++◌, Bytes, text,
  eq_bytes, if◌then◌else◌, length, take, drop, ltb, leb, ◌&&◌, not, ◌==◌,
}
use database_flashback.Checkpoint.Path.{path_join}

pub record CheckpointPlan : Type 0 where
  pub recovery_id : Bytes
  pub table_name : Bytes
  pub recovery_time : ℕ
  pub total_batches : ℕ
  pub table_order : List Bytes

pub record Checkpoint : Type 0 where
  pub recovery_id : Bytes
  pub table_name : Bytes
  pub recovery_time : ℕ
  pub total_batches : ℕ
  pub completed_batches : ℕ
  pub table_order : List Bytes
  pub last_commit_at : ℕ
  pub status : Bytes
  pub checksum : Bytes

-- What stands under a path.
pub data Entry : Type 0 where
  directory corrupt : Entry
  saved : Checkpoint → Entry

abbrev pub Files : Type 0
Files = List (Bytes × Entry)

-- The data directory of the manager, and the files by their paths.
pub record Dir : Type 0 where
  pub data_dir : Bytes
  pub files : Files

unfoldable pub find_entry : Bytes → Files → Option Entry
find_entry name [] = none
find_entry name ((k, e) ∷ files) = if eq_bytes k name then some e else find_entry name files

unfoldable pub remove_entry : Bytes → Files → Files
remove_entry name [] = []
remove_entry name ((k, e) ∷ files) =
    if eq_bytes k name then remove_entry name files else (k, e) ∷ remove_entry name files

unfoldable pub put_entry : Bytes → Entry → Files → Files
unfolding remove_entry
put_entry name e files = (name, e) ∷ remove_entry name files

-- `checkpointDir`, `checkpointPath`, and the temporary file beside it.
unfoldable pub checkpoint_dir : Bytes → Bytes
unfolding path_join
checkpoint_dir data_dir = path_join data_dir (text "checkpoints")

unfoldable pub checkpoint_path : Bytes → Bytes → Bytes
unfolding checkpoint_dir path_join
checkpoint_path data_dir id = path_join (checkpoint_dir data_dir) (id ++ text ".json")

abbrev pub tmp_path : Bytes → Bytes → Bytes
tmp_path data_dir id = checkpoint_path data_dir id ++ text ".tmp"

-- What the disk does in one write: all of it, a write that stops midway, or a rename that fails.
pub data Disk : Type 0 where
  fine write_fails rename_fails : Disk

-- `atomicWrite`, with whether it succeeds.
unfoldable pub atomic_write : Disk → Checkpoint → Dir → Dir × Bool
unfolding put_entry remove_entry
atomic_write disk cp dir =
    let path = checkpoint_path dir.data_dir cp.recovery_id in
    let tmp = tmp_path dir.data_dir cp.recovery_id in
    elim disk [
      | fine ↦
          let written = put_entry tmp (saved cp) dir.files in
          (record dir { files = put_entry path (saved cp) (remove_entry tmp written) }, true)
      | write_fails ↦ (record dir { files = put_entry tmp corrupt dir.files }, false)
      | rename_fails ↦
          (record dir { files = remove_entry tmp (put_entry tmp (saved cp) dir.files) }, false)
    ]

abbrev pub decoded : Option Entry → Option Checkpoint
decoded none = none
decoded (some directory) = none
decoded (some corrupt) = none
decoded (some (saved cp)) = some cp

-- `readCheckpoint`; an error is `none`.
unfoldable pub read_checkpoint : Dir → Bytes → Option Checkpoint
unfolding find_entry
read_checkpoint dir id = decoded (find_entry (checkpoint_path dir.data_dir id) dir.files)

abbrev in_progress : Bytes
in_progress = text "in_progress"

abbrev pub complete_status : Bytes
complete_status = text "complete"

abbrev pub first_checkpoint : ℕ → CheckpointPlan → Checkpoint
first_checkpoint now plan = record {
  recovery_id = plan.recovery_id;
  table_name = plan.table_name;
  recovery_time = plan.recovery_time;
  total_batches = plan.total_batches;
  completed_batches = 0;
  table_order = plan.table_order;
  last_commit_at = now;
  status = in_progress;
  checksum = [];
}

-- `CreateCheckpoint`; the directory itself may be refused.
unfoldable pub create_checkpoint : Bool → Disk → ℕ → CheckpointPlan → Dir → Dir × Bool
unfolding atomic_write
create_checkpoint made disk now plan dir =
    if made then atomic_write disk (first_checkpoint now plan) dir else (dir, false)

-- `UpdateBatch`.
unfoldable pub update_batch : Disk → ℕ → Bytes → ℕ → Dir → Dir × Bool
unfolding read_checkpoint atomic_write
update_batch disk now id completed dir = elim (read_checkpoint dir id) [
  | none ↦ (dir, false)
  | some cp ↦
      atomic_write disk (record cp { completed_batches = completed; last_commit_at = now }) dir
]

-- `Complete`; the checksum is the library's SHA-256 of the JSON text.
unfoldable pub complete : (Checkpoint → Bytes) → Disk → ℕ → Bytes → Dir → Dir × Bool
unfolding read_checkpoint atomic_write
complete checksum_of disk now id dir = elim (read_checkpoint dir id) [
  | none ↦ (dir, false)
  | some cp ↦
      let done = record cp { status = complete_status; last_commit_at = now } in
      atomic_write disk (record done { checksum = checksum_of done }) dir
]

-- `strings.HasSuffix` and `strings.TrimSuffix`.
unfoldable has_suffix : Bytes → Bytes → Bool
has_suffix s suffix =
    leb (length suffix) (length s) && eq_bytes (drop (length s - length suffix) s) suffix

unfoldable trim_suffix : Bytes → Bytes → Bytes
unfolding has_suffix
trim_suffix s suffix = if has_suffix s suffix then take (length s - length suffix) s else s

abbrev is_directory : Entry → Bool
is_directory directory = true
is_directory _ = false

-- The name under which a path stands in a directory, if it is one of its entries.
unfoldable is_name : Bytes → Bool
is_name [] = true
is_name (c ∷ s) = not (c == 0x2f) && is_name s

unfoldable name_in : Bytes → Bytes → Option Bytes
unfolding is_name
name_in [] [] = none
name_in [] (c ∷ path) = if c == 0x2f && is_name path then some path else none
name_in (d ∷ dir) [] = none
name_in (d ∷ dir) (c ∷ path) = if d == c then name_in dir path else none

-- The checkpoints that can be read, in the order in which the directory gives its entries.
unfoldable pub readable : Dir → Files → List Checkpoint
unfolding has_suffix trim_suffix read_checkpoint name_in checkpoint_dir
readable dir [] = []
readable dir ((path, e) ∷ rest) = elim (name_in (checkpoint_dir dir.data_dir) path) [
  | none ↦ readable dir rest
  | some name ↦
      if is_directory e
      then readable dir rest
      else if has_suffix name (text ".json")
      then elim (read_checkpoint dir (trim_suffix name (text ".json"))) [
        | none ↦ readable dir rest
        | some cp ↦ cp ∷ readable dir rest
      ]
      else readable dir rest
]

-- `sort.Slice` by the time of the last commit, the newest first.
unfoldable pub insert_newest : Checkpoint → List Checkpoint → List Checkpoint
insert_newest c [] = c ∷ []
insert_newest c (x ∷ xs) =
    if ltb c.last_commit_at x.last_commit_at then x ∷ insert_newest c xs else c ∷ x ∷ xs

unfoldable pub newest_first : List Checkpoint → List Checkpoint
unfolding insert_newest
newest_first [] = []
newest_first (c ∷ cs) = insert_newest c (newest_first cs)

-- `listCheckpoints` of a directory that can be read, and `GetLastCheckpoint`.
unfoldable pub list_checkpoints : Dir → List Checkpoint
unfolding readable newest_first
list_checkpoints dir = newest_first (readable dir dir.files)

unfoldable get_last_checkpoint : Dir → Option Checkpoint
unfolding list_checkpoints
get_last_checkpoint dir = elim (list_checkpoints dir) [ [] ↦ none | c ∷ cs ↦ some c ]
