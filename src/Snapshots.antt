-- ===== src/Snapshots.antt =====
-- The track_snapshots table of src/versarr/infrastructure/persistence/repository.py, and what
-- reconciliation reads of it.
pub mod Present
pub mod Rows
mod Tests
use mathlib.Core.Option
use versarr.Base.{
  Bool, FilePath, List, Option, [], drop, first, is_some, keep, keyed, length, member, nat_eq, none,
  not, path_eq, some, string_eq, suc, take, update, upsert, zero, ℕ, ◌&&◌, ◌==◌, ◌||◌, ◌∷◌,
}
use versarr.Domain.{JobState, ReconciliationRecord, SnapshotStateRecord, TrackSnapshot}
use versarr.Jobs.{with_key}
use versarr.Schema.{JobRow, SnapshotRow}

abbrev pub with_path : FilePath → SnapshotRow → Bool
with_path = keyed (λ r. r.media_path)

abbrev pub row_to_snapshot : SnapshotRow → SnapshotStateRecord
row_to_snapshot r = record {
  media_path = r.media_path;
  library_root = r.library_root;
  extension = r.extension;
  file_size = r.file_size;
  file_mtime_ns = r.file_mtime_ns;
  meaningful_state_hash = r.meaningful_state_hash;
  normalized_lookup_key = r.normalized_lookup_key;
  duration_seconds = r.duration_seconds;
  embedded_exists = r.embedded_exists;
  sidecar_exists = r.sidecar_exists;
  last_seen_at = r.last_seen_at;
  deleted_at = r.deleted_at;
}

unfoldable pub get_snapshot : FilePath → List SnapshotRow → Option SnapshotStateRecord
get_snapshot path rows = Option.map row_to_snapshot (first (with_path path) rows)

-- The `values` of `record_snapshot`: every column, so that an update leaves nothing of the old row.
abbrev pub snapshot_values : ℕ → TrackSnapshot → SnapshotRow
snapshot_values now s = record {
  media_path = s.media_path;
  library_root = s.library_root;
  extension = s.extension;
  file_size = s.file_size;
  file_mtime_ns = s.file_mtime_ns;
  meaningful_state_hash = s.meaningful_state_hash;
  normalized_lookup_key = s.identity.normalized_lookup_key;
  duration_seconds = s.identity.duration_seconds;
  embedded_exists = s.lyrics_presence.embedded_exists;
  sidecar_exists = s.lyrics_presence.sidecar_exists;
  last_seen_at = now;
  deleted_at = none;
}

unfoldable pub record_snapshot : ℕ → TrackSnapshot → List SnapshotRow → List SnapshotRow
record_snapshot now s rows = upsert (λ r. r.media_path) (snapshot_values now s) rows

-- One row of the outer join of snapshots and jobs.
abbrev pub job_state_of : Option JobRow → Option JobState
job_state_of none = none
job_state_of (some j) = some j.state

abbrev pub job_updated_of : Option JobRow → Option ℕ
job_updated_of none = none
job_updated_of (some j) = some j.updated_at

unfoldable pub reconciliation_record : List JobRow → SnapshotRow → ReconciliationRecord
reconciliation_record jobs r =
    let j = first (with_key r.media_path) jobs in
    record {
      file_size = r.file_size;
      file_mtime_ns = r.file_mtime_ns;
      sidecar_exists = r.sidecar_exists;
      has_lyrics = r.sidecar_exists || r.embedded_exists;
      deleted = is_some r.deleted_at;
      job_state = job_state_of j;
      job_updated_at = job_updated_of j;
    }

-- The dict that `list_reconciliation_records` returns, as the function `records.get`.
unfoldable pub list_reconciliation_records :
    FilePath → List SnapshotRow → List JobRow → FilePath → Option ReconciliationRecord
list_reconciliation_records root rows jobs path =
    Option.map (reconciliation_record jobs)
      (first (λ r. r.library_root == root && with_path path r) rows)

-- The rows of a root that are not tombstoned.
abbrev pub is_tracked : FilePath → SnapshotRow → Bool
is_tracked root r = r.library_root == root && not (is_some r.deleted_at)

unfoldable pub paths_of : List SnapshotRow → List FilePath
paths_of [] = []
paths_of (r ∷ t) = r.media_path ∷ paths_of t

-- The tracked paths that are not among the present ones.
unfoldable pub missing_paths : FilePath → List FilePath → List SnapshotRow → List FilePath
missing_paths root present rows =
    keep (λ path. not (member path present)) (paths_of (keep (is_tracked root) rows))

-- One UPDATE … WHERE media_path IN (…).
unfoldable pub tombstone : ℕ → List FilePath → List SnapshotRow → List SnapshotRow
tombstone at paths rows =
    update (λ r. member r.media_path paths) (λ r. record r { deleted_at = some at }) rows

-- `_SQLITE_IN_CHUNK`.
abbrev pub chunk_size : ℕ
chunk_size = 500

-- The loop over slices of `size` paths, on fuel: each round takes one slice off.
unfoldable pub tombstone_chunks : ℕ → ℕ → ℕ → List FilePath → List SnapshotRow → List SnapshotRow
tombstone_chunks zero size at paths rows = rows
tombstone_chunks (suc fuel) size at [] rows = rows
tombstone_chunks (suc fuel) size at (p ∷ ps) rows =
    tombstone_chunks fuel size at (drop size (p ∷ ps)) (tombstone at (take size (p ∷ ps)) rows)

-- The count of the missing paths, and the table. A slice is never empty, so the number of paths is
-- fuel enough.
unfoldable pub mark_missing_snapshots_deleted :
    FilePath → List FilePath → ℕ → List SnapshotRow → ℕ × List SnapshotRow
mark_missing_snapshots_deleted root present at rows =
    let missing = missing_paths root present rows in
    (length missing, tombstone_chunks (length missing) chunk_size at missing rows)
