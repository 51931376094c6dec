-- ===== src/Snapshots/Rows.antt =====
-- Writing a snapshot and reading it back.
use versarr.Base.{
  Bool-cases, FilePath, List, first-upsert, if◌then◌else◌, inl, inr, nat_eq, path_eq, some,
  string_eq, ℕ, ◌==◌, ◌≡◌,
}
use versarr.Domain.{TrackSnapshot}
use versarr.Schema.{SnapshotRow}
use versarr.Snapshots.{get_snapshot, record_snapshot, row_to_snapshot, snapshot_values}

-- What was recorded is read back, alive and with the time of the write; every other track is as it
-- was.
pub get-record_snapshot :
    (now : ℕ) (s : TrackSnapshot) (path : FilePath) (rows : List SnapshotRow)
    → get_snapshot path (record_snapshot now s rows) ≡ (
        if s.media_path == path
        then some (row_to_snapshot (snapshot_values now s))
        else get_snapshot path rows)
unfolding get_snapshot record_snapshot
get-record_snapshot now s path rows =
    rw (first-upsert (λ r. r.media_path) (snapshot_values now s) path rows)
      (elim (Bool-cases (s.media_path == path)) [ inl m ↦ rw m | inr m ↦ rw m ])
