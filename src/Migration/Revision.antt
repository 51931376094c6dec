-- ===== src/Migration/Revision.antt =====
-- `upgrade` and `downgrade` of src/alembic/versions/20260513_0001_initial_state.py.
use versarr.Base.{List, [], ◌∷◌}
use versarr.Migration.{ColumnType, Creation, Removal, TableDef, counter, key, nullable, required}

abbrev create_jobs : TableDef
create_jobs = record {
  name = "jobs";
  columns =
      key "job_key" (ColumnType.string 512)
      ∷ required "library_root" ColumnType.text
      ∷ required "media_path" ColumnType.text
      ∷ required "trigger" (ColumnType.string 64)
      ∷ required "priority" (ColumnType.string 64)
      ∷ required "state" (ColumnType.string 32)
      ∷ required "attempt_count" ColumnType.integer
      ∷ nullable "next_attempt_at" ColumnType.timestamp
      ∷ nullable "lease_owner" (ColumnType.string 128)
      ∷ nullable "lease_until" ColumnType.timestamp
      ∷ required "dirty" ColumnType.boolean
      ∷ required "force" ColumnType.boolean
      ∷ required "overwrite_existing" ColumnType.boolean
      ∷ required "allow_manual_overwrite" ColumnType.boolean
      ∷ nullable "last_reason_code" (ColumnType.string 128)
      ∷ nullable "last_error_class" (ColumnType.string 128)
      ∷ nullable "last_event_kind" (ColumnType.string 64)
      ∷ nullable "last_event_at" ColumnType.timestamp
      ∷ required "created_at" ColumnType.timestamp
      ∷ required "updated_at" ColumnType.timestamp
      ∷ [];
}

abbrev create_track_snapshots : TableDef
create_track_snapshots = record {
  name = "track_snapshots";
  columns =
      key "media_path" ColumnType.text
      ∷ required "library_root" ColumnType.text
      ∷ required "extension" (ColumnType.string 16)
      ∷ required "file_size" ColumnType.integer
      ∷ required "file_mtime_ns" ColumnType.integer
      ∷ required "meaningful_state_hash" (ColumnType.string 128)
      ∷ required "normalized_lookup_key" (ColumnType.string 512)
      ∷ nullable "duration_seconds" ColumnType.integer
      ∷ required "embedded_exists" ColumnType.boolean
      ∷ required "sidecar_exists" ColumnType.boolean
      ∷ required "last_seen_at" ColumnType.timestamp
      ∷ nullable "deleted_at" ColumnType.timestamp
      ∷ [];
}

abbrev create_provenance : TableDef
create_provenance = record {
  name = "provenance";
  columns =
      key "media_path" ColumnType.text
      ∷ required "sidecar_path" ColumnType.text
      ∷ required "artifact_type" (ColumnType.string 32)
      ∷ required "normalized_lyrics_hash" (ColumnType.string 128)
      ∷ required "provider_name" (ColumnType.string 128)
      ∷ nullable "provider_track_id" (ColumnType.string 256)
      ∷ required "synced" ColumnType.boolean
      ∷ required "last_written_at" ColumnType.timestamp
      ∷ required "manual_diverged" ColumnType.boolean
      ∷ required "sidecar_deleted" ColumnType.boolean
      ∷ nullable "conflict_marker" (ColumnType.string 128)
      ∷ required "updated_at" ColumnType.timestamp
      ∷ [];
}

abbrev create_cooldowns : TableDef
create_cooldowns = record {
  name = "cooldowns";
  columns =
      key "lookup_key" (ColumnType.string 512)
      ∷ required "provider_name" (ColumnType.string 128)
      ∷ required "outcome" (ColumnType.string 64)
      ∷ required "until_at" ColumnType.timestamp
      ∷ required "attempt_count" ColumnType.integer
      ∷ required "updated_at" ColumnType.timestamp
      ∷ [];
}

abbrev create_scan_state : TableDef
create_scan_state = record {
  name = "scan_state";
  columns =
      key "library_root" ColumnType.text
      ∷ key "scan_kind" (ColumnType.string 64)
      ∷ nullable "last_started_at" ColumnType.timestamp
      ∷ nullable "last_completed_at" ColumnType.timestamp
      ∷ nullable "last_status" (ColumnType.string 64)
      ∷ nullable "last_error_code" (ColumnType.string 128)
      ∷ [];
}

abbrev create_control_requests : TableDef
create_control_requests = record {
  name = "control_requests";
  columns =
      counter "id"
      ∷ required "request_type" (ColumnType.string 64)
      ∷ nullable "target_root" ColumnType.text
      ∷ nullable "target_path" ColumnType.text
      ∷ required "force" ColumnType.boolean
      ∷ required "overwrite_existing" ColumnType.boolean
      ∷ required "allow_manual_overwrite" ColumnType.boolean
      ∷ required "status" (ColumnType.string 32)
      ∷ required "requested_at" ColumnType.timestamp
      ∷ nullable "claimed_at" ColumnType.timestamp
      ∷ nullable "completed_at" ColumnType.timestamp
      ∷ nullable "error_code" (ColumnType.string 128)
      ∷ [];
}

unfoldable pub upgrade : List Creation
upgrade =
    Creation.table create_jobs
    ∷ Creation.index (record {
      name = "ix_jobs_state_next_priority";
      table = "jobs";
      columns = "state" ∷ "next_attempt_at" ∷ "priority" ∷ [];
    })
    ∷ Creation.index
        (record { name = "ix_jobs_lease_until"; table = "jobs"; columns = "lease_until" ∷ [] })
    ∷ Creation.table create_track_snapshots
    ∷ Creation.index (record {
      name = "ix_track_snapshots_root_seen";
      table = "track_snapshots";
      columns = "library_root" ∷ "last_seen_at" ∷ [];
    })
    ∷ Creation.table create_provenance
    ∷ Creation.index (record {
      name = "ix_provenance_manual_diverged";
      table = "provenance";
      columns = "manual_diverged" ∷ [];
    })
    ∷ Creation.table create_cooldowns
    ∷ Creation.index
        (record { name = "ix_cooldowns_until"; table = "cooldowns"; columns = "until_at" ∷ [] })
    ∷ Creation.table create_scan_state
    ∷ Creation.table create_control_requests
    ∷ Creation.index (record {
      name = "ix_control_requests_status_requested";
      table = "control_requests";
      columns = "status" ∷ "requested_at" ∷ [];
    })
    ∷ []

unfoldable pub downgrade : List Removal
downgrade =
    Removal.index "ix_control_requests_status_requested"
    ∷ Removal.table "control_requests"
    ∷ Removal.table "scan_state"
    ∷ Removal.index "ix_cooldowns_until"
    ∷ Removal.table "cooldowns"
    ∷ Removal.index "ix_provenance_manual_diverged"
    ∷ Removal.table "provenance"
    ∷ Removal.index "ix_track_snapshots_root_seen"
    ∷ Removal.table "track_snapshots"
    ∷ Removal.index "ix_jobs_lease_until"
    ∷ Removal.index "ix_jobs_state_next_priority"
    ∷ Removal.table "jobs"
    ∷ []
