-- ===== src/Migration/Declared.antt =====
-- The tables and indexes that src/versarr/infrastructure/persistence/schema.py declares.
use versarr.Base.{List, [], ◌∷◌}
use versarr.Migration.{ColumnType, IndexDef, TableDef, counter, key, nullable, required}

abbrev pub jobs_table : TableDef
jobs_table = record {
  name = "jobs";
  columns =
      key "job_key" (ColumnType.string 512)
      ∷ required "library_root" ColumnType.text
      ∷ required "media_path" ColumnType.text
      ∷ required "trigger" (ColumnType.string 64)
      ∷ required "priority" (ColumnType.string 64)
      ∷ required "state" (ColumnType.string 32)
      ∷ required "attempt_count" ColumnType.integer
      ∷ nullable "next_attempt_at" ColumnType.timestamp
      ∷ nullable "lease_owner" (ColumnType.string 128)
      ∷ nullable "lease_until" ColumnType.timestamp
      ∷ required "dirty" ColumnType.boolean
      ∷ required "force" ColumnType.boolean
      ∷ required "overwrite_existing" ColumnType.boolean
      ∷ required "allow_manual_overwrite" ColumnType.boolean
      ∷ nullable "last_reason_code" (ColumnType.string 128)
      ∷ nullable "last_error_class" (ColumnType.string 128)
      ∷ nullable "last_event_kind" (ColumnType.string 64)
      ∷ nullable "last_event_at" ColumnType.timestamp
      ∷ required "created_at" ColumnType.timestamp
      ∷ required "updated_at" ColumnType.timestamp
      ∷ [];
}

abbrev pub track_snapshots_table : TableDef
track_snapshots_table = record {
  name = "track_snapshots";
  columns =
      key "media_path" ColumnType.text
      ∷ required "library_root" ColumnType.text
      ∷ required "extension" (ColumnType.string 16)
      ∷ required "file_size" ColumnType.integer
      ∷ required "file_mtime_ns" ColumnType.integer
      ∷ required "meaningful_state_hash" (ColumnType.string 128)
      ∷ required "normalized_lookup_key" (ColumnType.string 512)
      ∷ nullable "duration_seconds" ColumnType.integer
      ∷ required "embedded_exists" ColumnType.boolean
      ∷ required "sidecar_exists" ColumnType.boolean
      ∷ required "last_seen_at" ColumnType.timestamp
      ∷ nullable "deleted_at" ColumnType.timestamp
      ∷ [];
}

abbrev pub provenance_table : TableDef
provenance_table = record {
  name = "provenance";
  columns =
      key "media_path" ColumnType.text
      ∷ required "sidecar_path" ColumnType.text
      ∷ required "artifact_type" (ColumnType.string 32)
      ∷ required "normalized_lyrics_hash" (ColumnType.string 128)
      ∷ required "provider_name" (ColumnType.string 128)
      ∷ nullable "provider_track_id" (ColumnType.string 256)
      ∷ required "synced" ColumnType.boolean
      ∷ required "last_written_at" ColumnType.timestamp
      ∷ required "manual_diverged" ColumnType.boolean
      ∷ required "sidecar_deleted" ColumnType.boolean
      ∷ nullable "conflict_marker" (ColumnType.string 128)
      ∷ required "updated_at" ColumnType.timestamp
      ∷ [];
}

abbrev pub cooldowns_table : TableDef
cooldowns_table = record {
  name = "cooldowns";
  columns =
      key "lookup_key" (ColumnType.string 512)
      ∷ required "provider_name" (ColumnType.string 128)
      ∷ required "outcome" (ColumnType.string 64)
      ∷ required "until_at" ColumnType.timestamp
      ∷ required "attempt_count" ColumnType.integer
      ∷ required "updated_at" ColumnType.timestamp
      ∷ [];
}

abbrev pub scan_state_table : TableDef
scan_state_table = record {
  name = "scan_state";
  columns =
      key "library_root" ColumnType.text
      ∷ key "scan_kind" (ColumnType.string 64)
      ∷ nullable "last_started_at" ColumnType.timestamp
      ∷ nullable "last_completed_at" ColumnType.timestamp
      ∷ nullable "last_status" (ColumnType.string 64)
      ∷ nullable "last_error_code" (ColumnType.string 128)
      ∷ [];
}

abbrev pub control_requests_table : TableDef
control_requests_table = record {
  name = "control_requests";
  columns =
      counter "id"
      ∷ required "request_type" (ColumnType.string 64)
      ∷ nullable "target_root" ColumnType.text
      ∷ nullable "target_path" ColumnType.text
      ∷ required "force" ColumnType.boolean
      ∷ required "overwrite_existing" ColumnType.boolean
      ∷ required "allow_manual_overwrite" ColumnType.boolean
      ∷ required "status" (ColumnType.string 32)
      ∷ required "requested_at" ColumnType.timestamp
      ∷ nullable "claimed_at" ColumnType.timestamp
      ∷ nullable "completed_at" ColumnType.timestamp
      ∷ nullable "error_code" (ColumnType.string 128)
      ∷ [];
}

abbrev pub ix_jobs_state_next_priority : IndexDef
ix_jobs_state_next_priority = record {
  name = "ix_jobs_state_next_priority";
  table = "jobs";
  columns = "state" ∷ "next_attempt_at" ∷ "priority" ∷ [];
}

abbrev pub ix_jobs_lease_until : IndexDef
ix_jobs_lease_until = record {
  name = "ix_jobs_lease_until";
  table = "jobs";
  columns = "lease_until" ∷ [];
}

abbrev pub ix_track_snapshots_root_seen : IndexDef
ix_track_snapshots_root_seen = record {
  name = "ix_track_snapshots_root_seen";
  table = "track_snapshots";
  columns = "library_root" ∷ "last_seen_at" ∷ [];
}

abbrev pub ix_provenance_manual_diverged : IndexDef
ix_provenance_manual_diverged = record {
  name = "ix_provenance_manual_diverged";
  table = "provenance";
  columns = "manual_diverged" ∷ [];
}

abbrev pub ix_cooldowns_until : IndexDef
ix_cooldowns_until = record {
  name = "ix_cooldowns_until";
  table = "cooldowns";
  columns = "until_at" ∷ [];
}

abbrev pub ix_control_requests_status_requested : IndexDef
ix_control_requests_status_requested = record {
  name = "ix_control_requests_status_requested";
  table = "control_requests";
  columns = "status" ∷ "requested_at" ∷ [];
}

-- `metadata`.
abbrev pub declared_tables : List TableDef
declared_tables =
    jobs_table ∷ track_snapshots_table ∷ provenance_table ∷ cooldowns_table ∷ scan_state_table
    ∷ control_requests_table ∷ []

abbrev pub declared_indexes : List IndexDef
declared_indexes =
    ix_jobs_state_next_priority ∷ ix_jobs_lease_until ∷ ix_track_snapshots_root_seen
    ∷ ix_provenance_manual_diverged ∷ ix_cooldowns_until ∷ ix_control_requests_status_requested ∷ []
