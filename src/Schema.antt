-- ===== src/Schema.antt =====
-- The tables of src/versarr/infrastructure/persistence/schema.py, one record for a row of each, and
-- the database. A nullable column is an option.
use versarr.Base.{Bool, FilePath, List, Option, String, ℕ}
use versarr.Domain.{
  ControlRequestStatus, ControlRequestType, JobPriority, JobState, ProviderStatus, ReasonCode,
  ScanKind, TriggerKind,
}

pub record JobRow : Type 0 where
  pub job_key : FilePath
  pub library_root : FilePath
  pub media_path : FilePath
  pub trigger : TriggerKind
  pub priority : JobPriority
  pub state : JobState
  pub attempt_count : ℕ
  pub next_attempt_at : Option ℕ
  pub lease_owner : Option String
  pub lease_until : Option ℕ
  pub dirty : Bool
  pub force : Bool
  pub overwrite_existing : Bool
  pub allow_manual_overwrite : Bool
  pub last_reason_code : Option ReasonCode
  pub last_error_class : Option String
  pub last_event_kind : Option String
  pub last_event_at : Option ℕ
  pub created_at : ℕ
  pub updated_at : ℕ

pub record SnapshotRow : Type 0 where
  pub media_path : FilePath
  pub library_root : FilePath
  pub extension : String
  pub file_size : ℕ
  pub file_mtime_ns : ℕ
  pub meaningful_state_hash : String
  pub normalized_lookup_key : String
  pub duration_seconds : Option ℕ
  pub embedded_exists : Bool
  pub sidecar_exists : Bool
  pub last_seen_at : ℕ
  pub deleted_at : Option ℕ

pub record ProvenanceRow : Type 0 where
  pub media_path : FilePath
  pub sidecar_path : FilePath
  pub artifact_type : String
  pub normalized_lyrics_hash : String
  pub provider_name : String
  pub provider_track_id : Option String
  pub synced : Bool
  pub last_written_at : ℕ
  pub manual_diverged : Bool
  pub sidecar_deleted : Bool
  pub conflict_marker : Option String
  pub updated_at : ℕ

pub record CooldownRow : Type 0 where
  pub lookup_key : String
  pub provider_name : String
  pub outcome : ProviderStatus
  pub until_at : ℕ
  pub attempt_count : ℕ
  pub updated_at : ℕ

pub record ScanStateRow : Type 0 where
  pub library_root : FilePath
  pub scan_kind : ScanKind
  pub last_started_at : Option ℕ
  pub last_completed_at : Option ℕ
  pub last_status : Option String
  pub last_error_code : Option String

pub record ControlRow : Type 0 where
  pub id : ℕ
  pub request_type : ControlRequestType
  pub target_root : Option FilePath
  pub target_path : Option FilePath
  pub force : Bool
  pub overwrite_existing : Bool
  pub allow_manual_overwrite : Bool
  pub status : ControlRequestStatus
  pub requested_at : ℕ
  pub claimed_at : Option ℕ
  pub completed_at : Option ℕ
  pub error_code : Option String

pub record Database : Type 0 where
  pub jobs : List JobRow
  pub track_snapshots : List SnapshotRow
  pub provenance : List ProvenanceRow
  pub cooldowns : List CooldownRow
  pub scan_state : List ScanStateRow
  pub control_requests : List ControlRow
