-- ===== src/Domain/Entities.antt =====
-- src/versarr/domain/entities.py. A datetime and a timedelta are counted in microseconds, the
-- resolution of both; a confidence in hundredths. `make_…` are the constructors that validate.
use versarr.Base.{
  ℕ, ◌*◌, String, Bool, true, false, ◌&&◌, not, Option, none, some, List, is_some, if◌then◌else◌,
  ◌==◌, string_eq, FilePath,
}
use versarr.Domain.Enums.{
  TriggerKind, JobPriority, JobState, ProviderStatus, ProcessingCategory, RetryClassification,
  ControlRequestType, ControlRequestStatus,
}
use versarr.Domain.Errors.{ReasonCode, Result, ok, raised, Raised}

-- `timedelta(seconds=n)`.
abbrev pub seconds : ℕ → ℕ
seconds n = n * 1000000

pub record TrackIdentity : Type 0 where
  pub title : String
  pub artist : String
  pub album : Option String
  pub album_artist : Option String
  pub track_number : Option ℕ
  pub disc_number : Option ℕ
  pub duration_seconds : Option ℕ
  pub release_year : Option ℕ
  pub musicbrainz_ids : List String
  pub isrc : Option String
  pub normalized_lookup_key : String

pub record LyricsPresence : Type 0 where
  pub sidecar_exists : Bool
  pub sidecar_path : Option FilePath
  pub embedded_exists : Bool
  pub conflict_state : Option String

unfoldable pub make_lyrics_presence : LyricsPresence → Result LyricsPresence
make_lyrics_presence p =
    if p.sidecar_exists && not (is_some p.sidecar_path)
    then raised (Raised.value_error "ValueError")
    else ok p

pub record TrackSnapshot : Type 0 where
  pub library_root : FilePath
  pub media_path : FilePath
  pub extension : String
  pub file_size : ℕ
  pub file_mtime_ns : ℕ
  pub identity : TrackIdentity
  pub lyrics_presence : LyricsPresence
  pub meaningful_state_hash : String

pub record SnapshotStateRecord : Type 0 where
  pub media_path : FilePath
  pub library_root : FilePath
  pub extension : String
  pub file_size : ℕ
  pub file_mtime_ns : ℕ
  pub meaningful_state_hash : String
  pub normalized_lookup_key : String
  pub duration_seconds : Option ℕ
  pub embedded_exists : Bool
  pub sidecar_exists : Bool
  pub last_seen_at : ℕ
  pub deleted_at : Option ℕ

pub record ReconciliationRecord : Type 0 where
  pub file_size : ℕ
  pub file_mtime_ns : ℕ
  pub sidecar_exists : Bool
  pub has_lyrics : Bool
  pub deleted : Bool
  pub job_state : Option JobState
  pub job_updated_at : Option ℕ

pub record DirectoryGapSummary : Type 0 where
  pub library_root : FilePath
  pub directory_path : FilePath
  pub total_tracks : ℕ
  pub tracks_with_lyrics : ℕ
  pub tracks_missing_lyrics : ℕ
  pub pending_jobs : ℕ
  pub processing_jobs : ℕ
  pub failed_jobs : ℕ
  pub active_cooldowns : ℕ
  pub manual_diverged : ℕ

-- `retry_after` is in microseconds.
pub record ProviderResult : Type 0 where
  pub status : ProviderStatus
  pub provider_name : String
  pub lyrics_text : Option String
  pub synced : Bool
  pub provider_track_id : Option String
  pub confidence : ℕ
  pub matched_identity : Option TrackIdentity
  pub raw_metadata_digest : Option String
  pub retry_after : Option ℕ

-- `bool(text)` of an optional text.
abbrev pub has_text : Option String → Bool
has_text none = false
has_text (some t) = not (t == "")

abbrev pub is_matched : ProviderStatus → Bool
is_matched ProviderStatus.matched = true
is_matched _ = false

unfoldable pub make_provider_result : ProviderResult → Result ProviderResult
make_provider_result r =
    if is_matched r.status && not (has_text r.lyrics_text)
    then raised (Raised.value_error "ValueError")
    else ok r

pub record RetryDecision : Type 0 where
  pub classification : RetryClassification
  pub next_attempt_at : Option ℕ
  pub max_attempts_reached : Bool

abbrev pub is_unclassified : RetryClassification → Bool
is_unclassified RetryClassification.unclassified = true
is_unclassified _ = false

unfoldable pub make_retry_decision : RetryDecision → Result RetryDecision
make_retry_decision d =
    if is_unclassified d.classification && is_some d.next_attempt_at
    then raised (Raised.value_error "ValueError")
    else ok d

pub record ProcessingOutcome : Type 0 where
  pub category : ProcessingCategory
  pub reason_code : ReasonCode
  pub retry_decision : RetryDecision
  pub wrote_sidecar : Bool
  pub preserved_existing : Bool
  pub provider_status : Option ProviderStatus

pub record EnrichmentJob : Type 0 where
  pub job_key : FilePath
  pub library_root : FilePath
  pub media_path : FilePath
  pub trigger : TriggerKind
  pub priority : JobPriority
  pub state : JobState
  pub attempt_count : ℕ
  pub next_attempt_at : Option ℕ
  pub lease_until : Option ℕ
  pub dirty : Bool
  pub force : Bool
  pub overwrite_existing : Bool
  pub allow_manual_overwrite : Bool
  pub last_reason_code : Option ReasonCode

pub record ProvenanceRecord : Type 0 where
  pub media_path : FilePath
  pub sidecar_path : FilePath
  pub artifact_type : String
  pub normalized_lyrics_hash : String
  pub provider_name : String
  pub provider_track_id : Option String
  pub synced : Bool
  pub last_written_at : ℕ
  pub manual_diverged : Bool
  pub sidecar_deleted : Bool
  pub conflict_marker : Option String

pub record FileStabilityState : Type 0 where
  pub candidate_path : FilePath
  pub first_seen_at : ℕ
  pub last_seen_at : ℕ
  pub last_size : Option ℕ
  pub last_mtime_ns : Option ℕ
  pub successful_probes : ℕ

pub record ControlRequest : Type 0 where
  pub request_type : ControlRequestType
  pub target_root : Option FilePath
  pub target_path : Option FilePath
  pub force : Bool
  pub overwrite_existing : Bool
  pub allow_manual_overwrite : Bool
  pub requested_at : ℕ
  pub status : ControlRequestStatus
