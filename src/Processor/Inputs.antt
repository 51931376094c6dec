-- ===== src/Processor/Inputs.antt =====
-- What an attempt hears from the outside, the helpers of `_process_job`, and the repository's calls
-- as changes of the database.
use versarr.Base.{
  Bool, FilePath, Option, String, [], false, if◌then◌else◌, is_some, ltb, member, nat_beq, nat_eq,
  none, not, parents, path_eq, some, string_eq, true, ℕ, ◌&&◌, ◌+◌, ◌==◌, ◌∷◌,
}
use versarr.Domain.{
  EnrichmentJob, ProcessingCategory, ProcessingOutcome, ProvenanceRecord, ProviderResult,
  ProviderStatus, Raised, ReasonCode, Result, RetryClassification, RetryDecision, TrackSnapshot, ok,
  raised, seconds,
}
use versarr.Policy.{JobFacts}
use versarr.Processor.Monad.{Action, lift, modify, pure, ◌>>=◌, ◌>>◌}
use versarr.Provenance.{
  mark_manual_diverged, mark_sidecar_deleted, record_cooldown, record_provenance,
}
use versarr.Schema.{Database}
use versarr.Snapshots.{record_snapshot}

pub record SidecarWriteResult : Type 0 where
  pub sidecar_path : FilePath
  pub normalized_hash : String
  pub created : Bool
  pub replaced : Bool

-- What the outside answers in one attempt: the resolved paths of `_ensure_within_root`, the snapshot
-- that the tag reader makes, the hash of the sidecar that is there, the clock, the time that the
-- repository reads, the provider's result, and the writer's result for a text.
pub record Inputs : Type 0 where
  pub resolved_root : Result FilePath
  pub resolved_media : Result FilePath
  pub snapshot : Result TrackSnapshot
  pub sidecar_hash : Result String
  pub now : ℕ
  pub db_now : ℕ
  pub answer : Result ProviderResult
  pub write : FilePath → String → Result SidecarWriteResult
  pub remembers : Bool

-- `normalize_lyrics_text` and `hash_normalized_lyrics` of src/versarr/domain, and the random factor
-- of a retry: functions of the standard library stand behind them.
pub record Services : Type 0 where
  pub normalize_lyrics_text : String → String
  pub hash_normalized_lyrics : String → String
  pub jitter : ℕ → ℕ

abbrev pub no_retry : RetryDecision
no_retry = record {
  classification = RetryClassification.unclassified;
  next_attempt_at = none;
  max_attempts_reached = false;
}

-- `_outcome`, with the defaults for what most callers leave out.
abbrev pub outcome : ProcessingCategory → ReasonCode → Option ProviderStatus → ProcessingOutcome
outcome category reason status = record {
  category = category;
  reason_code = reason;
  retry_decision = no_retry;
  wrote_sidecar = false;
  preserved_existing = false;
  provider_status = status;
}

abbrev pub build_provenance_record :
    FilePath → FilePath → String → ProviderResult → ℕ → Bool → ProvenanceRecord
build_provenance_record media sidecar hash result at embedded = record {
  media_path = media;
  sidecar_path = sidecar;
  artifact_type = "lrc";
  normalized_lyrics_hash = hash;
  provider_name = result.provider_name;
  provider_track_id = result.provider_track_id;
  synced = result.synced;
  last_written_at = at;
  manual_diverged = false;
  sidecar_deleted = false;
  conflict_marker = (if embedded then some "embedded_present" else none);
}

-- `path.with_suffix(".lrc")`; a path with no name raises.
unfoldable pub with_lrc : FilePath → Result FilePath
with_lrc [] = raised (Raised.value_error "ValueError")
with_lrc (n ∷ p) = ok (record n { suffix = ".lrc" } ∷ p)

-- `_ensure_within_root`: the resolved media path is the resolved root or lies under it.
unfoldable pub ensure_within_root : Result FilePath → Result FilePath → Result (Unit {0})
ensure_within_root (raised e) media = raised e
ensure_within_root (ok root) (raised e) = raised e
ensure_within_root (ok root) (ok media) =
    if not (media == root) && not (member root (parents media))
    then raised (Raised.value_error "ValueError")
    else ok tt

-- The repository's calls, on the database.
abbrev pub save_snapshot : ℕ → TrackSnapshot → Database → Database
save_snapshot now s d = record d { track_snapshots = record_snapshot now s d.track_snapshots }

abbrev pub save_provenance : ℕ → ProvenanceRecord → Database → Database
save_provenance now p d = record d { provenance = record_provenance now p d.provenance }

abbrev pub save_cooldown : ℕ → String → String → ProviderStatus → ℕ → Database → Database
save_cooldown now key provider status until d = record d {
  cooldowns = record_cooldown now key provider status until d.cooldowns;
}

abbrev pub save_deleted : ℕ → FilePath → Database → Database
save_deleted now path d = record d { provenance = mark_sidecar_deleted now path d.provenance }

abbrev pub save_diverged : ℕ → FilePath → Database → Database
save_diverged now path d = record d { provenance = mark_manual_diverged now path d.provenance }

abbrev pub hash_matches : Option ProvenanceRecord → Option String → Bool
hash_matches none h = false
hash_matches (some p) none = false
hash_matches (some p) (some h) = h == p.normalized_lyrics_hash

abbrev pub was_deleted : Option ProvenanceRecord → Bool
was_deleted none = false
was_deleted (some p) = p.sidecar_deleted

-- `cooldown is not None and cooldown > now`.
abbrev pub is_active : Option ℕ → ℕ → Bool
is_active none now = false
is_active (some until) now = ltb now until

abbrev pub job_facts :
    TrackSnapshot
    → Option ProvenanceRecord
    → Option String
    → Option ℕ
    → ℕ
    → EnrichmentJob
    → JobFacts
job_facts s p h cooldown now job = record {
  sidecar_exists = s.lyrics_presence.sidecar_exists;
  embedded_exists = s.lyrics_presence.embedded_exists;
  has_provenance = is_some p;
  provenance_sidecar_deleted = was_deleted p;
  provenance_hash_matches_sidecar = hash_matches p h;
  cooldown_active = is_active cooldown now;
  attempt_count = job.attempt_count;
  force = job.force;
  overwrite_existing = job.overwrite_existing;
  allow_manual_overwrite = job.allow_manual_overwrite;
}

-- `retry_after_seconds or 1`, as a duration; 0 counts as none.
abbrev pub throttle_delay : Option ℕ → ℕ
throttle_delay none = seconds 1
throttle_delay (some t) = if nat_beq t 0 then seconds 1 else t

-- The reading of the sidecar that the snapshot saw.
abbrev pub read_hash : Bool → Result String → Action (Option String)
read_hash true r = do h ← lift r; pure (some h)
read_hash false r = pure none

abbrev pub same_hash : Option String → String → Bool
same_hash none h = false
same_hash (some g) h = g == h

abbrev pub note_write : FilePath → String → Action (Unit {0})
note_write sidecar lyrics w = (ok tt, record w { writes = (sidecar, lyrics) ∷ w.writes })

abbrev pub remember : FilePath → String → Action (Unit {0})
remember sidecar hash w = (ok tt, record w { remembered = (sidecar, hash) ∷ w.remembered })

-- A provider's refusal to say anything of the track: a cooldown, and the end of the attempt.
abbrev pub cool_down : ℕ → ℕ → String → ProviderResult → ℕ → ReasonCode → Action ProcessingOutcome
cool_down now db_now key result cooldown_seconds reason = do
  modify
      (save_cooldown db_now key result.provider_name result.status (now + seconds cooldown_seconds))
  pure (outcome ProcessingCategory.terminal reason (some result.status))
