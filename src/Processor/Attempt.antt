-- ===== src/Processor/Attempt.antt =====
-- `_process_job`, its steps from the last to the first.
use versarr.Base.{
  Bool, FilePath, Option, String, false, if◌then◌else◌, none, not, some, true, ℕ, ◌+◌,
}
use versarr.Domain.{
  EnrichmentJob, ProcessingCategory, ProcessingOutcome, ProviderResult, ProviderStatus, ReasonCode,
  RetryClassification, RetryDecision, TrackSnapshot,
}
use versarr.Policy.{JobAction, JobDecision, decide}
use versarr.Processor.Inputs.{
  Inputs, Services, build_provenance_record, cool_down, ensure_within_root, job_facts, note_write,
  outcome, read_hash, remember, same_hash, save_deleted, save_diverged, save_provenance,
  save_snapshot, throttle_delay, with_lrc,
}
use versarr.Processor.Monad.{Action, gets, lift, modify, pure, when, ◌>>=◌, ◌>>◌}
use versarr.Provenance.{get_cooldown, get_provenance}
use versarr.Retry.{build_retry}
use versarr.Settings.{Settings}

module _ (services : Services) (settings : Settings) (inputs : Inputs) (job : EnrichmentJob) where
  open inputs use {now, db_now}

  -- The last step where the record of a sidecar is missing: it is written anew if the sidecar holds
  -- what the provider sent.
  unfoldable pub repair_provenance :
      Bool → FilePath → Option String → ProviderResult → String → Action ProcessingOutcome
  repair_provenance embedded sidecar current result hash =
      if not (same_hash current hash)
      then pure (outcome ProcessingCategory.preserved ReasonCode.existing_sidecar_preserved none)
      else (do
        modify (
            save_provenance db_now
              (build_provenance_record job.media_path sidecar hash result now embedded))
        pure (
            outcome ProcessingCategory.preserved ReasonCode.provenance_repaired
              (some result.status)))

  -- The last step where a sidecar is written.
  unfoldable pub write_sidecar :
      Bool → FilePath → ProviderResult → String → Action ProcessingOutcome
  write_sidecar embedded sidecar result lyrics = do
    done ← lift (inputs.write sidecar lyrics)
    note_write done.sidecar_path lyrics
    modify (
        save_provenance db_now (
          build_provenance_record job.media_path done.sidecar_path done.normalized_hash result now
            embedded))
    when inputs.remembers (remember done.sidecar_path done.normalized_hash)
    pure
        (record (outcome ProcessingCategory.written ReasonCode.sidecar_written
          (some result.status)) { wrote_sidecar = true })

  -- The end of `_process_job`, from the lyrics on.
  unfoldable pub store_lyrics :
      Bool
      → FilePath
      → Option String
      → Bool
      → ProviderResult
      → Option String
      → Action ProcessingOutcome
  unfolding repair_provenance write_sidecar
  store_lyrics embedded sidecar current repair result none =
      pure (outcome ProcessingCategory.terminal ReasonCode.provider_missing_lyrics none)
  store_lyrics embedded sidecar current repair result (some text) =
      let lyrics = services.normalize_lyrics_text text in
      if repair
      then repair_provenance embedded sidecar current result
          (services.hash_normalized_lyrics lyrics)
      else write_sidecar embedded sidecar result lyrics

  -- A transient failure of the provider, with the retry that was built for it.
  abbrev retry_outcome : RetryDecision → ProviderStatus → Option ℕ → ProcessingOutcome
  retry_outcome retry status none =
      outcome ProcessingCategory.terminal ReasonCode.provider_retry_exhausted (some status)
  retry_outcome retry status (some at) =
      record (outcome ProcessingCategory.retry ReasonCode.provider_transient_failure
        (some status)) { retry_decision = retry }

  -- The chain of tests on the status of the provider's result.
  unfoldable pub on_status :
      ProviderStatus
      → Bool
      → String
      → FilePath
      → Option String
      → Bool
      → ProviderResult
      → Action ProcessingOutcome
  unfolding store_lyrics
  on_status ProviderStatus.throttled embedded key sidecar current repair result =
      pure
        (record (outcome ProcessingCategory.deferred ReasonCode.provider_throttled
          (some result.status)) {
            retry_decision = record {
              classification = RetryClassification.provider_transient;
              next_attempt_at = some (now + throttle_delay result.retry_after);
              max_attempts_reached = false;
            };
          })
  on_status ProviderStatus.transient_failure embedded key sidecar current repair result =
      let retry =
        build_retry services.jitter settings.retry now job.attempt_count
          RetryClassification.provider_transient in
      pure (retry_outcome retry result.status retry.next_attempt_at)
  on_status ProviderStatus.rejected embedded key sidecar current repair result = pure (
      outcome ProcessingCategory.terminal ReasonCode.provider_request_rejected (some result.status))
  on_status ProviderStatus.not_found embedded key sidecar current repair result =
      cool_down now db_now key result settings.cooldowns.not_found_seconds
        ReasonCode.lyrics_not_found
  on_status ProviderStatus.ambiguous embedded key sidecar current repair result =
      cool_down now db_now key result settings.cooldowns.ambiguous_seconds
        ReasonCode.provider_rejected
  on_status ProviderStatus.invalid_content embedded key sidecar current repair result =
      cool_down now db_now key result settings.cooldowns.invalid_content_seconds
        ReasonCode.provider_rejected
  on_status ProviderStatus.matched embedded key sidecar current repair result =
      store_lyrics embedded sidecar current repair result result.lyrics_text

  -- What follows from the decision: the early returns, or a lookup.
  unfoldable pub on_action :
      JobAction
      → ReasonCode
      → Bool
      → TrackSnapshot
      → FilePath
      → Option String
      → Action ProcessingOutcome
  unfolding on_status
  on_action JobAction.preserve reason repair snapshot sidecar current =
      pure (outcome ProcessingCategory.preserved reason none)
  on_action JobAction.noop reason repair snapshot sidecar current =
      pure (outcome ProcessingCategory.noop reason none)
  on_action JobAction.fetch reason repair snapshot sidecar current = do
    result ← lift inputs.answer
    on_status result.status snapshot.lyrics_presence.embedded_exists
        snapshot.identity.normalized_lookup_key sidecar current repair result

  unfoldable pub on_decision :
      JobDecision → TrackSnapshot → FilePath → Option String → Action ProcessingOutcome
  unfolding on_action
  on_decision decision snapshot sidecar current = do
    when decision.mark_sidecar_deleted (modify (save_deleted db_now job.media_path))
    when decision.mark_manual_diverged (modify (save_diverged db_now job.media_path))
    on_action decision.action decision.reason_code decision.repair_missing_provenance snapshot
        sidecar current

  -- `_process_job`.
  unfoldable pub process_job : Action ProcessingOutcome
  unfolding on_decision
  process_job = do
    lift (ensure_within_root inputs.resolved_root inputs.resolved_media)
    snapshot ← lift inputs.snapshot
    modify (save_snapshot db_now snapshot)
    provenance ← gets (λ d. get_provenance job.media_path d.provenance)
    sidecar ← lift (with_lrc job.media_path)
    current ← read_hash snapshot.lyrics_presence.sidecar_exists inputs.sidecar_hash
    cooldown ← gets (λ d. get_cooldown snapshot.identity.normalized_lookup_key "lrclib" d.cooldowns)
    on_decision (decide (job_facts snapshot provenance current cooldown now job)) snapshot sidecar
        current
