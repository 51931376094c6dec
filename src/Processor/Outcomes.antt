-- ===== src/Processor/Outcomes.antt =====
-- What the outcome of an attempt says of what it did.
use text.Mathlib.TextEquality.{eq_iff}
use versarr.Base.{
  FilePath, List, Option, Option-cases, String, Unique, [], arith, if◌then◌else◌, inl, inr, none,
  path_beq_iff, some, true, ℕ, ◌+◌, ◌<◌, ◌∷◌, ◌≡◌, ◌≤◌,
}
use versarr.Domain.{
  EnrichmentJob, ProcessingCategory, ProcessingOutcome, ProviderResult, ProviderStatus,
  RetryClassification, TrackSnapshot, ok, seconds,
}
use versarr.Policy.{decide}
use versarr.Processor.Attempt.{process_job}
use versarr.Processor.Inputs.{
  Inputs, Services, SidecarWriteResult, build_provenance_record, with_lrc,
}
use versarr.Processor.Monad.{World}
use versarr.Provenance.{get_cooldown, get_provenance, mark_manual_diverged}
use versarr.Provenance.Laws.{get-record_cooldown, get-record_provenance}
use versarr.Retry.{build_retry}
use versarr.Retry.Bounds.{IsJitter, build_retry_bounds, build_retry_iff}
use versarr.Settings.{CooldownSettings, Settings, validate_window}

-- The texts of the sidecars written.
abbrev pub texts : List (FilePath × String) → List String
texts [] = []
texts ((path, text) ∷ rest) = text ∷ texts rest

-- The kinds of result that start a cooldown.
abbrev pub cooldown_for : CooldownSettings → ProviderStatus → Option ℕ
cooldown_for c ProviderStatus.not_found = some c.not_found_seconds
cooldown_for c ProviderStatus.ambiguous = some c.ambiguous_seconds
cooldown_for c ProviderStatus.invalid_content = some c.invalid_content_seconds
cooldown_for c _ = none

module _ (services : Services) (settings : Settings) (inputs : Inputs) (job : EnrichmentJob) where
  -- An attempt with an outcome, whose provider sent a text, writes the normalised text exactly where
  -- it reports a written sidecar, and writes nothing else.
  pub written_reported :
      (o : ProcessingOutcome) (result : ProviderResult) (text : String) (w w' : World)
      → process_job services settings inputs job w ≡ (ok o, w')
      → inputs.answer ≡ ok result
      → result.lyrics_text ≡ some text
      → texts w'.writes ≡ (
          if o.wrote_sidecar
          then services.normalize_lyrics_text text ∷ texts w.writes
          else texts w.writes)
  unfolding process_job
  written_reported o result text w w' h a t = ground arith

  -- After an attempt that reports a write, the track's provenance record is the one built from the
  -- writer's result, the provider's result and the time of the attempt.
  pub written-get_provenance :
      (o : ProcessingOutcome) (s : TrackSnapshot) (result : ProviderResult) (text : String)
      (sidecar : FilePath) (done : SidecarWriteResult) (w w' : World)
      → process_job services settings inputs job w ≡ (ok o, w')
      → inputs.snapshot ≡ ok s
      → inputs.answer ≡ ok result
      → result.lyrics_text ≡ some text
      → with_lrc job.media_path ≡ ok sidecar
      → inputs.write sidecar (services.normalize_lyrics_text text) ≡ ok done
      → o.wrote_sidecar ≡ true
      → get_provenance job.media_path w'.db.provenance
        ≡ some (
            build_provenance_record job.media_path done.sidecar_path done.normalized_hash result
              inputs.now s.lyrics_presence.embedded_exists)
  unfolding process_job decide
  written-get_provenance o s result text sidecar done w w' h es ea et el ew wrote =
      let p =
        build_provenance_record job.media_path done.sidecar_path done.normalized_hash result
          inputs.now s.lyrics_presence.embedded_exists in
      ground (
        arith,
        path_beq_iff job.media_path job.media_path,
        get-record_provenance inputs.db_now p job.media_path w.db.provenance,
        get-record_provenance inputs.db_now p job.media_path
            (mark_manual_diverged inputs.db_now job.media_path w.db.provenance),
      )

  -- With a jitter within a tenth and a valid window for provider errors, an attempt whose outcome is
  -- a retry had attempts left, and the retry is due within the longest delay.
  pub retry_outcome_bounded :
      (o : ProcessingOutcome) (w w' : World)
      → IsJitter services.jitter
      → validate_window settings.retry.provider_transient ≡ some settings.retry.provider_transient
      → process_job services settings inputs job w ≡ (ok o, w')
      → o.category ≡ ProcessingCategory.retry
      → (at : ℕ) × (o.retry_decision.next_attempt_at ≡ some at)
        × (job.attempt_count < settings.retry.provider_transient.max_attempts)
        × (at ≤ inputs.now + seconds settings.retry.provider_transient.max_seconds)
  unfolding process_job
  retry_outcome_bounded o w w' j v h c =
      let kind = RetryClassification.provider_transient in
      let n = job.attempt_count in
      elim (Option-cases
        (build_retry services.jitter settings.retry inputs.now n kind).next_attempt_at) [
          | inl e ↦ absurd (ground arith)
          | inr (at, e) ↦
              let most =
                (build_retry_bounds services.jitter settings.retry inputs.now n at kind j v e).0 in
              let few =
                (build_retry_iff services.jitter settings.retry inputs.now n kind).0 (rw e) in
              (at, ground arith, few, most)
        ]

  -- With unique cooldown keys, an attempt that ends as terminal on a result of a kind with a
  -- cooldown leaves that kind's cooldown under the track's key and the provider's name.
  pub miss-get_cooldown :
      (o : ProcessingOutcome) (s : TrackSnapshot) (result : ProviderResult) (n : ℕ) (w w' : World)
      → Unique (λ r. r.lookup_key) w.db.cooldowns
      → process_job services settings inputs job w ≡ (ok o, w')
      → inputs.snapshot ≡ ok s
      → inputs.answer ≡ ok result
      → o.category ≡ ProcessingCategory.terminal
      → cooldown_for settings.cooldowns result.status ≡ some n
      → get_cooldown s.identity.normalized_lookup_key result.provider_name w'.db.cooldowns
        ≡ some (inputs.now + seconds n)
  unfolding process_job
  miss-get_cooldown o s result n w w' u h es ea c m =
      let key = s.identity.normalized_lookup_key in
      let name = result.provider_name in
      ground (
        arith,
        eq_iff key key,
        eq_iff name name,
        get-record_cooldown inputs.db_now key name key name result.status (inputs.now + seconds n)
            w.db.cooldowns u,
      )
