-- ===== src/Processor/Worker.antt =====
-- `process_next` and `_retry_or_fail`: a lease, an attempt, and the job's next state. The heartbeats
-- that come during the attempt are calls of their own (Jobs, `heartbeat_job`).
use versarr.Base.{Bool, FilePath, List, Option, String, false, none, some, true, ℕ}
use versarr.Domain.{
  EnrichmentJob, ProcessingCategory, ProcessingOutcome, Raised, ReasonCode, Result,
  RetryClassification, ok, raised,
}
use versarr.Jobs.{complete_job, defer_job, fail_job, lease_next_ready_job, retry_job}
use versarr.Processor.Attempt.{process_job}
use versarr.Processor.Inputs.{Inputs, Services}
use versarr.Processor.Monad.{Action, World}
use versarr.Retry.{build_retry}
use versarr.Schema.{Database, JobRow}
use versarr.Settings.{RetrySettings, Settings}

-- Changes of the jobs table.
abbrev pub on_jobs : (List JobRow → List JobRow) → Database → Database
on_jobs f d = record d { jobs = f d.jobs }

-- The clock at the lease and at the end, and the time that the repository reads at the end.
pub record Clock : Type 0 where
  pub leased_at : ℕ
  pub ended_at : ℕ
  pub db_ended_at : ℕ

abbrev pub classification_text : RetryClassification → String
classification_text RetryClassification.file_transient = "file_transient"
classification_text RetryClassification.provider_transient = "provider_transient"
classification_text RetryClassification.unclassified = "none"

-- The calls of an outcome: which of them is made depends on the category, and for a retry and a
-- deferral on a time being there.
unfoldable pub settle :
    ℕ → FilePath → ProcessingCategory → Option ℕ → ProcessingOutcome → List JobRow → List JobRow
settle now key ProcessingCategory.retry (some at) o =
    retry_job now key o.reason_code (classification_text o.retry_decision.classification) at
settle now key ProcessingCategory.deferred (some at) o = defer_job now key o.reason_code at
settle now key ProcessingCategory.terminal at o = fail_job now key o.reason_code "terminal"
settle now key _ at o = complete_job now key o.reason_code

abbrev retry_or_fail_at : ℕ → FilePath → ReasonCode → String → Option ℕ → List JobRow → List JobRow
retry_or_fail_at now key reason error_class none =
    fail_job now key (ReasonCode.retry_exhausted reason) error_class
retry_or_fail_at now key reason error_class (some at) = retry_job now key reason error_class at

-- `_retry_or_fail`.
unfoldable pub retry_or_fail :
    (ℕ → ℕ)
    → RetrySettings
    → Clock
    → EnrichmentJob
    → ReasonCode
    → String
    → List JobRow
    → List JobRow
retry_or_fail jitter s clock job reason error_class =
    retry_or_fail_at clock.db_ended_at job.job_key reason error_class
      (build_retry jitter s clock.ended_at job.attempt_count
        RetryClassification.file_transient).next_attempt_at

-- The `except` clauses, in their order: a missing file, a bad value, a failing system, anything else.
-- A cancellation is caught by none and goes on.
unfoldable pub on_raised :
    (ℕ → ℕ) → RetrySettings → Clock → EnrichmentJob → Raised → Database → Result Bool × Database
unfolding retry_or_fail
on_raised jitter s clock job Raised.file_not_found d = (
  ok true,
  on_jobs (fail_job clock.db_ended_at job.job_key ReasonCode.media_missing "terminal") d,
)
on_raised jitter s clock job (Raised.value_error c) d =
    (ok true, on_jobs (fail_job clock.db_ended_at job.job_key ReasonCode.invalid_media_or_path c) d)
on_raised jitter s clock job (Raised.os_error c) d =
    (ok true, on_jobs (retry_or_fail jitter s clock job ReasonCode.filesystem_transient c) d)
on_raised jitter s clock job (Raised.other_error c) d =
    (ok true, on_jobs (retry_or_fail jitter s clock job ReasonCode.unexpected_error c) d)
on_raised jitter s clock job Raised.cancelled d = (raised Raised.cancelled, d)

-- What follows the attempt.
unfoldable pub conclude :
    (ℕ → ℕ)
    → RetrySettings
    → Clock
    → EnrichmentJob
    → Result ProcessingOutcome
    → Database
    → Result Bool × Database
unfolding settle on_raised
conclude jitter s clock job (ok o) d = (
  ok true,
  on_jobs (settle clock.db_ended_at job.job_key o.category o.retry_decision.next_attempt_at o) d,
)
conclude jitter s clock job (raised e) d = on_raised jitter s clock job e d

module _ (services : Services) (settings : Settings) (inputs : Inputs) (clock : Clock) where
  -- The attempt at a leased job, and its end.
  unfoldable pub work_on : EnrichmentJob → Action Bool
  work_on job w =
      let (r, w') = process_job services settings inputs job w in
      let (done, d) = conclude services.jitter settings.retry clock job r w'.db in
      (done, record w' { db = d })

  abbrev run_leased : World → Option (Option EnrichmentJob × List JobRow) → Result Bool × World
  run_leased w none = (ok false, w)
  run_leased w (some (none, jobs)) = (ok false, record w { db = on_jobs (λ _. jobs) w.db })
  run_leased w (some (some job, jobs)) = work_on job (record w { db = on_jobs (λ _. jobs) w.db })

  -- `process_next`: false where no job was ready.
  unfoldable pub process_next : String → Action Bool
  unfolding work_on
  process_next worker w =
      run_leased w
        (lease_next_ready_job worker clock.leased_at settings.retry.lease_ttl_seconds w.db.jobs)
