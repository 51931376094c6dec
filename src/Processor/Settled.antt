-- ===== src/Processor/Settled.antt =====
-- What becomes of a leased job.
use versarr.Base.{
  FilePath, List, Option, Option-cases, String, Unique, ap, arith, first, first-update_self, inl,
  inr, nat_eq, none, path_eq, refl, some, string_eq, subst, sym, true, update, ℕ, ◌≡◌, ◌≢◌,
}
use versarr.Domain.{
  EnrichmentJob, JobState, ProcessingCategory, ProcessingOutcome, Raised, ReasonCode, Result,
  RetryClassification, ok, raised,
}
use versarr.Jobs.{
  complete_job, completed, defer_job, deferred, fail_job, failed, lease_next_ready_job, leased,
  read_attempts, read_dirty, retried, retry_job, with_key,
}
use versarr.Jobs.Lease.{lease_takes-IsEarliest}
use versarr.Processor.Attempt.{process_job}
use versarr.Processor.Effects.{process_job-SameQueue}
use versarr.Processor.Inputs.{Inputs, Services}
use versarr.Processor.Monad.{World}
use versarr.Processor.Worker.{
  Clock, conclude, on_jobs, on_raised, process_next, retry_or_fail, settle,
}
use versarr.Retry.{build_retry}
use versarr.Schema.{Database, JobRow}
use versarr.Settings.{RetrySettings, Settings}

-- The row of a key after the call that ends an attempt.
abbrev Ended : FilePath → List JobRow → Type 0
Ended k jobs =
    (y : JobRow) × (first (with_key k) jobs ≡ some y)
    × (y.state ≢ JobState.processing)
    × (y.lease_owner ≡ none)
    × (y.lease_until ≡ none)

end_by :
    (k : FilePath) (f : JobRow → JobRow) (jobs : List JobRow) (x : JobRow)
    → ((r : JobRow) → (f r).job_key ≡ r.job_key)
    → ((r : JobRow)
        → ((f r).state ≢ JobState.processing)
          × ((f r).lease_owner ≡ none)
          × ((f r).lease_until ≡ none))
    → first (with_key k) jobs ≡ some x
    → Ended k (update (with_key k) f jobs)
end_by k f jobs x keeps ends e = (
  f x,
  rw (first-update_self (λ r. r.job_key) k f jobs keeps) (rw e),
  (ends x).0,
  (ends x).1,
  (ends x).2,
)

fail-Ended :
    (now : ℕ) (k : FilePath) (reason : ReasonCode) (error_class : String) (jobs : List JobRow)
    (x : JobRow)
    → first (with_key k) jobs ≡ some x
    → Ended k (fail_job now k reason error_class jobs)
unfolding fail_job
fail-Ended now k reason error_class jobs x e =
    end_by k (failed now reason error_class) jobs x (λ _. refl) (λ r. ground arith) e

retry-Ended :
    (now : ℕ) (k : FilePath) (reason : ReasonCode) (error_class : String) (at : ℕ)
    (jobs : List JobRow) (x : JobRow)
    → first (with_key k) jobs ≡ some x
    → Ended k (retry_job now k reason error_class at jobs)
unfolding retry_job
retry-Ended now k reason error_class at jobs x e =
    end_by k (retried now reason error_class at) jobs x (λ _. refl) (λ r. ground arith) e

defer-Ended :
    (now : ℕ) (k : FilePath) (reason : ReasonCode) (at : ℕ) (jobs : List JobRow) (x : JobRow)
    → first (with_key k) jobs ≡ some x
    → Ended k (defer_job now k reason at jobs)
unfolding defer_job
defer-Ended now k reason at jobs x e =
    end_by k (deferred now reason at) jobs x (λ _. refl) (λ r. ground arith) e

complete-Ended :
    (now : ℕ) (k : FilePath) (reason : ReasonCode) (jobs : List JobRow) (x : JobRow)
    → first (with_key k) jobs ≡ some x
    → Ended k (complete_job now k reason jobs)
unfolding complete_job
complete-Ended now k reason jobs x e =
    end_by k
      (completed now reason (read_dirty (first (with_key k) jobs))
        (read_attempts (first (with_key k) jobs)))
      jobs x (λ _. refl) (λ r. ground arith) e

settle-Ended :
    (now : ℕ) (k : FilePath) (category : ProcessingCategory) (at : Option ℕ) (o : ProcessingOutcome)
    (jobs : List JobRow) (x : JobRow)
    → first (with_key k) jobs ≡ some x
    → Ended k (settle now k category at o jobs)
unfolding settle
settle-Ended now k ProcessingCategory.retry (some at) o jobs x e =
    retry-Ended now k o.reason_code _ at jobs x e
settle-Ended now k ProcessingCategory.retry none o jobs x e =
    complete-Ended now k o.reason_code jobs x e
settle-Ended now k ProcessingCategory.deferred (some at) o jobs x e =
    defer-Ended now k o.reason_code at jobs x e
settle-Ended now k ProcessingCategory.deferred none o jobs x e =
    complete-Ended now k o.reason_code jobs x e
settle-Ended now k ProcessingCategory.terminal at o jobs x e =
    fail-Ended now k o.reason_code "terminal" jobs x e
settle-Ended now k _ at o jobs x e = complete-Ended now k o.reason_code jobs x e

retry_or_fail-Ended :
    (jitter : ℕ → ℕ) (s : RetrySettings) (clock : Clock) (job : EnrichmentJob) (reason : ReasonCode)
    (error_class : String) (jobs : List JobRow) (x : JobRow)
    → first (with_key job.job_key) jobs ≡ some x
    → Ended job.job_key (retry_or_fail jitter s clock job reason error_class jobs)
unfolding retry_or_fail
retry_or_fail-Ended jitter s clock job reason error_class jobs x e =
    elim (Option-cases
      (build_retry jitter s clock.ended_at job.attempt_count
        RetryClassification.file_transient).next_attempt_at) [
          | inl n ↦
              rw (n, retry_or_fail)
                (fail-Ended clock.db_ended_at job.job_key _ error_class jobs x e)
          | inr (at, n) ↦
              rw (n, retry_or_fail)
                (retry-Ended clock.db_ended_at job.job_key reason error_class at jobs x e)
        ]

on_raised-Ended :
    (jitter : ℕ → ℕ) (s : RetrySettings) (clock : Clock) (job : EnrichmentJob) (e : Raised)
    (d : Database) (x : JobRow)
    → e ≢ Raised.cancelled
    → first (with_key job.job_key) d.jobs ≡ some x
    → ((on_raised jitter s clock job e d).0 ≡ ok true)
      × Ended job.job_key (on_raised jitter s clock job e d).1.jobs
unfolding on_raised
on_raised-Ended jitter s clock job Raised.file_not_found d x c f =
    (refl, fail-Ended clock.db_ended_at job.job_key _ _ d.jobs x f)
on_raised-Ended jitter s clock job (Raised.value_error n) d x c f =
    (refl, fail-Ended clock.db_ended_at job.job_key _ n d.jobs x f)
on_raised-Ended jitter s clock job (Raised.os_error n) d x c f =
    (refl, retry_or_fail-Ended jitter s clock job _ n d.jobs x f)
on_raised-Ended jitter s clock job (Raised.other_error n) d x c f =
    (refl, retry_or_fail-Ended jitter s clock job _ n d.jobs x f)
on_raised-Ended jitter s clock job Raised.cancelled d x c f = absurd (c refl)

conclude-Ended :
    (jitter : ℕ → ℕ) (s : RetrySettings) (clock : Clock) (job : EnrichmentJob)
    (r : Result ProcessingOutcome) (d : Database) (x : JobRow)
    → r ≢ raised Raised.cancelled
    → first (with_key job.job_key) d.jobs ≡ some x
    → ((conclude jitter s clock job r d).0 ≡ ok true)
      × Ended job.job_key (conclude jitter s clock job r d).1.jobs
unfolding conclude
conclude-Ended jitter s clock job (ok o) d x c f =
    (refl, settle-Ended clock.db_ended_at job.job_key o.category _ o d.jobs x f)
conclude-Ended jitter s clock job (raised e) d x c f =
    on_raised-Ended jitter s clock job e d x (λ q. c (ap raised q)) f

module _ (services : Services) (settings : Settings) (inputs : Inputs) (clock : Clock) where
  -- With unique keys, a job that a worker has leased is not left processing: unless the attempt is
  -- cancelled, the turn returns true and the job's row has another state, no owner and no lease.
  pub process_next-settles :
      (worker : String) (w : World) (job : EnrichmentJob) (jobs : List JobRow)
      → Unique (λ r. r.job_key) w.db.jobs
      → lease_next_ready_job worker clock.leased_at settings.retry.lease_ttl_seconds w.db.jobs
        ≡ some (some job, jobs)
      → (process_job services settings inputs job (record w { db = on_jobs (λ _. jobs) w.db })).0
        ≢ raised Raised.cancelled
      → ((process_next services settings inputs clock worker w).0 ≡ ok true)
        × (y : JobRow) × (first
              (with_key job.job_key)
              (process_next services settings inputs clock worker w).1.db.jobs
            ≡ some y)
        × (y.state ≢ JobState.processing)
        × (y.lease_owner ≡ none)
        × (y.lease_until ≡ none)
  unfolding process_next
  process_next-settles worker w job jobs u h c =
      let ttl = settings.retry.lease_ttl_seconds in
      let (x, _, _, _, taken, _, _) =
        lease_takes-IsEarliest worker clock.leased_at ttl w.db.jobs jobs job u h in
      let z = leased worker clock.leased_at ttl x x in
      let w1 = record w { db = on_jobs (λ _. jobs) w.db } in
      let kept = (process_job-SameQueue services settings inputs job w1).0 in
      let w2 = (process_job services settings inputs job w1).1 in
      let found = subst (λ t. first (with_key job.job_key) t ≡ some z) (sym kept) taken in
      let (done, ended) =
        conclude-Ended services.jitter settings.retry clock job
          (process_job services settings inputs job w1).0 w2.db z c found in
      rw (h, process_next) (done, ended.0, ended.1, ended.2, ended.3, ended.4)
