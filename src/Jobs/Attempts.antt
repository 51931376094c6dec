-- ===== src/Jobs/Attempts.antt =====
-- What becomes of a job that is enqueued, deferred, completed or failed while a worker holds it.
use versarr.Base.{
  FilePath, List, String, Unique, arith, false, first, first-update, first-update_self,
  if◌then◌else◌, nat_eq, none, path_eq, refl, some, string_eq, true, update, ℕ, ◌||◌, ◌∙◌, ◌≡◌,
}
use versarr.Domain.{EnrichmentJob, JobState, ReasonCode}
use versarr.Jobs.{
  Enqueue, complete_job, completed, defer_job, deferred, enqueue_path, enqueued, fail_job, failed,
  is_ready, is_stale, lease_next_ready_job, leased, recover_stale_jobs, recovered, with_key,
}
use versarr.Jobs.Lease.{lease_takes-IsEarliest}
use versarr.Schema.{JobRow}

-- An update by key, seen through a search by that key.
found_self :
    (k : FilePath) (f : JobRow → JobRow) (jobs : List JobRow) (x : JobRow)
    → ((r : JobRow) → (f r).job_key ≡ r.job_key)
    → first (with_key k) jobs ≡ some x
    → first (with_key k) (update (with_key k) f jobs) ≡ some (f x)
found_self k f jobs x keeps e = rw (first-update_self (λ r. r.job_key) k f jobs keeps) (rw e)

enqueue-found :
    (now : ℕ) (e : Enqueue) (jobs : List JobRow) (x : JobRow)
    → first (with_key e.media_path) jobs ≡ some x
    → first (with_key e.media_path) (enqueue_path now e jobs) ≡ some (enqueued now e x x)
unfolding enqueue_path
enqueue-found now e jobs x f =
    rw (f, enqueue_path) (found_self e.media_path (enqueued now e x) jobs x (λ _. refl) f)

complete-found :
    (now : ℕ) (k : FilePath) (reason : ReasonCode) (jobs : List JobRow) (x : JobRow)
    → first (with_key k) jobs ≡ some x
    → first (with_key k) (complete_job now k reason jobs)
      ≡ some (completed now reason x.dirty x.attempt_count x)
unfolding complete_job
complete-found now k reason jobs x f = found_self k _ jobs x (λ _. refl) f ∙ rw f

-- A processing job that is enqueued is ready once its worker completes it, with no attempts counted
-- and the priority of the request, and forced if it or the request was.
pub enqueue-complete_ready :
    (now now' : ℕ) (e : Enqueue) (reason : ReasonCode) (jobs : List JobRow) (x : JobRow)
    → first (with_key e.media_path) jobs ≡ some x
    → x.state ≡ JobState.processing
    → (y : JobRow) × (first
          (with_key e.media_path)
          (complete_job now' e.media_path reason (enqueue_path now e jobs))
        ≡ some y)
      × (is_ready now' y ≡ true)
      × (y.attempt_count ≡ 0)
      × (y.priority ≡ e.priority)
      × (y.force ≡ (e.force || x.force))
enqueue-complete_ready now now' e reason jobs x f busy =
    let z = enqueued now e x x in
    (
      completed now' reason z.dirty z.attempt_count z,
      complete-found now' e.media_path reason _ z (enqueue-found now e jobs x f),
      ground arith,
      ground arith,
      refl,
      refl,
    )

-- A processing job that is enqueued and then failed by its worker is failed and still dirty, and
-- ready at no time.
pub enqueue-fail_lost :
    (now now' : ℕ) (e : Enqueue) (reason : ReasonCode) (error_class : String) (jobs : List JobRow)
    (x : JobRow)
    → first (with_key e.media_path) jobs ≡ some x
    → x.state ≡ JobState.processing
    → (y : JobRow) × (first
          (with_key e.media_path)
          (fail_job now' e.media_path reason error_class (enqueue_path now e jobs))
        ≡ some y)
      × (y.state ≡ JobState.failed)
      × (y.dirty ≡ true)
      × ((later : ℕ) → is_ready later y ≡ false)
unfolding fail_job
enqueue-fail_lost now now' e reason error_class jobs x f busy =
    let z = enqueued now e x x in
    (
      failed now' reason error_class z,
      found_self e.media_path _ _ z (λ _. refl) (enqueue-found now e jobs x f),
      refl,
      ground arith,
      (λ later. refl),
    )

-- With unique keys, deferring a job that was just leased leaves it pending and unowned at the time
-- given, with the attempts it had before the lease.
pub lease-defer_refunds :
    (worker : String) (now ttl now' next_at : ℕ) (reason : ReasonCode) (jobs jobs' : List JobRow)
    (job : EnrichmentJob)
    → Unique (λ r. r.job_key) jobs
    → lease_next_ready_job worker now ttl jobs ≡ some (some job, jobs')
    → (x y : JobRow) × (first (with_key job.job_key) jobs ≡ some x)
      × (first (with_key job.job_key) (defer_job now' job.job_key reason next_at jobs') ≡ some y)
      × (y.attempt_count ≡ x.attempt_count)
      × (y.state ≡ JobState.pending)
      × (y.next_attempt_at ≡ some next_at)
      × (y.lease_owner ≡ none)
unfolding defer_job
lease-defer_refunds worker now ttl now' next_at reason jobs jobs' job u h =
    let (x, before, _, _, taken, _, _) = lease_takes-IsEarliest worker now ttl jobs jobs' job u h in
    let z = leased worker now ttl x x in
    (
      x,
      deferred now' reason next_at z,
      before,
      found_self job.job_key _ jobs' z (λ _. refl) taken,
      ground arith,
      refl,
      refl,
      refl,
    )

-- Recovery makes a row with an expired lease ready at once and leaves any other row as it is; after
-- it the row is not stale.
pub recover-first :
    (now : ℕ) (jobs : List JobRow) (k : FilePath) (x : JobRow)
    → first (with_key k) jobs ≡ some x
    → (y : JobRow) × (first (with_key k) (recover_stale_jobs now jobs).1 ≡ some y)
      × (is_stale now x ≡ true → is_ready now y ≡ true)
      × (is_stale now x ≡ false → y ≡ x)
      × (is_stale now y ≡ false)
unfolding recover_stale_jobs
recover-first now jobs k x f = (
  (if is_stale now x then recovered now x else x),
  rw (first-update (λ r. r.job_key) k (is_stale now) (recovered now) jobs (λ _. refl)) (rw f),
  ground arith,
  ground arith,
  ground arith,
)
