-- ===== src/Jobs/Invariant.antt =====
-- What holds of every row of the jobs table between two calls.
use versarr.Base.{
  All, All-both, Bool, List, Option-cases, String, Unique, [], arith, false, first, first-All,
  first-Unique, inl, inr, insert-All, insert-Unique, is_some, keep, nat_eq, none, path_eq, refl,
  some, string_eq, subst, sym, true, update, update-All, update-All_map, update-Unique, ℕ, ◌∷◌, ◌≡◌,
}
use versarr.Domain.{JobState, ReasonCode}
use versarr.Jobs.{
  Call, Enqueue, complete_job, completed, defer_job, deferred, enqueue_path, enqueued, fail_job,
  failed, heartbeat_job, is_stale, leased, new_row, next_ready, recover_stale_jobs, recovered,
  retried, retry_job, run_call, run_calls, still_ready, with_key,
}
use versarr.Jobs.Lease.{lease-eq}
use versarr.Schema.{JobRow}

-- A pending job has a time at which it becomes ready, and a processing one a lease that ends, so
-- none is stuck; a job that has ended is not scheduled, and only a processing one has an owner.
pub record RowIsValid (r : JobRow) : Type 0 where
  pub key_is_path : r.job_key ≡ r.media_path
  pub pending_scheduled : r.state ≡ JobState.pending → is_some r.next_attempt_at ≡ true
  pub processing_leased :
      r.state ≡ JobState.processing
      → (is_some r.lease_until ≡ true) × (is_some r.lease_owner ≡ true)
  pub completed_idle :
      r.state ≡ JobState.completed
      → (r.next_attempt_at ≡ none) × (r.lease_owner ≡ none) × (r.dirty ≡ false)
  pub failed_idle : r.state ≡ JobState.failed → (r.next_attempt_at ≡ none) × (r.lease_owner ≡ none)
  pub pending_unowned : r.state ≡ JobState.pending → r.lease_owner ≡ none

abbrev pub IsValid : List JobRow → Type 0
IsValid jobs = Unique (λ r. r.job_key) jobs × All RowIsValid jobs

-- An update by key whose values keep the key and the validity of a row keeps the table's.
keep-IsValid :
    (p : JobRow → Bool) (f : JobRow → JobRow) (jobs : List JobRow)
    → ((r : JobRow) → (f r).job_key ≡ r.job_key)
    → ((r : JobRow) → p r ≡ true → RowIsValid r → RowIsValid (f r))
    → IsValid jobs
    → IsValid (update p f jobs)
keep-IsValid p f jobs key keep v =
    (update-Unique (λ r. r.job_key) p f jobs key v.0, update-All RowIsValid p f jobs keep v.1)

new_row-IsValid : (now : ℕ) (e : Enqueue) → RowIsValid (new_row now e)
new_row-IsValid now e = ground arith

enqueued-IsValid :
    (now : ℕ) (e : Enqueue) (x : JobRow) → RowIsValid x → RowIsValid (enqueued now e x x)
enqueued-IsValid now e x v = ground arith

leased-IsValid :
    (worker : String) (now ttl : ℕ) (x r : JobRow)
    → RowIsValid r
    → RowIsValid (leased worker now ttl x r)
leased-IsValid worker now ttl x r v = ground arith

beat-IsValid :
    (now until : ℕ) (r : JobRow)
    → RowIsValid r
    → RowIsValid (record r { lease_until = some until; updated_at = now })
beat-IsValid now until r v = ground arith

completed-IsValid :
    (now : ℕ) (reason : ReasonCode) (dirty : Bool) (attempts : ℕ) (r : JobRow)
    → RowIsValid r
    → RowIsValid (completed now reason dirty attempts r)
completed-IsValid now reason dirty attempts r v = ground arith

retried-IsValid :
    (now : ℕ) (reason : ReasonCode) (error_class : String) (next_at : ℕ) (r : JobRow)
    → RowIsValid r
    → RowIsValid (retried now reason error_class next_at r)
retried-IsValid now reason error_class next_at r v = ground arith

deferred-IsValid :
    (now : ℕ) (reason : ReasonCode) (next_at : ℕ) (r : JobRow)
    → RowIsValid r
    → RowIsValid (deferred now reason next_at r)
deferred-IsValid now reason next_at r v = ground arith

failed-IsValid :
    (now : ℕ) (reason : ReasonCode) (error_class : String) (r : JobRow)
    → RowIsValid r
    → RowIsValid (failed now reason error_class r)
failed-IsValid now reason error_class r v = ground arith

recovered-IsValid : (now : ℕ) (r : JobRow) → RowIsValid r → RowIsValid (recovered now r)
recovered-IsValid now r v = ground arith

pub enqueue-IsValid :
    (now : ℕ) (e : Enqueue) (jobs : List JobRow) → IsValid jobs → IsValid (enqueue_path now e jobs)
unfolding enqueue_path
enqueue-IsValid now e jobs v = elim (Option-cases (first (with_key e.media_path) jobs)) [
  | inl f ↦
      rw (f, enqueue_path)
        (
          insert-Unique (λ r. r.job_key) (new_row now e) jobs f v.0,
          insert-All RowIsValid (new_row now e) jobs (new_row-IsValid now e) v.1,
        )
  | inr (x, f) ↦
      let valid = first-All RowIsValid (with_key e.media_path) jobs x v.1 f in
      rw (f, enqueue_path)
        (
          update-Unique (λ r. r.job_key) (with_key e.media_path) (enqueued now e x) jobs (λ _. refl)
              v.0,
          update-All_map (λ r. (with_key e.media_path r ≡ true → r ≡ x) × RowIsValid r) RowIsValid
              (with_key e.media_path) (enqueued now e x) jobs
              (λ r m h.
                subst (λ y. RowIsValid (enqueued now e x y)) (sym (h.0 m))
                  (enqueued-IsValid now e x valid))
              (λ r _ h. h.1)
              (All-both (λ r. with_key e.media_path r ≡ true → r ≡ x) RowIsValid jobs
                (first-Unique (λ r. r.job_key) e.media_path jobs x v.0 f) v.1),
        )
]

pub lease-IsValid :
    (worker : String) (now ttl : ℕ) (jobs : List JobRow)
    → IsValid jobs
    → IsValid (run_call (Call.lease worker now ttl) jobs)
unfolding run_call
lease-IsValid worker now ttl jobs v = elim (Option-cases (next_ready now jobs)) [
  | inl n ↦ rw (lease-eq worker now ttl jobs, n) v
  | inr (x, n) ↦
      rw (lease-eq worker now ttl jobs, n)
        (keep-IsValid (still_ready now x) (leased worker now ttl x) jobs (λ _. refl)
          (λ r _. leased-IsValid worker now ttl x r) v)
]

-- Every call keeps the table valid: the keys stay unique, and no job is left without the time or
-- the lease that brings it back.
pub run_call-IsValid : (c : Call) (jobs : List JobRow) → IsValid jobs → IsValid (run_call c jobs)
unfolding run_call heartbeat_job complete_job retry_job defer_job fail_job recover_stale_jobs
run_call-IsValid (Call.enqueue now e) jobs v = enqueue-IsValid now e jobs v
run_call-IsValid (Call.lease worker now ttl) jobs v = lease-IsValid worker now ttl jobs v
run_call-IsValid (Call.heartbeat now key until) jobs v =
    keep-IsValid (with_key key) _ jobs (λ _. refl) (λ r _. beat-IsValid now until r) v
run_call-IsValid (Call.complete now key reason) jobs v =
    keep-IsValid (with_key key) _ jobs (λ _. refl) (λ r _. completed-IsValid now reason _ _ r) v
run_call-IsValid (Call.retry now key reason error_class next_at) jobs v =
    keep-IsValid (with_key key) _ jobs (λ _. refl)
      (λ r _. retried-IsValid now reason error_class next_at r) v
run_call-IsValid (Call.defer now key reason next_at) jobs v =
    keep-IsValid (with_key key) _ jobs (λ _. refl) (λ r _. deferred-IsValid now reason next_at r) v
run_call-IsValid (Call.fail now key reason error_class) jobs v =
    keep-IsValid (with_key key) _ jobs (λ _. refl) (λ r _. failed-IsValid now reason error_class r)
      v
run_call-IsValid (Call.recover now) jobs v =
    keep-IsValid (is_stale now) (recovered now) jobs (λ _. refl) (λ r _. recovered-IsValid now r) v

-- A sequence of calls of the job repository keeps the keys of the jobs table unique and every row
-- valid: a pending one has a due time and no owner, a processing one a lease and an owner, a
-- completed or failed one neither due time nor owner.
pub run_calls-IsValid :
    (cs : List Call) (jobs : List JobRow) → IsValid jobs → IsValid (run_calls cs jobs)
unfolding run_calls
run_calls-IsValid [] jobs v = v
run_calls-IsValid (c ∷ cs) jobs v =
    run_calls-IsValid cs (run_call c jobs) (run_call-IsValid c jobs v)
