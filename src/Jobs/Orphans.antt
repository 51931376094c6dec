-- ===== src/Jobs/Orphans.antt =====
-- A job whose worker is gone before its lease is over, as after a crash and a quick restart.
use versarr.Base.{
  All, Bool, Bool-cases, FilePath, List, Option-cases, String, [], arith, beq_self, beq→eq, false,
  first, first-eq-some, first-insert, first-update, if◌then◌else◌, inl, inr, nat_eq, path_eq, refl,
  some, some-injective, string_eq, subst, sym, true, update, ℕ, ◌==◌, ◌∙◌, ◌∷◌, ◌≡◌, ◌≤◌,
}
use versarr.Domain.{JobState, is_processing}
use versarr.Jobs.{
  Call, Enqueue, complete_job, defer_job, enqueue_path, enqueued, expired, fail_job, heartbeat_job,
  is_stale, lease_next_ready_job, leased, new_row, next_ready, recover_stale_jobs, recovered,
  retry_job, run_call, run_calls, still_ready, table_after, with_key,
}
use versarr.Jobs.Lease.{lease-eq}
use versarr.Jobs.Lifecycle.{and-right, same_row}
use versarr.Migration.{key}
use versarr.Schema.{JobRow}

abbrev pub IsHeld : ℕ → JobRow → Type 0
IsHeld u y = (y.state ≡ JobState.processing) × (y.lease_until ≡ some u)

-- The row of key `k` is processing, with a lease up to `u`.
abbrev pub IsLeftProcessing : FilePath → ℕ → List JobRow → Type 0
IsLeftProcessing k u jobs = (y : JobRow) × (first (with_key k) jobs ≡ some y) × IsHeld u y

-- A call that is not the lost worker's: one on another job, an enqueue, a lease, or a recovery no
-- later than the lease's end.
abbrev pub IsOfOthers : FilePath → ℕ → Call → Type 0
IsOfOthers k u (Call.heartbeat now key until) = (key == k) ≡ false
IsOfOthers k u (Call.complete now key reason) = (key == k) ≡ false
IsOfOthers k u (Call.retry now key reason error_class next_at) = (key == k) ≡ false
IsOfOthers k u (Call.defer now key reason next_at) = (key == k) ≡ false
IsOfOthers k u (Call.fail now key reason error_class) = (key == k) ≡ false
IsOfOthers k u (Call.recover now) = now ≤ u
IsOfOthers k u _ = Unit

update-left :
    (p : JobRow → Bool) (f : JobRow → JobRow) (jobs : List JobRow) (k : FilePath) (u : ℕ)
    (x : JobRow)
    → ((r : JobRow) → (f r).job_key ≡ r.job_key)
    → (p x ≡ true → IsHeld u (f x))
    → first (with_key k) jobs ≡ some x
    → IsHeld u x
    → IsLeftProcessing k u (update p f jobs)
update-left p f jobs k u x keeps hit e h = (
  (if p x then f x else x),
  rw (first-update (λ r. r.job_key) k p f jobs keeps) (rw e),
  elim (Bool-cases (p x)) [ inl m ↦ rw m (hit m) | inr m ↦ rw m h ],
)

-- An update of the row of another key.
other-left :
    (key : FilePath) (f : JobRow → JobRow) (jobs : List JobRow) (k : FilePath) (u : ℕ) (x : JobRow)
    → ((r : JobRow) → (f r).job_key ≡ r.job_key)
    → (key == k) ≡ false
    → first (with_key k) jobs ≡ some x
    → IsHeld u x
    → IsLeftProcessing k u (update (with_key key) f jobs)
other-left key f jobs k u x keeps other e h =
    update-left (with_key key) f jobs k u x keeps
      (λ m.
        let same =
          sym (beq→eq x.job_key key m) ∙ beq→eq x.job_key k (first-eq-some (with_key k) jobs x e) in
        absurd (ground (arith, rw (same, beq_self k) at other)))
      e h

enqueue-left :
    (now : ℕ) (e : Enqueue) (jobs : List JobRow) (k : FilePath) (u : ℕ) (x : JobRow)
    → first (with_key k) jobs ≡ some x
    → IsHeld u x
    → IsLeftProcessing k u (enqueue_path now e jobs)
unfolding enqueue_path
enqueue-left now e jobs k u x f h = elim (Option-cases (first (with_key e.media_path) jobs)) [
  | inl n ↦ rw (n, enqueue_path) (x, rw (first-insert (with_key k) (new_row now e) jobs) (rw f), h)
  | inr (y, n) ↦
      rw (n, enqueue_path)
        (update-left (with_key e.media_path) (enqueued now e y) jobs k u x (λ _. refl)
          (λ m.
            let q : y ≡ x = some-injective y x (sym n ∙ same_row jobs k e.media_path x f m) in
            subst (λ z. IsHeld u (enqueued now e z x)) (sym q) (rw h.0 refl, h.1))
          f h)
]

lease-left :
    (worker : String) (now ttl : ℕ) (jobs : List JobRow) (k : FilePath) (u : ℕ) (x : JobRow)
    → first (with_key k) jobs ≡ some x
    → IsHeld u x
    → IsLeftProcessing k u (table_after jobs (lease_next_ready_job worker now ttl jobs))
lease-left worker now ttl jobs k u x f h = elim (Option-cases (next_ready now jobs)) [
  | inl n ↦ rw (lease-eq worker now ttl jobs, n) (x, f, h)
  | inr (y, n) ↦
      rw (lease-eq worker now ttl jobs, n)
        (update-left (still_ready now y) (leased worker now ttl y) jobs k u x (λ _. refl)
          (λ m. absurd (ground (arith, h.0))) f h)
]

run_call-left :
    (c : Call) (jobs : List JobRow) (k : FilePath) (u : ℕ)
    → IsOfOthers k u c
    → IsLeftProcessing k u jobs
    → IsLeftProcessing k u (run_call c jobs)
unfolding run_call heartbeat_job complete_job retry_job defer_job fail_job recover_stale_jobs
run_call-left (Call.enqueue now e) jobs k u o (x, f, h) = enqueue-left now e jobs k u x f h
run_call-left (Call.lease worker now ttl) jobs k u o (x, f, h) =
    lease-left worker now ttl jobs k u x f h
run_call-left (Call.heartbeat now key until) jobs k u o (x, f, h) =
    other-left key _ jobs k u x (λ _. refl) o f h
run_call-left (Call.complete now key reason) jobs k u o (x, f, h) =
    other-left key _ jobs k u x (λ _. refl) o f h
run_call-left (Call.retry now key reason error_class next_at) jobs k u o (x, f, h) =
    other-left key _ jobs k u x (λ _. refl) o f h
run_call-left (Call.defer now key reason next_at) jobs k u o (x, f, h) =
    other-left key _ jobs k u x (λ _. refl) o f h
run_call-left (Call.fail now key reason error_class) jobs k u o (x, f, h) =
    other-left key _ jobs k u x (λ _. refl) o f h
run_call-left (Call.recover now) jobs k u o (x, f, h) =
    update-left (is_stale now) (recovered now) jobs k u x (λ _. refl)
      (λ m. absurd (
        let stale = and-right (is_processing x.state) (expired x.lease_until now) m in
        ground (arith, rw h.1 at stale)))
      f h

-- A job that is processing and whose worker is gone, as after a crash, stays processing, with its
-- lease, through enqueues, also of its own path, leases, calls for other jobs, and recoveries that
-- come no later than the end of its lease, in any order.
pub orphan_stays :
    (cs : List Call) (jobs : List JobRow) (k : FilePath) (u : ℕ)
    → All (IsOfOthers k u) cs
    → IsLeftProcessing k u jobs
    → IsLeftProcessing k u (run_calls cs jobs)
unfolding run_calls
orphan_stays [] jobs k u o h = h
orphan_stays (c ∷ cs) jobs k u o h =
    orphan_stays cs (run_call c jobs) k u o.1 (run_call-left c jobs k u o.0 h)
