-- ===== src/Jobs/Flags.antt =====
-- The permissions of a job (force, overwrite_existing, allow_manual_overwrite) over time.
use versarr.Base.{
  Bool, Bool-cases, FilePath, List, Option-cases, String, [], arith, first, first-insert,
  first-update, if◌then◌else◌, inl, inr, nat_eq, path_eq, refl, some, some-injective, string_eq,
  subst, sym, true, update, ℕ, ◌∙◌, ◌∷◌, ◌≡◌,
}
use versarr.Jobs.{
  Call, Enqueue, complete_job, defer_job, enqueue_path, enqueued, fail_job, heartbeat_job, is_stale,
  lease_next_ready_job, leased, new_row, next_ready, recover_stale_jobs, recovered, retry_job,
  run_call, run_calls, still_ready, table_after, with_key,
}
use versarr.Jobs.Lease.{lease-eq}
use versarr.Jobs.Lifecycle.{same_row}
use versarr.Schema.{JobRow}

-- Every permission of `x` is one of `y`.
pub record IsKept (x y : JobRow) : Type 0 where
  pub force_kept : x.force ≡ true → y.force ≡ true
  pub overwrite_kept : x.overwrite_existing ≡ true → y.overwrite_existing ≡ true
  pub manual_kept : x.allow_manual_overwrite ≡ true → y.allow_manual_overwrite ≡ true

IsKept-refl : (x : JobRow) → IsKept x x
IsKept-refl x = ground arith

IsKept-trans : (x y z : JobRow) → IsKept x y → IsKept y z → IsKept x z
IsKept-trans x y z h k = record {
  force_kept = λ e. k.force_kept (h.force_kept e);
  overwrite_kept = λ e. k.overwrite_kept (h.overwrite_kept e);
  manual_kept = λ e. k.manual_kept (h.manual_kept e);
}

-- The row `x` of key `k` is still there, with its permissions.
abbrev StillKept : FilePath → JobRow → List JobRow → Type 0
StillKept k x jobs = (y : JobRow) × (first (with_key k) jobs ≡ some y) × IsKept x y

update-kept :
    (p : JobRow → Bool) (f : JobRow → JobRow) (jobs : List JobRow) (k : FilePath) (x : JobRow)
    → ((r : JobRow) → (f r).job_key ≡ r.job_key)
    → (p x ≡ true → IsKept x (f x))
    → first (with_key k) jobs ≡ some x
    → StillKept k x (update p f jobs)
update-kept p f jobs k x keeps hit e = (
  (if p x then f x else x),
  rw (first-update (λ r. r.job_key) k p f jobs keeps) (rw e),
  elim (Bool-cases (p x)) [ inl m ↦ rw m (hit m) | inr m ↦ rw m (IsKept-refl x) ],
)

enqueue-kept :
    (now : ℕ) (e : Enqueue) (jobs : List JobRow) (k : FilePath) (x : JobRow)
    → first (with_key k) jobs ≡ some x
    → StillKept k x (enqueue_path now e jobs)
unfolding enqueue_path
enqueue-kept now e jobs k x f = elim (Option-cases (first (with_key e.media_path) jobs)) [
  | inl n ↦
      rw (n, enqueue_path)
        (x, rw (first-insert (with_key k) (new_row now e) jobs) (rw f), IsKept-refl x)
  | inr (y, n) ↦
      rw (n, enqueue_path)
        (update-kept (with_key e.media_path) (enqueued now e y) jobs k x (λ _. refl)
          (λ m.
            let q : y ≡ x = some-injective y x (sym n ∙ same_row jobs k e.media_path x f m) in
            subst (λ z. IsKept x (enqueued now e z x)) (sym q) (ground arith))
          f)
]

lease-kept :
    (worker : String) (now ttl : ℕ) (jobs : List JobRow) (k : FilePath) (x : JobRow)
    → first (with_key k) jobs ≡ some x
    → StillKept k x (table_after jobs (lease_next_ready_job worker now ttl jobs))
lease-kept worker now ttl jobs k x f = elim (Option-cases (next_ready now jobs)) [
  | inl n ↦ rw (lease-eq worker now ttl jobs, n) (x, f, IsKept-refl x)
  | inr (y, n) ↦
      rw (lease-eq worker now ttl jobs, n)
        (update-kept (still_ready now y) (leased worker now ttl y) jobs k x (λ _. refl)
          (λ _. ground arith) f)
]

run_call-kept :
    (c : Call) (jobs : List JobRow) (k : FilePath) (x : JobRow)
    → first (with_key k) jobs ≡ some x
    → StillKept k x (run_call c jobs)
unfolding run_call heartbeat_job complete_job retry_job defer_job fail_job recover_stale_jobs
run_call-kept (Call.enqueue now e) jobs k x f = enqueue-kept now e jobs k x f
run_call-kept (Call.lease worker now ttl) jobs k x f = lease-kept worker now ttl jobs k x f
run_call-kept (Call.heartbeat now key until) jobs k x f =
    update-kept (with_key key) _ jobs k x (λ _. refl) (λ _. ground arith) f
run_call-kept (Call.complete now key reason) jobs k x f =
    update-kept (with_key key) _ jobs k x (λ _. refl) (λ _. ground arith) f
run_call-kept (Call.retry now key reason error_class next_at) jobs k x f =
    update-kept (with_key key) _ jobs k x (λ _. refl) (λ _. ground arith) f
run_call-kept (Call.defer now key reason next_at) jobs k x f =
    update-kept (with_key key) _ jobs k x (λ _. refl) (λ _. ground arith) f
run_call-kept (Call.fail now key reason error_class) jobs k x f =
    update-kept (with_key key) _ jobs k x (λ _. refl) (λ _. ground arith) f
run_call-kept (Call.recover now) jobs k x f =
    update-kept (is_stale now) (recovered now) jobs k x (λ _. refl) (λ _. ground arith) f

-- A sequence of calls never removes a job nor withdraws one of its three permissions.
pub run_calls-IsKept :
    (cs : List Call) (jobs : List JobRow) (k : FilePath) (x : JobRow)
    → first (with_key k) jobs ≡ some x
    → (y : JobRow) × (first (with_key k) (run_calls cs jobs) ≡ some y) × IsKept x y
unfolding run_calls
run_calls-IsKept [] jobs k x f = (x, f, IsKept-refl x)
run_calls-IsKept (c ∷ cs) jobs k x f =
    let (y, g, h) = run_call-kept c jobs k x f in
    let (z, g', h') = run_calls-IsKept cs (run_call c jobs) k y g in
    (z, g', IsKept-trans x y z h h')
