-- ===== src/Jobs/Lease.antt =====
-- Leasing: the loop, the job that it takes, and two leases in a row.
use mathlib.Core.Option
use versarr.Base.{
  All, Bool-cases, FilePath, List, Option, Option-cases, String, Unique, [], any, ap, arith,
  beq_self, beq→eq, false, first, first-eq-some, first-update, if◌then◌else◌, inl, inr, is_some,
  nat_beq, nat_eq, none, path_beq_iff, path_eq, refl, some, some-injective, string_eq, subst, suc,
  sym, true, update, update-Unique, ℕ, ◌+◌, ◌<◌, ◌==◌, ◌∙◌, ◌∷◌, ◌≡◌, ◌≢◌,
}
use versarr.Domain.{EnrichmentJob}
use versarr.Jobs.{
  is_ready, lease_loop, lease_next_ready_job, leased, leased_job, next_ready, still_ready, with_key,
}
use versarr.Jobs.Rows.{
  IsEarliest, next_ready-IsEarliest, next_ready-count, next_ready-first, next_ready-none,
  next_ready-ready,
}
use versarr.Schema.{JobRow}

pos-ne-zero : (c : ℕ) → 0 < c → nat_beq c 0 ≡ false
pos-ne-zero c h = ground arith

-- What a lease does, with no loop.
abbrev pub lease_once :
    String → ℕ → ℕ → List JobRow → Option JobRow → Option (Option EnrichmentJob × List JobRow)
lease_once worker now ttl jobs none = some (none, jobs)
lease_once worker now ttl jobs (some x) =
    some (some (leased_job now ttl x), update (still_ready now x) (leased worker now ttl x) jobs)

-- The loop of a lease ends in its first round: whatever the fuel above 0, the result is that of one
-- selection and one update, and never that the fuel ran out.
pub lease_loop_total :
    (fuel : ℕ) (worker : String) (now ttl : ℕ) (jobs : List JobRow)
    → lease_loop (suc fuel) worker now ttl jobs
      ≡ lease_once worker now ttl jobs (next_ready now jobs)
unfolding lease_loop
lease_loop_total fuel worker now ttl jobs = elim (Option-cases (next_ready now jobs)) [
  | inl n ↦ rw (n, lease_loop)
  | inr (x, n) ↦ rw (n, lease_loop, pos-ne-zero _ (next_ready-count now jobs x n))
]

-- A row is selected exactly if some row is ready.
next_ready-any :
    (now : ℕ) (jobs : List JobRow) → is_some (next_ready now jobs) ≡ any (is_ready now) jobs
unfolding next_ready any
next_ready-any now [] = refl
next_ready-any now (r ∷ t) = elim (Bool-cases (is_ready now r)) [
  | inl b ↦ rw b refl
  | inr b ↦ rw b (next_ready-any now t)
]

handed_out-is_some :
    (worker : String) (now ttl : ℕ) (jobs : List JobRow) (o : Option JobRow)
    → (job : Option EnrichmentJob) × (jobs' : List JobRow) × (lease_once worker now ttl jobs o
        ≡ some (job, jobs'))
      × (is_some job ≡ is_some o)
handed_out-is_some worker now ttl jobs none = (none, jobs, refl, refl)
handed_out-is_some worker now ttl jobs (some x) = (_, _, refl, refl)

-- Whatever the fuel above 0, the loop of a lease comes to an end and never runs out of it, and it
-- hands out a job exactly if some row is ready.
pub lease_loop-ends :
    (fuel : ℕ) (worker : String) (now ttl : ℕ) (jobs : List JobRow)
    → (job : Option EnrichmentJob) × (jobs' : List JobRow) × (lease_loop
          (suc fuel)
          worker
          now
          ttl
          jobs
        ≡ some (job, jobs'))
      × (is_some job ≡ any (is_ready now) jobs)
lease_loop-ends fuel worker now ttl jobs =
    let (job, jobs', once, given) = handed_out-is_some worker now ttl jobs (next_ready now jobs) in
    (job, jobs', lease_loop_total fuel worker now ttl jobs ∙ once, given ∙ next_ready-any now jobs)

pub lease-eq :
    (worker : String) (now ttl : ℕ) (jobs : List JobRow)
    → lease_next_ready_job worker now ttl jobs
      ≡ lease_once worker now ttl jobs (next_ready now jobs)
unfolding lease_next_ready_job
lease-eq worker now ttl jobs = lease_loop_total 0 worker now ttl jobs

-- A job was selected whenever one is handed out.
pub lease-some :
    (worker : String) (now ttl : ℕ) (jobs jobs' : List JobRow) (job : EnrichmentJob)
    → lease_next_ready_job worker now ttl jobs ≡ some (some job, jobs')
    → (x : JobRow) × (next_ready now jobs ≡ some x)
      × (job ≡ leased_job now ttl x)
      × (jobs' ≡ update (still_ready now x) (leased worker now ttl x) jobs)
lease-some worker now ttl jobs jobs' job h = elim (Option-cases (next_ready now jobs)) [
  | inl n ↦ absurd (cc (h, rw n at (lease-eq worker now ttl jobs)))
  | inr (x, n) ↦ let e = rw n at (lease-eq worker now ttl jobs) in (x, n, cc (h, e), cc (h, e))
]

-- Where no job is handed out, no row is ready and the table is as it was.
pub lease_idle :
    (worker : String) (now ttl : ℕ) (jobs jobs' : List JobRow)
    → lease_next_ready_job worker now ttl jobs ≡ some (none, jobs')
    → (jobs' ≡ jobs) × All (λ r. is_ready now r ≡ false) jobs
lease_idle worker now ttl jobs jobs' h = elim (Option-cases (next_ready now jobs)) [
  | inl n ↦
      let e = rw n at (lease-eq worker now ttl jobs) in (cc (h, e), next_ready-none now jobs n)
  | inr (x, n) ↦ absurd (cc (h, rw n at (lease-eq worker now ttl jobs)))
]

-- A row of another key than the selected one is not written.
untouched :
    (now : ℕ) (f : JobRow → JobRow) (x : JobRow) (k : FilePath) (jobs : List JobRow)
    → (x.job_key == k) ≡ false
    → Option.map (λ a. if still_ready now x a then f a else a) (first (with_key k) jobs)
      ≡ first (with_key k) jobs
untouched now f x k jobs m = elim (Option-cases (first (with_key k) jobs)) [
  | inl f ↦ rw f
  | inr (y, f) ↦
      let e = first-eq-some (with_key k) jobs y f in
      rw f (
        ground (
          arith,
          path_beq_iff y.job_key k,
          path_beq_iff y.job_key x.job_key,
          path_beq_iff x.job_key k,
        ))
]

-- The rows after a lease, found by key.
pub lease-first :
    (worker : String) (now ttl : ℕ) (jobs : List JobRow) (x : JobRow) (k : FilePath)
    → Unique (λ r. r.job_key) jobs
    → next_ready now jobs ≡ some x
    → first (with_key k) (update (still_ready now x) (leased worker now ttl x) jobs)
      ≡ (if x.job_key == k then some (leased worker now ttl x x) else first (with_key k) jobs)
lease-first worker now ttl jobs x k u n =
    rw
      (first-update (λ r. r.job_key) k (still_ready now x) (leased worker now ttl x) jobs
        (λ _. refl))
      (elim (Bool-cases (x.job_key == k)) [
        | inl m ↦
            let q : x.job_key ≡ k = beq→eq x.job_key k m in
            let f : first (with_key k) jobs ≡ some x =
              subst (λ j. first (with_key j) jobs ≡ some x) q (next_ready-first now jobs x u n) in
            rw (f, m) (rw (beq_self x.job_key, next_ready-ready now jobs x n))
        | inr m ↦ rw m (untouched now (leased worker now ttl x) x k jobs m)
      ])

-- With unique keys, the job handed out is that of a ready row which no ready row precedes by
-- priority, due time and creation; its row becomes processing and owned with one attempt more, and
-- other rows are unchanged.
pub lease_takes-IsEarliest :
    (worker : String) (now ttl : ℕ) (jobs jobs' : List JobRow) (job : EnrichmentJob)
    → Unique (λ r. r.job_key) jobs
    → lease_next_ready_job worker now ttl jobs ≡ some (some job, jobs')
    → (x : JobRow) × (first (with_key job.job_key) jobs ≡ some x)
      × (is_ready now x ≡ true)
      × IsEarliest now x jobs
      × (first (with_key job.job_key) jobs' ≡ some (leased worker now ttl x x))
      × (job.attempt_count ≡ x.attempt_count + 1)
      × ((k : FilePath) → job.job_key ≢ k → first (with_key k) jobs' ≡ first (with_key k) jobs)
lease_takes-IsEarliest worker now ttl jobs jobs' job u h =
    let (x, n, e, e') = lease-some worker now ttl jobs jobs' job h in
    let q : x.job_key ≡ job.job_key = ap (λ (j : EnrichmentJob). j.job_key) (sym e) in
    let after = λ (k : FilePath). lease-first worker now ttl jobs x k u n in
    (
      x,
      subst (λ k. first (with_key k) jobs ≡ some x) q (next_ready-first now jobs x u n),
      next_ready-ready now jobs x n,
      next_ready-IsEarliest now jobs x n,
      rw (e', e) (rw (beq_self x.job_key) at (after x.job_key)),
      ap (λ (j : EnrichmentJob). j.attempt_count) e,
      (λ k ne. rw e' (elim (Bool-cases (x.job_key == k)) [
        | inl m ↦ absurd (ne (sym q ∙ beq→eq x.job_key k m))
        | inr m ↦ rw m at (after k)
      ])),
    )

pub lease-Unique :
    (worker : String) (now ttl : ℕ) (jobs jobs' : List JobRow) (job : EnrichmentJob)
    → Unique (λ r. r.job_key) jobs
    → lease_next_ready_job worker now ttl jobs ≡ some (some job, jobs')
    → Unique (λ r. r.job_key) jobs'
lease-Unique worker now ttl jobs jobs' job u h =
    let (x, _, _, e) = lease-some worker now ttl jobs jobs' job h in
    rw e (
      update-Unique (λ r. r.job_key) (still_ready now x) (leased worker now ttl x) jobs (λ _. refl)
        u)

-- With unique keys, a job that a lease hands out is not handed out by the next lease, at any times.
pub lease_exclusive :
    (worker worker' : String) (now now' ttl ttl' : ℕ) (jobs jobs' jobs'' : List JobRow)
    (job job' : EnrichmentJob)
    → Unique (λ r. r.job_key) jobs
    → lease_next_ready_job worker now ttl jobs ≡ some (some job, jobs')
    → lease_next_ready_job worker' now' ttl' jobs' ≡ some (some job', jobs'')
    → job.job_key ≢ job'.job_key
lease_exclusive worker worker' now now' ttl ttl' jobs jobs' jobs'' job job' u h h' same =
    let (x, _, _, _, taken, _, _) = lease_takes-IsEarliest worker now ttl jobs jobs' job u h in
    let (y, n, e, _) = lease-some worker' now' ttl' jobs' jobs'' job' h' in
    let u' = lease-Unique worker now ttl jobs jobs' job u h in
    let found = next_ready-first now' jobs' y u' n in
    let q : job.job_key ≡ y.job_key = same ∙ ap (λ (j : EnrichmentJob). j.job_key) e in
    let f = subst (λ k. first (with_key k) jobs' ≡ some y) (sym q) found in
    let w : leased worker now ttl x x ≡ y = some-injective _ y (sym taken ∙ f) in
    let r = next_ready-ready now' jobs' y n in
    absurd (cc (subst (λ z. is_ready now' z ≡ true) (sym w) r))
