-- ===== src/Jobs/Lifecycle.antt =====
-- The life of a job: the edges of the diagram in docs/architecture.md, and what ends or refunds an
-- attempt.
use versarr.Base.{
  Bool, Bool-cases, FilePath, List, Option, Option-cases, String, arith, beq→eq, false, first,
  first-eq-some, first-insert, first-update, if◌then◌else◌, inl, inr, nat_eq, none, not, path_eq,
  refl, some, some-injective, string_eq, subst, sym, true, update, ℕ, ◌&&◌, ◌==◌, ◌∙◌, ◌≡◌, ◌⊎◌,
}
use versarr.Domain.{JobState, is_pending, is_processing}
use versarr.Jobs.{
  Call, Enqueue, complete_job, defer_job, enqueue_path, enqueued, fail_job, heartbeat_job, is_ready,
  is_stale, lease_next_ready_job, leased, new_row, next_ready, read_dirty, recover_stale_jobs,
  recovered, retry_job, run_call, still_ready, table_after, with_key,
}
use versarr.Jobs.Lease.{lease-eq}
use versarr.Schema.{JobRow}

-- The edges of the diagram, without the labels.
infix 40 ◌⟶◌
pub data ◌⟶◌ : JobState → JobState → Type 0 where
  lease : JobState.pending ⟶ JobState.processing
  finish : JobState.processing ⟶ JobState.completed
  give_up : JobState.processing ⟶ JobState.failed
  put_back : JobState.processing ⟶ JobState.pending
  revive_completed : JobState.completed ⟶ JobState.pending
  revive_failed : JobState.failed ⟶ JobState.pending

-- A call by the worker that holds the job stands where its job is processing; any other call may
-- come at any time.
abbrev pub IsOwned : Call → List JobRow → Type 0
IsOwned (Call.complete now key reason) jobs =
    (x : JobRow) → first (with_key key) jobs ≡ some x → x.state ≡ JobState.processing
IsOwned (Call.retry now key reason error_class next_at) jobs =
    (x : JobRow) → first (with_key key) jobs ≡ some x → x.state ≡ JobState.processing
IsOwned (Call.defer now key reason next_at) jobs =
    (x : JobRow) → first (with_key key) jobs ≡ some x → x.state ≡ JobState.processing
IsOwned (Call.fail now key reason error_class) jobs =
    (x : JobRow) → first (with_key key) jobs ≡ some x → x.state ≡ JobState.processing
IsOwned _ jobs = Unit

-- What becomes of one row in a call: it stays in its state or follows an edge.
abbrev pub Moves : Option JobRow → Option JobRow → Type 0
Moves none none = Unit
Moves none (some y) = y.state ≡ JobState.pending
Moves (some x) none = ⊥
Moves (some x) (some y) = (y.state ≡ x.state) ⊎ (x.state ⟶ y.state)

abbrev MovesTo : JobState → JobState → Type 0
MovesTo s t = (t ≡ s) ⊎ (s ⟶ t)

-- The move of one row by an update that leaves the keys alone.
update-Moves :
    (p : JobRow → Bool) (f : JobRow → JobRow) (jobs : List JobRow) (k : FilePath)
    → ((r : JobRow) → (f r).job_key ≡ r.job_key)
    → ((x : JobRow) → first (with_key k) jobs ≡ some x → p x ≡ true → MovesTo x.state (f x).state)
    → Moves (first (with_key k) jobs) (first (with_key k) (update p f jobs))
update-Moves p f jobs k key hit =
    rw (first-update (λ r. r.job_key) k p f jobs key)
      (elim (Option-cases (first (with_key k) jobs)) [
        | inl e ↦ rw e tt
        | inr (x, e) ↦
            rw e (elim (Bool-cases (p x)) [ inl m ↦ rw m (hit x e m) | inr m ↦ rw m (inl refl) ])
      ])

-- A row found by one key that has another key is what the other key finds too.
pub same_row :
    (jobs : List JobRow) (k key : FilePath) (x : JobRow)
    → first (with_key k) jobs ≡ some x
    → with_key key x ≡ true
    → first (with_key key) jobs ≡ some x
same_row jobs k key x e m =
    let q : k ≡ key =
      sym (beq→eq x.job_key k (first-eq-some (with_key k) jobs x e)) ∙ beq→eq x.job_key key m in
    subst (λ j. first (with_key j) jobs ≡ some x) q e

-- A call by the holder of the job, which puts it into the state `t`.
held-Moves :
    (key : FilePath) (f : JobRow → JobRow) (jobs : List JobRow) (k : FilePath)
    → ((r : JobRow) → (f r).job_key ≡ r.job_key)
    → ((r : JobRow) → JobState.processing ⟶ (f r).state)
    → ((x : JobRow) → first (with_key key) jobs ≡ some x → x.state ≡ JobState.processing)
    → Moves (first (with_key k) jobs) (first (with_key k) (update (with_key key) f jobs))
held-Moves key f jobs k keeps edge held = update-Moves (with_key key) f jobs k keeps (λ x e m.
    inr (subst (λ s. s ⟶ (f x).state) (sym (held x (same_row jobs k key x e m))) (edge x)))

enqueued-MovesTo :
    (s : JobState) → MovesTo s (if not (is_processing s) then JobState.pending else s)
enqueued-MovesTo JobState.pending = inl refl
enqueued-MovesTo JobState.processing = inl refl
enqueued-MovesTo JobState.completed = inr revive_completed
enqueued-MovesTo JobState.failed = inr revive_failed

leased-MovesTo : (s : JobState) → is_pending s ≡ true → MovesTo s JobState.processing
leased-MovesTo JobState.pending h = inr ◌⟶◌.lease
leased-MovesTo _ h = absurd (cc)

recovered-MovesTo : (s : JobState) → is_processing s ≡ true → MovesTo s JobState.pending
recovered-MovesTo JobState.processing h = inr put_back
recovered-MovesTo _ h = absurd (cc)

completed-edge :
    (dirty : Bool) → JobState.processing ⟶ (if dirty then JobState.pending else JobState.completed)
completed-edge true = put_back
completed-edge false = finish

pub and-left : (a b : Bool) → (a && b) ≡ true → a ≡ true
and-left a b h = ground arith

pub and-right : (a b : Bool) → (a && b) ≡ true → b ≡ true
and-right a b h = ground arith

enqueue-Moves :
    (now : ℕ) (e : Enqueue) (jobs : List JobRow) (k : FilePath)
    → Moves (first (with_key k) jobs) (first (with_key k) (enqueue_path now e jobs))
unfolding enqueue_path
enqueue-Moves now e jobs k = elim (Option-cases (first (with_key e.media_path) jobs)) [
  | inl n ↦
      rw (n, enqueue_path)
        (rw (first-insert (with_key k) (new_row now e) jobs)
          (elim (Option-cases (first (with_key k) jobs)) [
            | inl e' ↦ rw e' (new-Moves (e.media_path == k))
            | inr (x, e') ↦ rw e' (inl refl)
          ]))
  | inr (x, n) ↦
      rw (n, enqueue_path)
        (update-Moves (with_key e.media_path) (enqueued now e x) jobs k (λ _. refl)
          (λ y e' m.
            let q : x ≡ y = some-injective x y (sym n ∙ same_row jobs k e.media_path y e' m) in
            subst (λ z. MovesTo z.state (enqueued now e x z).state) q (enqueued-MovesTo x.state)))
]
  where
    new-Moves : (b : Bool) → Moves none (if b then some (new_row now e) else none)
    new-Moves true = refl
    new-Moves false = tt

lease-Moves :
    (worker : String) (now ttl : ℕ) (jobs : List JobRow) (k : FilePath)
    → Moves
        (first (with_key k) jobs)
        (first (with_key k) (table_after jobs (lease_next_ready_job worker now ttl jobs)))
lease-Moves worker now ttl jobs k = elim (Option-cases (next_ready now jobs)) [
  | inl n ↦
      rw (lease-eq worker now ttl jobs, n)
        (elim (Option-cases (first (with_key k) jobs)) [
          | inl e ↦ rw e tt
          | inr (x, e) ↦ rw e (inl refl)
        ])
  | inr (x, n) ↦
      rw (lease-eq worker now ttl jobs, n)
        (update-Moves (still_ready now x) (leased worker now ttl x) jobs k (λ _. refl)
          (λ y e m.
            leased-MovesTo y.state
              (and-left _ _ (and-right (with_key x.job_key y) (is_ready now y) m))))
]

-- A call moves each job along an edge of the state diagram or leaves its state alone, a new job is
-- pending and none disappears, where the calls that end an attempt meet a processing row.
pub run_call-Moves :
    (c : Call) (jobs : List JobRow) (k : FilePath)
    → IsOwned c jobs
    → Moves (first (with_key k) jobs) (first (with_key k) (run_call c jobs))
unfolding run_call heartbeat_job complete_job retry_job defer_job fail_job recover_stale_jobs
run_call-Moves (Call.enqueue now e) jobs k o = enqueue-Moves now e jobs k
run_call-Moves (Call.lease worker now ttl) jobs k o = lease-Moves worker now ttl jobs k
run_call-Moves (Call.heartbeat now key until) jobs k o =
    update-Moves (with_key key) _ jobs k (λ _. refl) (λ x e m. inl refl)
run_call-Moves (Call.complete now key reason) jobs k o =
    held-Moves key _ jobs k (λ _. refl)
      (λ r. completed-edge (read_dirty (first (with_key key) jobs))) o
run_call-Moves (Call.retry now key reason error_class next_at) jobs k o =
    held-Moves key _ jobs k (λ _. refl) (λ r. put_back) o
run_call-Moves (Call.defer now key reason next_at) jobs k o =
    held-Moves key _ jobs k (λ _. refl) (λ r. put_back) o
run_call-Moves (Call.fail now key reason error_class) jobs k o =
    held-Moves key _ jobs k (λ _. refl) (λ r. give_up) o
run_call-Moves (Call.recover now) jobs k o =
    update-Moves (is_stale now) (recovered now) jobs k (λ _. refl)
      (λ x e m. recovered-MovesTo x.state (and-left _ _ m))
