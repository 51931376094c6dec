-- ===== src/Reconciliation/Queued.antt =====
-- What a scan leaves in the jobs table.
use versarr.Base.{
  Bool, Bool-cases, FilePath, List, Option, Option-cases, [], arith, beq_self, beq→eq, false, first,
  first-insert, first-update, first-update_self, if◌then◌else◌, inl, inr, member, nat_eq, none,
  path_eq, refl, some, string_eq, subst, sym, true, ℕ, ◌&&◌, ◌==◌, ◌||◌, ◌∙◌, ◌∷◌, ◌≡◌,
}
use versarr.Domain.{
  Raised, ReconciliationRecord, ScanKind, TriggerKind, is_exception, is_pending, is_processing, ok,
  raised,
}
use versarr.Jobs.{Enqueue, enqueue_path, enqueued, new_row, with_key}
use versarr.Reconciliation.{FileFacts, needs_evaluation, read_file_facts}
use versarr.Reconciliation.Scan.{
  ScanInputs, ingest_all, ingest_candidate, mark_gone, scan_enqueue, scan_root, scan_started,
  select_paths, to_evaluate,
}
use versarr.Schema.{Database, JobRow}
use versarr.Snapshots.{list_reconciliation_records}

-- A row that a worker will look at again: ready to be taken, or held and to be taken anew.
abbrev pub is_queued : JobRow → Bool
is_queued r = is_pending r.state || is_processing r.state && r.dirty

abbrev pub row_is_queued : Option JobRow → Bool
row_is_queued none = false
row_is_queued (some r) = is_queued r

abbrev pub has_queued : FilePath → List JobRow → Bool
has_queued k jobs = row_is_queued (first (with_key k) jobs)

pub enqueued-is_queued :
    (now : ℕ) (e : Enqueue) (x r : JobRow) → is_queued (enqueued now e x r) ≡ true
enqueued-is_queued now e x r = elim (Bool-cases (is_processing x.state)) [
  | inl b ↦ ground arith
  | inr b ↦ ground arith
]

-- An enqueue queues its own path.
enqueue-queued :
    (now : ℕ) (e : Enqueue) (jobs : List JobRow)
    → row_is_queued (first (with_key e.media_path) (enqueue_path now e jobs)) ≡ true
unfolding enqueue_path
enqueue-queued now e jobs = elim (Option-cases (first (with_key e.media_path) jobs)) [
  | inl n ↦ rw (
    n,
    enqueue_path,
    first-insert (with_key e.media_path) (new_row now e) jobs,
    n,
    beq_self e.media_path,
  )
  | inr (x, f) ↦
      rw
        (
          f,
          enqueue_path,
          first-update_self (λ r. r.job_key) e.media_path (enqueued now e x) jobs (λ _. refl),
          f,
        )
        (enqueued-is_queued now e x x)
]

kept_by_update :
    (now : ℕ) (e : Enqueue) (x y : JobRow)
    → is_queued y ≡ true
    → is_queued (if with_key e.media_path y then enqueued now e x y else y) ≡ true
kept_by_update now e x y h = elim (Bool-cases (with_key e.media_path y)) [
  | inl m ↦ rw m (enqueued-is_queued now e x y)
  | inr m ↦ rw m h
]

-- An enqueue keeps a path queued.
enqueue-keeps :
    (now : ℕ) (e : Enqueue) (k : FilePath) (jobs : List JobRow)
    → row_is_queued (first (with_key k) jobs) ≡ true
    → row_is_queued (first (with_key k) (enqueue_path now e jobs)) ≡ true
unfolding enqueue_path
enqueue-keeps now e k jobs h = elim (Option-cases (first (with_key k) jobs)) [
  | inl n ↦ absurd (cc (rw n at h))
  | inr (y, g) ↦ elim (Option-cases (first (with_key e.media_path) jobs)) [
    | inl n ↦ rw (n, enqueue_path, first-insert (with_key k) (new_row now e) jobs, g) (rw g at h)
    | inr (x, f) ↦
        rw
          (
            f,
            enqueue_path,
            first-update (λ r. r.job_key) k (with_key e.media_path) (enqueued now e x) jobs
                (λ _. refl),
            g,
          )
          (kept_by_update now e x y (rw g at h))
  ]
]

pub ingest_all-keeps :
    (queued_at : FilePath → ℕ) (call : FilePath → Enqueue) (ps : List FilePath) (k : FilePath)
    (d : Database)
    → has_queued k d.jobs ≡ true
    → has_queued k (ingest_all queued_at call ps d).jobs ≡ true
unfolding ingest_all ingest_candidate
ingest_all-keeps queued_at call [] k d h = h
ingest_all-keeps queued_at call (p ∷ ps) k d h =
    ingest_all-keeps queued_at call ps k _ (enqueue-keeps (queued_at p) (call p) k d.jobs h)

pub ingest_all-queues :
    (queued_at : FilePath → ℕ) (call : FilePath → Enqueue) (ps : List FilePath) (k : FilePath)
    (d : Database)
    → ((p : FilePath) → (call p).media_path ≡ p)
    → member k ps ≡ true
    → has_queued k (ingest_all queued_at call ps d).jobs ≡ true
unfolding ingest_all ingest_candidate member
ingest_all-queues queued_at call [] k d same h = absurd (cc)
ingest_all-queues queued_at call (p ∷ ps) k d same h = elim (Bool-cases (k == p)) [
  | inl m ↦
      let e : (call p).media_path ≡ k = same p ∙ sym (beq→eq k p m) in
      ingest_all-keeps queued_at call ps k _ (
        subst (λ j. has_queued j (enqueue_path (queued_at p) (call p) d.jobs) ≡ true) e
          (enqueue-queued (queued_at p) (call p) d.jobs))
  | inr m ↦ ingest_all-queues queued_at call ps k _ same (rw m at h)
]

select_paths-member :
    (records : FilePath → Option ReconciliationRecord) (stat : FilePath → Option FileFacts)
    (now revisit : ℕ) (candidates : List FilePath) (k : FilePath) (f : FileFacts)
    → member k candidates ≡ true
    → stat k ≡ some f
    → needs_evaluation (records k) f now revisit ≡ true
    → member k (select_paths records now revisit (read_file_facts stat candidates)) ≡ true
unfolding select_paths read_file_facts member
select_paths-member records stat now revisit [] k f h g n = absurd (cc)
select_paths-member records stat now revisit (p ∷ ps) k f h g n = elim (Bool-cases (k == p)) [
  | inl m ↦
      let e = beq→eq k p m in
      let g' : stat p ≡ some f = subst (λ j. stat j ≡ some f) e g in
      let n' = subst (λ j. needs_evaluation (records j) f now revisit ≡ true) e n in
      rw (g', n', m) refl
  | inr m ↦
      let rest = select_paths-member records stat now revisit ps k f (rw m at h) g n in
      elim (Option-cases (stat p)) [ inl a ↦ rw a rest | inr (a, b) ↦ rw b (ground arith) ]
]

queued :
    (revisit : ℕ) (i : ScanInputs) (root : FilePath) (kind : ScanKind) (trigger : TriggerKind)
    (d : Database) (candidates : List FilePath) (k : FilePath) (f : FileFacts)
    → member k candidates ≡ true
    → i.stat k ≡ some f
    → needs_evaluation
        (list_reconciliation_records root d.track_snapshots d.jobs k)
        f
        i.evaluated_at
        revisit
      ≡ true
    → has_queued k
        (ingest_all i.queued_at
          (scan_enqueue root kind trigger)
          (to_evaluate revisit i root false candidates (scan_started i root kind d))
          (scan_started i root kind d)).jobs
      ≡ true
unfolding to_evaluate
queued revisit i root kind trigger d candidates k f m g n =
    ingest_all-queues i.queued_at (scan_enqueue root kind trigger) _ k _ (λ _. refl)
      (select_paths-member (list_reconciliation_records root d.track_snapshots d.jobs) i.stat
        i.evaluated_at revisit candidates k f m g n)

-- A scan whose scanner answers, and that does not evaluate everything, leaves the job of each file
-- found, readable and in need of evaluation pending, or processing and dirty.
pub scan_root-queues :
    (revisit : ℕ) (i : ScanInputs) (root : FilePath) (kind : ScanKind) (trigger : TriggerKind)
    (d : Database) (candidates : List FilePath) (k : FilePath) (f : FileFacts)
    → i.scanned ≡ ok candidates
    → member k candidates ≡ true
    → i.stat k ≡ some f
    → needs_evaluation
        (list_reconciliation_records root d.track_snapshots d.jobs k)
        f
        i.evaluated_at
        revisit
      ≡ true
    → has_queued k (scan_root revisit i root kind trigger false d).1.jobs ≡ true
unfolding scan_root to_evaluate mark_gone
scan_root-queues revisit i root kind trigger d candidates k f c m g n =
    rw c (elim (Bool-cases i.root_is_dir) [
      | inl b ↦ rw b (queued revisit i root kind trigger d candidates k f m g n)
      | inr b ↦ rw b (queued revisit i root kind trigger d candidates k f m g n)
    ])

-- A scan whose scanner raises an error raises it, and leaves the jobs and snapshots as they were.
pub scan_root-failed :
    (revisit : ℕ) (i : ScanInputs) (root : FilePath) (kind : ScanKind) (trigger : TriggerKind)
    (all : Bool) (d : Database) (e : Raised)
    → i.scanned ≡ raised e
    → ((scan_root revisit i root kind trigger all d).0 ≡ raised e)
      × ((scan_root revisit i root kind trigger all d).1.jobs ≡ d.jobs)
      × ((scan_root revisit i root kind trigger all d).1.track_snapshots ≡ d.track_snapshots)
unfolding scan_root
scan_root-failed revisit i root kind trigger all d e c = elim (Bool-cases (is_exception e)) [
  | inl b ↦ rw (c, b) (refl, refl, refl)
  | inr b ↦ rw (c, b) (refl, refl, refl)
]
