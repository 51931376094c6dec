-- ===== src/Commands/Rescan.antt =====
-- What a requested rescan leaves in the queue, once the service has drained the requests.
use versarr.Base.{
  Bool, Bool-cases, FilePath, List, Option-cases, [], ap, arith, beq_self, count, first,
  first-insert, first-update_self, inl, inr, insert, keep, nat_eq, path_eq, refl, some, string_eq,
  suc, true, ℕ, ◌++◌, ◌||◌, ◌∷◌, ◌≡◌,
}
use versarr.Domain.{ControlRequest, ControlRequestStatus, ControlRequestType, ok}
use versarr.Commands.{
  Permissions, Targets, new_request, request_rescan, request_type_of, runtime_enqueue,
}
use versarr.Jobs.{Enqueue, enqueue_path, enqueued, new_row, with_key}
use versarr.Reconciliation.Drain.{
  RequestInputs, drain_all, drain_once, drain_one, rescan_enqueue, run_request,
}
use versarr.Reconciliation.Queued.{enqueued-is_queued, is_queued}
use versarr.Reconciliation.Scan.{ingest_candidate}
use versarr.Requests.{
  by_time, claim_control_request, claimable, enqueue_control_request, is_open, next_id, place,
  poll_control_requests, request_values,
}
use versarr.Schema.{ControlRow, Database, JobRow}
use versarr.Sidecar.{stored}

keep-insert :
    {A : Type 0} (p : A → Bool) (a : A) (t : List A)
    → p a ≡ true
    → keep p (insert a t) ≡ keep p t ++ a ∷ []
unfolding keep insert
keep-insert p a [] h = rw h refl
keep-insert p a (x ∷ t) h = elim (Bool-cases (p x)) [
  | inl e ↦ rw e (ap (λ l. x ∷ l) (keep-insert p a t h))
  | inr e ↦ rw e (keep-insert p a t h)
]

count-insert :
    {A : Type 0} (p : A → Bool) (a : A) (t : List A)
    → p a ≡ true
    → count p (insert a t) ≡ suc (count p t)
unfolding count insert
count-insert p a [] h = rw h refl
count-insert p a (x ∷ t) h = ground (arith, count-insert p a t h)

-- The row has the permissions given.
abbrev pub IsPermitted : Permissions → JobRow → Type 0
IsPermitted p r =
    (p.force ≡ true → r.force ≡ true)
    × (p.overwrite_existing ≡ true → r.overwrite_existing ≡ true)
    × (p.allow_manual_overwrite ≡ true → r.allow_manual_overwrite ≡ true)

abbrev permissions_of : Enqueue → Permissions
permissions_of e = record {
  force = e.force;
  overwrite_existing = e.overwrite_existing;
  allow_manual_overwrite = e.allow_manual_overwrite;
}

or_left : (a b : Bool) → a ≡ true → a || b ≡ true
or_left a b h = ground arith

-- After an enqueue its path has a row that is queued and has the permissions of the call.
enqueue_path-IsPermitted :
    (now : ℕ) (e : Enqueue) (jobs : List JobRow)
    → (r : JobRow) × (first (with_key e.media_path) (enqueue_path now e jobs) ≡ some r)
      × (is_queued r ≡ true)
      × IsPermitted (permissions_of e) r
unfolding enqueue_path
enqueue_path-IsPermitted now e jobs = elim (Option-cases (first (with_key e.media_path) jobs)) [
  | inl n ↦ (
    new_row now e,
    rw
        (
          n,
          enqueue_path,
          first-insert (with_key e.media_path) (new_row now e) jobs,
          n,
          beq_self e.media_path,
        )
        refl,
    refl,
    (λ h. h, λ h. h, λ h. h),
  )
  | inr (x, f) ↦ (
    enqueued now e x x,
    rw
        (
          f,
          enqueue_path,
          first-update_self (λ r. r.job_key) e.media_path (enqueued now e x) jobs (λ _. refl),
          f,
        )
        refl,
    enqueued-is_queued now e x x,
    (
      or_left e.force x.force,
      or_left e.overwrite_existing x.overwrite_existing,
      or_left e.allow_manual_overwrite x.allow_manual_overwrite,
    ),
  )
]

module _ (q : ControlRequest) (rows : List ControlRow)
    (pending : q.status ≡ ControlRequestStatus.pending) (none_open : keep is_open rows ≡ []) where
  poll-enqueue : poll_control_requests 10 (enqueue_control_request q rows) ≡ (next_id rows, q) ∷ []
  unfolding poll_control_requests enqueue_control_request by_time place
  poll-enqueue =
      let r = request_values (next_id rows) q in
      rw (keep-insert is_open r rows (rw pending refl), none_open) refl

  claim-enqueue :
      (at : ℕ) → (claim_control_request (next_id rows) at (enqueue_control_request q rows)).0 ≡ true
  unfolding claim_control_request enqueue_control_request
  claim-enqueue at =
      let r = request_values (next_id rows) q in
      rw
        (count-insert (claimable (next_id rows)) r rows
          (rw (beq_self (next_id rows), pending) refl))
        (ground arith)

drain_all-one :
    (revisit : ℕ) (inputs : ℕ → RequestInputs) (r : ℕ × ControlRequest) (d : Database)
    → (drain_one revisit (inputs r.0) r d).0 ≡ ok 1
    → drain_all revisit inputs (r ∷ []) d ≡ (ok 1, (drain_one revisit (inputs r.0) r d).1)
unfolding drain_all
drain_all-one revisit inputs r d e = rw (drain_all, e) refl

abbrev rescan_targets : FilePath → FilePath → Permissions → Targets
rescan_targets path root p = record {
  target_root = some root;
  target_path = some path;
  force = p.force;
  overwrite_existing = p.overwrite_existing;
  allow_manual_overwrite = p.allow_manual_overwrite;
}

module _ (revisit : ℕ) (inputs : ℕ → RequestInputs) (now : ℕ) (path root : FilePath)
    (p : Permissions) (d : Database) (none_open : keep is_open d.control_requests ≡ []) where
  abbrev q : ControlRequest
  q = new_request now ControlRequestType.rescan_path (rescan_targets path root p)

  abbrev id : ℕ
  id = next_id d.control_requests

  abbrev requested : Database
  requested = record d { control_requests = enqueue_control_request q d.control_requests }

  drain_one-requested :
      let (n, e) = drain_one revisit (inputs id) (id, q) requested in
      (n ≡ ok 1) × (e.jobs ≡ enqueue_path (inputs id).queued_at (rescan_enqueue q root path) d.jobs)
  unfolding drain_one run_request ingest_candidate
  drain_one-requested =
      rw (claim-enqueue q d.control_requests refl none_open (inputs id).claimed_at) (refl, refl)

  drain_once-requested :
      let (n, e) = drain_once revisit inputs requested in
      (n ≡ ok 1) × (e.jobs ≡ enqueue_path (inputs id).queued_at (rescan_enqueue q root path) d.jobs)
  unfolding drain_once
  drain_once-requested =
      let (n, e) = drain_one-requested in
      rw
        (
          poll-enqueue q d.control_requests refl none_open,
          drain_all-one revisit inputs (id, q) requested n,
        )
        (refl, e)

-- Where no other request is open and the database can be made ready, a rescan that the command line
-- asks for, with a root, is the one request that the next round of the service handles; it leaves
-- the path's job pending, or processing and dirty, with every permission that the command gave.
pub request_rescan-drain_once :
    (revisit : ℕ) (inputs : ℕ → RequestInputs) (now : ℕ) (path root : FilePath) (p : Permissions)
    (d : Database)
    → keep is_open d.control_requests ≡ []
    → let (stored, d1) = request_rescan (ok tt) now path (some root) p d in
      let (n, d2) = drain_once revisit inputs d1 in
      (stored ≡ ok tt)
      × (n ≡ ok 1)
      × ((r : JobRow) × (first (with_key path) d2.jobs ≡ some r)
          × (is_queued r ≡ true)
          × IsPermitted p r)
unfolding request_rescan runtime_enqueue request_type_of
request_rescan-drain_once revisit inputs now path root p d none_open =
    let (n, e) = drain_once-requested revisit inputs now path root p d none_open in
    (
      refl,
      n,
      rw e (
          enqueue_path-IsPermitted (inputs (next_id d.control_requests)).queued_at
            (rescan_enqueue
              (new_request now ControlRequestType.rescan_path (rescan_targets path root p)) root
              path)
            d.jobs),
    )
