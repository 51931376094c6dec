-- ===== src/Reconciliation/Closed.antt =====
-- Every request that is claimed is closed.
use mathlib.Core.Option
use versarr.Base.{
  Bool, Bool-cases, FilePath, List, Option, String, Unique, [], ap, arith, first, first-update_self,
  if◌then◌else◌, inl, inr, is_some, nat_eq, none, path_eq, refl, some, string_eq, true, ℕ, ◌∙◌, ◌∷◌,
  ◌≡◌, ◌⊎◌,
}
use versarr.Domain.{
  ControlRequest, ControlRequestStatus, ControlRequestType, Result, ScanKind, TriggerKind,
  class_name, is_exception, ok, raised,
}
use versarr.Jobs.{Enqueue}
use versarr.Reconciliation.Drain.{
  RequestInputs, close_request, counted_request, drain_one, request_trigger, run_request,
  run_targets, scanned_as,
}
use versarr.Reconciliation.Scan.{
  ScanInputs, ingest_all, ingest_candidate, mark_gone, scan_enqueue, scan_root, scan_started,
  scan_with, to_evaluate,
}
use versarr.Requests.{
  claim_control_request, complete_control_request, fail_control_request, is_open, with_id,
}
use versarr.Requests.Claims.{claim-first, claimed_row}
use versarr.Schema.{ControlRow, Database}

ingest_all-requests :
    (queued_at : FilePath → ℕ) (call : FilePath → Enqueue) (ps : List FilePath) (d : Database)
    → (ingest_all queued_at call ps d).control_requests ≡ d.control_requests
unfolding ingest_all ingest_candidate
ingest_all-requests queued_at call [] d = refl
ingest_all-requests queued_at call (p ∷ ps) d = ingest_all-requests queued_at call ps _

mark_gone-requests :
    (i : ScanInputs) (root : FilePath) (candidates : List FilePath) (d : Database)
    → (mark_gone i root candidates d).control_requests ≡ d.control_requests
unfolding mark_gone
mark_gone-requests i root candidates d = elim (Bool-cases i.root_is_dir) [
  | inl b ↦ rw b refl
  | inr b ↦ rw b refl
]

scan_with-requests :
    (revisit : ℕ) (i : ScanInputs) (root : FilePath) (kind : ScanKind) (trigger : TriggerKind)
    (all : Bool) (r : Result (List FilePath)) (d : Database)
    → (scan_with revisit i root kind trigger all r d).1.control_requests ≡ d.control_requests
scan_with-requests revisit i root kind trigger all (ok candidates) d =
    mark_gone-requests i root candidates _
    ∙ ingest_all-requests i.queued_at (scan_enqueue root kind trigger)
        (to_evaluate revisit i root all candidates d) d
scan_with-requests revisit i root kind trigger all (raised e) d =
    elim (Bool-cases (is_exception e)) [ inl b ↦ rw b refl | inr b ↦ rw b refl ]

scan_root-requests :
    (revisit : ℕ) (i : ScanInputs) (root : FilePath) (kind : ScanKind) (trigger : TriggerKind)
    (all : Bool) (d : Database)
    → (scan_root revisit i root kind trigger all d).1.control_requests ≡ d.control_requests
unfolding scan_root
scan_root-requests revisit i root kind trigger all d =
    scan_with-requests revisit i root kind trigger all i.scanned (scan_started i root kind d)

scanned_as-requests :
    (r : Result ℕ × Database) → (scanned_as r).1.control_requests ≡ r.1.control_requests
scanned_as-requests (ok n, d) = refl
scanned_as-requests (raised e, d) = refl

run_targets-requests :
    (revisit : ℕ) (i : RequestInputs) (q : ControlRequest) (kind : ControlRequestType)
    (root path : Option FilePath) (d : Database)
    → (run_targets revisit i q kind root path d).1.control_requests ≡ d.control_requests
unfolding ingest_candidate
run_targets-requests revisit i q ControlRequestType.full_scan none path d = refl
run_targets-requests revisit i q ControlRequestType.full_scan (some root) path d =
    scanned_as-requests
      (scan_root revisit (i.scans root) root ScanKind.reconciliation (request_trigger q) true d)
    ∙ scan_root-requests revisit (i.scans root) root ScanKind.reconciliation (request_trigger q)
        true d
run_targets-requests revisit i q ControlRequestType.rescan_path none path d = refl
run_targets-requests revisit i q ControlRequestType.rescan_path (some root) none d = refl
run_targets-requests revisit i q ControlRequestType.rescan_path (some root) (some path) d = refl

-- Running a request leaves the table of requests alone.
run_request-requests :
    (revisit : ℕ) (i : RequestInputs) (q : ControlRequest) (d : Database)
    → (run_request revisit i q d).1.control_requests ≡ d.control_requests
unfolding run_request
run_request-requests revisit i q d =
    run_targets-requests revisit i q q.request_type q.target_root q.target_path d

-- Closed, with an error code exactly where it failed.
abbrev pub IsClosed : ControlRow → Type 0
IsClosed y =
    (y.status ≡ ControlRequestStatus.completed) × (y.error_code ≡ none)
    ⊎ (y.status ≡ ControlRequestStatus.failed) × (is_some y.error_code ≡ true)

completed_request : ℕ → ControlRow → ControlRow
completed_request now r = record r {
  status = ControlRequestStatus.completed;
  completed_at = some now;
  error_code = none;
}

failed_request : ℕ → String → ControlRow → ControlRow
failed_request now code r = record r {
  status = ControlRequestStatus.failed;
  completed_at = some now;
  error_code = some code;
}

complete-found :
    (now id : ℕ) (rows : List ControlRow) (x : ControlRow)
    → first (with_id id) rows ≡ some x
    → first (with_id id) (complete_control_request now id rows) ≡ some (completed_request now x)
unfolding complete_control_request completed_request
complete-found now id rows x f =
    first-update_self (λ r. r.id) id (completed_request now) rows (λ _. refl)
    ∙ ap (Option.map (completed_request now)) f

fail-found :
    (now id : ℕ) (code : String) (rows : List ControlRow) (x : ControlRow)
    → first (with_id id) rows ≡ some x
    → first (with_id id) (fail_control_request now id code rows) ≡ some (failed_request now code x)
unfolding fail_control_request failed_request
fail-found now id code rows x f =
    first-update_self (λ r. r.id) id (failed_request now code) rows (λ _. refl)
    ∙ ap (Option.map (failed_request now code)) f

close_request-IsClosed :
    (now id : ℕ) (r : Result (Unit {0}) × Database) (x : ControlRow)
    → first (with_id id) r.1.control_requests ≡ some x
    → (counted_request (close_request now id r)).0 ≡ ok 1
    → (y : ControlRow) × (first
          (with_id id)
          (counted_request (close_request now id r)).1.control_requests
        ≡ some y)
      × IsClosed y
unfolding completed_request failed_request
close_request-IsClosed now id (ok a, d) x f h =
    (completed_request now x, complete-found now id d.control_requests x f, inl (refl, refl))
close_request-IsClosed now id (raised e, d) x f h = elim (Bool-cases (is_exception e)) [
  | inl b ↦ rw b (
    failed_request now (class_name e) x,
    fail-found now id (class_name e) d.control_requests x f,
    inr (refl, refl),
  )
  | inr b ↦ absurd (cc (rw b at h))
]

-- With unique ids, a control request whose round of the loop is counted is left completed without an
-- error code, or failed with one.
pub drain_one-closes :
    (revisit : ℕ) (i : RequestInputs) (id : ℕ) (q : ControlRequest) (d : Database) (x : ControlRow)
    → Unique (λ r. r.id) d.control_requests
    → first (with_id id) d.control_requests ≡ some x
    → (drain_one revisit i (id, q) d).0 ≡ ok 1
    → (y : ControlRow) × (first (with_id id) (drain_one revisit i (id, q) d).1.control_requests
        ≡ some y)
      × IsClosed y
unfolding drain_one
drain_one-closes revisit i id q d x u f h =
    let claim = claim-first id i.claimed_at id d.control_requests x u f in
    elim (Bool-cases (is_open x)) [
      | inl b ↦
          let c = claim.0 ∙ b in
          let rows = (claim_control_request id i.claimed_at d.control_requests).1 in
          let d' : Database = record d { control_requests = rows } in
          let x' = if is_open x then claimed_row i.claimed_at x else x in
          rw c (
            close_request-IsClosed i.closed_at id (run_request revisit i q d') x'
              (ap (first (with_id id)) (run_request-requests revisit i q d') ∙ claim.1) (rw c at h))
      | inr b ↦
          let k : ◌≡◌ {A = Result ℕ} (ok 0) (ok 1) = rw (claim.0, b) at h in absurd (ground arith)
    ]
