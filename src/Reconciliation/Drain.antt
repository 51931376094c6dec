-- ===== src/Reconciliation/Drain.antt =====
-- `ControlRequestService.drain_once`: the requests of operators, each claimed, run and closed.
use versarr.Base.{FilePath, List, Option, [], if◌then◌else◌, none, not, some, true, ℕ, ◌+◌, ◌∷◌}
use versarr.Domain.{
  ControlRequest, ControlRequestType, JobPriority, Raised, Result, ScanKind, TriggerKind,
  class_name, is_exception, ok, raised,
}
use versarr.Jobs.{Enqueue}
use versarr.Reconciliation.Scan.{ScanInputs, ingest_candidate, scan_root}
use versarr.Requests.{
  claim_control_request, complete_control_request, fail_control_request, poll_control_requests,
}
use versarr.Schema.{ControlRow, Database}

-- What the handling of one request learns from outside: the times of the claim, of the enqueue and of
-- the end, and what a scan of a root finds.
pub record RequestInputs : Type 0 where
  pub claimed_at : ℕ
  pub queued_at : ℕ
  pub closed_at : ℕ
  pub scans : FilePath → ScanInputs

abbrev pub request_trigger : ControlRequest → TriggerKind
request_trigger q = if q.force then TriggerKind.force_rescan else TriggerKind.manual_rescan

abbrev pub request_priority : ControlRequest → JobPriority
request_priority q = if q.force then JobPriority.force_manual else JobPriority.manual

abbrev pub rescan_enqueue : ControlRequest → FilePath → FilePath → Enqueue
rescan_enqueue q root path = record {
  library_root = root;
  media_path = path;
  trigger = request_trigger q;
  priority = request_priority q;
  event_kind = "rescan_path";
  force = q.force;
  overwrite_existing = q.overwrite_existing;
  allow_manual_overwrite = q.allow_manual_overwrite;
}

abbrev pub scanned_as : Result ℕ × Database → Result (Unit {0}) × Database
scanned_as (ok n, d) = (ok tt, d)
scanned_as (raised e, d) = (raised e, d)

abbrev pub run_targets :
    ℕ
    → RequestInputs
    → ControlRequest
    → ControlRequestType
    → Option FilePath
    → Option FilePath
    → Database
    → Result (Unit {0}) × Database
run_targets revisit i q ControlRequestType.full_scan none path d =
    (raised (Raised.value_error "ValueError"), d)
run_targets revisit i q ControlRequestType.full_scan (some root) path d =
    scanned_as
      (scan_root revisit (i.scans root) root ScanKind.reconciliation (request_trigger q) true d)
run_targets revisit i q ControlRequestType.rescan_path (some root) (some path) d =
    (ok tt, ingest_candidate i.queued_at (rescan_enqueue q root path) d)
run_targets revisit i q ControlRequestType.rescan_path _ _ d =
    (raised (Raised.value_error "ValueError"), d)

-- The body of the `try`, without the completion.
unfoldable pub run_request :
    ℕ → RequestInputs → ControlRequest → Database → Result (Unit {0}) × Database
run_request revisit i q d = run_targets revisit i q q.request_type q.target_root q.target_path d

abbrev pub on_requests : (List ControlRow → List ControlRow) → Database → Database
on_requests f d = record d { control_requests = f d.control_requests }

-- The completion, or the handler. A cancellation goes on, and the request stays claimed.
abbrev pub close_request : ℕ → ℕ → Result (Unit {0}) × Database → Result (Unit {0}) × Database
close_request now id (ok _, d) = (ok tt, on_requests (complete_control_request now id) d)
close_request now id (raised e, d) =
    if is_exception e
    then (ok tt, on_requests (fail_control_request now id (class_name e)) d)
    else (raised e, d)

abbrev pub counted_request : Result (Unit {0}) × Database → Result ℕ × Database
counted_request (ok _, d) = (ok 1, d)
counted_request (raised e, d) = (raised e, d)

-- One round of the loop: 1 where the request was claimed, 0 where it was not.
unfoldable pub drain_one : ℕ → RequestInputs → ℕ × ControlRequest → Database → Result ℕ × Database
drain_one revisit i (id, q) d =
    let (claimed, rows) = claim_control_request id i.claimed_at d.control_requests in
    let d' = record d { control_requests = rows } in
    if not claimed
    then (ok 0, d')
    else counted_request (close_request i.closed_at id (run_request revisit i q d'))

abbrev pub add_drained : ℕ → Result ℕ × Database → Result ℕ × Database
add_drained n (ok m, d) = (ok (n + m), d)
add_drained n (raised e, d) = (raised e, d)

-- The loop. The inputs of each round are given by the request's id.
unfoldable pub drain_all :
    ℕ → (ℕ → RequestInputs) → List (ℕ × ControlRequest) → Database → Result ℕ × Database
drain_all revisit inputs [] d = (ok 0, d)
drain_all revisit inputs (r ∷ t) d =
    let (done, d') = drain_one revisit (inputs r.0) r d in
    elim done [ ok n ↦ add_drained n (drain_all revisit inputs t d') | raised e ↦ (raised e, d') ]

-- `drain_once`: at most ten requests, the oldest first.
unfoldable pub drain_once : ℕ → (ℕ → RequestInputs) → Database → Result ℕ × Database
drain_once revisit inputs d =
    drain_all revisit inputs (poll_control_requests 10 d.control_requests) d
