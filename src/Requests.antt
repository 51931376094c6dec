-- ===== src/Requests.antt =====
-- The control_requests and scan_state tables of src/versarr/infrastructure/persistence/repository.py.
pub mod Claims
pub mod Scans
mod Tests
use versarr.Base.{
  Bool, FilePath, List, Option, String, [], count, first, if◌then◌else◌, insert, is_some, keep,
  keyed, leb, map, max, nat_beq, nat_eq, none, not, path_eq, some, string_eq, take, update, ℕ, ◌&&◌,
  ◌+◌, ◌==◌, ◌∷◌,
}
use versarr.Domain.{ControlRequest, ControlRequestStatus, ScanKind, is_open_request, scan_kind_beq}
use versarr.Jobs.{completed}
use versarr.Schema.{ControlRow, ScanStateRow}

abbrev pub with_id : ℕ → ControlRow → Bool
with_id = keyed (λ r. r.id)

-- AUTOINCREMENT: one above the largest id that was given.
unfoldable pub next_id : List ControlRow → ℕ
next_id [] = 1
next_id (r ∷ t) = max (r.id + 1) (next_id t)

abbrev pub request_values : ℕ → ControlRequest → ControlRow
request_values i q = record {
  id = i;
  request_type = q.request_type;
  target_root = q.target_root;
  target_path = q.target_path;
  force = q.force;
  overwrite_existing = q.overwrite_existing;
  allow_manual_overwrite = q.allow_manual_overwrite;
  status = q.status;
  requested_at = q.requested_at;
  claimed_at = none;
  completed_at = none;
  error_code = none;
}

unfoldable pub enqueue_control_request : ControlRequest → List ControlRow → List ControlRow
enqueue_control_request q rows = insert (request_values (next_id rows) q) rows

abbrev pub row_to_control_request : ControlRow → ControlRequest
row_to_control_request r = record {
  request_type = r.request_type;
  target_root = r.target_root;
  target_path = r.target_path;
  force = r.force;
  overwrite_existing = r.overwrite_existing;
  allow_manual_overwrite = r.allow_manual_overwrite;
  requested_at = r.requested_at;
  status = r.status;
}

-- ORDER BY requested_at, as an insertion sort.
unfoldable pub place : ControlRow → List ControlRow → List ControlRow
place r [] = r ∷ []
place r (s ∷ t) = if leb r.requested_at s.requested_at then r ∷ s ∷ t else s ∷ place r t

unfoldable pub by_time : List ControlRow → List ControlRow
by_time [] = []
by_time (r ∷ t) = place r (by_time t)

abbrev pub is_open : ControlRow → Bool
is_open r = is_open_request r.status

abbrev pub id_and_request : ControlRow → ℕ × ControlRequest
id_and_request r = (r.id, row_to_control_request r)

unfoldable pub poll_control_requests : ℕ → List ControlRow → List (ℕ × ControlRequest)
poll_control_requests limit rows = map id_and_request (take limit (by_time (keep is_open rows)))

abbrev pub claimable : ℕ → ControlRow → Bool
claimable i r = with_id i r && is_open r

-- Whether the request was claimed (the rowcount), and the table.
unfoldable pub claim_control_request : ℕ → ℕ → List ControlRow → Bool × List ControlRow
claim_control_request i at rows = (
  not (nat_beq (count (claimable i) rows) 0),
  update (claimable i)
      (λ r. record r { status = ControlRequestStatus.claimed; claimed_at = some at }) rows,
)

unfoldable pub complete_control_request : ℕ → ℕ → List ControlRow → List ControlRow
complete_control_request now i rows =
    update (with_id i)
      (λ r. record r {
        status = ControlRequestStatus.completed;
        completed_at = some now;
        error_code = none;
      })
      rows

unfoldable pub fail_control_request : ℕ → ℕ → String → List ControlRow → List ControlRow
fail_control_request now i code rows =
    update (with_id i)
      (λ r. record r {
        status = ControlRequestStatus.failed;
        completed_at = some now;
        error_code = some code;
      })
      rows

unfoldable pub count_pending_control_requests : List ControlRow → ℕ
count_pending_control_requests rows = count is_open rows

abbrev pub with_scan : FilePath → ScanKind → ScanStateRow → Bool
with_scan root kind r = r.library_root == root && scan_kind_beq r.scan_kind kind

-- A value that the update writes only where it is not None.
abbrev pub or_old : Option ℕ → Option ℕ → Option ℕ
or_old none old = old
or_old (some t) old = some t

abbrev pub new_scan :
    FilePath → ScanKind → Option ℕ → Option ℕ → Option String → Option String → ScanStateRow
new_scan root kind started completed status error_code = record {
  library_root = root;
  scan_kind = kind;
  last_started_at = started;
  last_completed_at = completed;
  last_status = status;
  last_error_code = error_code;
}

-- The values that an update writes: a time that is None is left out, the status and the error code
-- are not.
abbrev pub scan_values :
    FilePath
    → ScanKind
    → Option ℕ
    → Option ℕ
    → Option String
    → Option String
    → ScanStateRow
    → ScanStateRow
scan_values root kind started completed status error_code r = record {
  library_root = root;
  scan_kind = kind;
  last_started_at = or_old started r.last_started_at;
  last_completed_at = or_old completed r.last_completed_at;
  last_status = status;
  last_error_code = error_code;
}

unfoldable pub record_scan_state :
    FilePath
    → ScanKind
    → Option ℕ
    → Option ℕ
    → Option String
    → Option String
    → List ScanStateRow
    → List ScanStateRow
record_scan_state root kind started completed status error_code rows =
    if is_some (first (with_scan root kind) rows)
    then update (with_scan root kind) (scan_values root kind started completed status error_code)
        rows
    else insert (new_scan root kind started completed status error_code) rows

unfoldable pub record_scan_start : FilePath → ScanKind → ℕ → List ScanStateRow → List ScanStateRow
record_scan_start root kind at rows = record_scan_state root kind (some at) none none none rows

unfoldable pub record_scan_finish :
    FilePath → ScanKind → ℕ → String → Option String → List ScanStateRow → List ScanStateRow
record_scan_finish root kind at status error_code rows =
    record_scan_state root kind none (some at) (some status) error_code rows
