-- ===== src/Reconciliation/Tests.antt =====
-- Tests of reconciliation.
use versarr.Base.{
  [], count, false, first, member, nat_eq, none, path_beq, path_eq, refl, some, string_eq, true,
  update, ◌∷◌, ◌≡◌,
}
use versarr.Domain.{ControlRequest, ControlRequestStatus, ControlRequestType, Raised, ok, raised}
use versarr.Examples.{database, library, song}
use versarr.Reconciliation.{FileFacts, needs_evaluation}
use versarr.Reconciliation.Closed.{IsClosed, drain_one-closes}
use versarr.Reconciliation.Drain.{RequestInputs, drain_one, run_request}
use versarr.Reconciliation.Scan.{ScanInputs}
use versarr.Requests.{claim_control_request, request_values, with_id}
use versarr.Schema.{ControlRow, Database}
use versarr.Snapshots.{list_reconciliation_records}

abbrev facts : FileFacts
facts = record { size = 1000; mtime_ns = 5; sidecar_exists = false }

abbrev scan : ScanInputs
scan = record {
  started_at = 1;
  evaluated_at = 2;
  queued_at = λ _. 3;
  marked_at = 4;
  finished_at = 5;
  scanned = ok (song ∷ []);
  root_is_dir = true;
  stat = λ _. some facts;
}

abbrev empty : Database
empty = record database { jobs = [] }

is_new : needs_evaluation (list_reconciliation_records library [] [] song) facts 2 21600 ≡ true
unfolding needs_evaluation list_reconciliation_records first
is_new = refl

listed : member song (song ∷ []) ≡ true
unfolding member path_beq
listed = refl

abbrev broken : ScanInputs
broken = record scan { scanned = raised Raised.file_not_found }

-- A request with no path to rescan is claimed and fails.
abbrev request : ControlRequest
request = record {
  request_type = ControlRequestType.rescan_path;
  target_root = some library;
  target_path = none;
  force = false;
  overwrite_existing = false;
  allow_manual_overwrite = false;
  requested_at = 0;
  status = ControlRequestStatus.pending;
}

abbrev requested : Database
requested = record empty { control_requests = request_values 1 request ∷ [] }

abbrev times : RequestInputs
times = record { claimed_at = 7; queued_at = 8; closed_at = 9; scans = λ _. scan }

counts : (drain_one 21600 times (1, request) requested).0 ≡ ok 1
unfolding drain_one claim_control_request run_request count update
counts = refl

requested_first : first (with_id 1) requested.control_requests ≡ some (request_values 1 request)
unfolding first
requested_first = refl

drain_one-closes_example :
    (y : ControlRow) × (first
        (with_id 1)
        (drain_one 21600 times (1, request) requested).1.control_requests
      ≡ some y)
    × IsClosed y
drain_one-closes_example =
    drain_one-closes 21600 times 1 request requested (request_values 1 request) (tt, tt)
      requested_first counts
