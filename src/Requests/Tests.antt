-- ===== src/Requests/Tests.antt =====
-- Tests of the control requests and the scan checkpoints.
use versarr.Base.{[], false, first, insert, none, refl, some, true, ◌∷◌, ◌≡◌}
use versarr.Domain.{ControlRequest, ControlRequestStatus, ControlRequestType}
use versarr.Examples.{library}
use versarr.Requests.{enqueue_control_request, next_id, request_values, with_id}
use versarr.Schema.{ControlRow}

abbrev request : ControlRequest
request = record {
  request_type = ControlRequestType.full_scan;
  target_root = some library;
  target_path = none;
  force = true;
  overwrite_existing = true;
  allow_manual_overwrite = false;
  requested_at = 3;
  status = ControlRequestStatus.pending;
}

abbrev row : ControlRow
row = request_values 1 request

enqueued_first : enqueue_control_request request [] ≡ row ∷ []
unfolding enqueue_control_request next_id insert
enqueued_first = refl

found_row : first (with_id 1) (row ∷ []) ≡ some row
unfolding first
found_row = refl
