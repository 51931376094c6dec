-- ===== src/Commands.antt =====
-- The commands of src/versarr/cli.py that leave a request for the service, and
-- `enqueue_control_request` of src/versarr/bootstrap.py.
pub mod Rescan
mod Tests
use versarr.Base.{
  Bool, FilePath, Option, String, if◌then◌else◌, nat_eq, none, path_eq, some, string_eq, ℕ, ◌==◌,
}
use versarr.Domain.{
  ControlRequest, ControlRequestStatus, ControlRequestType, Raised, Result, ok, raised,
}
use versarr.Requests.{enqueue_control_request}
use versarr.Schema.{Database}

-- `ControlRequestType(request_type)`.
unfoldable pub request_type_of : String → Result ControlRequestType
request_type_of t =
    if t == "rescan_path"
    then ok ControlRequestType.rescan_path
    else if t == "full_scan"
    then ok ControlRequestType.full_scan
    else raised (Raised.value_error "ValueError")

-- The keyword arguments of a request.
pub record Targets : Type 0 where
  pub target_root : Option FilePath
  pub target_path : Option FilePath
  pub force : Bool
  pub overwrite_existing : Bool
  pub allow_manual_overwrite : Bool

abbrev pub new_request : ℕ → ControlRequestType → Targets → ControlRequest
new_request now t a = record {
  request_type = t;
  target_root = a.target_root;
  target_path = a.target_path;
  force = a.force;
  overwrite_existing = a.overwrite_existing;
  allow_manual_overwrite = a.allow_manual_overwrite;
  requested_at = now;
  status = ControlRequestStatus.pending;
}

abbrev pub store_request :
    ℕ → Targets → Result ControlRequestType → Database → Result (Unit {0}) × Database
store_request now a (raised e) d = (raised e, d)
store_request now a (ok t) d = (
  ok tt,
  record d { control_requests = enqueue_control_request (new_request now t a) d.control_requests },
)

-- `VersarrRuntime.enqueue_control_request`, where the directory and the database are made ready
-- first, which may raise.
unfoldable pub runtime_enqueue :
    Result (Unit {0}) → ℕ → String → Targets → Database → Result (Unit {0}) × Database
runtime_enqueue (raised e) now t a d = (raised e, d)
runtime_enqueue (ok _) now t a d = store_request now a (request_type_of t) d

-- The flags of the command line: --force, --overwrite-existing and --allow-manual-overwrite.
pub record Permissions : Type 0 where
  pub force : Bool
  pub overwrite_existing : Bool
  pub allow_manual_overwrite : Bool

-- `request-rescan`; the settings, which may be invalid, are part of what is made ready.
unfoldable pub request_rescan :
    Result (Unit {0})
    → ℕ
    → FilePath
    → Option FilePath
    → Permissions
    → Database
    → Result (Unit {0}) × Database
request_rescan prepared now path root p d =
    runtime_enqueue prepared now "rescan_path"
      (record {
        target_root = root;
        target_path = some path;
        force = p.force;
        overwrite_existing = p.overwrite_existing;
        allow_manual_overwrite = p.allow_manual_overwrite;
      })
      d

-- `request-full-scan`.
unfoldable pub request_full_scan :
    Result (Unit {0}) → ℕ → Option FilePath → Permissions → Database → Result (Unit {0}) × Database
request_full_scan prepared now root p d =
    runtime_enqueue prepared now "full_scan"
      (record {
        target_root = root;
        target_path = none;
        force = p.force;
        overwrite_existing = p.overwrite_existing;
        allow_manual_overwrite = p.allow_manual_overwrite;
      })
      d
