-- ===== src/Commands/Tests.antt =====
-- Tests of the commands.
use versarr.Base.{[], first, keep, none, refl, some, true, ℕ, ◌∷◌, ◌≡◌}
use versarr.Domain.{ok}
use versarr.Commands.{
  Permissions, request_full_scan, request_rescan, request_type_of, runtime_enqueue,
}
use versarr.Commands.Rescan.{IsPermitted, request_rescan-drain_once}
use versarr.Examples.{database, library, song}
use versarr.Jobs.{with_key}
use versarr.Reconciliation.Drain.{RequestInputs, drain_once}
use versarr.Reconciliation.Queued.{is_queued}
use versarr.Reconciliation.Scan.{ScanInputs}
use versarr.Requests.{is_open}
use versarr.Schema.{JobRow}
use versarr.Sidecar.{stored}

abbrev scan : ScanInputs
scan = record {
  started_at = 1;
  evaluated_at = 2;
  queued_at = λ _. 3;
  marked_at = 4;
  finished_at = 5;
  scanned = ok (song ∷ []);
  root_is_dir = true;
  stat = λ _. none;
}

abbrev round : ℕ → RequestInputs
round id = record { claimed_at = 5; queued_at = 6; closed_at = 7; scans = λ _. scan }

abbrev all_allowed : Permissions
all_allowed = record { force = true; overwrite_existing = true; allow_manual_overwrite = true }

none_open : keep is_open database.control_requests ≡ []
unfolding keep
none_open = refl

-- A full scan asked for with no root is stored, and refused when it is drained.
full_scan_stored : (request_full_scan (ok tt) 4 none all_allowed database).0 ≡ ok tt
unfolding request_full_scan runtime_enqueue request_type_of
full_scan_stored = refl

request_rescan-drain_once_example :
    let (stored, d1) = request_rescan (ok tt) 4 song (some library) all_allowed database in
    let (n, d2) = drain_once 21600 round d1 in
    (stored ≡ ok tt)
    × (n ≡ ok 1)
    × ((r : JobRow) × (first (with_key song) d2.jobs ≡ some r)
        × (is_queued r ≡ true)
        × IsPermitted all_allowed r)
request_rescan-drain_once_example =
    request_rescan-drain_once 21600 round 4 song library all_allowed database none_open
