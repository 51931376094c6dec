-- ===== src/Runtime/Steps.antt =====
-- The steps of the runtime's loops.
use versarr.Base.{FilePath, List, Option, [], false, if◌then◌else◌, none, some, ℕ, ◌∷◌}
use versarr.Domain.{JobPriority, Raised, Result, ScanKind, TriggerKind, is_exception, ok, raised}
use versarr.Jobs.{Enqueue}
use versarr.Reconciliation.Scan.{ScanInputs, ingest_candidate, scan_root}
use versarr.Runtime.{match_root}
use versarr.Schema.{Database}
use versarr.Stability.{Detector, Stat, poll_ready_paths}

abbrev pub ready_enqueue : FilePath → FilePath → Enqueue
ready_enqueue root media = record {
  library_root = root;
  media_path = media;
  trigger = TriggerKind.watcher;
  priority = JobPriority.watcher;
  event_kind = "stable";
  force = false;
  overwrite_existing = false;
  allow_manual_overwrite = false;
}

abbrev pub ingest_matched : ℕ → FilePath → Option FilePath → Database → Database
ingest_matched now media none d = d
ingest_matched now media (some root) d = ingest_candidate now (ready_enqueue root media) d

-- The loop of `_stability_step` over the ready paths. A root that cannot be resolved ends it.
unfoldable pub ingest_ready :
    (FilePath → Option FilePath)
    → List FilePath
    → (FilePath → ℕ)
    → List FilePath
    → Database
    → Result (Unit {0}) × Database
ingest_ready resolve roots queued_at [] d = (ok tt, d)
ingest_ready resolve roots queued_at (media ∷ t) d =
    let go_on = λ (o : Option FilePath).
      ingest_ready resolve roots queued_at t (ingest_matched (queued_at media) media o d) in
    elim (match_root resolve roots media) [ ok o ↦ go_on o | raised e ↦ (raised e, d) ]

-- `_stability_step`, without the sleep at its end.
unfoldable pub stability_step :
    (FilePath → Option FilePath)
    → List FilePath
    → (FilePath → ℕ)
    → ℕ
    → Stat
    → Detector
    → Database
    → Result (Unit {0}) × Detector × Database
stability_step resolve roots queued_at now stat detector d =
    let (ready, detector') = poll_ready_paths now stat detector in
    let (done, d') = ingest_ready resolve roots queued_at ready d in (done, detector', d')

-- `first_error or error`.
abbrev pub first_error : Option Raised → Raised → Option Raised
first_error none e = some e
first_error (some e) _ = some e

-- The loop of `_reconciliation_step` over the roots: an exception is kept and the loop goes on, a
-- cancellation ends it.
unfoldable pub scan_roots :
    ℕ
    → (FilePath → ScanInputs)
    → Option Raised
    → List FilePath
    → Database
    → Result (Option Raised) × Database
scan_roots revisit inputs error [] d = (ok error, d)
scan_roots revisit inputs error (root ∷ t) d =
    let (scanned, d') =
      scan_root revisit (inputs root) root ScanKind.reconciliation TriggerKind.reconciliation false
        d in
    let go_on = λ (e : Option Raised). scan_roots revisit inputs e t d' in
    elim scanned [
      | ok n ↦ go_on error
      | raised e ↦ if is_exception e then go_on (first_error error e) else (raised e, d')
    ]

abbrev pub raise_first : Result (Option Raised) × Database → Result (Unit {0}) × Database
raise_first (ok none, d) = (ok tt, d)
raise_first (ok (some e), d) = (raised e, d)
raise_first (raised e, d) = (raised e, d)

-- `_reconciliation_step`, without the sleep at its start.
unfoldable pub reconciliation_step :
    ℕ → (FilePath → ScanInputs) → List FilePath → Database → Result (Unit {0}) × Database
reconciliation_step revisit inputs roots d = raise_first (scan_roots revisit inputs none roots d)
