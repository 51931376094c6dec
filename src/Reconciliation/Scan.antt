-- ===== src/Reconciliation/Scan.antt =====
-- `IngestionService.ingest_candidate` and `ReconciliationService.scan_root` on the database.
use versarr.Base.{
  Bool, FilePath, List, Option, String, [], false, if◌then◌else◌, length, none, some, ℕ, ◌∷◌,
}
use versarr.Domain.{
  JobPriority, ReconciliationRecord, Result, ScanKind, TriggerKind, class_name, is_exception, ok,
  raised,
}
use versarr.Jobs.{Enqueue, enqueue_path}
use versarr.Reconciliation.{FileFacts, needs_evaluation, read_file_facts}
use versarr.Requests.{record_scan_finish, record_scan_start}
use versarr.Schema.{Database}
use versarr.Snapshots.{list_reconciliation_records, mark_missing_snapshots_deleted}

-- `ingest_candidate` of a path, at the time that the repository reads.
unfoldable pub ingest_candidate : ℕ → Enqueue → Database → Database
ingest_candidate now e d = record d { jobs = enqueue_path now e d.jobs }

-- What a scan learns from outside: its times, the answer of the scanner, whether the root is a
-- directory, and the facts of each path.
pub record ScanInputs : Type 0 where
  pub started_at : ℕ
  pub evaluated_at : ℕ
  pub queued_at : FilePath → ℕ
  pub marked_at : ℕ
  pub finished_at : ℕ
  pub scanned : Result (List FilePath)
  pub root_is_dir : Bool
  pub stat : FilePath → Option FileFacts

abbrev pub scan_kind_text : ScanKind → String
scan_kind_text ScanKind.startup = "startup"
scan_kind_text ScanKind.reconciliation = "reconciliation"

-- The call that a scan makes for one candidate: no permission is passed.
abbrev pub scan_enqueue : FilePath → ScanKind → TriggerKind → FilePath → Enqueue
scan_enqueue root kind trigger path = record {
  library_root = root;
  media_path = path;
  trigger = trigger;
  priority = JobPriority.reconciliation;
  event_kind = scan_kind_text kind;
  force = false;
  overwrite_existing = false;
  allow_manual_overwrite = false;
}

-- The paths of the facts that need an evaluation.
unfoldable pub select_paths :
    (FilePath → Option ReconciliationRecord) → ℕ → ℕ → List (FilePath × FileFacts) → List FilePath
select_paths records now revisit [] = []
select_paths records now revisit ((path, f) ∷ t) =
    if needs_evaluation (records path) f now revisit
    then path ∷ select_paths records now revisit t
    else select_paths records now revisit t

-- `to_evaluate`.
unfoldable pub to_evaluate :
    ℕ → ScanInputs → FilePath → Bool → List FilePath → Database → List FilePath
to_evaluate revisit i root evaluate_all candidates d =
    if evaluate_all
    then candidates
    else select_paths (list_reconciliation_records root d.track_snapshots d.jobs) i.evaluated_at
        revisit (read_file_facts i.stat candidates)

-- The loop over the candidates.
unfoldable pub ingest_all :
    (FilePath → ℕ) → (FilePath → Enqueue) → List FilePath → Database → Database
ingest_all queued_at call [] d = d
ingest_all queued_at call (p ∷ ps) d =
    ingest_all queued_at call ps (ingest_candidate (queued_at p) (call p) d)

abbrev pub scan_started : ScanInputs → FilePath → ScanKind → Database → Database
scan_started i root kind d = record d {
  scan_state = record_scan_start root kind i.started_at d.scan_state;
}

abbrev pub scan_finished :
    ScanInputs → FilePath → ScanKind → String → Option String → Database → Database
scan_finished i root kind status code d = record d {
  scan_state = record_scan_finish root kind i.finished_at status code d.scan_state;
}

-- The rows of files that have gone, where the root is there.
unfoldable pub mark_gone : ScanInputs → FilePath → List FilePath → Database → Database
mark_gone i root candidates d =
    if i.root_is_dir
    then record d {
      track_snapshots =
          (mark_missing_snapshots_deleted root candidates i.marked_at d.track_snapshots).1;
    }
    else d

-- The part below `scanner.scan`, and the handler.
abbrev pub scan_with :
    ℕ
    → ScanInputs
    → FilePath
    → ScanKind
    → TriggerKind
    → Bool
    → Result (List FilePath)
    → Database
    → Result ℕ × Database
scan_with revisit i root kind trigger evaluate_all (raised e) d = (
  raised e,
  if is_exception e then scan_finished i root kind "failed" (some (class_name e)) d else d,
)
scan_with revisit i root kind trigger evaluate_all (ok candidates) d =
    let paths = to_evaluate revisit i root evaluate_all candidates d in
    (
      ok (length paths),
      scan_finished i root kind "ok" none (
          mark_gone i root candidates
            (ingest_all i.queued_at (scan_enqueue root kind trigger) paths d)),
    )

-- `scan_root`: the number of files that were queued, or the error that goes on.
unfoldable pub scan_root :
    ℕ → ScanInputs → FilePath → ScanKind → TriggerKind → Bool → Database → Result ℕ × Database
scan_root revisit i root kind trigger evaluate_all d =
    scan_with revisit i root kind trigger evaluate_all i.scanned (scan_started i root kind d)
