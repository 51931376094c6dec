-- ===== src/Reconciliation.antt =====
-- `ReconciliationService`, `IngestionService`, `RecoveryService` and `ControlRequestService` of
-- src/versarr/application/services.py.
pub mod Evaluation
pub mod Scan
pub mod Queued
pub mod Drain
pub mod Closed
mod Tests
use versarr.Base.{
  Bool, FilePath, List, Option, [], false, if◌then◌else◌, leb, nat_beq, none, not, some, true, ℕ,
  ◌+◌, ◌||◌, ◌∷◌,
}
use versarr.Domain.{JobState, ReconciliationRecord, is_pending, is_processing, seconds}

pub record FileFacts : Type 0 where
  pub size : ℕ
  pub mtime_ns : ℕ
  pub sidecar_exists : Bool

abbrev add_facts :
    FilePath → Option FileFacts → List (FilePath × FileFacts) → List (FilePath × FileFacts)
add_facts p none rest = rest
add_facts p (some f) rest = (p, f) ∷ rest

-- `_read_file_facts`: a path that the system cannot stat is left out.
unfoldable pub read_file_facts :
    (FilePath → Option FileFacts) → List FilePath → List (FilePath × FileFacts)
read_file_facts stat [] = []
read_file_facts stat (p ∷ ps) = add_facts p (stat p) (read_file_facts stat ps)

abbrev pub bool_beq : Bool → Bool → Bool
bool_beq true b = b
bool_beq false b = not b

-- `now - updated >= timedelta(seconds=revisit)`.
abbrev pub revisit_due : ℕ → ℕ → Option ℕ → Bool
revisit_due now revisit none = true
revisit_due now revisit (some updated) = leb (updated + seconds revisit) now

abbrev needs_by_state : ReconciliationRecord → FileFacts → ℕ → ℕ → Option JobState → Bool
needs_by_state r f now revisit none = true
needs_by_state r f now revisit (some state) =
    if r.deleted
    then true
    else if not (nat_beq r.file_size f.size) || not (nat_beq r.file_mtime_ns f.mtime_ns)
    then true
    else if not (bool_beq r.sidecar_exists f.sidecar_exists)
    then true
    else if is_pending state || is_processing state
    then false
    else if r.has_lyrics
    then false
    else revisit_due now revisit r.job_updated_at

-- `_needs_evaluation`.
unfoldable pub needs_evaluation : Option ReconciliationRecord → FileFacts → ℕ → ℕ → Bool
needs_evaluation none f now revisit = true
needs_evaluation (some r) f now revisit = needs_by_state r f now revisit r.job_state
