-- ===== src/Reconciliation/Evaluation.antt =====
-- Which files a scan queues.
use versarr.Base.{arith, false, is_some, some, true, ℕ, ◌↔◌, ◌≡◌, ◌⊎◌}
use versarr.Domain.{JobState, ReconciliationRecord}
use versarr.Reconciliation.{FileFacts, needs_evaluation, revisit_due}

-- A file is settled if it is known and alive, unchanged in size, time and sidecar, and has a job that
-- is under way, or lyrics, or a look at it that is recent enough.
pub record IsSettled (r : ReconciliationRecord) (f : FileFacts) (now revisit : ℕ) : Type 0 where
  pub alive : r.deleted ≡ false
  pub same_size : r.file_size ≡ f.size
  pub same_time : r.file_mtime_ns ≡ f.mtime_ns
  pub same_sidecar : r.sidecar_exists ≡ f.sidecar_exists
  pub attended :
      (r.job_state ≡ some JobState.pending)
      ⊎ (r.job_state ≡ some JobState.processing)
      ⊎ (is_some r.job_state ≡ true)
        × ((r.has_lyrics ≡ true) ⊎ (revisit_due now revisit r.job_updated_at ≡ false))

-- A known file is passed over exactly if it is alive and unchanged and its job is under way, or has
-- lyrics, or was looked at recently enough.
pub needs_evaluation_iff :
    (r : ReconciliationRecord) (f : FileFacts) (now revisit : ℕ)
    → (needs_evaluation (some r) f now revisit ≡ false) ↔ IsSettled r f now revisit
unfolding needs_evaluation
needs_evaluation_iff r f now revisit = (λ h. ground arith, λ h. ground arith)
