-- ===== src/Processor/Effects.antt =====
-- What an attempt leaves alone, and when it writes.
use text.Mathlib.TextEquality.{eq_iff}
use versarr.Base.{Option-cases, String, arith, false, inl, inr, is_some, some, true, ◌≡◌, ◌≢◌, ◌⊎◌}
use versarr.Domain.{EnrichmentJob, ProvenanceRecord, TrackSnapshot, ok}
use versarr.Policy.{decide}
use versarr.Processor.Attempt.{process_job}
use versarr.Processor.Inputs.{Inputs, Services}
use versarr.Processor.Monad.{World}
use versarr.Provenance.{get_provenance}
use versarr.Settings.{Settings}

-- The tables that an attempt never touches.
abbrev pub SameQueue : World → World → Type 0
SameQueue w w' =
    (w'.db.jobs ≡ w.db.jobs)
    × (w'.db.scan_state ≡ w.db.scan_state)
    × (w'.db.control_requests ≡ w.db.control_requests)

module _ (services : Services) (settings : Settings) (inputs : Inputs) (job : EnrichmentJob) where
  -- An attempt leaves the jobs, the scan checkpoints and the control requests as they were.
  pub process_job-SameQueue :
      (w : World) → SameQueue w (process_job services settings inputs job w).1
  unfolding process_job
  process_job-SameQueue w = ground arith

  -- An attempt that has read a track with a sidecar, and that sidecar's hash, and that writes, found
  -- a provenance record, was forced with leave to overwrite, and, where the hash is not the recorded
  -- one, with leave to overwrite manual edits.
  pub sidecar_protected :
      (s : TrackSnapshot) (h : String) (w : World)
      → inputs.snapshot ≡ ok s
      → inputs.sidecar_hash ≡ ok h
      → s.lyrics_presence.sidecar_exists ≡ true
      → (process_job services settings inputs job w).1.writes ≢ w.writes
      → (p : ProvenanceRecord) × (get_provenance job.media_path w.db.provenance ≡ some p)
        × (job.force ≡ true)
        × (job.overwrite_existing ≡ true)
        × ((h ≡ p.normalized_lyrics_hash) ⊎ (job.allow_manual_overwrite ≡ true))
  unfolding process_job decide
  sidecar_protected s h w e eh exists wrote =
      elim (Option-cases (get_provenance job.media_path w.db.provenance)) [
        | inl n ↦ absurd (wrote (ground arith))
        | inr (p, n) ↦
            (p, n, ground arith, ground arith, ground (arith, eq_iff h p.normalized_lyrics_hash))
      ]

  -- An attempt that has read a track without a sidecar, and that writes, found no embedded lyrics,
  -- and was forced if a provenance record was there.
  pub absence_protected :
      (s : TrackSnapshot) (w : World)
      → inputs.snapshot ≡ ok s
      → s.lyrics_presence.sidecar_exists ≡ false
      → (process_job services settings inputs job w).1.writes ≢ w.writes
      → (s.lyrics_presence.embedded_exists ≡ false)
        × (is_some (get_provenance job.media_path w.db.provenance) ≡ true → job.force ≡ true)
  unfolding process_job decide
  absence_protected s w e exists wrote = ground arith
