-- ===== src/Stability/Quiet.antt =====
-- When a path is reported ready.
use versarr.Base.{Option-cases, arith, false, first, inl, inr, some, true, ℕ, ◌+◌, ◌<◌, ◌≡◌, ◌≤◌}
use versarr.Domain.{FileStabilityState}
use versarr.Stability.{Detector, Stat, poll_one, probe_of, probed_too_recently}

-- A path is reported only if its quiet period and its probe gap have passed, a probe came before,
-- and the file has the size and time that the last probe saw.
pub poll_one-ready :
    (now : ℕ) (stat : Stat) (s : FileStabilityState) (d : Detector)
    → (poll_one now stat s d).0 ≡ true
    → (s.last_seen_at + d.quiet_period ≤ now)
      × (probed_too_recently now d.probe_gap (first (probe_of s.candidate_path) d.last_probe_at)
          ≡ false)
      × (0 < s.successful_probes)
      × (size mtime : ℕ) × (stat s.candidate_path ≡ some (size, mtime))
      × (s.last_size ≡ some size)
      × (s.last_mtime_ns ≡ some mtime)
unfolding poll_one
poll_one-ready now stat s d h = elim (Option-cases (stat s.candidate_path)) [
  | inl e ↦ absurd (ground arith)
  | inr ((size, mtime), e) ↦
      (ground arith, ground arith, ground arith, size, mtime, e, ground arith, ground arith)
]
