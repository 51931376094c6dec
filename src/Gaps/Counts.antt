-- ===== src/Gaps/Counts.antt =====
-- What one track adds to each field of a summary.
use versarr.Base.{
  Bool, Option, arith, false, if◌then◌else◌, none, not, some, suc, true, ℕ, ◌&&◌, ◌≡◌,
}
use versarr.Domain.{DirectoryGapSummary, JobState, is_failed, is_pending, is_processing}
use versarr.Gaps.{GapFacts, count_track, has_lyrics}
use versarr.Schema.{SnapshotRow}

-- What each field counts.
abbrev pub counts_all : SnapshotRow → Bool
counts_all r = true

abbrev pub lacks_lyrics : SnapshotRow → Bool
lacks_lyrics r = not (has_lyrics r)

abbrev pub state_is : (JobState → Bool) → Option JobState → Bool
state_is test none = false
state_is test (some s) = test s

abbrev pub lacks_with_job : (JobState → Bool) → GapFacts → SnapshotRow → Bool
lacks_with_job test g r = lacks_lyrics r && state_is test (g.job_state r.media_path)

abbrev pub lacks_and_cools : GapFacts → SnapshotRow → Bool
lacks_and_cools g r = lacks_lyrics r && g.cooling r.normalized_lookup_key

abbrev pub is_diverged : GapFacts → SnapshotRow → Bool
is_diverged g r = g.manual_diverged r.media_path

-- A field that every track adds one to, or leaves, by a test of its row.
abbrev pub Counts : GapFacts → (DirectoryGapSummary → ℕ) → (SnapshotRow → Bool) → Type 0
Counts g field test =
    (r : SnapshotRow) (s : DirectoryGapSummary)
    → field (count_track g r s) ≡ (if test r then suc (field s) else field s)

module _ (g : GapFacts) where
  pub total-Counts : Counts g (λ s. s.total_tracks) counts_all
  unfolding count_track
  total-Counts r s = ground arith

  pub with_lyrics-Counts : Counts g (λ s. s.tracks_with_lyrics) has_lyrics
  unfolding count_track
  with_lyrics-Counts r s = ground arith

  pub missing-Counts : Counts g (λ s. s.tracks_missing_lyrics) lacks_lyrics
  unfolding count_track
  missing-Counts r s = ground arith

  pub pending-Counts : Counts g (λ s. s.pending_jobs) (lacks_with_job is_pending g)
  unfolding count_track
  pending-Counts r s = ground arith

  pub processing-Counts : Counts g (λ s. s.processing_jobs) (lacks_with_job is_processing g)
  unfolding count_track
  processing-Counts r s = ground arith

  pub failed-Counts : Counts g (λ s. s.failed_jobs) (lacks_with_job is_failed g)
  unfolding count_track
  failed-Counts r s = ground arith

  pub cooldowns-Counts : Counts g (λ s. s.active_cooldowns) (lacks_and_cools g)
  unfolding count_track
  cooldowns-Counts r s = ground arith

  pub diverged-Counts : Counts g (λ s. s.manual_diverged) (is_diverged g)
  unfolding count_track
  diverged-Counts r s = ground arith
