-- ===== src/Gaps/Report.antt =====
-- The command `lyrics-gaps` of src/versarr/cli.py: the lines it prints for the summaries.
use Prim.Native.String.{◌++◌ as str_append}
use versarr.Base.{
  Bool, FilePath, List, String, [], if◌then◌else◌, keep, length, ltb, suc, zero, ℕ, ◌++◌, ◌+◌, ◌∷◌,
}
use versarr.Domain.{DirectoryGapSummary}
use versarr.Processor.Outcomes.{texts}

-- `str` of a number and of a path.
pub record Texts : Type 0 where
  pub number : ℕ → String
  pub path : FilePath → String

-- What the command prints: the message that there are none, or the totals and a line for each summary.
pub data GapReport : Type 0 where
  no_gaps : GapReport
  gaps : ℕ → ℕ → ℕ → ℕ → List String → GapReport

abbrev append : List String → String
append [] = ""
append (s ∷ t) = str_append s (append t)

-- `" ".join`.
abbrev join_words : List String → String
join_words [] = ""
join_words (s ∷ []) = s
join_words (s ∷ u ∷ t) = str_append s (str_append " " (join_words (u ∷ t)))

abbrev status_part : Texts → String → ℕ → List String
status_part texts name zero = []
status_part texts name (suc n) = append (name ∷ "=" ∷ texts.number (suc n) ∷ []) ∷ []

abbrev pub status_parts : Texts → DirectoryGapSummary → List String
status_parts texts s =
    status_part texts "pending" s.pending_jobs
    ++ status_part texts "processing" s.processing_jobs
    ++ status_part texts "failed" s.failed_jobs
    ++ status_part texts "cooldown" s.active_cooldowns
    ++ status_part texts "manual_diverged" s.manual_diverged

abbrev status_suffix : List String → String
status_suffix [] = ""
status_suffix (part ∷ parts) = append (" [" ∷ join_words (part ∷ parts) ∷ "]" ∷ [])

-- `_format_gap_summary`.
unfoldable pub format_gap_summary : Texts → DirectoryGapSummary → String
format_gap_summary texts s = append (
    texts.path s.directory_path
    ∷ " ("
    ∷ texts.number s.tracks_with_lyrics
    ∷ "/"
    ∷ texts.number s.total_tracks
    ∷ ")"
    ∷ status_suffix (status_parts texts s)
    ∷ [])

unfoldable pub format_all : Texts → List DirectoryGapSummary → List String
format_all texts [] = []
format_all texts (s ∷ t) = format_gap_summary texts s ∷ format_all texts t

abbrev pub has_gap : DirectoryGapSummary → Bool
has_gap s = ltb 0 s.tracks_missing_lyrics

abbrev pub sum_of : (DirectoryGapSummary → ℕ) → List DirectoryGapSummary → ℕ
sum_of field [] = 0
sum_of field (s ∷ t) = field s + sum_of field t

abbrev pub report_of : Texts → List DirectoryGapSummary → GapReport
report_of texts [] = GapReport.no_gaps
report_of texts (s ∷ t) =
    let summaries = s ∷ t in
    GapReport.gaps (length summaries) (sum_of (λ x. x.tracks_with_lyrics) summaries)
      (sum_of (λ x. x.total_tracks) summaries) (sum_of (λ x. x.tracks_missing_lyrics) summaries)
      (format_all texts summaries)

-- `lyrics_gaps`, on the summaries that the repository lists.
unfoldable pub lyrics_gaps : Texts → Bool → List DirectoryGapSummary → GapReport
lyrics_gaps texts show_all summaries =
    report_of texts (if show_all then summaries else keep has_gap summaries)
