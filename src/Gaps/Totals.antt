-- ===== src/Gaps/Totals.antt =====
-- What all summaries together count, and the report of them.
use versarr.Base.{
  All, Bool, Bool-cases, FilePath, List, Option, String, [], ap, arith, count, false, if◌then◌else◌,
  inl, inr, keep, length, parent, refl, suc, sym, true, ℕ, ◌+◌, ◌↔◌, ◌∙◌, ◌∷◌, ◌≡◌,
}
use versarr.Domain.{DirectoryGapSummary}
use versarr.Gaps.{
  GapFacts, comes_before, count_in, count_rows, count_track, gap_facts, is_for,
  list_directory_gap_summaries, no_tracks, insert_sorted, snapshot_rows, sorted,
}
use versarr.Gaps.Counts.{Counts, lacks_lyrics, missing-Counts, total-Counts, with_lyrics-Counts}
use versarr.Gaps.Order.{list_directory_gap_summaries-eq, sum-sorted}
use versarr.Gaps.Report.{GapReport, Texts, format_all, has_gap, lyrics_gaps, report_of, sum_of}
use versarr.Processor.Outcomes.{texts}
use versarr.Schema.{Database, SnapshotRow}

module _ (g : GapFacts) (field : DirectoryGapSummary → ℕ) (test : SnapshotRow → Bool) where
  sum-count_in :
      (r : SnapshotRow) (t : List DirectoryGapSummary)
      → Counts g field test
      → ((root directory : FilePath) → field (no_tracks root directory) ≡ 0)
      → sum_of field (count_in g r t) ≡ (if test r then suc (sum_of field t) else sum_of field t)
  unfolding count_in
  sum-count_in r [] law zeros =
      let fresh = no_tracks r.library_root (parent r.media_path) in
      ground (arith, law r fresh, zeros r.library_root (parent r.media_path))
  sum-count_in r (s ∷ t) law zeros =
      elim (Bool-cases (is_for r.library_root (parent r.media_path) s)) [
        | inl m ↦ rw m (ground (arith, law r s))
        | inr m ↦ rw m (ground (arith, sum-count_in r t law zeros))
      ]

  sum-count_rows :
      (rows : List SnapshotRow) (t : List DirectoryGapSummary)
      → Counts g field test
      → ((root directory : FilePath) → field (no_tracks root directory) ≡ 0)
      → sum_of field (count_rows g rows t) ≡ sum_of field t + count test rows
  unfolding count_rows count
  sum-count_rows [] t law zeros = omega arith
  sum-count_rows (r ∷ rows) t law zeros =
      let rest = sum-count_rows rows (count_in g r t) law zeros in
      ground (arith, rest, sum-count_in r t law zeros)

sum_listed :
    (text_lt : FilePath → FilePath → Bool) (now : ℕ) (library_root : Option FilePath) (d : Database)
    (field : DirectoryGapSummary → ℕ) (test : SnapshotRow → Bool)
    → Counts (gap_facts now (snapshot_rows library_root d) d) field test
    → ((root directory : FilePath) → field (no_tracks root directory) ≡ 0)
    → sum_of field (list_directory_gap_summaries text_lt now library_root d)
      ≡ count test (snapshot_rows library_root d)
sum_listed text_lt now library_root d field test law zeros =
    let rows = snapshot_rows library_root d in
    let g = gap_facts now rows d in
    rw
      (
        list_directory_gap_summaries-eq text_lt now library_root d,
        sum-sorted text_lt field (count_rows g rows []),
      )
      (omega (arith, sum-count_rows g field test rows [] law zeros))

-- Every track of a summary has lyrics or has none.
abbrev Balanced : DirectoryGapSummary → Type 0
Balanced s = s.tracks_with_lyrics + s.tracks_missing_lyrics ≡ s.total_tracks

track-Balanced :
    (g : GapFacts) (r : SnapshotRow) (s : DirectoryGapSummary)
    → Balanced s
    → Balanced (count_track g r s)
track-Balanced g r s h =
    ground (arith, total-Counts g r s, with_lyrics-Counts g r s, missing-Counts g r s)

count_in-Balanced :
    (g : GapFacts) (r : SnapshotRow) (t : List DirectoryGapSummary)
    → All Balanced t
    → All Balanced (count_in g r t)
unfolding count_in
count_in-Balanced g r [] all =
    (track-Balanced g r (no_tracks r.library_root (parent r.media_path)) (omega arith), tt)
count_in-Balanced g r (s ∷ t) all =
    elim (Bool-cases (is_for r.library_root (parent r.media_path) s)) [
      | inl m ↦ rw m (track-Balanced g r s all.0, all.1)
      | inr m ↦ rw m (all.0, count_in-Balanced g r t all.1)
    ]

count_rows-Balanced :
    (g : GapFacts) (rows : List SnapshotRow) (t : List DirectoryGapSummary)
    → All Balanced t
    → All Balanced (count_rows g rows t)
unfolding count_rows
count_rows-Balanced g [] t all = all
count_rows-Balanced g (r ∷ rows) t all =
    count_rows-Balanced g rows (count_in g r t) (count_in-Balanced g r t all)

insert_sorted-Balanced :
    (text_lt : FilePath → FilePath → Bool) (s : DirectoryGapSummary) (t : List DirectoryGapSummary)
    → Balanced s
    → All Balanced t
    → All Balanced (insert_sorted text_lt s t)
unfolding insert_sorted
insert_sorted-Balanced text_lt s [] h all = (h, tt)
insert_sorted-Balanced text_lt s (x ∷ t) h all = elim (Bool-cases (comes_before text_lt x s)) [
  | inl m ↦ rw m (all.0, insert_sorted-Balanced text_lt s t h all.1)
  | inr m ↦ rw m (h, all)
]

sorted-Balanced :
    (text_lt : FilePath → FilePath → Bool) (t : List DirectoryGapSummary)
    → All Balanced t
    → All Balanced (sorted text_lt t)
unfolding sorted
sorted-Balanced text_lt [] all = tt
sorted-Balanced text_lt (s ∷ t) all =
    insert_sorted-Balanced text_lt s (sorted text_lt t) all.0 (sorted-Balanced text_lt t all.1)

listed-Balanced :
    (text_lt : FilePath → FilePath → Bool) (now : ℕ) (library_root : Option FilePath) (d : Database)
    → All Balanced (list_directory_gap_summaries text_lt now library_root d)
listed-Balanced text_lt now library_root d =
    rw (list_directory_gap_summaries-eq text_lt now library_root d)
      (sorted-Balanced text_lt _ (count_rows-Balanced _ (snapshot_rows library_root d) [] tt))

keep-Balanced : (t : List DirectoryGapSummary) → All Balanced t → All Balanced (keep has_gap t)
unfolding keep
keep-Balanced [] all = tt
keep-Balanced (s ∷ t) all = elim (Bool-cases (has_gap s)) [
  | inl m ↦ rw m (all.0, keep-Balanced t all.1)
  | inr m ↦ rw m (keep-Balanced t all.1)
]

sum-Balanced :
    (t : List DirectoryGapSummary)
    → All Balanced t
    → sum_of (λ s. s.tracks_with_lyrics) t + sum_of (λ s. s.tracks_missing_lyrics) t
      ≡ sum_of (λ s. s.total_tracks) t
sum-Balanced [] all = omega arith
sum-Balanced (s ∷ t) all = omega (arith, all.0, sum-Balanced t all.1)

sum-keep :
    (t : List DirectoryGapSummary)
    → sum_of (λ s. s.tracks_missing_lyrics) (keep has_gap t)
      ≡ sum_of (λ s. s.tracks_missing_lyrics) t
unfolding keep
sum-keep [] = refl
sum-keep (s ∷ t) = ground (arith, sum-keep t)

report-none :
    (texts : Texts) (t : List DirectoryGapSummary)
    → (report_of texts (keep has_gap t) ≡ GapReport.no_gaps)
      ↔ (sum_of (λ s. s.tracks_missing_lyrics) t ≡ 0)
unfolding keep
report-none texts [] = (λ _. refl, λ _. refl)
report-none texts (s ∷ t) = elim (Bool-cases (has_gap s)) [
  | inl m ↦ rw m (λ h. absurd (ground arith), λ h. absurd (ground arith))
  | inr m ↦
      let e : s.tracks_missing_lyrics ≡ 0 = ground arith in
      rw (m, e)
        (λ h. omega (arith, (report-none texts t).0 h), λ h. (report-none texts t).1 (omega arith))
]

length-format_all :
    (texts : Texts) (t : List DirectoryGapSummary) → length (format_all texts t) ≡ length t
unfolding format_all
length-format_all texts [] = refl
length-format_all texts (s ∷ t) = ap suc (length-format_all texts t)

report_of-gaps :
    (texts : Texts) (t : List DirectoryGapSummary) (n w total m : ℕ) (lines : List String)
    → report_of texts t ≡ GapReport.gaps n w total m lines
    → (n ≡ length t)
      × (w ≡ sum_of (λ s. s.tracks_with_lyrics) t)
      × (total ≡ sum_of (λ s. s.total_tracks) t)
      × (m ≡ sum_of (λ s. s.tracks_missing_lyrics) t)
      × (lines ≡ format_all texts t)
report_of-gaps texts [] n w total m lines h = absurd (ground arith)
report_of-gaps texts (s ∷ t) n w total m lines h =
    (ground arith, ground arith, ground arith, ground arith, ground arith)

module _ (texts : Texts) (text_lt : FilePath → FilePath → Bool) (now : ℕ)
    (library_root : Option FilePath) (d : Database) where
  abbrev listed : List DirectoryGapSummary
  listed = list_directory_gap_summaries text_lt now library_root d

  missing_total :
      sum_of (λ s. s.tracks_missing_lyrics) listed
      ≡ count lacks_lyrics (snapshot_rows library_root d)
  missing_total =
      let g = gap_facts now (snapshot_rows library_root d) d in
      sum_listed text_lt now library_root d (λ s. s.tracks_missing_lyrics) lacks_lyrics
        (missing-Counts g) (λ _ _. refl)

  -- Without `--all`, the command says that there are no gaps exactly if every track looked at has lyrics.
  pub lyrics_gaps_none_iff :
      (lyrics_gaps texts false (list_directory_gap_summaries text_lt now library_root d)
        ≡ GapReport.no_gaps)
      ↔ (count lacks_lyrics (snapshot_rows library_root d) ≡ 0)
  unfolding lyrics_gaps
  lyrics_gaps_none_iff = rw⁻¹ missing_total (report-none texts listed)

  -- The totals that the command prints, with --all or without it: the missing tracks are all listed
  -- tracks without lyrics, those with lyrics and those missing add up to the total, and there is a
  -- line for each directory counted.
  pub lyrics_gaps_totals :
      (show_all : Bool) (n w total m : ℕ) (lines : List String)
      → lyrics_gaps texts show_all (list_directory_gap_summaries text_lt now library_root d)
        ≡ GapReport.gaps n w total m lines
      → (m ≡ count lacks_lyrics (snapshot_rows library_root d))
        × (w + m ≡ total)
        × (length lines ≡ n)
  unfolding lyrics_gaps
  lyrics_gaps_totals true n w total m lines h =
      let (a, b, c, e, f) = report_of-gaps texts listed n w total m lines h in
      let balanced = sum-Balanced listed (listed-Balanced text_lt now library_root d) in
      (
        e ∙ missing_total,
        omega (arith, b, c, e, balanced),
        ap length f ∙ length-format_all texts listed ∙ sym a,
      )
  lyrics_gaps_totals false n w total m lines h =
      let kept = keep has_gap listed in
      let (a, b, c, e, f) = report_of-gaps texts kept n w total m lines h in
      let balanced =
        sum-Balanced kept (keep-Balanced listed (listed-Balanced text_lt now library_root d)) in
      (
        e ∙ sum-keep listed ∙ missing_total,
        omega (arith, b, c, e, balanced),
        ap length f ∙ length-format_all texts kept ∙ sym a,
      )
