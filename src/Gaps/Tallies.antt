-- ===== src/Gaps/Tallies.antt =====
-- The summary of a directory counts the rows of the directory.
use versarr.Base.{
  Bool, Bool-cases, FilePath, List, Option, Option-cases, [], any, arith, beq_self, beq→eq, count,
  false, first, if◌then◌else◌, inl, inr, is_some, nat_eq, none, parent, path_eq, refl, some,
  string_eq, suc, true, ℕ, ◌&&◌, ◌+◌, ◌==◌, ◌||◌, ◌∙◌, ◌∷◌, ◌≡◌,
}
use versarr.Domain.{DirectoryGapSummary, is_failed, is_pending, is_processing}
use versarr.Gaps.{
  GapFacts, count_in, count_rows, count_track, gap_facts, has_lyrics, is_for,
  list_directory_gap_summaries, no_tracks, snapshot_rows,
}
use versarr.Gaps.Counts.{
  Counts, cooldowns-Counts, counts_all, diverged-Counts, failed-Counts, is_diverged,
  lacks_and_cools, lacks_lyrics, lacks_with_job, missing-Counts, pending-Counts, processing-Counts,
  total-Counts, with_lyrics-Counts,
}
use versarr.Gaps.Order.{Irreflexive, first-sorted, list_directory_gap_summaries-eq}
use versarr.Schema.{Database, SnapshotRow}

abbrev pub in_directory : FilePath → FilePath → SnapshotRow → Bool
in_directory root directory r = r.library_root == root && parent r.media_path == directory

-- A field of the summary of a key, 0 where there is no summary.
abbrev pub field_of : (DirectoryGapSummary → ℕ) → Option DirectoryGapSummary → ℕ
field_of field none = 0
field_of field (some s) = field s

abbrev or_fresh : FilePath → FilePath → Option DirectoryGapSummary → DirectoryGapSummary
or_fresh root directory none = no_tracks root directory
or_fresh root directory (some s) = s

track-is_for :
    (g : GapFacts) (r : SnapshotRow) (s : DirectoryGapSummary) (root directory : FilePath)
    → is_for root directory (count_track g r s) ≡ is_for root directory s
unfolding count_track
track-is_for g r s root directory = ground arith

same_is_for :
    (r : SnapshotRow) (s : DirectoryGapSummary) (root directory : FilePath)
    → is_for r.library_root (parent r.media_path) s ≡ true
    → is_for root directory s ≡ in_directory root directory r
same_is_for r s root directory h =
    let a : s.library_root ≡ r.library_root = beq→eq _ _ (ground (arith)) in
    let b : s.directory_path ≡ parent r.media_path = beq→eq _ _ (ground (arith)) in cc (a, b)

-- The summary that a row is counted in.
abbrev of_row : SnapshotRow → DirectoryGapSummary → Bool
of_row r = is_for r.library_root (parent r.media_path)

of_row-eq :
    (r : SnapshotRow) (root directory : FilePath)
    → in_directory root directory r ≡ true
    → is_for root directory ≡ of_row r
of_row-eq r root directory h =
    let a : r.library_root ≡ root = beq→eq _ _ (ground arith) in
    let b : parent r.media_path ≡ directory = beq→eq _ _ (ground arith) in cc (a, b)

-- In the directory of the row, and elsewhere.
module _ (g : GapFacts) (r : SnapshotRow) where
  count_in-here :
      (t : List DirectoryGapSummary)
      → first (of_row r) (count_in g r t)
        ≡ some
            (count_track g r (or_fresh r.library_root (parent r.media_path) (first (of_row r) t)))
  unfolding first count_in
  count_in-here [] =
      rw
        (
          track-is_for g r (no_tracks r.library_root (parent r.media_path)) r.library_root
              (parent r.media_path),
          beq_self r.library_root,
          beq_self (parent r.media_path),
        )
        refl
  count_in-here (s ∷ t) = elim (Bool-cases (of_row r s)) [
    | inl m ↦ rw m (rw (track-is_for g r s r.library_root (parent r.media_path), m) refl)
    | inr m ↦ rw m (rw m (count_in-here t))
  ]

  count_in-elsewhere :
      (root directory : FilePath) (t : List DirectoryGapSummary)
      → in_directory root directory r ≡ false
      → first (is_for root directory) (count_in g r t) ≡ first (is_for root directory) t
  unfolding first count_in
  count_in-elsewhere root directory [] h =
      rw (track-is_for g r (no_tracks r.library_root (parent r.media_path)) root directory, h) refl
  count_in-elsewhere root directory (s ∷ t) h = elim (Bool-cases (of_row r s)) [
    | inl m ↦
        let n : is_for root directory s ≡ false = same_is_for r s root directory m ∙ h in
        rw (m, n) (rw (track-is_for g r s root directory, n) refl)
    | inr m ↦ rw m (ground (arith, count_in-elsewhere root directory t h))
  ]

module _ (g : GapFacts) (field : DirectoryGapSummary → ℕ) (test : SnapshotRow → Bool) where
  field-here :
      (r : SnapshotRow) (t : List DirectoryGapSummary)
      → Counts g field test
      → ((root directory : FilePath) → field (no_tracks root directory) ≡ 0)
      → field_of field (first (of_row r) (count_in g r t)) ≡ (
          if test r
          then suc (field_of field (first (of_row r) t))
          else field_of field (first (of_row r) t))
  field-here r t law zeros = elim (Option-cases (first (of_row r) t)) [
    | inl n ↦
        let z = zeros r.library_root (parent r.media_path) in
        let c = law r (no_tracks r.library_root (parent r.media_path)) in
        rw (count_in-here g r t, n, c, z) refl
    | inr (s, e) ↦ rw (count_in-here g r t, e) (law r s)
  ]

  field-count_rows :
      (root directory : FilePath) (rows : List SnapshotRow) (t : List DirectoryGapSummary)
      → Counts g field test
      → ((root directory : FilePath) → field (no_tracks root directory) ≡ 0)
      → field_of field (first (is_for root directory) (count_rows g rows t))
        ≡ field_of field (first (is_for root directory) t)
          + count (λ r. in_directory root directory r && test r) rows
  unfolding count_rows count
  field-count_rows root directory [] t law zeros = omega arith
  field-count_rows root directory (r ∷ rows) t law zeros =
      let rest = field-count_rows root directory rows (count_in g r t) law zeros in
      elim (Bool-cases (in_directory root directory r)) [
        | inl m ↦
            let k = of_row-eq r root directory m in
            let here : field_of field (first (is_for root directory) (count_in g r t)) ≡ (
                if test r
                then suc (field_of field (first (is_for root directory) t))
                else field_of field (first (is_for root directory) t)) =
              rw k (field-here r t law zeros) in
            rw (m, rest, here)
              (elim (Bool-cases (test r)) [ inl b ↦ rw b (omega arith) | inr b ↦ rw b refl ])
        | inr m ↦ rw (m, rest, count_in-elsewhere g r root directory t m) refl
      ]

  field-tally :
      (root directory : FilePath) (rows : List SnapshotRow)
      → Counts g field test
      → ((root directory : FilePath) → field (no_tracks root directory) ≡ 0)
      → field_of field (first (is_for root directory) (count_rows g rows []))
        ≡ count (λ r. in_directory root directory r && test r) rows
  unfolding first
  field-tally root directory rows law zeros =
      omega (arith, field-count_rows root directory rows [] law zeros)

is_some-count_rows :
    (g : GapFacts) (root directory : FilePath) (rows : List SnapshotRow)
    (t : List DirectoryGapSummary)
    → is_some (first (is_for root directory) (count_rows g rows t))
      ≡ (is_some (first (is_for root directory) t) || any (in_directory root directory) rows)
unfolding count_rows any
is_some-count_rows g root directory [] t = ground arith
is_some-count_rows g root directory (r ∷ rows) t =
    let rest = is_some-count_rows g root directory rows (count_in g r t) in
    elim (Bool-cases (in_directory root directory r)) [
      | inl m ↦
          let there : is_some (first (is_for root directory) (count_in g r t)) ≡ true =
            rw (of_row-eq r root directory m, count_in-here g r t) refl in
          rw (rest, there, m) (ground arith)
      | inr m ↦ rw (m, rest, count_in-elsewhere g r root directory t m) refl
    ]

-- What the summaries say of a directory: one counts its rows, and there is one if there is a row.
abbrev pub IsTally :
    GapFacts → FilePath → FilePath → List SnapshotRow → Option DirectoryGapSummary → Type 0
IsTally g root directory rows o =
    let inside =
      λ (test : SnapshotRow → Bool). count (λ r. in_directory root directory r && test r) rows in
    (is_some o ≡ any (in_directory root directory) rows)
    × (field_of (λ s. s.total_tracks) o ≡ inside counts_all)
    × (field_of (λ s. s.tracks_with_lyrics) o ≡ inside has_lyrics)
    × (field_of (λ s. s.tracks_missing_lyrics) o ≡ inside lacks_lyrics)
    × (field_of (λ s. s.pending_jobs) o ≡ inside (lacks_with_job is_pending g))
    × (field_of (λ s. s.processing_jobs) o ≡ inside (lacks_with_job is_processing g))
    × (field_of (λ s. s.failed_jobs) o ≡ inside (lacks_with_job is_failed g))
    × (field_of (λ s. s.active_cooldowns) o ≡ inside (lacks_and_cools g))
    × (field_of (λ s. s.manual_diverged) o ≡ inside (is_diverged g))

count_rows-IsTally :
    (g : GapFacts) (root directory : FilePath) (rows : List SnapshotRow)
    → IsTally g root directory rows (first (is_for root directory) (count_rows g rows []))
unfolding first
count_rows-IsTally g root directory rows = (
  is_some-count_rows g root directory rows [],
  field-tally g (λ s. s.total_tracks) counts_all root directory rows (total-Counts g) (λ _ _. refl),
  field-tally g (λ s. s.tracks_with_lyrics) has_lyrics root directory rows (with_lyrics-Counts g)
      (λ _ _. refl),
  field-tally g (λ s. s.tracks_missing_lyrics) lacks_lyrics root directory rows (missing-Counts g)
      (λ _ _. refl),
  field-tally g (λ s. s.pending_jobs) (lacks_with_job is_pending g) root directory rows
      (pending-Counts g) (λ _ _. refl),
  field-tally g (λ s. s.processing_jobs) (lacks_with_job is_processing g) root directory rows
      (processing-Counts g) (λ _ _. refl),
  field-tally g (λ s. s.failed_jobs) (lacks_with_job is_failed g) root directory rows
      (failed-Counts g) (λ _ _. refl),
  field-tally g (λ s. s.active_cooldowns) (lacks_and_cools g) root directory rows
      (cooldowns-Counts g) (λ _ _. refl),
  field-tally g (λ s. s.manual_diverged) (is_diverged g) root directory rows (diverged-Counts g)
      (λ _ _. refl),
)

-- Where no path's text comes before itself, the summaries have an entry for a directory exactly if a
-- listed track lies in it, and its eight numbers are the counts of that directory's tracks by their
-- tests.
pub directory_gaps-IsTally :
    (text_lt : FilePath → FilePath → Bool) (now : ℕ) (library_root : Option FilePath) (d : Database)
    (root directory : FilePath)
    → Irreflexive text_lt
    → let rows = snapshot_rows library_root d in
      IsTally
        (gap_facts now rows d)
        root
        directory
        rows
        (first (is_for root directory) (list_directory_gap_summaries text_lt now library_root d))
directory_gaps-IsTally text_lt now library_root d root directory irreflexive =
    rw
      (
        list_directory_gap_summaries-eq text_lt now library_root d,
        first-sorted text_lt root directory _ irreflexive,
      )
      (count_rows-IsTally _ root directory (snapshot_rows library_root d))
