-- ===== src/Gaps.antt =====
-- `list_directory_gap_summaries` of src/versarr/infrastructure/persistence/repository.py: how many
-- tracks of each directory have lyrics, and what is known of those that have none.
pub mod Counts
mod Order
pub mod Tallies
pub mod Totals
pub mod Report
mod Tests
use versarr.Base.{
  Bool, FilePath, List, Option, String, [], any, false, if◌then◌else◌, is_some, keep, keyed, ltb,
  member, nat_eq, none, not, parent, path_eq, some, string_eq, suc, true, ℕ, ◌&&◌, ◌==◌, ◌||◌, ◌∷◌,
}
use versarr.Domain.{DirectoryGapSummary, JobState}
use versarr.Schema.{Database, ProvenanceRow, SnapshotRow}
use versarr.Snapshots.{job_state_of, paths_of}

-- The snapshots that are looked at: not tombstoned, and of the root that is asked for.
abbrev pub is_of_root : Option FilePath → SnapshotRow → Bool
is_of_root none r = true
is_of_root (some root) r = r.library_root == root

abbrev pub is_listed : Option FilePath → SnapshotRow → Bool
is_listed library_root r = not (is_some r.deleted_at) && is_of_root library_root r

abbrev pub snapshot_rows : Option FilePath → Database → List SnapshotRow
snapshot_rows library_root d = keep (is_listed library_root) d.track_snapshots

-- The last row that a dict built from the rows keeps.
unfoldable pub last_of : {A : Type 0} → (A → Bool) → List A → Option A
last_of p [] = none
last_of p (r ∷ t) =
    let rest = last_of p t in elim rest [ some x ↦ some x | none ↦ if p r then some r else none ]

-- `jobs_by_media`, `manual_diverged_by_media` and `active_cooldowns`, as their `get` and `in`.
pub record GapFacts : Type 0 where
  pub job_state : FilePath → Option JobState
  pub manual_diverged : FilePath → Bool
  pub cooling : String → Bool

unfoldable pub lookup_keys : List SnapshotRow → List String
lookup_keys [] = []
lookup_keys (r ∷ t) = r.normalized_lookup_key ∷ lookup_keys t

abbrev pub diverged_of : Option ProvenanceRow → Bool
diverged_of none = false
diverged_of (some p) = p.manual_diverged

unfoldable pub gap_facts : ℕ → List SnapshotRow → Database → GapFacts
gap_facts now rows d =
    let media_paths = paths_of rows in
    let job_rows = keep (λ j. member j.media_path media_paths) d.jobs in
    let provenance_rows = keep (λ p. member p.media_path media_paths) d.provenance in
    let cooldown_rows =
      keep (λ c. member c.lookup_key (lookup_keys rows) && ltb now c.until_at) d.cooldowns in
    record {
      job_state = λ path. job_state_of (last_of (keyed (λ j. j.media_path) path) job_rows);
      manual_diverged =
          λ path. diverged_of (last_of (keyed (λ p. p.media_path) path) provenance_rows);
      cooling = λ key. any (keyed (λ c. c.lookup_key) key) cooldown_rows;
    }

abbrev pub has_lyrics : SnapshotRow → Bool
has_lyrics r = r.sidecar_exists || r.embedded_exists

-- The body of the loop, one addition after the other.
abbrev pub count_state : Option JobState → DirectoryGapSummary → DirectoryGapSummary
count_state (some JobState.pending) s = record s { pending_jobs = suc s.pending_jobs }
count_state (some JobState.processing) s = record s { processing_jobs = suc s.processing_jobs }
count_state (some JobState.failed) s = record s { failed_jobs = suc s.failed_jobs }
count_state _ s = s

abbrev pub count_cooldown : Bool → DirectoryGapSummary → DirectoryGapSummary
count_cooldown cooling s =
    if cooling then record s { active_cooldowns = suc s.active_cooldowns } else s

abbrev pub count_lyrics : GapFacts → SnapshotRow → DirectoryGapSummary → DirectoryGapSummary
count_lyrics g r s =
    if has_lyrics r
    then record s { tracks_with_lyrics = suc s.tracks_with_lyrics }
    else count_cooldown (g.cooling r.normalized_lookup_key) (
        count_state (g.job_state r.media_path)
          (record s { tracks_missing_lyrics = suc s.tracks_missing_lyrics }))

abbrev pub count_diverged : Bool → DirectoryGapSummary → DirectoryGapSummary
count_diverged diverged s =
    if diverged then record s { manual_diverged = suc s.manual_diverged } else s

unfoldable pub count_track : GapFacts → SnapshotRow → DirectoryGapSummary → DirectoryGapSummary
count_track g r s =
    count_diverged (g.manual_diverged r.media_path)
      (count_lyrics g r (record s { total_tracks = suc s.total_tracks }))

abbrev pub no_tracks : FilePath → FilePath → DirectoryGapSummary
no_tracks root directory = record {
  library_root = root;
  directory_path = directory;
  total_tracks = 0;
  tracks_with_lyrics = 0;
  tracks_missing_lyrics = 0;
  pending_jobs = 0;
  processing_jobs = 0;
  failed_jobs = 0;
  active_cooldowns = 0;
  manual_diverged = 0;
}

-- The key of a summary.
abbrev pub is_for : FilePath → FilePath → DirectoryGapSummary → Bool
is_for root directory s = s.library_root == root && s.directory_path == directory

-- `setdefault`, and the additions to the summary that it returns: the dict keeps its order.
unfoldable pub count_in :
    GapFacts → SnapshotRow → List DirectoryGapSummary → List DirectoryGapSummary
count_in g r [] = count_track g r (no_tracks r.library_root (parent r.media_path)) ∷ []
count_in g r (s ∷ t) =
    if is_for r.library_root (parent r.media_path) s
    then count_track g r s ∷ t
    else s ∷ count_in g r t

unfoldable pub count_rows :
    GapFacts → List SnapshotRow → List DirectoryGapSummary → List DirectoryGapSummary
count_rows g [] summaries = summaries
count_rows g (r ∷ t) summaries = count_rows g t (count_in g r summaries)

-- The order of the keys, by the order of the texts of paths.
abbrev pub comes_before :
    (FilePath → FilePath → Bool) → DirectoryGapSummary → DirectoryGapSummary → Bool
comes_before text_lt a b =
    if a.library_root == b.library_root
    then text_lt a.directory_path b.directory_path
    else text_lt a.library_root b.library_root

-- `sorted`, which is stable.
unfoldable pub insert_sorted :
    (FilePath → FilePath → Bool)
    → DirectoryGapSummary
    → List DirectoryGapSummary
    → List DirectoryGapSummary
insert_sorted text_lt s [] = s ∷ []
insert_sorted text_lt s (x ∷ t) =
    if comes_before text_lt x s then x ∷ insert_sorted text_lt s t else s ∷ x ∷ t

unfoldable pub sorted :
    (FilePath → FilePath → Bool) → List DirectoryGapSummary → List DirectoryGapSummary
sorted text_lt [] = []
sorted text_lt (s ∷ t) = insert_sorted text_lt s (sorted text_lt t)

abbrev pub summaries_of :
    (FilePath → FilePath → Bool) → ℕ → List SnapshotRow → Database → List DirectoryGapSummary
summaries_of text_lt now [] d = []
summaries_of text_lt now (r ∷ t) d =
    sorted text_lt (count_rows (gap_facts now (r ∷ t) d) (r ∷ t) [])

unfoldable pub list_directory_gap_summaries :
    (FilePath → FilePath → Bool) → ℕ → Option FilePath → Database → List DirectoryGapSummary
list_directory_gap_summaries text_lt now library_root d =
    summaries_of text_lt now (snapshot_rows library_root d) d
