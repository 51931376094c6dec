-- ===== src/Gaps/Tests.antt =====
-- Tests of the gap summaries.
use versarr.Base.{
  Bool, FilePath, List, String, [], any, arith, false, first, if◌then◌else◌, keep, length, ltb,
  member, nat_eq, none, parent, path_beq, path_eq, refl, string_eq, ◌∷◌, ◌≡◌,
}
use versarr.Domain.{JobState}
use versarr.Examples.{bare, database, library, waiting}
use versarr.Gaps.{
  count_in, count_rows, count_track, gap_facts, is_for, last_of, list_directory_gap_summaries,
  lookup_keys, insert_sorted, snapshot_rows, sorted,
}
use versarr.Gaps.Order.{Irreflexive}
use versarr.Gaps.Report.{GapReport, Texts, format_all, format_gap_summary, lyrics_gaps}
use versarr.Gaps.Tallies.{IsTally, directory_gaps-IsTally}
use versarr.Schema.{Database}
use versarr.Snapshots.{paths_of, snapshot_values}

-- An order of paths by their depth.
abbrev shallower : FilePath → FilePath → Bool
shallower p q = ltb (length p) (length q)

never_before_itself : Irreflexive shallower
never_before_itself p = ground arith

-- One track with no lyrics and a job that failed.
abbrev scanned : Database
scanned = record database {
  jobs = record waiting { state = JobState.failed } ∷ [];
  track_snapshots = snapshot_values 3 bare ∷ [];
}

directory_gaps-IsTally_example :
    IsTally
      (gap_facts 5 (snapshot_rows none scanned) scanned)
      library
      library
      (snapshot_rows none scanned)
      (first (is_for library library) (list_directory_gap_summaries shallower 5 none scanned))
directory_gaps-IsTally_example =
    directory_gaps-IsTally shallower 5 none scanned library library never_before_itself

abbrev shown : List String
shown = "/music (0/1) [failed=1]" ∷ []

abbrev texts : Texts
texts = record { number = λ n. if ltb 0 n then "1" else "0"; path = λ _. "/music" }

shows_gap :
    lyrics_gaps texts false (list_directory_gap_summaries shallower 5 none scanned)
    ≡ GapReport.gaps 1 0 1 1 shown
unfolding lyrics_gaps list_directory_gap_summaries gap_facts count_rows count_in count_track sorted
    insert_sorted keep format_all format_gap_summary last_of lookup_keys paths_of member any parent
    path_beq
shows_gap = refl
