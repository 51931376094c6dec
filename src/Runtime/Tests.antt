-- ===== src/Runtime/Tests.antt =====
-- Tests of the runtime.
use versarr.Base.{
  FilePath, [], any, false, first, if◌then◌else◌, member, nat_eq, path_beq, path_eq, refl, some,
  string_eq, true, ◌==◌, ◌∷◌, ◌≡◌,
}
use versarr.Domain.{Raised, ok, raised}
use versarr.Examples.{database, library, song, song_lrc}
use versarr.Reconciliation.Queued.{has_queued}
use versarr.Reconciliation.Scan.{ScanInputs}
use versarr.Runtime.{Files, Watching, handle_filesystem_event, remember_sidecar_hash}
use versarr.Runtime.Events.{IsWatched, own_write_once}
use versarr.Runtime.Queued.{RunsOn, reconciliation_step-queues}
use versarr.Runtime.Scans.{IsUnseen}
use versarr.Runtime.Steps.{reconciliation_step}
use versarr.Scanner.{Matching, first_sibling, is_ignored_temp_file, resolve_candidate_media_path}

abbrev exact : Matching
exact = record { lower = λ t. t; fnmatch = λ name pattern. name == pattern }

-- Every file is there, and every sidecar has the same hash.
abbrev all_there : Files
all_there = record { exists = λ _. true; normalized_hash = λ _. some "hash" }

abbrev watching : Watching
watching = record {
  stability = record { quiet_period = 0; probe_gap = 0; states = []; last_probe_at = [] };
  suppression_hashes = [];
}

is_media : resolve_candidate_media_path exact all_there.exists song_lrc ≡ some song
unfolding resolve_candidate_media_path first_sibling member
is_media = refl

own_write_once_example :
    let w =
      handle_filesystem_event exact [] all_there 3 song_lrc
        (remember_sidecar_hash song_lrc "hash" watching) in
    (w.stability ≡ watching.stability)
    × IsWatched song 7 (handle_filesystem_event exact [] all_there 7 song_lrc w).stability
unfolding is_ignored_temp_file any
own_write_once_example =
    own_write_once exact [] all_there song_lrc song refl is_media "hash" 3 7 watching refl refl refl

abbrev other_library : FilePath
other_library = record { stem = "podcasts"; suffix = "" } ∷ []

-- The scan of one root fails, and that of the other finds the song.
abbrev scan_of : FilePath → ScanInputs
scan_of root = record {
  started_at = 1;
  evaluated_at = 2;
  queued_at = λ _. 3;
  marked_at = 4;
  finished_at = 5;
  scanned = if root == library then ok (song ∷ []) else raised (Raised.os_error "OSError");
  root_is_dir = true;
  stat = λ _. some (record { size = 1000; mtime_ns = 5; sidecar_exists = false });
}

runs_on : RunsOn 21600 scan_of (other_library ∷ library ∷ [])
unfolding path_beq
runs_on = ((λ e. cc), ((λ e. cc), tt))

is_root : member library (other_library ∷ library ∷ []) ≡ true
unfolding member path_beq
is_root = refl

finds : (scan_of library).scanned ≡ ok (song ∷ [])
unfolding path_beq
finds = refl

is_found : member song (song ∷ []) ≡ true
unfolding member path_beq
is_found = refl

unseen : IsUnseen library song (record database { jobs = [] })
unfolding first
unseen = refl

reconciliation_step-queues_example :
    has_queued song
      (reconciliation_step 21600 scan_of
        (other_library ∷ library ∷ [])
        (record database { jobs = [] })).1.jobs
    ≡ true
reconciliation_step-queues_example =
    reconciliation_step-queues 21600 scan_of (other_library ∷ library ∷ []) library song (song ∷ [])
      (record { size = 1000; mtime_ns = 5; sidecar_exists = false }) (record database { jobs = [] })
      runs_on is_root finds is_found refl unseen
