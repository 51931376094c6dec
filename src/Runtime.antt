-- ===== src/Runtime.antt =====
-- `VersarrRuntime` of src/versarr/bootstrap.py: what it does with events, ready files, roots and its own
-- writes. The tasks that call these steps again and again are the supervisor's.
pub mod Events
pub mod Steps
pub mod Scans
pub mod Queued
pub mod Roots
mod Tests
use versarr.Base.{
  Bool, FilePath, List, Option, String, [], false, first, if◌then◌else◌, keep, keyed, nat_eq, none,
  not, path_eq, some, string_eq, upsert, ℕ, ◌&&◌, ◌==◌, ◌||◌, ◌∷◌,
}
use versarr.Domain.{Raised, Result, ok, raised}
use versarr.Scanner.{Matching, is_ignored_temp_file, resolve_candidate_media_path, suffix_of}
use versarr.Settings.{is_under}
use versarr.Stability.{Detector, observe}

-- The detector, and the hashes of the sidecars that the runtime wrote itself.
pub record Watching : Type 0 where
  pub stability : Detector
  pub suppression_hashes : List (FilePath × String)

abbrev pub hash_of : FilePath → FilePath × String → Bool
hash_of = keyed (λ h. h.0)

-- `remember_sidecar_hash`.
unfoldable pub remember_sidecar_hash : FilePath → String → Watching → Watching
remember_sidecar_hash path hash w = record w {
  suppression_hashes = upsert (λ h. h.0) (path, hash) w.suppression_hashes;
}

-- What the handler learns of the files: whether a path exists, and the hash of a sidecar, none for an
-- `OSError`.
pub record Files : Type 0 where
  pub exists : FilePath → Bool
  pub normalized_hash : FilePath → Option String

abbrev pub hash_at : Option (FilePath × String) → Option String
hash_at none = none
hash_at (some (path, hash)) = some hash

abbrev pub is_same_hash : Option String → Option String → Bool
is_same_hash (some a) (some b) = b == a
is_same_hash _ _ = false

-- Whether an event of a sidecar is that of the runtime's own write.
unfoldable pub is_own_write : Files → FilePath → Watching → Bool
is_own_write files path w =
    files.exists path
    && is_same_hash (hash_at (first (hash_of path) w.suppression_hashes))
        (files.normalized_hash path)

abbrev pub forget_hash : FilePath → Watching → Watching
forget_hash path w = record w {
  suppression_hashes = keep (λ h. not (hash_of path h)) w.suppression_hashes;
}

abbrev pub observe_media : ℕ → FilePath → Watching → Watching
observe_media now media w = record w { stability = observe now media w.stability }

abbrev pub observe_event : Matching → Files → ℕ → FilePath → Option FilePath → Watching → Watching
observe_event m files now path none w = w
observe_event m files now path (some media) w =
    if m.lower (suffix_of path) == ".lrc" && is_own_write files path w
    then forget_hash path w
    else observe_media now media w

-- `_handle_filesystem_event`.
unfoldable pub handle_filesystem_event :
    Matching → List String → Files → ℕ → FilePath → Watching → Watching
handle_filesystem_event m patterns files now path w =
    if is_ignored_temp_file m path patterns
    then w
    else observe_event m files now path (resolve_candidate_media_path m files.exists path) w

-- The first root that the resolved media path is or lies under; a root that cannot be resolved raises.
unfoldable pub first_root :
    (FilePath → Option FilePath) → FilePath → List FilePath → Result (Option FilePath)
first_root resolve media [] = ok none
first_root resolve media (root ∷ t) =
    let rest = first_root resolve media t in
    elim (resolve root) [
      | none ↦ raised (Raised.os_error "OSError")
      | some r ↦ if media == r || is_under r media then ok (some root) else rest
    ]

-- `_match_root`; `resolve` is `Path.resolve(strict=False)`, none for an `OSError`.
unfoldable pub match_root :
    (FilePath → Option FilePath) → List FilePath → FilePath → Result (Option FilePath)
match_root resolve roots media = elim (resolve media) [
  | none ↦ ok none
  | some path ↦ first_root resolve path roots
]
