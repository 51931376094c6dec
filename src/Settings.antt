-- ===== src/Settings.antt =====
-- The settings models of src/versarr/config/settings.py with their validators; pydantic, which runs
-- the validators, is not modelled. Integers that must be positive are naturals here, so a negative
-- one stands with 0. `validate_…` is none where the validator raises.
pub mod Roots
mod Tests
use versarr.Base.{
  Bool, FilePath, List, Option, String, [], any, false, if◌then◌else◌, leb, ltb, map, member,
  nat_eq, none, not, parent, parents, path_eq, some, string_eq, true, ℕ, ◌==◌, ◌||◌, ◌∷◌,
}

pub record RetryWindow : Type 0 where
  pub initial_seconds : ℕ
  pub max_seconds : ℕ
  pub max_attempts : ℕ

unfoldable pub validate_window : RetryWindow → Option RetryWindow
validate_window w =
    if leb w.initial_seconds 0 || leb w.max_seconds 0
    then none
    else if ltb w.max_seconds w.initial_seconds
    then none
    else if leb w.max_attempts 0
    then none
    else some w

pub record RetrySettings : Type 0 where
  pub file_unstable : RetryWindow
  pub provider_transient : RetryWindow
  pub heartbeat_seconds : ℕ
  pub lease_ttl_seconds : ℕ

unfoldable pub validate_lease : RetrySettings → Option RetrySettings
validate_lease s =
    if leb s.heartbeat_seconds 0
    then none
    else if leb s.lease_ttl_seconds s.heartbeat_seconds
    then none
    else some s

abbrev pub default_retry : RetrySettings
default_retry = record {
  file_unstable = record { initial_seconds = 5; max_seconds = 600; max_attempts = 8 };
  provider_transient = record { initial_seconds = 60; max_seconds = 21600; max_attempts = 5 };
  heartbeat_seconds = 30;
  lease_ttl_seconds = 120;
}

pub record CooldownSettings : Type 0 where
  pub not_found_seconds : ℕ
  pub ambiguous_seconds : ℕ
  pub invalid_content_seconds : ℕ

abbrev pub default_cooldowns : CooldownSettings
default_cooldowns = record {
  not_found_seconds = 604800;
  ambiguous_seconds = 259200;
  invalid_content_seconds = 259200;
}

pub record ScanSettings : Type 0 where
  pub reconciliation_interval_seconds : ℕ
  pub startup_reconciliation : Bool
  pub revisit_after_seconds : ℕ
  pub stability_quiet_period_seconds : ℕ
  pub stability_probe_gap_seconds : ℕ
  pub ignored_temp_patterns : List String

abbrev pub default_scan : ScanSettings
default_scan = record {
  reconciliation_interval_seconds = 900;
  startup_reconciliation = true;
  revisit_after_seconds = 21600;
  stability_quiet_period_seconds = 15;
  stability_probe_gap_seconds = 5;
  ignored_temp_patterns = "*.part" ∷ "*.tmp" ∷ "*.crdownload" ∷ "*.partial" ∷ "*.download" ∷ [];
}

pub record Settings : Type 0 where
  pub library_roots : List FilePath
  pub state_dir : FilePath
  pub sqlite_path : FilePath
  pub worker_concurrency : ℕ
  pub scan : ScanSettings
  pub retry : RetrySettings
  pub cooldowns : CooldownSettings

unfoldable pub validate_worker_concurrency : ℕ → Option ℕ
validate_worker_concurrency n = if leb n 0 then none else some n

unfoldable pub validate_paths : Settings → Option Settings
validate_paths s = if not (parent s.sqlite_path == s.state_dir) then none else some s

-- `root in other.parents`.
abbrev pub is_under : FilePath → FilePath → Bool
is_under root path = member root (parents path)

abbrev resolved_overlap : Option FilePath → Option FilePath → Bool
resolved_overlap none _ = false
resolved_overlap (some r) none = false
resolved_overlap (some r) (some o) = if r == o then false else is_under r o || is_under o r

-- Two roots of which one lies under the other, by their resolved paths; a root that the system
-- cannot resolve is passed over, and so are two that resolve alike.
unfoldable pub overlap : (FilePath → Option FilePath) → FilePath → FilePath → Bool
overlap resolve root other = resolved_overlap (resolve root) (resolve other)

unfoldable pub any_overlap : (FilePath → Option FilePath) → List FilePath → Bool
any_overlap resolve [] = false
any_overlap resolve (root ∷ rest) = any (overlap resolve root) rest || any_overlap resolve rest

unfoldable pub has_duplicates : List FilePath → Bool
has_duplicates [] = false
has_duplicates (root ∷ rest) = member root rest || has_duplicates rest

-- `validate_library_roots`, given what the system says of each path: its expansion, whether it
-- exists, and what it resolves to (none for an OSError).
unfoldable pub validate_library_roots :
    (FilePath → FilePath)
    → (FilePath → Bool)
    → (FilePath → Option FilePath)
    → List FilePath
    → Option (List FilePath)
validate_library_roots expanduser exists resolve [] = none
validate_library_roots expanduser exists resolve (root ∷ rest) =
    let resolved = map expanduser (root ∷ rest) in
    if has_duplicates resolved
    then none
    else if any (λ r. not (exists r)) resolved
    then none
    else if any_overlap resolve resolved
    then none
    else some resolved
