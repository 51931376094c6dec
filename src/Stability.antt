-- ===== src/Stability.antt =====
-- `DebounceStabilityDetector` of src/versarr/infrastructure/filesystem/stability.py. The two dicts are
-- tables by path, in the order of insertion. A comparison `now - t < d` of datetimes is `now < t + d`.
pub mod Quiet
mod Tests
use versarr.Base.{
  Bool, FilePath, List, Option, [], false, first, if◌then◌else◌, insert, is_some, keep, keyed, leb,
  ltb, nat_beq, nat_eq, none, not, path_eq, some, string_eq, true, update, upsert, ℕ, ◌&&◌, ◌+◌,
  ◌∷◌,
}
use versarr.Domain.{FileStabilityState}
use versarr.Jobs.{is_ready}

pub record Detector : Type 0 where
  pub quiet_period : ℕ
  pub probe_gap : ℕ
  pub states : List FileStabilityState
  pub last_probe_at : List (FilePath × ℕ)

abbrev pub at_path : FilePath → FileStabilityState → Bool
at_path = keyed (λ s. s.candidate_path)

abbrev pub probe_of : FilePath → FilePath × ℕ → Bool
probe_of = keyed (λ p. p.0)

-- `dict.pop(path, None)`.
unfoldable pub forget : Detector → FilePath → Detector
forget d path = record d {
  states = keep (λ s. not (at_path path s)) d.states;
  last_probe_at = keep (λ p. not (probe_of path p)) d.last_probe_at;
}

unfoldable pub observe : ℕ → FilePath → Detector → Detector
observe now path d =
    if is_some (first (at_path path) d.states)
    then record d {
      states =
          update (at_path path) (λ s. record s { last_seen_at = now; successful_probes = 0 })
            d.states;
    }
    else record d {
      states =
          insert
            (record {
              candidate_path = path;
              first_seen_at = now;
              last_seen_at = now;
              last_size = none;
              last_mtime_ns = none;
              successful_probes = 0;
            })
            d.states;
    }

-- `path.stat()`: size and mtime, or none for an OSError.
abbrev pub Stat : Type 0
Stat = FilePath → Option (ℕ × ℕ)

abbrev pub same_number : Option ℕ → ℕ → Bool
same_number none n = false
same_number (some m) n = nat_beq m n

abbrev pub probed_too_recently : ℕ → ℕ → Option (FilePath × ℕ) → Bool
probed_too_recently now gap none = false
probed_too_recently now gap (some (path, t)) = ltb now (t + gap)

-- A probe that found the file, with its new state: whether the path is ready.
unfoldable pub judge : ℕ × ℕ → FileStabilityState → Bool × FileStabilityState
judge (size, mtime) s =
    if same_number s.last_size size && same_number s.last_mtime_ns mtime
    then (leb 2 (s.successful_probes + 1), record s { successful_probes = s.successful_probes + 1 })
    else (
      false,
      record s { successful_probes = 1; last_size = some size; last_mtime_ns = some mtime },
    )

abbrev after_judgement : Bool × FileStabilityState → Detector → Bool × Detector
after_judgement (true, s) d = (true, forget d s.candidate_path)
after_judgement (false, s) d =
    (false, record d { states = update (at_path s.candidate_path) (λ _. s) d.states })

abbrev probe : Option (ℕ × ℕ) → FileStabilityState → Detector → Bool × Detector
probe none s d = (false, forget d s.candidate_path)
probe (some seen) s d = after_judgement (judge seen s) d

-- One round of the loop of `poll_ready_paths`.
unfoldable pub poll_one : ℕ → Stat → FileStabilityState → Detector → Bool × Detector
unfolding judge forget
poll_one now stat s d =
    let path = s.candidate_path in
    if ltb now (s.last_seen_at + d.quiet_period)
    then (false, d)
    else if probed_too_recently now d.probe_gap (first (probe_of path) d.last_probe_at)
    then (false, d)
    else probe (stat path) s
        (record d { last_probe_at = upsert (λ p. p.0) (path, now) d.last_probe_at })

-- The loop, over the states as they were when it began.
unfoldable pub poll_all : ℕ → Stat → List FileStabilityState → Detector → List FilePath × Detector
poll_all now stat [] d = ([], d)
poll_all now stat (s ∷ t) d =
    let (is_ready, d') = poll_one now stat s d in
    let (ready, d'') = poll_all now stat t d' in
    (if is_ready then s.candidate_path ∷ ready else ready, d'')

unfoldable pub poll_ready_paths : ℕ → Stat → Detector → List FilePath × Detector
poll_ready_paths now stat d = poll_all now stat d.states d
