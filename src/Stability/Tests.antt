-- ===== src/Stability/Tests.antt =====
-- Tests of the stability detector.
use versarr.Base.{[], first, refl, some, true, ◌∷◌, ◌≡◌}
use versarr.Domain.{FileStabilityState}
use versarr.Examples.{song}
use versarr.Stability.{Detector, Stat, judge, poll_one}

abbrev probed : FileStabilityState
probed = record {
  candidate_path = song;
  first_seen_at = 0;
  last_seen_at = 0;
  last_size = some 1000;
  last_mtime_ns = some 5;
  successful_probes = 1;
}

abbrev detector : Detector
detector = record { quiet_period = 10; probe_gap = 2; states = probed ∷ []; last_probe_at = [] }

abbrev stat : Stat
stat _ = some (1000, 5)

is_reported : (poll_one 20 stat probed detector).0 ≡ true
unfolding poll_one first judge
is_reported = refl
