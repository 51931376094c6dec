-- ===== src/Metrics/Tests.antt =====
-- Tests of the gauges.
use versarr.Base.{count, false, if◌then◌else◌, ltb, true, ◌≡◌}
use versarr.Examples.{database}
use versarr.Metrics.{Gauges, metrics_step}
use versarr.Metrics.Depths.{is_group, metrics_step-queue_depth}

abbrev gauges : Gauges
gauges = record {
  queue_depth = λ _ _. 7;
  control_requests_pending = 0;
  cooldowns_active = 0;
  readiness = false;
}

-- The gauge of a group with no job left keeps its 7.
metrics_step-queue_depth_example :
    let n = count (is_group "pending" "watcher") database.jobs in
    (metrics_step 30 true database gauges).queue_depth "pending" "watcher"
    ≡ (if ltb 0 n then n else 7)
metrics_step-queue_depth_example =
    metrics_step-queue_depth 30 true database gauges "pending" "watcher"
