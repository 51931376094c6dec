-- ===== src/Metrics.antt =====
-- The gauges that `_metrics_step` of src/versarr/bootstrap.py sets, and `get_queue_depths` of
-- src/versarr/infrastructure/persistence/repository.py.
pub mod Depths
mod Tests
use versarr.Base.{
  Bool, List, String, [], if◌then◌else◌, nat_eq, path_eq, string_eq, suc, ℕ, ◌&&◌, ◌==◌, ◌∷◌,
}
use versarr.Domain.{priority_text, state_text}
use versarr.Provenance.{count_active_cooldowns}
use versarr.Requests.{count_pending_control_requests}
use versarr.Schema.{Database, JobRow}

-- One entry of the counts: a state, a priority and how many jobs have them.
pub record QueueDepth : Type 0 where
  pub state : String
  pub priority : String
  pub depth : ℕ

abbrev pub is_depth_of : String → String → QueueDepth → Bool
is_depth_of state priority q = q.state == state && q.priority == priority

-- `counts[key] = counts.get(key, 0) + 1`: the dict keeps its order.
unfoldable pub count_group : String → String → List QueueDepth → List QueueDepth
count_group state priority [] = record { state = state; priority = priority; depth = 1 } ∷ []
count_group state priority (q ∷ t) =
    if is_depth_of state priority q
    then record q { depth = suc q.depth } ∷ t
    else q ∷ count_group state priority t

unfoldable pub count_groups : List JobRow → List QueueDepth → List QueueDepth
count_groups [] counts = counts
count_groups (r ∷ t) counts =
    count_groups t (count_group (state_text r.state) (priority_text r.priority) counts)

unfoldable pub get_queue_depths : List JobRow → List QueueDepth
get_queue_depths jobs = count_groups jobs []

-- The gauges; `queue_depth` is given by its two labels.
pub record Gauges : Type 0 where
  pub queue_depth : String → String → ℕ
  pub control_requests_pending : ℕ
  pub cooldowns_active : ℕ
  pub readiness : Bool

abbrev pub set_depth : QueueDepth → (String → String → ℕ) → String → String → ℕ
set_depth q depths state priority =
    if is_depth_of state priority q then q.depth else depths state priority

-- The loop over the depths.
unfoldable pub set_depths : List QueueDepth → (String → String → ℕ) → String → String → ℕ
set_depths [] depths = depths
set_depths (q ∷ t) depths = set_depths t (set_depth q depths)

-- `_metrics_step`, without the sleep at its end.
unfoldable pub metrics_step : ℕ → Bool → Database → Gauges → Gauges
metrics_step now ready d g = record {
  queue_depth = set_depths (get_queue_depths d.jobs) g.queue_depth;
  control_requests_pending = count_pending_control_requests d.control_requests;
  cooldowns_active = count_active_cooldowns now d.cooldowns;
  readiness = ready;
}
