-- ===== src/Retry.antt =====
-- `_build_retry` of src/versarr/application/services.py: when a failed attempt is tried again.
pub mod Bounds
mod Tests
use versarr.Base.{Bool, false, if◌then◌else◌, leb, min, none, some, true, ℕ, ◌*◌, ◌+◌, ◌-◌, ◌^◌}
use versarr.Domain.{RetryClassification, RetryDecision, seconds}
use versarr.Settings.{RetrySettings, RetryWindow}

abbrev pub is_provider_transient : RetryClassification → Bool
is_provider_transient RetryClassification.provider_transient = true
is_provider_transient _ = false

abbrev pub window_for : RetrySettings → RetryClassification → RetryWindow
window_for s c = if is_provider_transient c then s.provider_transient else s.file_unstable

-- `initial_seconds * 2 ** max(attempt_count - 1, 0)`, at most max_seconds; `-` stops at 0.
unfoldable pub delay_seconds : RetryWindow → ℕ → ℕ
delay_seconds w attempts = min (w.initial_seconds * 2 ^ (attempts - 1)) w.max_seconds

-- `jitter` is the product with `random.uniform(0.9, 1.1)`, in microseconds.
unfoldable pub build_retry : (ℕ → ℕ) → RetrySettings → ℕ → ℕ → RetryClassification → RetryDecision
build_retry jitter s now attempts c =
    let w = window_for s c in
    if leb w.max_attempts attempts
    then record {
      classification = RetryClassification.unclassified;
      next_attempt_at = none;
      max_attempts_reached = true;
    }
    else let d = seconds (delay_seconds w attempts) in
      record {
        classification = c;
        next_attempt_at =
            some (
              now
              + (if is_provider_transient c then min (jitter d) (seconds w.max_seconds) else d));
        max_attempts_reached = false;
      }
