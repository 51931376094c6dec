-- ===== src/Retry/Tests.antt =====
-- Tests of the retries.
use versarr.Base.{arith, refl, some, ◌+◌, ◌≡◌}
use versarr.Domain.{RetryClassification, seconds}
use versarr.Retry.{build_retry, delay_seconds}
use versarr.Retry.Bounds.{IsJitter}
use versarr.Settings.{default_retry}

exact : IsJitter (λ d. d)
exact d = (omega arith, omega arith)

third :
    (build_retry
      (λ d. d)
      default_retry
      100
      3
      RetryClassification.provider_transient).next_attempt_at
    ≡ some (100 + seconds 240)
unfolding build_retry delay_seconds
third = refl
