-- ===== src/Retry/Bounds.antt =====
-- How often and how late an attempt is repeated.
use native.Mathlib.Nat.{pow-suc}
use versarr.Base.{
  Bool, Bool-cases, arith, false, if◌then◌else◌, inl, inr, is_some, leb, min, none, some, suc, true,
  zero, ℕ, ◌*◌, ◌+◌, ◌-◌, ◌<◌, ◌^◌, ◌↔◌, ◌≡◌, ◌≤◌,
}
use versarr.Domain.{RetryClassification, seconds}
use versarr.Retry.{build_retry, delay_seconds, is_provider_transient, window_for}
use versarr.Settings.{RetrySettings, RetryWindow, validate_window}

-- A factor between 0.9 and 1.1.
abbrev pub IsJitter : (ℕ → ℕ) → Type 0
IsJitter jitter = (d : ℕ) → (9 * d ≤ 10 * jitter d) × (10 * jitter d ≤ 11 * d)

pow-pos : (n : ℕ) → 1 ≤ 2 ^ n
pow-pos zero = omega arith
pow-pos (suc n) = rw (pow-suc 2 n) (omega (arith, pow-pos n))

initial-le :
    (w : RetryWindow) (attempts : ℕ)
    → w.initial_seconds ≤ w.max_seconds
    → w.initial_seconds ≤ delay_seconds w attempts
unfolding delay_seconds
initial-le w attempts h = grind (arith, pow-pos (attempts - 1))

-- A retry is given exactly while fewer attempts were made than the window allows.
pub build_retry_iff :
    (jitter : ℕ → ℕ) (s : RetrySettings) (now attempts : ℕ) (c : RetryClassification)
    → (is_some (build_retry jitter s now attempts c).next_attempt_at ≡ true)
      ↔ (attempts < (window_for s c).max_attempts)
unfolding build_retry
build_retry_iff jitter s now attempts c = ground arith

delay-le : (w : RetryWindow) (attempts : ℕ) → delay_seconds w attempts ≤ w.max_seconds
unfolding delay_seconds
delay-le w attempts = omega arith

window_ordered : (w : RetryWindow) → validate_window w ≡ some w → w.initial_seconds ≤ w.max_seconds
unfolding validate_window
window_ordered w h = ground arith

none-ne-some : (n : ℕ) → none ≡ some n → ⊥
none-ne-some n h = cc

retry_at :
    (jittered now at initial longest d : ℕ) (b : Bool)
    → (9 * seconds d ≤ 10 * jittered) × (10 * jittered ≤ 11 * seconds d)
    → initial ≤ d
    → d ≤ longest
    → some (now + (if b then min jittered (seconds longest) else seconds d)) ≡ some at
    → (at ≤ now + seconds longest)
      × (9 * seconds initial ≤ 10 * (at - now))
      × (b ≡ false → seconds initial ≤ at - now)
retry_at jittered now at initial longest d b j lo hi h = ground arith

-- With a jitter within a tenth and a valid window, a retry is due within the longest delay, and not
-- before nine tenths of the first delay, or before the whole of it for a file error.
pub build_retry_bounds :
    (jitter : ℕ → ℕ) (s : RetrySettings) (now attempts at : ℕ) (c : RetryClassification)
    → IsJitter jitter
    → validate_window (window_for s c) ≡ some (window_for s c)
    → (build_retry jitter s now attempts c).next_attempt_at ≡ some at
    → let w = window_for s c in
      (at ≤ now + seconds w.max_seconds)
      × (9 * seconds w.initial_seconds ≤ 10 * (at - now))
      × (is_provider_transient c ≡ false → seconds w.initial_seconds ≤ at - now)
unfolding build_retry
build_retry_bounds jitter s now attempts at c j v h =
    let w = window_for s c in
    elim (Bool-cases (leb w.max_attempts attempts)) [
      | inl m ↦ absurd (none-ne-some at (rw (m, build_retry) at h))
      | inr m ↦
          retry_at (jitter (seconds (delay_seconds w attempts))) now at w.initial_seconds
            w.max_seconds (delay_seconds w attempts) (is_provider_transient c)
            (j (seconds (delay_seconds w attempts))) (initial-le w attempts (window_ordered w v))
            (delay-le w attempts) (rw (m, build_retry) at h)
    ]
