-- ===== src/Breaker.antt =====
-- `ResilientProvider` of src/versarr/application/resilient_provider.py: the circuit breaker that all
-- workers share. A worker's call of `fetch` has two parts, before and after it awaits the provider;
-- other workers' parts may come between them. Times of the monotonic clock are in microseconds.
pub mod Circuit
pub mod Requests
pub mod Probe
mod Tests
use versarr.Base.{
  Bool, List, Option, [], false, if◌then◌else◌, is_some, ltb, max, min, none, not, some, true, ℕ,
  ◌&&◌, ◌*◌, ◌+◌, ◌-◌, ◌^◌, ◌∷◌,
}
use versarr.Domain.{ProviderStatus, seconds}

pub record Config : Type 0 where
  pub failure_threshold : ℕ
  pub open_window : ℕ
  pub max_open_window : ℕ

pub record Breaker : Type 0 where
  pub consecutive_failures : ℕ
  pub trips : ℕ
  pub open_until : Option ℕ
  pub probe_in_flight : Bool

abbrev pub fresh : Breaker
fresh = record { consecutive_failures = 0; trips = 0; open_until = none; probe_in_flight = false }

-- `_PROBE_RETRY_SECONDS`.
abbrev pub probe_retry : ℕ
probe_retry = seconds 5

blocked_open : ℕ → ℕ → Breaker → Option ℕ × Breaker
blocked_open now until b =
    if ltb now until
    then (some (until - now), b)
    else if b.probe_in_flight
    then (some probe_retry, b)
    else (none, record b { probe_in_flight = true })

blocked_at : Option ℕ → ℕ → Breaker → Option ℕ × Breaker
unfolding blocked_open
blocked_at none now b = (none, b)
blocked_at (some until) now b = blocked_open now until b

-- `_blocked_for`: how long the caller must wait, or none if a request may go out now.
unfoldable pub blocked_for : ℕ → Breaker → Option ℕ × Breaker
unfolding blocked_at
blocked_for now b = blocked_at b.open_until now b

abbrev pub is_transient : ProviderStatus → Bool
is_transient ProviderStatus.transient_failure = true
is_transient _ = false

-- `result.retry_after_seconds or 0.0`.
abbrev pub or_zero : Option ℕ → ℕ
or_zero none = 0
or_zero (some t) = t

-- The window of a trip.
unfoldable pub window : Config → ℕ → Option ℕ → ℕ
window c trips retry_after =
    min (max (min (c.open_window * 2 ^ trips) c.max_open_window) (or_zero retry_after))
      c.max_open_window

-- `_record`, on a result's status and retry_after.
unfoldable pub record_result : Config → ℕ → ProviderStatus → Option ℕ → Breaker → Breaker
record_result c now status retry_after b =
    if not (is_transient status)
    then fresh
    else let failures = b.consecutive_failures + 1 in
      if not (is_some b.open_until) && ltb failures c.failure_threshold
      then record b { probe_in_flight = false; consecutive_failures = failures }
      else record b {
        probe_in_flight = false;
        consecutive_failures = failures;
        trips = b.trips + 1;
        open_until = some (now + window c b.trips retry_after);
      }

-- The handler of an exception that the provider raised, a cancellation included.
unfoldable pub abort : Breaker → Breaker
abort b = record b { probe_in_flight = false }

-- `fetch` where nothing comes between its parts, given what the provider answers: a result, or none
-- for an exception. A blocked call answers THROTTLED with the time to wait.
pub data Answer : Type 0 where
  throttled : ℕ → Answer
  answered : ProviderStatus → Option ℕ → Answer
  failed : Answer

answer_of : Config → ℕ → Option (ProviderStatus × Option ℕ) → Breaker → Answer × Breaker
answer_of c done none b = (failed, abort b)
answer_of c done (some (status, retry_after)) b =
    (answered status retry_after, record_result c done status retry_after b)

fetch_after :
    Config → ℕ → Option (ProviderStatus × Option ℕ) → Option ℕ × Breaker → Answer × Breaker
unfolding answer_of
fetch_after c done inner (some wait, b) = (throttled wait, b)
fetch_after c done inner (none, b) = answer_of c done inner b

unfoldable pub fetch :
    Config → ℕ → ℕ → Option (ProviderStatus × Option ℕ) → Breaker → Answer × Breaker
unfolding fetch_after
fetch c now done inner b = fetch_after c done inner (blocked_for now b)

-- What the workers do to the breaker, one part of a call at a time.
pub data Event : Type 0 where
  start : ℕ → Event
  finish : ℕ → ProviderStatus → Option ℕ → Event
  abandon : Event

unfoldable pub on_event : Config → Event → Breaker → Breaker
unfolding blocked_for record_result abort
on_event c (start now) b = (blocked_for now b).1
on_event c (finish now status retry_after) b = record_result c now status retry_after b
on_event c abandon b = abort b

unfoldable pub on_events : Config → List Event → Breaker → Breaker
on_events c [] b = b
on_events c (e ∷ es) b = on_events c es (on_event c e b)
