-- ===== src/Breaker/Circuit.antt =====
-- When the circuit is open, and for how long.
use native.Mathlib.Nat.{zero-add}
use versarr.Base.{
  Bool-cases, List, Option, [], arith, false, inl, inr, is_some, leb, length, ltb, min, none, refl,
  some, true, ℕ, ◌*◌, ◌+◌, ◌-◌, ◌<◌, ◌^◌, ◌∷◌, ◌≡◌, ◌≢◌, ◌≤◌,
}
use versarr.Domain.{ProviderStatus}
use versarr.Breaker.{
  Breaker, Config, Event, blocked_for, fresh, on_event, on_events, or_zero, record_result, window,
}

-- While the circuit is closed the failures in a row are below the threshold and no trip is counted;
-- an open circuit has tripped.
pub record IsValid (c : Config) (b : Breaker) : Type 0 where
  pub closed_below : b.open_until ≡ none → b.consecutive_failures < c.failure_threshold
  pub closed_untripped : b.open_until ≡ none → b.trips ≡ 0
  pub open_tripped : b.open_until ≢ none → 0 < b.trips
  pub closed_no_probe : b.open_until ≡ none → b.probe_in_flight ≡ false

on_event-IsValid :
    (c : Config) (e : Event) (b : Breaker)
    → 0 < c.failure_threshold
    → IsValid c b
    → IsValid c (on_event c e b)
unfolding on_event
on_event-IsValid c (Event.start now) b t v = ground arith
on_event-IsValid c (Event.finish now status retry_after) b t v = ground arith
on_event-IsValid c Event.abandon b t v = ground arith

-- With a positive threshold, events in any order keep the breaker valid: a closed one has fewer
-- failures than the threshold, no trip and no probe out, an open one has tripped.
pub on_events-IsValid :
    (c : Config) (es : List Event) (b : Breaker)
    → 0 < c.failure_threshold
    → IsValid c b
    → IsValid c (on_events c es b)
unfolding on_events
on_events-IsValid c [] b t v = v
on_events-IsValid c (e ∷ es) b t v =
    on_events-IsValid c es (on_event c e b) t (on_event-IsValid c e b t v)

pub fresh-IsValid : (c : Config) → 0 < c.failure_threshold → IsValid c fresh
fresh-IsValid c t = ground arith

-- Failures at the times of a list, one after the other.
abbrev pub failures_at : List ℕ → List Event
failures_at [] = []
failures_at (t ∷ ts) = Event.finish t ProviderStatus.transient_failure none ∷ failures_at ts

stays_open :
    (c : Config) (ts : List ℕ) (b : Breaker)
    → is_some b.open_until ≡ true
    → is_some (on_events c (failures_at ts) b).open_until ≡ true
unfolding on_events on_event
stays_open c [] b o = o
stays_open c (t ∷ ts) b o =
    stays_open c ts (on_event c (Event.finish t ProviderStatus.transient_failure none) b)
      (ground arith)

failures-open :
    (c : Config) (ts : List ℕ) (b : Breaker)
    → b.open_until ≡ none
    → b.consecutive_failures < c.failure_threshold
    → is_some (on_events c (failures_at ts) b).open_until
      ≡ leb c.failure_threshold (b.consecutive_failures + length ts)
unfolding on_events on_event
failures-open c [] b o h = ground arith
failures-open c (t ∷ ts) b o h =
    let b' = on_event c (Event.finish t ProviderStatus.transient_failure none) b in
    elim (Bool-cases (ltb (b.consecutive_failures + 1) c.failure_threshold)) [
      | inl m ↦ let ih = failures-open c ts b' (ground arith) (ground arith) in ground (arith, ih)
      | inr m ↦ let ih = stays_open c ts b' (ground arith) in ground (arith, ih)
    ]

-- With a positive threshold, a run of transient failures opens a fresh circuit exactly when it is as
-- long as the threshold.
pub failures_open_iff :
    (c : Config) (ts : List ℕ)
    → 0 < c.failure_threshold
    → is_some (on_events c (failures_at ts) fresh).open_until ≡ leb c.failure_threshold (length ts)
failures_open_iff c ts h = rw (zero-add (length ts)) at (failures-open c ts fresh refl h)

-- The window of a trip is at most the cap, and at least the lesser of the cap and what the provider
-- asks, and of the cap and the doubled base window.
pub window_bounds :
    (c : Config) (trips : ℕ) (retry_after : Option ℕ)
    → (window c trips retry_after ≤ c.max_open_window)
      × (min (or_zero retry_after) c.max_open_window ≤ window c trips retry_after)
      × (min (c.open_window * 2 ^ trips) c.max_open_window ≤ window c trips retry_after)
unfolding window
window_bounds c trips retry_after = omega arith

-- A transient failure while the circuit is open counts a trip more, and a call that begins later but
-- within the new window is told to wait to its end and changes nothing.
pub failure_reopens :
    (c : Config) (now later u : ℕ) (retry_after : Option ℕ) (b : Breaker)
    → b.open_until ≡ some u
    → now ≤ later
    → later < now + window c b.trips retry_after
    → let b' = record_result c now ProviderStatus.transient_failure retry_after b in
      (blocked_for later b' ≡ (some (now + window c b.trips retry_after - later), b'))
      × (b'.trips ≡ b.trips + 1)
unfolding record_result blocked_for
failure_reopens c now later u retry_after b o h k = ground arith
