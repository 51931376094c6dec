-- ===== src/Breaker/Requests.antt =====
-- The calls of `fetch` of src/versarr/application/resilient_provider.py by number, with the requests to
-- the provider that are out.
use mathlib.Core.Option
use versarr.Base.{
  Bool, List, Option, [], count, false, if◌then◌else◌, is_some, not, none, some, true, ℕ, ◌+◌, ◌==◌,
  ◌&&◌, ◌∷◌, nat_eq, path_eq, string_eq,
}
use versarr.Breaker.{Breaker, Config, abort, blocked_for, fresh, record_result}
use versarr.Domain.{ProviderStatus}

-- The requests that are out, each with whether it was let through by an open circuit, as a probe; and
-- how many of the others have ended while the circuit was open.
pub record Requests : Type 0 where
  pub breaker : Breaker
  pub pending : List (ℕ × Bool)
  pub others_ended : ℕ

abbrev pub no_requests : Requests
no_requests = record { breaker = fresh; pending = []; others_ended = 0 }

-- The two parts of a call: up to the request, and from its result or its exception on.
pub data RequestEvent : Type 0 where
  begin : ℕ → ℕ → RequestEvent
  answer : ℕ → ℕ → ProviderStatus → Option ℕ → RequestEvent
  raise : ℕ → RequestEvent

abbrev pub is_probe : ℕ × Bool → Bool
is_probe (r, probe) = probe

abbrev pub bit : Bool → ℕ
bit true = 1
bit false = 0

-- A request of that number, and the others.
unfoldable pub take_out : ℕ → List (ℕ × Bool) → Option (Bool × List (ℕ × Bool))
take_out r [] = none
take_out r ((q, probe) ∷ t) =
    let rest = take_out r t in
    if q == r then some (probe, t) else Option.map (λ (p, l). (p, (q, probe) ∷ l)) rest

abbrev pub admit : ℕ → Requests → Option ℕ × Breaker → Requests
admit r s (some wait, b) = record s { breaker = b }
admit r s (none, b) = record s {
  breaker = b;
  pending = (r, is_some s.breaker.open_until) ∷ s.pending;
}

abbrev pub ended : Requests → Breaker → Option (Bool × List (ℕ × Bool)) → Requests
ended s b none = s
ended s b (some (probe, rest)) = record {
  breaker = b;
  pending = rest;
  others_ended = s.others_ended + bit (not probe && is_some s.breaker.open_until);
}

-- One part of a call. Only a request that is out can end.
unfoldable pub request_event : Config → RequestEvent → Requests → Requests
request_event c (RequestEvent.begin r now) s = admit r s (blocked_for now s.breaker)
request_event c (RequestEvent.answer r now status retry_after) s =
    ended s (record_result c now status retry_after s.breaker) (take_out r s.pending)
request_event c (RequestEvent.raise r) s = ended s (abort s.breaker) (take_out r s.pending)

unfoldable pub request_events : Config → List RequestEvent → Requests → Requests
request_events c [] s = s
request_events c (e ∷ es) s = request_events c es (request_event c e s)

-- The probes that are out.
abbrev pub probes_out : Requests → ℕ
probes_out s = count is_probe s.pending
