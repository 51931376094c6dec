-- ===== src/Breaker/Tests.antt =====
-- Tests of the circuit breaker.
use versarr.Base.{
  List, [], arith, false, nat_eq, none, path_eq, refl, some, string_eq, true, ◌+◌, ◌∷◌, ◌≡◌, ◌≤◌,
}
use versarr.Breaker.{
  Breaker, Config, abort, blocked_for, fresh, on_event, on_events, record_result, window,
}
use versarr.Breaker.Circuit.{IsValid, failures_at, fresh-IsValid, on_events-IsValid}
use versarr.Breaker.Probe.{probes_out-bound}
use versarr.Breaker.Requests.{
  RequestEvent, no_requests, request_event, request_events, probes_out, take_out,
}
use versarr.Domain.{ProviderStatus}

abbrev config : Config
config = record { failure_threshold = 2; open_window = 100; max_open_window = 250 }

abbrev opened : Breaker
opened = record {
  consecutive_failures = 2;
  trips = 1;
  open_until = some 105;
  probe_in_flight = false;
}

two_failures_open : on_events config (failures_at (4 ∷ 5 ∷ [])) fresh ≡ opened
unfolding on_events on_event record_result window
two_failures_open = refl

on_events-IsValid_example : IsValid config (on_events config (failures_at (4 ∷ 5 ∷ [])) fresh)
on_events-IsValid_example =
    on_events-IsValid config (failures_at (4 ∷ 5 ∷ [])) fresh (omega arith)
      (fresh-IsValid config (omega arith))

window_two : window config 1 (some 30) ≡ 200
unfolding window
window_two = refl

-- Request 0 fails beside the first probe, which a second one joins.
abbrev beside : List RequestEvent
beside =
    RequestEvent.begin 0 0
    ∷ RequestEvent.begin 1 1
    ∷ RequestEvent.begin 2 1
    ∷ RequestEvent.answer 1 4 ProviderStatus.transient_failure none
    ∷ RequestEvent.answer 2 5 ProviderStatus.transient_failure none
    ∷ RequestEvent.begin 3 110
    ∷ RequestEvent.begin 4 111
    ∷ RequestEvent.raise 0
    ∷ RequestEvent.begin 5 112
    ∷ []

beside_pending : (request_events config beside no_requests).pending ≡ (5, true) ∷ (3, true) ∷ []
unfolding request_events request_event take_out record_result window blocked_for abort
beside_pending = refl

probes_out-bound_example :
    let s = request_events config beside no_requests in
    (probes_out s ≤ s.others_ended + 1)
    × (fs : List RequestEvent) × (let r = request_events config fs no_requests in
        (probes_out r ≡ 2) × (r.others_ended ≡ 1))
probes_out-bound_example = probes_out-bound config beside (omega arith)
