-- ===== src/Breaker/Probe.antt =====
-- How many probes are out at once.
use versarr.Base.{
  Bool, Bool-cases, List, Option, Option-cases, [], arith, count, false, inl, inr, ltb, none, refl,
  some, suc, true, zero, ℕ, ◌+◌, ◌-◌, ◌<◌, ◌==◌, ◌∷◌, ◌≡◌, ◌≤◌, nat_eq, path_eq, string_eq,
}
use versarr.Breaker.{Breaker, Config, abort, blocked_for, record_result, window}
use versarr.Breaker.Requests.{
  RequestEvent, Requests, admit, bit, ended, is_probe, no_requests, request_event, request_events,
  probes_out, take_out,
}
use versarr.Domain.{ProviderStatus}

-- Each other request that ended may have let one probe more out beside the one that is marked, and
-- none is marked while the circuit is closed.
abbrev IsBounded : Requests → Type 0
IsBounded s =
    (probes_out s ≤ s.others_ended + bit s.breaker.probe_in_flight)
    × (s.breaker.open_until ≡ none → s.breaker.probe_in_flight ≡ false)

bit-le : (b : Bool) → bit b ≤ 1
bit-le true = omega arith
bit-le false = omega arith

take_out-probes :
    (r : ℕ) (l rest : List (ℕ × Bool)) (probe : Bool)
    → take_out r l ≡ some (probe, rest)
    → count is_probe l ≡ count is_probe rest + bit probe
unfolding take_out count
take_out-probes r [] rest probe e = absurd (ground arith)
take_out-probes r ((q, p) ∷ t) rest probe e = elim (Bool-cases (q == r)) [
  | inl m ↦ ground (arith, rw m at e)
  | inr m ↦ elim (Option-cases (take_out r t)) [
    | inl n ↦ absurd (ground (arith, rw (m, n) at e))
    | inr ((p', l), n) ↦ let ih = take_out-probes r t l p' n in ground (arith, ih, rw (m, n) at e)
  ]
]

ended-IsBounded :
    (s : Requests) (b : Breaker) (o : Option (Bool × List (ℕ × Bool)))
    → b.probe_in_flight ≡ false
    → ((rest : List (ℕ × Bool)) (p : Bool)
        → o ≡ some (p, rest)
        → probes_out s ≡ count is_probe rest + bit p)
    → IsBounded s
    → IsBounded (ended s b o)
ended-IsBounded s b none free left h = h
ended-IsBounded s b (some (true, rest)) free left (h, k) =
    let l = left rest true refl in
    let small = bit-le s.breaker.probe_in_flight in (rw free (omega arith), λ _. free)
ended-IsBounded s b (some (false, rest)) free left (h, k) =
    let l = left rest false refl in
    let small = bit-le s.breaker.probe_in_flight in
    elim (Option-cases s.breaker.open_until) [
      | inl closed ↦ (rw (free, closed) (omega (arith, rw (k closed) at h)), λ _. free)
      | inr (until, opens) ↦ (rw (free, opens) (omega arith), λ _. free)
    ]

record_result-free :
    (c : Config) (now : ℕ) (status : ProviderStatus) (retry_after : Option ℕ) (b : Breaker)
    → (record_result c now status retry_after b).probe_in_flight ≡ false
unfolding record_result
record_result-free c now status retry_after b = ground arith

begin-IsBounded :
    (r now : ℕ) (s : Requests) → IsBounded s → IsBounded (admit r s (blocked_for now s.breaker))
unfolding blocked_for count
begin-IsBounded r now s h = ground arith

request_event-IsBounded :
    (c : Config) (e : RequestEvent) (s : Requests) → IsBounded s → IsBounded (request_event c e s)
unfolding request_event abort
request_event-IsBounded c (RequestEvent.begin r now) s h = begin-IsBounded r now s h
request_event-IsBounded c (RequestEvent.answer r now status retry_after) s h =
    ended-IsBounded s (record_result c now status retry_after s.breaker) (take_out r s.pending)
      (record_result-free c now status retry_after s.breaker) (take_out-probes r s.pending) h
request_event-IsBounded c (RequestEvent.raise r) s h =
    ended-IsBounded s (abort s.breaker) (take_out r s.pending) refl (take_out-probes r s.pending) h

request_events-IsBounded :
    (c : Config) (es : List RequestEvent) (s : Requests)
    → IsBounded s
    → IsBounded (request_events c es s)
unfolding request_events
request_events-IsBounded c [] s h = h
request_events-IsBounded c (e ∷ es) s h =
    request_events-IsBounded c es (request_event c e s) (request_event-IsBounded c e s h)

-- `fetch` with a request 1 that ends at once in a transient failure, some times over.
abbrev failures : ℕ → List RequestEvent → List RequestEvent
failures zero rest = rest
failures (suc n) rest =
    RequestEvent.begin 1 0
    ∷ RequestEvent.answer 1 0 ProviderStatus.transient_failure none
    ∷ failures n rest

-- Two calls when a window is over, and between them the exception of request 0.
abbrev after_window : ℕ → List RequestEvent
after_window t = RequestEvent.begin 2 t ∷ RequestEvent.raise 0 ∷ RequestEvent.begin 3 t ∷ []

-- Request 0 is out, and some failures have come since.
abbrev failing : ℕ → ℕ → Requests
failing k others = record {
  breaker = record {
    consecutive_failures = k;
    trips = 0;
    open_until = none;
    probe_in_flight = false;
  };
  pending = (0, false) ∷ [];
  others_ended = others;
}

abbrev opened : ℕ → ℕ → ℕ → Requests
opened k until others = record {
  breaker = record {
    consecutive_failures = k;
    trips = 1;
    open_until = some until;
    probe_in_flight = false;
  };
  pending = (0, false) ∷ [];
  others_ended = others;
}

-- An open circuit whose window is over lets a probe through.
let_through :
    (until : ℕ) (b : Breaker)
    → b.open_until ≡ some until
    → b.probe_in_flight ≡ false
    → blocked_for until b ≡ (none, record b { probe_in_flight = true })
unfolding blocked_for
let_through until b o p = ground arith

-- Two probes are out, and that many other requests have ended while the circuit was open.
abbrev HasTwo : ℕ → Requests → Type 0
HasTwo n s = (probes_out s ≡ 2) × (s.others_ended ≡ n)

opened-two :
    (c : Config) (k until others : ℕ)
    → HasTwo (others + 1) (request_events c (after_window until) (opened k until others))
unfolding request_events request_event take_out abort count
opened-two c k until others =
    let passes = let_through until (opened k until others).breaker refl refl in
    rw (passes, passes) ((refl, refl))

add_none : (n : ℕ) → n + 0 ≡ n
add_none n = omega arith

-- The failure that reaches the threshold opens the circuit, and the ones before do not.
failures-two :
    (c : Config) (n k others : ℕ)
    → k + suc n ≡ c.failure_threshold
    → HasTwo (others + 1) (
        request_events c (failures (suc n) (after_window (0 + window c 0 none))) (failing k others))
unfolding request_events request_event record_result blocked_for take_out
failures-two c zero k others h =
    let reached : ltb (k + 1) c.failure_threshold ≡ false = ground arith in
    rw (reached, add_none others) (opened-two c (k + 1) (0 + window c 0 none) others)
failures-two c (suc n) k others h =
    let below : ltb (k + 1) c.failure_threshold ≡ true = ground arith in
    rw (request_events, below, add_none others) (failures-two c n (k + 1) others (omega arith))

-- With a positive threshold, after any calls of a new breaker, whose requests end in any order, the
-- probes that are out at once are at most one more than the requests let through by a closed circuit
-- that ended while it was open; and some calls leave two probes out at once, after one such end.
pub probes_out-bound :
    (c : Config) (es : List RequestEvent)
    → 0 < c.failure_threshold
    → let s = request_events c es no_requests in
      (probes_out s ≤ s.others_ended + 1)
      × (fs : List RequestEvent) × (let r = request_events c fs no_requests in
          (probes_out r ≡ 2) × (r.others_ended ≡ 1))
unfolding request_events request_event blocked_for count
probes_out-bound c es h =
    let (b, _) = request_events-IsBounded c es no_requests ((omega arith, λ _. refl)) in
    let small = bit-le (request_events c es no_requests).breaker.probe_in_flight in
    (
      omega arith,
      RequestEvent.begin 0 0
          ∷ failures (suc (c.failure_threshold - 1)) (after_window (0 + window c 0 none)),
      failures-two c (c.failure_threshold - 1) 0 0 (omega arith),
    )
