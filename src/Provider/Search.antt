-- ===== src/Provider/Search.antt =====
-- `_search`: the best of the candidates.
use versarr.Base.{
  Bool, List, Option, [], if◌then◌else◌, ltb, nat_beq, none, not, some, ℕ, ◌&&◌, ◌||◌, ◌∷◌,
}
use versarr.Domain.{
  ProviderResult, ProviderStatus, Result, TrackIdentity, has_text, make_provider_result, ok, raised,
}
use versarr.Provider.{
  Body, Payload, Response, Text, http_failure, lyrics_of, match_threshold, plain_result,
  result_from_payload, score_payload,
}

-- The candidates that are objects with lyrics.
unfoldable pub usable : List (Option Payload) → List Payload
usable [] = []
usable (none ∷ t) = usable t
usable (some p ∷ t) = if has_text (lyrics_of p) then p ∷ usable t else usable t

-- The order of the keys `(score, has synced lyrics)`: strictly below.
abbrev pub key_lt : ℕ × Bool → ℕ × Bool → Bool
key_lt (a, s) (b, t) = ltb a b || nat_beq a b && (not s && t)

abbrev pub candidate_key : Text → TrackIdentity → Payload → ℕ × Bool
candidate_key text identity p = (score_payload text identity p, has_text p.synced_lyrics)

-- `max(…, key=…)`, from the best so far: of equals the first.
unfoldable pub best_of : Text → TrackIdentity → Payload → List Payload → Payload
best_of text identity best [] = best
best_of text identity best (p ∷ t) =
    best_of text identity
      (if key_lt (candidate_key text identity best) (candidate_key text identity p)
        then p
        else best)
      t

abbrev pub as_found : Result ProviderResult → Result (Option ProviderResult)
as_found (ok r) = ok (some r)
as_found (raised e) = raised e

unfoldable pub from_usable : Text → TrackIdentity → List Payload → Result (Option ProviderResult)
from_usable text identity [] = ok none
from_usable text identity (p ∷ t) =
    let best = best_of text identity p t in
    if ltb (score_payload text identity best) match_threshold
    then ok none
    else as_found (result_from_payload text identity best)

-- The `candidates` of a response, if they are a list.
abbrev pub from_body : Text → TrackIdentity → Body → Result (Option ProviderResult)
from_body text identity (Body.array candidates) = from_usable text identity (usable candidates)
from_body text identity _ =
    as_found (make_provider_result (plain_result ProviderStatus.transient_failure))

abbrev after_failure :
    Text → TrackIdentity → Body → Option (Result ProviderResult) → Result (Option ProviderResult)
after_failure text identity body (some failure) = as_found failure
after_failure text identity body none = from_body text identity body

-- `_search`, given the answer to its request.
unfoldable pub search_result :
    Text → ℕ → TrackIdentity → Option Response → Result (Option ProviderResult)
search_result text now identity none =
    as_found (make_provider_result (plain_result ProviderStatus.transient_failure))
search_result text now identity (some r) =
    after_failure text identity r.body (http_failure text now r)
