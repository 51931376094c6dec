-- ===== src/Provider/Tests.antt =====
-- Tests of the LRCLIB provider.
use versarr.Base.{Option, [], false, none, refl, some, true, ℕ, ◌∷◌, ◌≡◌}
use versarr.Domain.{ProviderResult, ProviderStatus, make_provider_result, ok}
use versarr.Examples.{identity}
use versarr.Provider.{
  Body, Payload, Request, Response, Text, http_failure, plain_result, result_from_payload,
  score_payload, scored_result,
}
use versarr.Provider.Answers.{IsOffered, IsUnknown, fetch-matched, fetch-not_found}
use versarr.Provider.Fetch.{fetch}
use versarr.Provider.Results.{IsMatch}
use versarr.Provider.Search.{best_of, from_usable, search_result, usable}

abbrev plain_text : Text
plain_text = record { float_of = λ _. none; date_of = λ _. none; normalize_lookup_text = λ t. t }

abbrev offer : Payload
offer = record {
  track_id = some "7";
  track_name = "Song";
  artist_name = "Artist";
  synced_lyrics = some "la";
  plain_lyrics = none;
  duration = some (false, 181);
  digest = "digest";
}

abbrev response : ℕ → Body → Response
response status_code body = record { status_code = status_code; retry_after = none; body = body }

-- The track is not known by its tags, and the search offers two candidates.
abbrev searched_for : Request → Option Response
searched_for (Request.get _ _ _ _) = some (response 404 Body.other)
searched_for (Request.search _ _) = some (
    response 200
      (Body.array (some (record offer { artist_name = "Another" }) ∷ none ∷ some offer ∷ [])))

abbrev unknown_to_all : Request → Option Response
unknown_to_all _ = some (response 404 (Body.array []))

abbrev matched_offer : ProviderResult
matched_offer = scored_result identity offer 100

fetched : fetch plain_text true searched_for 0 identity ≡ ok matched_offer
unfolding fetch search_result http_failure from_usable usable best_of result_from_payload
    score_payload make_provider_result
fetched = refl

missed :
    fetch plain_text false unknown_to_all 0 identity ≡ ok (plain_result ProviderStatus.not_found)
unfolding fetch search_result http_failure make_provider_result
missed = refl

fetch-matched_example :
    (p : Payload) × IsOffered plain_text true searched_for identity p
    × IsMatch plain_text identity p matched_offer
fetch-matched_example =
    fetch-matched plain_text true searched_for identity 0 matched_offer fetched refl

fetch-not_found_example : IsUnknown plain_text false unknown_to_all identity
fetch-not_found_example =
    fetch-not_found plain_text false unknown_to_all identity 0
      (plain_result ProviderStatus.not_found) missed refl
