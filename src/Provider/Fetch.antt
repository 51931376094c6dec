-- ===== src/Provider/Fetch.antt =====
-- `fetch`: the request by all that is known of a track, and the search where that finds nothing.
use versarr.Base.{Bool, Option, if◌then◌else◌, nat_beq, none, some, ℕ}
use versarr.Domain.{
  ProviderResult, ProviderStatus, Result, TrackIdentity, make_provider_result, ok, raised,
}
use versarr.Provider.{
  Body, Payload, Request, Response, Text, http_failure, json_object, plain_result,
  result_from_payload,
}
use versarr.Provider.Search.{search_result}

abbrev pub or_not_found : Result (Option ProviderResult) → Result ProviderResult
or_not_found (raised e) = raised e
or_not_found (ok (some r)) = ok r
or_not_found (ok none) = make_provider_result (plain_result ProviderStatus.not_found)

abbrev pub from_object : Text → TrackIdentity → Option Payload → Result ProviderResult
from_object text identity none =
    make_provider_result (plain_result ProviderStatus.transient_failure)
from_object text identity (some p) = result_from_payload text identity p

abbrev pub failure_or_object :
    Text → TrackIdentity → Body → Option (Result ProviderResult) → Result ProviderResult
failure_or_object text identity body (some failure) = failure
failure_or_object text identity body none = from_object text identity (json_object body)

abbrev pub from_response :
    Text → Bool → ℕ → TrackIdentity → Option Response → Response → Result ProviderResult
from_response text fallback now identity searched r =
    if nat_beq r.status_code 404
    then if fallback
      then or_not_found (search_result text now identity searched)
      else make_provider_result (plain_result ProviderStatus.not_found)
    else failure_or_object text identity r.body (http_failure text now r)

abbrev pub from_answer :
    Text → Bool → ℕ → TrackIdentity → Option Response → Option Response → Result ProviderResult
from_answer text fallback now identity searched none =
    make_provider_result (plain_result ProviderStatus.transient_failure)
from_answer text fallback now identity searched (some r) =
    from_response text fallback now identity searched r

-- `fetch`; `answer` is what the client answers to a request, and `fallback` the setting
-- `search_fallback`.
unfoldable pub fetch :
    Text → Bool → (Request → Option Response) → ℕ → TrackIdentity → Result ProviderResult
fetch text fallback answer now i =
    from_answer text fallback now i (answer (Request.search i.title i.artist))
      (answer (Request.get i.title i.artist i.album i.duration_seconds))
