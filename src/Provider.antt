-- ===== src/Provider.antt =====
-- `LrclibProvider` of src/versarr/infrastructure/provider/lrclib.py. The HTTP client is outside: what it
-- answers to a request is given, none for an `httpx.HTTPError`. A JSON object is the fields that the code
-- reads of it; the seconds of a header are in microseconds. Weights and scores are in hundredths.
pub mod Score
pub mod Search
pub mod Fetch
pub mod Results
pub mod Outcomes
pub mod Answers
mod Tests
use versarr.Base.{
  Bool, List, Option, String, false, first, if◌then◌else◌, leb, ltb, min, nat_beq, nat_eq, none,
  not, path_eq, some, string_eq, true, ℕ, ◌&&◌, ◌+◌, ◌-◌, ◌==◌, ◌||◌,
}
use versarr.Domain.{
  ProviderResult, ProviderStatus, Result, TrackIdentity, has_text, make_provider_result,
}

-- A JSON object. `digest` is the SHA-256 of its sorted items, `track_id` is `str(id)`, and `duration` is
-- there only where the value is an integer: whether it is below 0, and its size.
pub record Payload : Type 0 where
  pub track_id : Option String
  pub track_name : String
  pub artist_name : String
  pub synced_lyrics : Option String
  pub plain_lyrics : Option String
  pub duration : Option (Bool × ℕ)
  pub digest : String

-- `response.json()`: text that is no JSON, an object, a list (none for an item that is no object), or
-- another value.
pub data Body : Type 0 where
  malformed other : Body
  object : Payload → Body
  array : List (Option Payload) → Body

pub record Response : Type 0 where
  pub status_code : ℕ
  pub retry_after : Option String
  pub body : Body

-- The two requests, with their parameters.
pub data Request : Type 0 where
  get : String → String → Option String → Option ℕ → Request
  search : String → String → Request

-- A date with a zone is an instant; one without is read in UTC.
pub data ParsedDate : Type 0 where
  aware naive : ℕ → ParsedDate

-- `float(text)`, a finite number, as its size and whether it is below 0; `parsedate_to_datetime`; and
-- `normalize_lookup_text` of src/versarr/domain. None stands for an exception.
pub record Text : Type 0 where
  pub float_of : String → Option (Bool × ℕ)
  pub date_of : String → Option ParsedDate
  pub normalize_lookup_text : String → String

abbrev pub instant : ParsedDate → ℕ
instant (ParsedDate.aware t) = t
instant (ParsedDate.naive t) = t

-- `max(value, 0.0)`.
abbrev at_least_zero : Bool × ℕ → ℕ
at_least_zero (is_negative, size) = if is_negative then 0 else size

-- `max((when - now).total_seconds(), 0.0)`: `-` stops at 0.
abbrev until_date : ℕ → Option ParsedDate → Option ℕ
until_date now none = none
until_date now (some d) = some (instant d - now)

abbrev float_or_date : ℕ → Option (Bool × ℕ) → Option ParsedDate → Option ℕ
float_or_date now (some f) d = some (at_least_zero f)
float_or_date now none d = until_date now d

-- `_parse_retry_after`.
unfoldable pub parse_retry_after : Text → ℕ → Option String → Option ℕ
parse_retry_after text now none = none
parse_retry_after text now (some value) =
    if value == "" then none else float_or_date now (text.float_of value) (text.date_of value)

-- `_json_object`.
abbrev pub json_object : Body → Option Payload
json_object (Body.object p) = some p
json_object _ = none

-- `first or second` of two optional texts: an empty one counts as none.
abbrev pub or_text : Option String → Option String → Option String
or_text first second = if has_text first then first else second

abbrev pub lyrics_of : Payload → Option String
lyrics_of p = or_text p.synced_lyrics p.plain_lyrics

-- `_MATCH_THRESHOLD`.
abbrev pub match_threshold : ℕ
match_threshold = 80

-- `abs(a - b) <= 2`, of a size, and of a JSON integer.
abbrev pub is_close : ℕ → ℕ → Bool
is_close a b = leb a (b + 2) && leb b (a + 2)

abbrev pub is_close_to : ℕ → Bool × ℕ → Bool
is_close_to a (is_negative, size) = if is_negative then leb (size + a) 2 else is_close size a

abbrev pub durations_match : Option ℕ → Option (Bool × ℕ) → Bool
durations_match (some a) (some b) = is_close_to a b
durations_match _ _ = false

abbrev pub points : Bool → ℕ → ℕ
points true n = n
points false n = 0

-- `_score_payload`.
unfoldable pub score_payload : Text → TrackIdentity → Payload → ℕ
score_payload text identity p =
    let n = text.normalize_lookup_text in
    min
      (points (n p.track_name == n identity.title) 45
        + points (n p.artist_name == n identity.artist) 45
        + points (durations_match identity.duration_seconds p.duration) 10)
      100

-- `_finish`, with the defaults for the fields that most callers leave out.
abbrev pub plain_result : ProviderStatus → ProviderResult
plain_result status = record {
  status = status;
  provider_name = "lrclib";
  lyrics_text = none;
  synced = false;
  provider_track_id = none;
  confidence = 0;
  matched_identity = none;
  raw_metadata_digest = none;
  retry_after = none;
}

-- `_http_failure`.
unfoldable pub http_failure : Text → ℕ → Response → Option (Result ProviderResult)
http_failure text now r =
    if leb 500 r.status_code || nat_beq r.status_code 429
    then some (
        make_provider_result (record (plain_result ProviderStatus.transient_failure) {
          retry_after = parse_retry_after text now r.retry_after;
        }))
    else if leb 400 r.status_code && ltb r.status_code 500 && not (nat_beq r.status_code 404)
    then some (make_provider_result (plain_result ProviderStatus.rejected))
    else none

-- `status`, `confidence` and `matched_identity` of a payload with lyrics.
abbrev pub scored_result : TrackIdentity → Payload → ℕ → ProviderResult
scored_result identity p confidence =
    let is_match = leb match_threshold confidence in
    record {
      status = (if is_match then ProviderStatus.matched else ProviderStatus.ambiguous);
      provider_name = "lrclib";
      lyrics_text = lyrics_of p;
      synced = has_text p.synced_lyrics;
      provider_track_id = p.track_id;
      confidence = confidence;
      matched_identity = (if is_match then some identity else none);
      raw_metadata_digest = some p.digest;
      retry_after = none;
    }

-- `_result_from_payload`.
unfoldable pub result_from_payload : Text → TrackIdentity → Payload → Result ProviderResult
result_from_payload text identity p =
    if not (has_text (lyrics_of p))
    then make_provider_result (record (plain_result ProviderStatus.invalid_content) {
      provider_track_id = p.track_id;
      raw_metadata_digest = some p.digest;
    })
    else make_provider_result (scored_result identity p (score_payload text identity p))
