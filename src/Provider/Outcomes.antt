-- ===== src/Provider/Outcomes.antt =====
-- How a fetch ends, and what its results rest on.
use versarr.Base.{
  All, All-imp, Bool-cases, List, Option, [], ap, arith, false, inl, inr, ltb, none, refl, some, ℕ,
  ◌<◌, ◌∷◌, ◌≡◌, ◌≢◌, ◌⊎◌,
}
use versarr.Domain.{ProviderResult, ProviderStatus, Result, TrackIdentity, make_provider_result, ok}
use versarr.Provider.{
  Body, Payload, Response, Text, match_threshold, plain_result, result_from_payload, score_payload,
}
use versarr.Provider.Results.{http_failure_cases, result_from_payload_total}
use versarr.Provider.Score.{Among, IsBest, best_of-IsBest}
use versarr.Provider.Search.{
  as_found, best_of, candidate_key, from_body, from_usable, key_lt, search_result, usable,
}

-- Neither a match nor a miss: the request or its answer failed.
abbrev pub IsFailure : ProviderResult → Type 0
IsFailure r = (r.status ≢ ProviderStatus.matched) × (r.status ≢ ProviderStatus.not_found)

-- No payload of a list has a score that reaches the threshold.
abbrev pub NoneMatch : Text → TrackIdentity → List Payload → Type 0
NoneMatch text i = All (λ q. score_payload text i q < match_threshold)

-- The ends of a search.
pub data SearchEnds (text : Text) (i : TrackIdentity) (answer : Option Response)
    (out : Result (Option ProviderResult)) : Type 0 where
  broken : (r : ProviderResult) → IsFailure r → out ≡ ok (some r) → SearchEnds text i answer out
  best :
      (res : Response) (cs : List (Option Payload)) (p : Payload) (r : ProviderResult)
      → answer ≡ some res
      → res.body ≡ Body.array cs
      → Among p (usable cs)
      → IsBest text i p (usable cs)
      → result_from_payload text i p ≡ ok r
      → out ≡ ok (some r)
      → SearchEnds text i answer out
  nothing :
      (res : Response) (cs : List (Option Payload))
      → answer ≡ some res
      → res.body ≡ Body.array cs
      → NoneMatch text i (usable cs)
      → out ≡ ok none
      → SearchEnds text i answer out

-- What the search makes of the usable candidates.
usable_cases :
    (text : Text) (i : TrackIdentity) (ps : List Payload)
    → NoneMatch text i ps × (from_usable text i ps ≡ ok none)
      ⊎ (p : Payload) × (r : ProviderResult) × Among p ps
        × IsBest text i p ps
        × (result_from_payload text i p ≡ ok r)
        × (from_usable text i ps ≡ ok (some r))
unfolding from_usable
usable_cases text i [] = inl (tt, refl)
usable_cases text i (p ∷ t) =
    let top = best_of text i p t in
    let (among, is_best) = best_of-IsBest text i p t in
    elim (Bool-cases (ltb (score_payload text i top) match_threshold)) [
      | inl low ↦ inl (
        All-imp (λ q. key_lt (candidate_key text i top) (candidate_key text i q) ≡ false)
            (λ q. score_payload text i q < match_threshold) (λ q h. ground arith) (p ∷ t) is_best,
        rw low refl,
      )
      | inr high ↦
          let (r, e) = result_from_payload_total text i top in
          inr (top, r, among, is_best, e, rw (high, e) refl)
    ]

abbrev pub failure_result : ProviderResult
failure_result = plain_result ProviderStatus.transient_failure

pub failure-ok : make_provider_result failure_result ≡ ok failure_result
unfolding make_provider_result
failure-ok = refl

pub failure_result-IsFailure : IsFailure failure_result
failure_result-IsFailure = ((λ e. cc), (λ e. cc))

body-SearchEnds :
    (text : Text) (i : TrackIdentity) (answer : Option Response) (res : Response) (body : Body)
    → answer ≡ some res
    → res.body ≡ body
    → SearchEnds text i answer (from_body text i body)
body-SearchEnds text i answer res (Body.array cs) a b = elim (usable_cases text i (usable cs)) [
  | inl (none_match, e) ↦ nothing res cs a b none_match e
  | inr (p, r, among, is_best, e, found) ↦ best res cs p r a b among is_best e found
]
body-SearchEnds text i answer res (Body.object p) a b =
    broken failure_result failure_result-IsFailure (ap as_found failure-ok)
body-SearchEnds text i answer res Body.malformed a b =
    broken failure_result failure_result-IsFailure (ap as_found failure-ok)
body-SearchEnds text i answer res Body.other a b =
    broken failure_result failure_result-IsFailure (ap as_found failure-ok)

-- Every search ends in one of the three ways.
pub search_result-SearchEnds :
    (text : Text) (now : ℕ) (i : TrackIdentity) (answer : Option Response)
    → SearchEnds text i answer (search_result text now i answer)
unfolding search_result
search_result-SearchEnds text now i none =
    broken failure_result failure_result-IsFailure (ap as_found failure-ok)
search_result-SearchEnds text now i (some res) = elim (http_failure_cases text now res) [
  | inl e ↦ rw e (body-SearchEnds text i (some res) res res.body refl refl)
  | inr (r, e, not_match, not_miss) ↦ rw e (broken r (not_match, not_miss) refl)
]
