-- ===== src/Provider/Answers.antt =====
-- What the answer of a fetch rests on.
use versarr.Base.{
  Bool, Bool-cases, List, Option, ap, arith, false, inl, inr, nat_beq, none, refl, some, subst, sym,
  ℕ, ◌∙◌, ◌≡◌, ◌⊎◌,
}
use versarr.Domain.{ProviderResult, ProviderStatus, Result, TrackIdentity, make_provider_result, ok}
use versarr.Provider.{
  Body, Payload, Request, Response, Text, json_object, plain_result, result_from_payload,
}
use versarr.Provider.Fetch.{fetch, from_answer, from_object, from_response, or_not_found}
use versarr.Provider.Outcomes.{
  IsFailure, NoneMatch, SearchEnds, failure_result-IsFailure, failure-ok, failure_result,
  search_result-SearchEnds,
}
use versarr.Provider.Results.{
  IsMatch, http_failure_cases, ok-injective, result_from_payload-IsMatch, result_from_payload-known,
  result_from_payload_total,
}
use versarr.Provider.Score.{Among, IsBest}
use versarr.Provider.Search.{search_result, usable}

abbrev pub get_request : TrackIdentity → Request
get_request i = Request.get i.title i.artist i.album i.duration_seconds

abbrev pub search_request : TrackIdentity → Request
search_request i = Request.search i.title i.artist

module _ (text : Text) (fallback : Bool) (answer : Request → Option Response)
    (i : TrackIdentity) where
  -- A payload that the first request brought, or the best candidate of the search.
  abbrev pub IsOffered : Payload → Type 0
  IsOffered p =
      ((res : Response) × (answer (get_request i) ≡ some res) × (res.body ≡ Body.object p))
      ⊎ (res : Response) × (cs : List (Option Payload)) × (answer (search_request i) ≡ some res)
        × (res.body ≡ Body.array cs)
        × Among p (usable cs)
        × IsBest text i p (usable cs)

  -- The first request was answered with 404 and, where there is a search, that one brought a list in
  -- which no candidate with lyrics reaches the threshold.
  abbrev pub IsUnknown : Type 0
  IsUnknown =
      (res : Response) × (answer (get_request i) ≡ some res)
      × (res.status_code ≡ 404)
      × ((fallback ≡ false)
          ⊎ (found : Response) × (cs : List (Option Payload)) × (answer (search_request i)
              ≡ some found)
            × (found.body ≡ Body.array cs)
            × NoneMatch text i (usable cs))

  -- The ends of a fetch.
  data FetchEnds (out : Result ProviderResult) : Type 0 where
    broken : (r : ProviderResult) → IsFailure r → out ≡ ok r → FetchEnds out
    offered :
        (p : Payload) (r : ProviderResult)
        → IsOffered p
        → result_from_payload text i p ≡ ok r
        → out ≡ ok r
        → FetchEnds out
    unknown : IsUnknown → out ≡ ok (plain_result ProviderStatus.not_found) → FetchEnds out

  miss-ok :
      make_provider_result (plain_result ProviderStatus.not_found)
      ≡ ok (plain_result ProviderStatus.not_found)
  unfolding make_provider_result
  miss-ok = refl

  searched :
      (res : Response) (out : Result (Option ProviderResult))
      → answer (get_request i) ≡ some res
      → res.status_code ≡ 404
      → SearchEnds text i (answer (search_request i)) out
      → FetchEnds (or_not_found out)
  searched res out a c (SearchEnds.broken r f e) = rw e (broken r f refl)
  searched res out a c (SearchEnds.best res' cs p r a' b among is_best made e) =
      rw e (offered p r (inr (res', cs, a', b, among, is_best)) made refl)
  searched res out a c (SearchEnds.nothing res' cs a' b none_match e) =
      rw e (unknown (res, a, c, inr (res', cs, a', b, none_match)) miss-ok)

  object-FetchEnds :
      (res : Response) (body : Body)
      → answer (get_request i) ≡ some res
      → res.body ≡ body
      → FetchEnds (from_object text i (json_object body))
  object-FetchEnds res (Body.object p) a b =
      let (r, e) = result_from_payload_total text i p in rw e (offered p r (inl (res, a, b)) e refl)
  object-FetchEnds res (Body.array cs) a b =
      broken failure_result failure_result-IsFailure failure-ok
  object-FetchEnds res Body.malformed a b =
      broken failure_result failure_result-IsFailure failure-ok
  object-FetchEnds res Body.other a b = broken failure_result failure_result-IsFailure failure-ok

  answer-FetchEnds :
      (now : ℕ) (got : Option Response)
      → answer (get_request i) ≡ got
      → FetchEnds (from_answer text fallback now i (answer (search_request i)) got)
  answer-FetchEnds now none a = broken failure_result failure_result-IsFailure failure-ok
  answer-FetchEnds now (some res) a = elim (Bool-cases (nat_beq res.status_code 404)) [
    | inl m ↦ elim (Bool-cases fallback) [
      | inl b ↦
          subst (λ c. FetchEnds (from_response text c now i (answer (search_request i)) res))
            (sym b)
            (rw m (
              searched res (search_result text now i (answer (search_request i))) a (ground arith)
                (search_result-SearchEnds text now i (answer (search_request i)))))
      | inr b ↦
          subst (λ c. FetchEnds (from_response text c now i (answer (search_request i)) res))
            (sym b) (rw m (unknown (res, a, ground arith, inl b) miss-ok))
    ]
    | inr m ↦ elim (http_failure_cases text now res) [
      | inl e ↦ rw (m, e) (object-FetchEnds res res.body a refl)
      | inr (r, e, not_match, not_miss) ↦ rw (m, e) (broken r (not_match, not_miss) refl)
    ]
  ]

  fetch-FetchEnds : (now : ℕ) → FetchEnds (fetch text fallback answer now i)
  unfolding fetch
  fetch-FetchEnds now = answer-FetchEnds now (answer (get_request i)) refl

  -- Whatever the client answers, also where it fails, a fetch returns a result.
  pub fetch_total : (now : ℕ) → (r : ProviderResult) × (fetch text fallback answer now i ≡ ok r)
  fetch_total now = elim (fetch-FetchEnds now) [
    | broken r f e ↦ (r, e)
    | offered p r o made e ↦ (r, e)
    | unknown u e ↦ (plain_result ProviderStatus.not_found, e)
  ]

  same_result :
      {out : Result ProviderResult} {r s : ProviderResult} → out ≡ ok r → out ≡ ok s → r ≡ s
  same_result h k = ok-injective (sym h ∙ k)

  -- A matched result rests on a payload of the first request, or on the best candidate of the
  -- search, that has the title and the artist of the track up to normalisation; it carries the
  -- payload's text, which is not empty, the score and the track.
  pub fetch-matched :
      (now : ℕ) (r : ProviderResult)
      → fetch text fallback answer now i ≡ ok r
      → r.status ≡ ProviderStatus.matched
      → (p : Payload) × IsOffered p × IsMatch text i p r
  fetch-matched now r h m = elim (fetch-FetchEnds now) [
    | broken s f e ↦ absurd (f.0 (ap (λ (x : ProviderResult). x.status) (same_result e h) ∙ m))
    | offered p s o made e ↦
        (p, o, result_from_payload-IsMatch text i p r (made ∙ ap ok (same_result e h)) m)
    | unknown u e ↦ absurd (cc (ap (λ (x : ProviderResult). x.status) (same_result e h) ∙ m))
  ]

  -- A fetch says that a track is not known only if the first request was answered with 404 and,
  -- where there is a search, that search brought a list with no candidate that has lyrics and a
  -- score that reaches the threshold.
  pub fetch-not_found :
      (now : ℕ) (r : ProviderResult)
      → fetch text fallback answer now i ≡ ok r
      → r.status ≡ ProviderStatus.not_found
      → IsUnknown
  fetch-not_found now r h m = elim (fetch-FetchEnds now) [
    | broken s f e ↦ absurd (f.1 (ap (λ (x : ProviderResult). x.status) (same_result e h) ∙ m))
    | offered p s o made e ↦
        absurd (result_from_payload-known text i p r (made ∙ ap ok (same_result e h)) m)
    | unknown u e ↦ u
  ]
