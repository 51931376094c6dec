-- ===== src/Provider/Results.antt =====
-- What each part of a fetch returns.
use versarr.Base.{
  Bool-cases, ap, arith, false, inl, inr, leb, ltb, nat_beq, none, not, refl, some, subst, sym,
  true, ℕ, ◌&&◌, ◌||◌, ◌∙◌, ◌≡◌, ◌≢◌, ◌⊎◌,
}
use versarr.Domain.{
  ProviderResult, ProviderStatus, Result, TrackIdentity, has_text, make_provider_result, ok,
}
use versarr.Provider.{
  Payload, Response, Text, http_failure, lyrics_of, match_threshold, plain_result,
  result_from_payload, score_payload, scored_result,
}
use versarr.Provider.Score.{score-match_iff}

-- A matched result: its payload has the title and the artist of the track and a text, and the result has
-- that text, the score as its confidence and the track as its identity.
pub record IsMatch (text : Text) (i : TrackIdentity) (p : Payload) (r : ProviderResult)
    : Type 0 where
  pub same_title : text.normalize_lookup_text p.track_name ≡ text.normalize_lookup_text i.title
  pub same_artist : text.normalize_lookup_text p.artist_name ≡ text.normalize_lookup_text i.artist
  pub has_lyrics : has_text r.lyrics_text ≡ true
  pub same_lyrics : r.lyrics_text ≡ lyrics_of p
  pub same_confidence : r.confidence ≡ score_payload text i p
  pub same_identity : r.matched_identity ≡ some i

pub ok-injective : {a b : ProviderResult} → ◌≡◌ {A = Result ProviderResult} (ok a) (ok b) → a ≡ b
ok-injective h = ground arith

scored-ok :
    (i : TrackIdentity) (p : Payload) (n : ℕ)
    → has_text (lyrics_of p) ≡ true
    → make_provider_result (scored_result i p n) ≡ ok (scored_result i p n)
unfolding make_provider_result
scored-ok i p n h =
    rw h (elim (Bool-cases (leb match_threshold n)) [ inl e ↦ rw e refl | inr e ↦ rw e refl ])

abbrev no_lyrics : Payload → ProviderResult
no_lyrics p = record (plain_result ProviderStatus.invalid_content) {
  provider_track_id = p.track_id;
  raw_metadata_digest = some p.digest;
}

with_lyrics :
    (text : Text) (i : TrackIdentity) (p : Payload)
    → has_text (lyrics_of p) ≡ true
    → result_from_payload text i p ≡ ok (scored_result i p (score_payload text i p))
unfolding result_from_payload
with_lyrics text i p e = rw e (scored-ok i p (score_payload text i p) e)

without_lyrics :
    (text : Text) (i : TrackIdentity) (p : Payload)
    → has_text (lyrics_of p) ≡ false
    → result_from_payload text i p ≡ ok (no_lyrics p)
unfolding result_from_payload make_provider_result
without_lyrics text i p e = rw e refl

-- A payload always gives a result.
pub result_from_payload_total :
    (text : Text) (i : TrackIdentity) (p : Payload)
    → (r : ProviderResult) × (result_from_payload text i p ≡ ok r)
result_from_payload_total text i p = elim (Bool-cases (has_text (lyrics_of p))) [
  | inl e ↦ (scored_result i p (score_payload text i p), with_lyrics text i p e)
  | inr e ↦ (no_lyrics p, without_lyrics text i p e)
]

scored-IsMatch :
    (text : Text) (i : TrackIdentity) (p : Payload)
    → has_text (lyrics_of p) ≡ true
    → (scored_result i p (score_payload text i p)).status ≡ ProviderStatus.matched
    → IsMatch text i p (scored_result i p (score_payload text i p))
scored-IsMatch text i p e m = elim (Bool-cases (leb match_threshold (score_payload text i p))) [
  | inr f ↦ absurd (cc (rw f at m))
  | inl f ↦
      let same = (score-match_iff text i p).0 f in
      record {
        same_title = same.0;
        same_artist = same.1;
        has_lyrics = e;
        same_lyrics = refl;
        same_confidence = refl;
        same_identity = rw f refl;
      }
]

-- A matched result is that of a match.
pub result_from_payload-IsMatch :
    (text : Text) (i : TrackIdentity) (p : Payload) (r : ProviderResult)
    → result_from_payload text i p ≡ ok r
    → r.status ≡ ProviderStatus.matched
    → IsMatch text i p r
result_from_payload-IsMatch text i p r h m = elim (Bool-cases (has_text (lyrics_of p))) [
  | inr e ↦
      let q = ok-injective (sym (without_lyrics text i p e) ∙ h) in
      absurd (cc (ap (λ (x : ProviderResult). x.status) q ∙ m))
  | inl e ↦
      let q = ok-injective (sym (with_lyrics text i p e) ∙ h) in
      subst (IsMatch text i p) q
        (scored-IsMatch text i p e (ap (λ (x : ProviderResult). x.status) q ∙ m))
]

scored-known :
    (i : TrackIdentity) (p : Payload) (n : ℕ)
    → (scored_result i p n).status ≢ ProviderStatus.not_found
scored-known i p n m = elim (Bool-cases (leb match_threshold n)) [
  | inl f ↦ cc (rw f at m)
  | inr f ↦ cc (rw f at m)
]

-- A payload never says that the track is not known.
pub result_from_payload-known :
    (text : Text) (i : TrackIdentity) (p : Payload) (r : ProviderResult)
    → result_from_payload text i p ≡ ok r
    → r.status ≢ ProviderStatus.not_found
result_from_payload-known text i p r h m = elim (Bool-cases (has_text (lyrics_of p))) [
  | inr e ↦
      let q = ok-injective (sym (without_lyrics text i p e) ∙ h) in
      cc (ap (λ (x : ProviderResult). x.status) q ∙ m)
  | inl e ↦
      let q = ok-injective (sym (with_lyrics text i p e) ∙ h) in
      scored-known i p (score_payload text i p) (ap (λ (x : ProviderResult). x.status) q ∙ m)
]

-- A failed request gives a result, and neither a match nor a miss.
pub http_failure_cases :
    (text : Text) (now : ℕ) (res : Response)
    → (http_failure text now res ≡ none)
      ⊎ (r : ProviderResult) × (http_failure text now res ≡ some (ok r))
        × (r.status ≢ ProviderStatus.matched)
        × (r.status ≢ ProviderStatus.not_found)
unfolding http_failure make_provider_result
http_failure_cases text now res =
    elim (Bool-cases (leb 500 res.status_code || nat_beq res.status_code 429)) [
      | inl e ↦ rw e (inr (_, refl, (λ x. cc), (λ x. cc)))
      | inr e ↦
          elim (Bool-cases (
            leb 400 res.status_code
            && ltb res.status_code 500
            && not (nat_beq res.status_code 404))) [
              | inl f ↦ rw (e, f) (inr (_, refl, (λ x. cc), (λ x. cc)))
              | inr f ↦ rw (e, f) (inl refl)
            ]
    ]
