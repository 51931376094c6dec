-- ===== src/Provider/Score.antt =====
-- What a score says, and which candidate is the best.
use text.Mathlib.TextEquality.{eq_iff}
use versarr.Base.{
  All, Bool, Bool-cases, List, [], arith, false, if◌then◌else◌, inl, inr, leb, refl, subst, sym,
  true, ℕ, ◌↔◌, ◌∷◌, ◌≡◌, ◌⊎◌,
}
use versarr.Domain.{TrackIdentity}
use versarr.Provider.{Payload, Text, durations_match, match_threshold, score_payload}
use versarr.Provider.Search.{best_of, candidate_key, key_lt}

-- A score passes the threshold exactly if the title and the artist are those of the track, up to
-- normalisation: no two other weights reach it.
pub score-match_iff :
    (text : Text) (i : TrackIdentity) (p : Payload)
    → (leb match_threshold (score_payload text i p) ≡ true) ↔ (
        (text.normalize_lookup_text p.track_name ≡ text.normalize_lookup_text i.title)
        × (text.normalize_lookup_text p.artist_name ≡ text.normalize_lookup_text i.artist))
unfolding score_payload
score-match_iff text i p =
    let n = text.normalize_lookup_text in
    let a = eq_iff (n p.track_name) (n i.title) in
    let b = eq_iff (n p.artist_name) (n i.artist) in
    elim (Bool-cases (durations_match i.duration_seconds p.duration)) [
      | inl e ↦ rw e (ground (arith, a, b))
      | inr e ↦ rw e (ground (arith, a, b))
    ]

-- `p` stands in the list.
abbrev pub Among : Payload → List Payload → Type 0
Among p [] = ⊥
Among p (q ∷ t) = (q ≡ p) ⊎ Among p t

-- No candidate of the list has a higher key than `p`.
abbrev pub IsBest : Text → TrackIdentity → Payload → List Payload → Type 0
IsBest text i p = All (λ q. key_lt (candidate_key text i p) (candidate_key text i q) ≡ false)

key_lt_irrefl : (k : ℕ × Bool) → key_lt k k ≡ false
key_lt_irrefl (a, s) = ground arith

-- Not below `m`, which is above `l`: not below `l`.
key_lt_raise : (k l m : ℕ × Bool) → key_lt k m ≡ false → key_lt l m ≡ true → key_lt k l ≡ false
key_lt_raise (a, s) (b, t) (c, u) h g = ground arith

key_lt_trans_neg : (k l m : ℕ × Bool) → key_lt k l ≡ false → key_lt l m ≡ false → key_lt k m ≡ false
key_lt_trans_neg (a, s) (b, t) (c, u) h g = ground arith

-- The best of some candidates is one of them, and none of them has a higher key.
pub best_of-IsBest :
    (text : Text) (i : TrackIdentity) (best : Payload) (t : List Payload)
    → Among (best_of text i best t) (best ∷ t) × IsBest text i (best_of text i best t) (best ∷ t)
unfolding best_of
best_of-IsBest text i best [] = (inl refl, (key_lt_irrefl (candidate_key text i best), tt))
best_of-IsBest text i best (p ∷ t) =
    let key = candidate_key text i in
    let rest = λ (b : Bool). best_of text i (if b then p else best) t in
    let Goal = λ (r : Payload). Among r (best ∷ p ∷ t) × IsBest text i r (best ∷ p ∷ t) in
    elim (Bool-cases (key_lt (key best) (key p))) [
      | inl lt ↦
          let (among, is_best) = best_of-IsBest text i p t in
          subst (λ b. Goal (rest b)) (sym lt)
            (inr among, (key_lt_raise (key (rest true)) (key best) (key p) is_best.0 lt, is_best))
      | inr ge ↦
          let (among, is_best) = best_of-IsBest text i best t in
          subst (λ b. Goal (rest b)) (sym ge)
            (
              elim among [ inl e ↦ inl e | inr a ↦ inr (inr a) ],
              (
                is_best.0,
                (key_lt_trans_neg (key (rest false)) (key best) (key p) is_best.0 ge, is_best.1),
              ),
            )
    ]
