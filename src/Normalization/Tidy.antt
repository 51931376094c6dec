-- ===== src/Normalization/Tidy.antt =====
-- What tidied lyrics look like.
use versarr.Base.{
  Bool, Bool-cases, List, [], arith, false, inl, inr, nat_eq, none, path_eq, refl, string_eq, true,
  ℕ, ◌&&◌, ◌==◌, ◌||◌, ◌∷◌, ◌≡◌,
}
use versarr.Normalization.{
  TextServices, drop_leading, drop_trailing, is_blank, is_empty, join_blank_lines, newline,
  normalize_lyrics_text, plain_newlines, remove_tags, starts_twice, starts_with, tidy_lyrics,
  trim_blanks,
}

-- A blank before a newline, somewhere.
unfoldable pub has_blank_end : List ℕ → Bool
has_blank_end [] = false
has_blank_end (c ∷ t) = is_blank c && starts_with newline t || has_blank_end t

-- Three newlines in a row, somewhere.
unfoldable pub has_three_newlines : List ℕ → Bool
has_three_newlines [] = false
has_three_newlines (c ∷ t) = c == newline && starts_twice newline t || has_three_newlines t

abbrev pub last_passes : (ℕ → Bool) → List ℕ → Bool
last_passes p [] = false
last_passes p (c ∷ []) = p c
last_passes p (c ∷ d ∷ t) = last_passes p (d ∷ t)

abbrev pub first_passes : (ℕ → Bool) → List ℕ → Bool
first_passes p [] = false
first_passes p (c ∷ t) = p c

pub record IsTidy (p : ℕ → Bool) (text : List ℕ) : Type 0 where
  pub no_blank_end : has_blank_end text ≡ false
  pub no_three_newlines : has_three_newlines text ≡ false
  pub no_space_first : first_passes p text ≡ false
  pub no_space_last : last_passes p text ≡ false

trim_blanks-clean : (t : List ℕ) → has_blank_end (trim_blanks t) ≡ false
unfolding has_blank_end trim_blanks
trim_blanks-clean [] = refl
trim_blanks-clean (c ∷ t) = elim (Bool-cases (is_blank c && starts_with newline (trim_blanks t))) [
  | inl b ↦ rw b (trim_blanks-clean t)
  | inr b ↦ rw b (rw b (trim_blanks-clean t))
]

join_blank_lines-clean : (t : List ℕ) → has_three_newlines (join_blank_lines t) ≡ false
unfolding has_three_newlines join_blank_lines
join_blank_lines-clean [] = refl
join_blank_lines-clean (c ∷ t) =
    elim (Bool-cases (c == newline && starts_twice newline (join_blank_lines t))) [
      | inl b ↦ rw b (join_blank_lines-clean t)
      | inr b ↦ rw b (rw b (join_blank_lines-clean t))
    ]

join_blank_lines-starts :
    (t : List ℕ) → starts_with newline (join_blank_lines t) ≡ true → starts_with newline t ≡ true
unfolding join_blank_lines
join_blank_lines-starts [] h = h
join_blank_lines-starts (c ∷ t) h =
    elim (Bool-cases (c == newline && starts_twice newline (join_blank_lines t))) [
      | inl b ↦ ground arith
      | inr b ↦ rw b at h
    ]

join_blank_lines-keeps :
    (t : List ℕ) → has_blank_end t ≡ false → has_blank_end (join_blank_lines t) ≡ false
unfolding has_blank_end join_blank_lines
join_blank_lines-keeps [] h = refl
join_blank_lines-keeps (c ∷ t) h =
    let later = join_blank_lines-keeps t (ground arith) in
    elim (Bool-cases (c == newline && starts_twice newline (join_blank_lines t))) [
      | inl b ↦ rw b later
      | inr b ↦ rw b (elim (Bool-cases (starts_with newline (join_blank_lines t))) [
        | inl s ↦ let s' = join_blank_lines-starts t s in ground (arith, later)
        | inr s ↦ rw s (ground (arith, later))
      ])
    ]

module _ (p : ℕ → Bool) where
  drop_leading-first : (t : List ℕ) → first_passes p (drop_leading p t) ≡ false
  unfolding drop_leading
  drop_leading-first [] = refl
  drop_leading-first (c ∷ t) = elim (Bool-cases (p c)) [
    | inl b ↦ rw b (drop_leading-first t)
    | inr b ↦ rw b b
  ]

  drop_leading-blank :
      (t : List ℕ) → has_blank_end t ≡ false → has_blank_end (drop_leading p t) ≡ false
  unfolding has_blank_end drop_leading
  drop_leading-blank [] h = h
  drop_leading-blank (c ∷ t) h = elim (Bool-cases (p c)) [
    | inl b ↦ rw b (drop_leading-blank t (ground arith))
    | inr b ↦ rw b h
  ]

  drop_leading-newlines :
      (t : List ℕ) → has_three_newlines t ≡ false → has_three_newlines (drop_leading p t) ≡ false
  unfolding has_three_newlines drop_leading
  drop_leading-newlines [] h = h
  drop_leading-newlines (c ∷ t) h = elim (Bool-cases (p c)) [
    | inl b ↦ rw b (drop_leading-newlines t (ground arith))
    | inr b ↦ rw b h
  ]

  -- What is left of a text starts as the text does.
  drop_trailing-starts :
      (n : ℕ) (t : List ℕ) → starts_with n (drop_trailing p t) ≡ true → starts_with n t ≡ true
  unfolding drop_trailing
  drop_trailing-starts n [] h = h
  drop_trailing-starts n (c ∷ t) h = elim (Bool-cases (p c && is_empty (drop_trailing p t))) [
    | inl b ↦ absurd (ground (arith, rw b at h))
    | inr b ↦ rw b at h
  ]

  drop_trailing-twice :
      (n : ℕ) (t : List ℕ) → starts_twice n (drop_trailing p t) ≡ true → starts_twice n t ≡ true
  unfolding drop_trailing
  drop_trailing-twice n [] h = h
  drop_trailing-twice n (c ∷ t) h = elim (Bool-cases (p c && is_empty (drop_trailing p t))) [
    | inl b ↦ absurd (ground (arith, rw b at h))
    | inr b ↦
        let both : c == n && starts_with n (drop_trailing p t) ≡ true = rw b at h in
        let more = drop_trailing-starts n t (ground arith) in ground arith
  ]

  drop_trailing-first :
      (t : List ℕ) → first_passes p t ≡ false → first_passes p (drop_trailing p t) ≡ false
  unfolding drop_trailing
  drop_trailing-first [] h = h
  drop_trailing-first (c ∷ t) h = rw h h

  kept_last :
      (c : ℕ) (rest : List ℕ)
      → p c && is_empty rest ≡ false
      → last_passes p rest ≡ false
      → last_passes p (c ∷ rest) ≡ false
  kept_last c [] b h = ground arith
  kept_last c (d ∷ t) b h = h

  drop_trailing-last : (t : List ℕ) → last_passes p (drop_trailing p t) ≡ false
  unfolding drop_trailing
  drop_trailing-last [] = refl
  drop_trailing-last (c ∷ t) = elim (Bool-cases (p c && is_empty (drop_trailing p t))) [
    | inl b ↦ rw b refl
    | inr b ↦ rw b (kept_last c (drop_trailing p t) b (drop_trailing-last t))
  ]

  drop_trailing-blank :
      (t : List ℕ) → has_blank_end t ≡ false → has_blank_end (drop_trailing p t) ≡ false
  unfolding has_blank_end drop_trailing
  drop_trailing-blank [] h = h
  drop_trailing-blank (c ∷ t) h =
      let later = drop_trailing-blank t (ground arith) in
      elim (Bool-cases (p c && is_empty (drop_trailing p t))) [
        | inl b ↦ rw b refl
        | inr b ↦ rw b (elim (Bool-cases (starts_with newline (drop_trailing p t))) [
          | inl s ↦ let s' = drop_trailing-starts newline t s in ground (arith, later)
          | inr s ↦ rw s (ground (arith, later))
        ])
      ]

  drop_trailing-newlines :
      (t : List ℕ) → has_three_newlines t ≡ false → has_three_newlines (drop_trailing p t) ≡ false
  unfolding has_three_newlines drop_trailing
  drop_trailing-newlines [] h = h
  drop_trailing-newlines (c ∷ t) h =
      let later = drop_trailing-newlines t (ground arith) in
      elim (Bool-cases (p c && is_empty (drop_trailing p t))) [
        | inl b ↦ rw b refl
        | inr b ↦ rw b (elim (Bool-cases (starts_twice newline (drop_trailing p t))) [
          | inl s ↦ let s' = drop_trailing-twice newline t s in ground (arith, later)
          | inr s ↦ rw s (ground (arith, later))
        ])
      ]

-- Lyrics that are normalised for storage have no blank before a newline, no three newlines in a row,
-- and no white space at either end, whatever the library does with entities and normal forms.
pub normalize_lyrics_text-IsTidy :
    (s : TextServices) (text : List ℕ) → IsTidy s.is_space (normalize_lyrics_text s text)
unfolding normalize_lyrics_text tidy_lyrics
normalize_lyrics_text-IsTidy s text =
    let p = s.is_space in
    let trimmed = trim_blanks (remove_tags none (s.nfc (s.unescape (plain_newlines s text)))) in
    let joined = join_blank_lines trimmed in
    let blank = join_blank_lines-keeps trimmed (trim_blanks-clean _) in
    let lead = drop_leading p joined in
    record {
      no_blank_end = drop_trailing-blank p lead (drop_leading-blank p joined blank);
      no_three_newlines =
          drop_trailing-newlines p lead
            (drop_leading-newlines p joined (join_blank_lines-clean trimmed));
      no_space_first = drop_trailing-first p lead (drop_leading-first p joined);
      no_space_last = drop_trailing-last p lead;
    }
