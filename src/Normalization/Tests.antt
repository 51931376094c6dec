-- ===== src/Normalization/Tests.antt =====
-- Tests of the normalisation, on texts of code points.
use versarr.Base.{[], nat_eq, path_eq, refl, string_eq, ◌==◌, ◌||◌, ◌∷◌, ◌≡◌}
use versarr.Normalization.{
  TextServices, drop_leading, drop_trailing, join_blank_lines, join_returns, normalize_lyrics_text,
  remove_tags, tidy_lyrics, trim_blanks,
}
use versarr.Normalization.Tidy.{IsTidy, normalize_lyrics_text-IsTidy}

-- Texts that have no entities and are in their normal forms, and the white space of ASCII.
abbrev ascii : TextServices
ascii = record {
  unescape = λ t. t;
  nfc = λ t. t;
  nfkc = λ t. t;
  is_space = λ c. c == 32 || (c == 9 || (c == 10 || c == 13));
}

-- A tag, blanks before a newline and four newlines: "<i>a \n\n\n\nb " is "a\n\nb".
tidied :
    normalize_lyrics_text ascii (60 ∷ 105 ∷ 62 ∷ 97 ∷ 32 ∷ 10 ∷ 10 ∷ 10 ∷ 10 ∷ 98 ∷ 32 ∷ [])
    ≡ 97 ∷ 10 ∷ 10 ∷ 98 ∷ []
unfolding normalize_lyrics_text tidy_lyrics join_returns drop_leading remove_tags trim_blanks
    join_blank_lines drop_trailing
tidied = refl

-- "<>" is no tag, and a "<" with no ">" is text: "<>a\r\n<b" is "<>a\n<b".
no_tags :
    normalize_lyrics_text ascii (60 ∷ 62 ∷ 97 ∷ 13 ∷ 10 ∷ 60 ∷ 98 ∷ [])
    ≡ 60 ∷ 62 ∷ 97 ∷ 10 ∷ 60 ∷ 98 ∷ []
unfolding normalize_lyrics_text tidy_lyrics join_returns drop_leading remove_tags trim_blanks
    join_blank_lines drop_trailing
no_tags = refl

normalize_lyrics_text-IsTidy_example :
    IsTidy ascii.is_space (normalize_lyrics_text ascii (60 ∷ 105 ∷ 62 ∷ 97 ∷ 32 ∷ 10 ∷ 98 ∷ []))
normalize_lyrics_text-IsTidy_example =
    normalize_lyrics_text-IsTidy ascii (60 ∷ 105 ∷ 62 ∷ 97 ∷ 32 ∷ 10 ∷ 98 ∷ [])
