-- ===== src/Normalization.antt =====
-- The lyrics functions of src/versarr/domain/normalization.py. A text is the list of its code points;
-- `html.unescape`, the normal forms of `unicodedata` and the test of `str.strip` are arguments.
pub mod Tidy
mod Tests
use versarr.Base.{
  Bool, List, Option, [], false, if◌then◌else◌, map, nat_eq, none, path_eq, some, string_eq, true,
  ℕ, ◌&&◌, ◌==◌, ◌||◌, ◌∷◌,
}

abbrev pub newline : ℕ
newline = 10

abbrev carriage_return : ℕ
carriage_return = 13

abbrev byte_order_mark : ℕ
byte_order_mark = 65279

-- What the standard library answers.
pub record TextServices : Type 0 where
  pub unescape : List ℕ → List ℕ
  pub nfc : List ℕ → List ℕ
  pub nfkc : List ℕ → List ℕ
  pub is_space : ℕ → Bool

abbrev pub starts_with : ℕ → List ℕ → Bool
starts_with c [] = false
starts_with c (d ∷ t) = d == c

abbrev pub starts_twice : ℕ → List ℕ → Bool
starts_twice c [] = false
starts_twice c (d ∷ t) = d == c && starts_with c t

-- `replace("\r\n", "\n")`: the return before a newline goes.
unfoldable pub join_returns : List ℕ → List ℕ
join_returns [] = []
join_returns (c ∷ t) =
    let rest = join_returns t in
    if c == carriage_return && starts_with newline t then rest else c ∷ rest

-- `replace("\r", "\n")`.
abbrev pub replace_returns : List ℕ → List ℕ
replace_returns = map (λ c. if c == carriage_return then newline else c)

-- `lstrip`: the characters at the start that pass the test.
unfoldable pub drop_leading : (ℕ → Bool) → List ℕ → List ℕ
drop_leading p [] = []
drop_leading p (c ∷ t) = let rest = drop_leading p t in if p c then rest else c ∷ t

-- The text read backwards, before another one.
abbrev rev : List ℕ → List ℕ → List ℕ
rev [] after = after
rev (c ∷ t) after = rev t (c ∷ after)

-- A `>`: the tag goes, unless there is nothing between.
abbrev close_tag : List ℕ → List ℕ → List ℕ
close_tag [] after = 60 ∷ 62 ∷ after
close_tag (c ∷ t) after = after

-- `_HTML_TAG_RE`: from a `<` to the next `>` with something between. `inside` holds what follows a
-- `<` that is open, the last first; without a `>` it is text.
unfoldable pub remove_tags : Option (List ℕ) → List ℕ → List ℕ
remove_tags none [] = []
remove_tags none (c ∷ t) =
    let outside = remove_tags none t in
    let inside = remove_tags (some []) t in if c == 60 then inside else c ∷ outside
remove_tags (some inside) [] = 60 ∷ rev inside []
remove_tags (some inside) (c ∷ t) =
    let outside = remove_tags none t in
    let further = remove_tags (some (c ∷ inside)) t in
    if c == 62 then close_tag inside outside else further

abbrev pub is_blank : ℕ → Bool
is_blank c = c == 32 || c == 9

-- `_TRAILING_SPACE_RE`: the blanks before a newline.
unfoldable pub trim_blanks : List ℕ → List ℕ
trim_blanks [] = []
trim_blanks (c ∷ t) =
    let rest = trim_blanks t in if is_blank c && starts_with newline rest then rest else c ∷ rest

-- `_LYRICS_BLANK_RE`: of three newlines or more, two stay.
unfoldable pub join_blank_lines : List ℕ → List ℕ
join_blank_lines [] = []
join_blank_lines (c ∷ t) =
    let rest = join_blank_lines t in
    if c == newline && starts_twice newline rest then rest else c ∷ rest

abbrev pub is_empty : List ℕ → Bool
is_empty [] = true
is_empty (c ∷ t) = false

-- `rstrip`.
unfoldable pub drop_trailing : (ℕ → Bool) → List ℕ → List ℕ
drop_trailing p [] = []
drop_trailing p (c ∷ t) =
    let rest = drop_trailing p t in if p c && is_empty rest then [] else c ∷ rest

module _ (s : TextServices) where
  -- `_tidy_lyrics`.
  unfoldable pub tidy_lyrics : List ℕ → List ℕ
  tidy_lyrics text =
      drop_trailing s.is_space
        (drop_leading s.is_space (join_blank_lines (trim_blanks (remove_tags none text))))

  abbrev pub plain_newlines : List ℕ → List ℕ
  plain_newlines text =
      drop_leading (λ c. c == byte_order_mark) (replace_returns (join_returns text))

  -- `normalize_lyrics_text`.
  unfoldable pub normalize_lyrics_text : List ℕ → List ℕ
  normalize_lyrics_text text = tidy_lyrics (s.nfc (s.unescape (plain_newlines text)))

  -- `normalize_lyrics_for_comparison`.
  unfoldable pub normalize_lyrics_for_comparison : List ℕ → List ℕ
  normalize_lyrics_for_comparison text = tidy_lyrics (s.nfkc (s.unescape (plain_newlines text)))
