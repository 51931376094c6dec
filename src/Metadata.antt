-- ===== src/Metadata.antt =====
-- The tags and the identity that src/versarr/infrastructure/filesystem/metadata.py reads off a file. What the tag library and the file system answer is given.
pub mod Read
pub mod Snapshot
mod Tests
use Prim.Native.String.{◌++◌ as str_append}
use versarr.Base.{
  Bool, List, Option, String, [], false, if◌then◌else◌, member, nat_eq, none, path_eq, some,
  string_eq, suc, true, zero, ℕ, ◌&&◌, ◌==◌, ◌∷◌,
}
use versarr.Domain.{Result, TrackIdentity, ok, raised}

-- A value that a tag library gives: a list or tuple is its first item, an object with `text` or `value`
-- is that and whether it counts as true, and any other value is `str(value).strip()` and whether it does.
pub data TagValue : Type 0 where
  no_value empty_sequence : TagValue
  sequence : TagValue → TagValue
  with_text with_value : Bool → TagValue → TagValue
  plain : Bool → String → TagValue

abbrev pub is_true : TagValue → Bool
is_true TagValue.no_value = false
is_true TagValue.empty_sequence = false
is_true (TagValue.sequence v) = true
is_true (TagValue.with_text b v) = b
is_true (TagValue.with_value b v) = b
is_true (TagValue.plain b s) = b

-- `_coerce_tag_value`.
unfoldable pub coerce_tag_value : TagValue → Option String
coerce_tag_value TagValue.no_value = none
coerce_tag_value TagValue.empty_sequence = none
coerce_tag_value (TagValue.sequence v) = coerce_tag_value v
coerce_tag_value (TagValue.with_text b v) = coerce_tag_value v
coerce_tag_value (TagValue.with_value b v) = coerce_tag_value v
coerce_tag_value (TagValue.plain b s) = if s == "" then none else some s

-- The tags: `get` and `getall` where the object has them, a key that raises being no value.
pub record Tags : Type 0 where
  pub get : Option (String → TagValue)
  pub getall : Option (String → TagValue)

abbrev pub frame_keys : List String
frame_keys = "TIT2" ∷ "TPE1" ∷ "TALB" ∷ "TPE2" ∷ "TRCK" ∷ "TPOS" ∷ "TDRC" ∷ "TSRC" ∷ []

abbrev pub look_in : Option (String → TagValue) → String → TagValue
look_in none key = TagValue.no_value
look_in (some f) key = f key

-- `frames[0]`.
abbrev pub first_item : TagValue → TagValue
first_item (TagValue.sequence v) = v
first_item v = v

-- `_first_tag`: the first value that counts as true ends the search, also one that has no text.
unfoldable pub first_tag : Tags → List String → Option String
first_tag tags [] = none
first_tag tags (key ∷ t) =
    let rest = first_tag tags t in
    let value = look_in tags.get key in
    let frames = look_in tags.getall key in
    if is_true value
    then coerce_tag_value value
    else if member key frame_keys && is_true frames
    then coerce_tag_value (first_item frames)
    else rest

-- What `_parse_int` and `_parse_year` do with a text that is not empty: the number, none where no digit
-- is found, or a ValueError of `int`.
pub record Numbers : Type 0 where
  pub int_of : String → Result (Option ℕ)
  pub year_of : String → Option ℕ

abbrev pub parse_int : Numbers → Option String → Result (Option ℕ)
parse_int n none = ok none
parse_int n (some s) = if s == "" then ok none else n.int_of s

abbrev pub parse_year : Numbers → Option String → Option ℕ
parse_year n none = none
parse_year n (some s) = if s == "" then none else n.year_of s

-- `value or default`.
abbrev pub or_default : Option String → String → String
or_default none default = default
or_default (some s) default = if s == "" then default else s

abbrev join_words : List String → String
join_words [] = ""
join_words (s ∷ []) = s
join_words (s ∷ u ∷ t) = str_append s (str_append " " (join_words (u ∷ t)))

abbrev pub drop_empty : List String → List String
drop_empty [] = []
drop_empty (s ∷ t) = if s == "" then drop_empty t else s ∷ drop_empty t

abbrev pub texts_of : List (Option String) → List String
texts_of [] = []
texts_of (none ∷ t) = texts_of t
texts_of (some s ∷ t) = s ∷ texts_of t

-- `TrackIdentity.__post_init__`.
unfoldable pub lookup_key : (String → String) → String → String → Option String → String
lookup_key normalize artist title album =
    normalize (join_words (drop_empty (artist ∷ title ∷ texts_of (album ∷ []))))

-- `int(length or 0) or None`.
abbrev duration_of : ℕ → Option ℕ
duration_of zero = none
duration_of (suc n) = some (suc n)

-- What the tag library makes of a file: its tags, the whole seconds of its length, 0 for none, and
-- whether `_detect_embedded_lyrics` finds lyrics in it.
pub record Audio : Type 0 where
  pub tags : Tags
  pub length : ℕ
  pub has_embedded_lyrics : Bool

-- The identity, from the two parsed numbers on.
abbrev pub identity_with : (String → String) → Numbers → Audio → Option ℕ → Option ℕ → TrackIdentity
identity_with normalize numbers audio track disc =
    let tag = first_tag audio.tags in
    let title = or_default (tag ("title" ∷ "TIT2" ∷ "©nam" ∷ [])) "Unknown Title" in
    let artist = or_default (tag ("artist" ∷ "TPE1" ∷ "©ART" ∷ [])) "Unknown Artist" in
    let album = tag ("album" ∷ "TALB" ∷ "©alb" ∷ []) in
    record {
      title = title;
      artist = artist;
      album = album;
      album_artist = tag ("albumartist" ∷ "TPE2" ∷ "aART" ∷ []);
      track_number = track;
      disc_number = disc;
      duration_seconds = duration_of audio.length;
      release_year = parse_year numbers (tag ("date" ∷ "TDRC" ∷ "©day" ∷ []));
      musicbrainz_ids =
          drop_empty (
            texts_of
              (tag ("musicbrainz_trackid" ∷ []) ∷ tag ("musicbrainz_recordingid" ∷ []) ∷ []));
      isrc = tag ("isrc" ∷ "TSRC" ∷ []);
      normalized_lookup_key = lookup_key normalize artist title album;
    }

-- `_build_identity`.
unfoldable pub build_identity : (String → String) → Numbers → Audio → Result TrackIdentity
unfolding first_tag lookup_key
build_identity normalize numbers audio =
    let tag = first_tag audio.tags in
    elim (parse_int numbers (tag ("tracknumber" ∷ "TRCK" ∷ []))) [
      | raised e ↦ raised e
      | ok track ↦ elim (parse_int numbers (tag ("discnumber" ∷ "TPOS" ∷ []))) [
        | raised e ↦ raised e
        | ok disc ↦ ok (identity_with normalize numbers audio track disc)
      ]
    ]
