-- ===== src/Metadata/Read.antt =====
-- `read_snapshot` of src/versarr/infrastructure/filesystem/metadata.py, and the hash of
-- src/versarr/domain/hashing.py.
use Prim.Native.String.{◌++◌ as str_append}
use versarr.Base.{
  Bool, FilePath, List, Option, String, [], if◌then◌else◌, none, not, some, suc, zero, ℕ, ◌∷◌,
}
use versarr.Domain.{Raised, Result, TrackIdentity, TrackSnapshot, make_lyrics_presence, ok, raised}
use versarr.Metadata.{Audio, Numbers, build_identity}
use versarr.Scanner.{Matching, is_supported, suffix_of, with_suffix}

-- `sha256` of the encoded text, and `str` of a path and of a number.
pub record Digests : Type 0 where
  pub sha256 : String → String
  pub path_text : FilePath → String
  pub number_text : ℕ → String

abbrev join_bars : List String → String
join_bars [] = ""
join_bars (s ∷ []) = s
join_bars (s ∷ u ∷ t) = str_append s (str_append "|" (join_bars (u ∷ t)))

abbrev flag_text : Bool → String
flag_text b = if b then "1" else "0"

-- `str(duration or "")`.
abbrev duration_text : Digests → Option ℕ → String
duration_text h none = ""
duration_text h (some zero) = ""
duration_text h (some (suc n)) = h.number_text (suc n)

-- `hash_meaningful_snapshot`.
unfoldable pub hash_meaningful_snapshot : Digests → TrackSnapshot → String
hash_meaningful_snapshot h s = h.sha256 (
    join_bars (
      h.path_text s.library_root
      ∷ h.path_text s.media_path
      ∷ s.extension
      ∷ s.identity.normalized_lookup_key
      ∷ duration_text h s.identity.duration_seconds
      ∷ flag_text s.lyrics_presence.sidecar_exists
      ∷ flag_text s.lyrics_presence.embedded_exists
      ∷ []))

-- What the outside answers to one read: `stat` (the size and the time), and the tag library, which
-- raises a MutagenError or an OSError, or knows no such format.
pub data Opened : Type 0 where
  mutagen_error unknown_format : Opened
  opened : Audio → Opened

pub record FileAnswers : Type 0 where
  pub stat : Result (ℕ × ℕ)
  pub file : Result Opened
  pub is_file : FilePath → Bool

abbrev value_error : Result TrackSnapshot
value_error = raised (Raised.value_error "ValueError")

-- From the identity on.
abbrev pub snapshot_with :
    Matching
    → Digests
    → FileAnswers
    → FilePath
    → FilePath
    → ℕ × ℕ
    → Bool
    → TrackIdentity
    → Result TrackSnapshot
snapshot_with m h answers media root (size, mtime) embedded identity =
    let sidecar = with_suffix ".lrc" media in
    let exists = answers.is_file sidecar in
    let presence = make_lyrics_presence (record {
      sidecar_exists = exists;
      sidecar_path = (if exists then some sidecar else none);
      embedded_exists = embedded;
      conflict_state = none;
    }) in
    elim presence [
      | raised e ↦ raised e
      | ok p ↦
          let unhashed : TrackSnapshot = record {
            library_root = root;
            media_path = media;
            extension = m.lower (suffix_of media);
            file_size = size;
            file_mtime_ns = mtime;
            identity = identity;
            lyrics_presence = p;
            meaningful_state_hash = "";
          } in
          ok (record unhashed { meaningful_state_hash = hash_meaningful_snapshot h unhashed })
    ]

abbrev pub read_opened :
    Matching
    → (String → String)
    → Numbers
    → Digests
    → FileAnswers
    → FilePath
    → FilePath
    → ℕ × ℕ
    → Opened
    → Result TrackSnapshot
read_opened m normalize numbers h answers media root stat Opened.mutagen_error = value_error
read_opened m normalize numbers h answers media root stat Opened.unknown_format = value_error
read_opened m normalize numbers h answers media root stat (Opened.opened audio) =
    elim (build_identity normalize numbers audio) [
      | raised e ↦ raised e
      | ok identity ↦ snapshot_with m h answers media root stat audio.has_embedded_lyrics identity
    ]

-- `_read_snapshot_sync`.
unfoldable pub read_snapshot :
    Matching
    → (String → String)
    → Numbers
    → Digests
    → FileAnswers
    → FilePath
    → FilePath
    → Result TrackSnapshot
unfolding build_identity hash_meaningful_snapshot
read_snapshot m normalize numbers h answers media root =
    if not (is_supported m media) then value_error else elim answers.stat [
      | raised e ↦ raised e
      | ok stat ↦ elim answers.file [
        | raised e ↦ raised e
        | ok o ↦ read_opened m normalize numbers h answers media root stat o
      ]
    ]
