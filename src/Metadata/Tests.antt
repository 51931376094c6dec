-- ===== src/Metadata/Tests.antt =====
-- Tests of the tag reader.
use versarr.Base.{
  String, [], false, if◌then◌else◌, member, nat_eq, none, path_eq, refl, some, string_eq, true,
  ◌==◌, ◌≡◌,
}
use versarr.Domain.{TrackSnapshot, make_lyrics_presence, ok}
use versarr.Examples.{library, song, song_lrc}
use versarr.Metadata.{
  Audio, Numbers, TagValue, build_identity, coerce_tag_value, first_tag, lookup_key,
}
use versarr.Metadata.Read.{Digests, FileAnswers, Opened, hash_meaningful_snapshot, read_snapshot}
use versarr.Metadata.Snapshot.{IsNamed, IsRead, read_snapshot-IsRead}
use versarr.Scanner.{Matching, is_supported}

abbrev exact_names : Matching
exact_names = record { lower = λ t. t; fnmatch = λ name pattern. name == pattern }

-- A file with a title and nothing else.
abbrev titles : String → TagValue
titles key =
    if key == "title" then TagValue.sequence (TagValue.plain true "Song") else TagValue.no_value

abbrev audio : Audio
audio = record {
  tags = record { get = some titles; getall = none };
  length = 180;
  has_embedded_lyrics = false;
}

abbrev numbers : Numbers
numbers = record { int_of = λ _. ok (some 1); year_of = λ _. none }

abbrev digests : Digests
digests = record { sha256 = λ t. t; path_text = λ _. "/"; number_text = λ _. "180" }

abbrev answers : FileAnswers
answers = record { stat = ok (1000, 5); file = ok (Opened.opened audio); is_file = λ _. true }

abbrev read_song : TrackSnapshot
read_song = record {
  library_root = library;
  media_path = song;
  extension = ".flac";
  file_size = 1000;
  file_mtime_ns = 5;
  identity = record {
    title = "Song";
    artist = "Unknown Artist";
    album = none;
    album_artist = none;
    track_number = none;
    disc_number = none;
    duration_seconds = some 180;
    release_year = none;
    musicbrainz_ids = [];
    isrc = none;
    normalized_lookup_key = "Unknown Artist Song";
  };
  lyrics_presence = record {
    sidecar_exists = true;
    sidecar_path = some song_lrc;
    embedded_exists = false;
    conflict_state = none;
  };
  meaningful_state_hash = "/|/|.flac|Unknown Artist Song|180|1|0";
}

song_is_read :
    read_snapshot exact_names (λ t. t) numbers digests answers song library ≡ ok read_song
unfolding read_snapshot build_identity first_tag coerce_tag_value lookup_key member
    make_lyrics_presence hash_meaningful_snapshot
song_is_read = refl

read_snapshot-IsRead_example :
    (is_supported exact_names song ≡ true)
    × IsNamed (λ t. t) read_song.identity
    × IsRead digests answers song read_song
read_snapshot-IsRead_example =
    read_snapshot-IsRead exact_names (λ t. t) numbers digests answers song library read_song
      song_is_read
