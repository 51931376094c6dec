-- ===== src/Metadata/Snapshot.antt =====
-- What a snapshot that is read off a file is like.
use text.Mathlib.TextEquality.{eq_iff}
use versarr.Base.{
  All, Bool, Bool-cases, FilePath, List, Option, String, [], arith, false, if◌then◌else◌, inl, inr,
  member, nat_eq, none, path_eq, refl, some, string_eq, subst, true, ℕ, ◌&&◌, ◌==◌, ◌∷◌, ◌≡◌, ◌≢◌,
}
use versarr.Domain.{
  LyricsPresence, Result-cases, TrackIdentity, TrackSnapshot, make_lyrics_presence, ok,
}
use versarr.Metadata.{
  Audio, Numbers, TagValue, Tags, build_identity, coerce_tag_value, drop_empty, first_item,
  first_tag, frame_keys, identity_with, is_true, look_in, lookup_key, or_default, parse_int,
  texts_of,
}
use versarr.Metadata.Read.{
  Digests, FileAnswers, Opened, hash_meaningful_snapshot, read_opened, read_snapshot, snapshot_with,
}
use versarr.Scanner.{Matching, is_supported, suffix_of, with_suffix}

-- An optional text that is there is not empty.
abbrev pub HasNoEmpty : Option String → Type 0
HasNoEmpty none = Unit
HasNoEmpty (some s) = s ≢ ""

coerce-HasNoEmpty : (v : TagValue) → HasNoEmpty (coerce_tag_value v)
unfolding coerce_tag_value
coerce-HasNoEmpty TagValue.no_value = tt
coerce-HasNoEmpty TagValue.empty_sequence = tt
coerce-HasNoEmpty (TagValue.sequence v) = coerce-HasNoEmpty v
coerce-HasNoEmpty (TagValue.with_text b v) = coerce-HasNoEmpty v
coerce-HasNoEmpty (TagValue.with_value b v) = coerce-HasNoEmpty v
coerce-HasNoEmpty (TagValue.plain b s) = elim (Bool-cases (s == "")) [
  | inl e ↦ rw e tt
  | inr e ↦ rw e (λ q. cc (e, (eq_iff s "").1 q))
]

first_tag-HasNoEmpty : (tags : Tags) (keys : List String) → HasNoEmpty (first_tag tags keys)
unfolding first_tag
first_tag-HasNoEmpty tags [] = tt
first_tag-HasNoEmpty tags (key ∷ t) = elim (Bool-cases (is_true (look_in tags.get key))) [
  | inl e ↦ rw e (coerce-HasNoEmpty (look_in tags.get key))
  | inr e ↦ elim (Bool-cases (member key frame_keys && is_true (look_in tags.getall key))) [
    | inl f ↦ rw (e, f) (coerce-HasNoEmpty (first_item (look_in tags.getall key)))
    | inr f ↦ rw (e, f) (first_tag-HasNoEmpty tags t)
  ]
]

or_default-ne :
    (o : Option String) (default : String) → (default == "") ≡ false → or_default o default ≢ ""
or_default-ne none default h e = cc (h, (eq_iff default "").1 e)
or_default-ne (some s) default h e = elim (Bool-cases (s == "")) [
  | inl m ↦ cc (h, (eq_iff default "").1 (rw m at e))
  | inr m ↦ cc (m, (eq_iff s "").1 (rw m at e))
]

drop_empty-ne : (t : List String) → All (λ s. s ≢ "") (drop_empty t)
drop_empty-ne [] = tt
drop_empty-ne (s ∷ t) = elim (Bool-cases (s == "")) [
  | inl m ↦ rw m (drop_empty-ne t)
  | inr m ↦ rw m ((λ q. cc (m, (eq_iff s "").1 q)), drop_empty-ne t)
]

-- An identity with a title and an artist, with no empty album, album artist, ISRC or MusicBrainz id,
-- and with the lookup key of its own texts.
abbrev pub IsNamed : (String → String) → TrackIdentity → Type 0
IsNamed normalize i =
    (i.title ≢ "")
    × (i.artist ≢ "")
    × HasNoEmpty i.album
    × HasNoEmpty i.album_artist
    × HasNoEmpty i.isrc
    × All (λ s. s ≢ "") i.musicbrainz_ids
    × (i.normalized_lookup_key ≡ lookup_key normalize i.artist i.title i.album)

module _ (normalize : String → String) (numbers : Numbers) (audio : Audio) where
  identity-IsNamed :
      (track disc : Option ℕ) → IsNamed normalize (identity_with normalize numbers audio track disc)
  identity-IsNamed track disc = (
    or_default-ne (first_tag audio.tags ("title" ∷ "TIT2" ∷ "©nam" ∷ [])) "Unknown Title" refl,
    or_default-ne (first_tag audio.tags ("artist" ∷ "TPE1" ∷ "©ART" ∷ [])) "Unknown Artist" refl,
    first_tag-HasNoEmpty audio.tags _,
    first_tag-HasNoEmpty audio.tags _,
    first_tag-HasNoEmpty audio.tags _,
    drop_empty-ne (
        texts_of (
          first_tag audio.tags ("musicbrainz_trackid" ∷ [])
          ∷ first_tag audio.tags ("musicbrainz_recordingid" ∷ [])
          ∷ [])),
    refl,
  )

  build_identity-IsNamed :
      (i : TrackIdentity) → build_identity normalize numbers audio ≡ ok i → IsNamed normalize i
  unfolding build_identity
  build_identity-IsNamed i h =
      elim (Result-cases (parse_int numbers (first_tag audio.tags ("tracknumber" ∷ "TRCK" ∷ [])))) [
        | inr (e, r) ↦ absurd (ground arith)
        | inl (track, a) ↦
            elim (Result-cases
              (parse_int numbers (first_tag audio.tags ("discnumber" ∷ "TPOS" ∷ [])))) [
                | inr (e, r) ↦ absurd (ground arith)
                | inl (disc, b) ↦
                    let same : identity_with normalize numbers audio track disc ≡ i =
                      ground arith in
                    subst (IsNamed normalize) same (identity-IsNamed track disc)
              ]
      ]

-- What a snapshot says of the sidecar, and its hash.
abbrev pub IsRead : Digests → FileAnswers → FilePath → TrackSnapshot → Type 0
IsRead h answers media s =
    (make_lyrics_presence s.lyrics_presence ≡ ok s.lyrics_presence)
    × (s.lyrics_presence.sidecar_exists ≡ answers.is_file (with_suffix ".lrc" media))
    × (s.meaningful_state_hash ≡ hash_meaningful_snapshot h s)

abbrev presence_of : FilePath → Bool → Bool → LyricsPresence
presence_of sidecar exists embedded = record {
  sidecar_exists = exists;
  sidecar_path = (if exists then some sidecar else none);
  embedded_exists = embedded;
  conflict_state = none;
}

presence-ok :
    (sidecar : FilePath) (exists embedded : Bool)
    → make_lyrics_presence (presence_of sidecar exists embedded)
      ≡ ok (presence_of sidecar exists embedded)
unfolding make_lyrics_presence
presence-ok sidecar true embedded = refl
presence-ok sidecar false embedded = refl

module _ (m : Matching) (normalize : String → String) (numbers : Numbers) (h : Digests)
    (answers : FileAnswers) (media root : FilePath) where
  snapshot_with-IsRead :
      (stat : ℕ × ℕ) (embedded : Bool) (i : TrackIdentity) (s : TrackSnapshot)
      → IsNamed normalize i
      → snapshot_with m h answers media root stat embedded i ≡ ok s
      → IsNamed normalize s.identity × IsRead h answers media s
  unfolding hash_meaningful_snapshot
  snapshot_with-IsRead (size, mtime) embedded i s named e =
      let sidecar = with_suffix ".lrc" media in
      let there = answers.is_file sidecar in
      let p = presence_of sidecar there embedded in
      let good = presence-ok sidecar there embedded in
      let unhashed : TrackSnapshot = record {
        library_root = root;
        media_path = media;
        extension = m.lower (suffix_of media);
        file_size = size;
        file_mtime_ns = mtime;
        identity = i;
        lyrics_presence = p;
        meaningful_state_hash = "";
      } in
      let made : TrackSnapshot = record unhashed {
        meaningful_state_hash = hash_meaningful_snapshot h unhashed;
      } in
      let same : ok made ≡ ok s = rw (snapshot_with, good) at e in
      let eq : made ≡ s = ground (arith, same) in
      subst (λ x. IsNamed normalize x.identity × IsRead h answers media x) eq
        (named, (good, refl, refl))

  opened-IsRead :
      (stat : ℕ × ℕ) (o : Opened) (s : TrackSnapshot)
      → read_opened m normalize numbers h answers media root stat o ≡ ok s
      → IsNamed normalize s.identity × IsRead h answers media s
  opened-IsRead stat Opened.mutagen_error s e = absurd (ground arith)
  opened-IsRead stat Opened.unknown_format s e = absurd (ground arith)
  opened-IsRead stat (Opened.opened audio) s e =
      elim (Result-cases (build_identity normalize numbers audio)) [
        | inr (x, r) ↦ absurd (ground arith)
        | inl (i, b) ↦
            snapshot_with-IsRead stat audio.has_embedded_lyrics i s
              (build_identity-IsNamed normalize numbers audio i b) (rw (read_opened, b) at e)
      ]

  -- A snapshot that is read is of a supported file; its title and its artist are not empty, nor are
  -- its album, album artist, ISRC and MusicBrainz ids where they are there; its lookup key is that
  -- of its artist, title and album; it says that there is a sidecar exactly if the .lrc path beside
  -- the file is a file, and has a path for it then; and its hash is the hash of the snapshot.
  pub read_snapshot-IsRead :
      (s : TrackSnapshot)
      → read_snapshot m normalize numbers h answers media root ≡ ok s
      → (is_supported m media ≡ true) × IsNamed normalize s.identity × IsRead h answers media s
  unfolding read_snapshot
  read_snapshot-IsRead s e = elim (Bool-cases (is_supported m media)) [
    | inr f ↦ absurd (ground arith)
    | inl f ↦ elim (Result-cases answers.stat) [
      | inr (x, r) ↦ absurd (ground arith)
      | inl (stat, a) ↦ elim (Result-cases answers.file) [
        | inr (x, r) ↦ absurd (ground arith)
        | inl (o, b) ↦
            let read : read_opened m normalize numbers h answers media root stat o ≡ ok s =
              ground arith in
            let (named, is_read) = opened-IsRead stat o s read in (f, named, is_read)
      ]
    ]
  ]
