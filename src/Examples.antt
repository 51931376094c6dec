-- ===== src/Examples.antt =====
-- The data that the tests of the components share: one track, its row in the jobs table, an attempt.
use versarr.Base.{FilePath, List, [], false, none, some, true, ◌∷◌}
use versarr.Domain.{
  EnrichmentJob, JobPriority, ProvenanceRecord, ProviderResult, ProviderStatus, TrackIdentity,
  TrackSnapshot, TriggerKind, ok,
}
use versarr.Jobs.{Enqueue, leased, leased_job, new_row}
use versarr.Lock.{SystemCalls}
use versarr.Processor.Inputs.{Inputs, Services, SidecarWriteResult, build_provenance_record}
use versarr.Processor.Monad.{World}
use versarr.Schema.{Database, JobRow}
use versarr.Settings.{Settings, default_cooldowns, default_retry, default_scan}

abbrev pub library : FilePath
library = record { stem = "music"; suffix = "" } ∷ []

abbrev pub song : FilePath
song = record { stem = "song"; suffix = ".flac" } ∷ library

abbrev pub song_lrc : FilePath
song_lrc = record { stem = "song"; suffix = ".lrc" } ∷ library

abbrev pub forced : Enqueue
forced = record {
  library_root = library;
  media_path = song;
  trigger = TriggerKind.force_rescan;
  priority = JobPriority.force_manual;
  event_kind = "rescan_path";
  force = true;
  overwrite_existing = true;
  allow_manual_overwrite = true;
}

abbrev pub waiting : JobRow
waiting = new_row 0 forced

abbrev pub queue : List JobRow
queue = waiting ∷ []

abbrev pub held : JobRow
held = leased "worker-0" 10 120 waiting waiting

abbrev pub job : EnrichmentJob
job = leased_job 10 120 waiting

abbrev pub identity : TrackIdentity
identity = record {
  title = "Song";
  artist = "Artist";
  album = none;
  album_artist = none;
  track_number = none;
  disc_number = none;
  duration_seconds = some 180;
  release_year = none;
  musicbrainz_ids = [];
  isrc = none;
  normalized_lookup_key = "artist song";
}

abbrev pub bare : TrackSnapshot
bare = record {
  library_root = library;
  media_path = song;
  extension = ".flac";
  file_size = 1000;
  file_mtime_ns = 5;
  identity = identity;
  lyrics_presence = record {
    sidecar_exists = false;
    sidecar_path = none;
    embedded_exists = false;
    conflict_state = none;
  };
  meaningful_state_hash = "state";
}

abbrev pub with_sidecar : TrackSnapshot
with_sidecar = record bare {
  lyrics_presence = record {
    sidecar_exists = true;
    sidecar_path = some song_lrc;
    embedded_exists = false;
    conflict_state = none;
  };
}

abbrev pub found : ProviderResult
found = record {
  status = ProviderStatus.matched;
  provider_name = "lrclib";
  lyrics_text = some "la";
  synced = true;
  provider_track_id = some "7";
  confidence = 100;
  matched_identity = some identity;
  raw_metadata_digest = none;
  retry_after = none;
}

abbrev pub written : SidecarWriteResult
written = record {
  sidecar_path = song_lrc;
  normalized_hash = "hash";
  created = true;
  replaced = false;
}

abbrev pub inputs : Inputs
inputs = record {
  resolved_root = ok library;
  resolved_media = ok song;
  snapshot = ok bare;
  sidecar_hash = ok "hash";
  now = 20;
  db_now = 21;
  answer = ok found;
  write = λ _ _. ok written;
  remembers = true;
}

abbrev pub services : Services
services = record {
  normalize_lyrics_text = λ t. t;
  hash_normalized_lyrics = λ _. "hash";
  jitter = λ d. d;
}

abbrev pub settings : Settings
settings = record {
  library_roots = library ∷ [];
  state_dir = [];
  sqlite_path = [];
  worker_concurrency = 1;
  scan = default_scan;
  retry = default_retry;
  cooldowns = default_cooldowns;
}

abbrev pub database : Database
database = record {
  jobs = held ∷ [];
  track_snapshots = [];
  provenance = [];
  cooldowns = [];
  scan_state = [];
  control_requests = [];
}

abbrev pub world : World
world = record { db = database; writes = []; remembered = [] }

abbrev pub recorded : ProvenanceRecord
recorded = build_provenance_record song song_lrc "hash" found 5 false

-- Calls that all work.
abbrev pub working : SystemCalls
working = record {
  makes_parent = true;
  opens = true;
  reads = true;
  failed_write = none;
  unlocks = true;
}
