-- ===== src/Processor/Tests.antt =====
-- Tests of an attempt.
use versarr.Base.{
  [], arith, count, false, first, insert, member, nat_eq, none, parents, path_beq, path_eq, refl,
  some, string_eq, true, update, upsert, ◌+◌, ◌∷◌, ◌≡◌, ◌≢◌, ◌⊎◌,
}
use versarr.Domain.{
  JobState, ProcessingCategory, ProcessingOutcome, ProvenanceRecord, ProviderResult, ProviderStatus,
  Raised, ReasonCode, RetryClassification, ok, raised, seconds,
}
use versarr.Examples.{
  bare, database, found, held, inputs, job, queue, recorded, services, settings, song, song_lrc,
  with_sidecar, world, written,
}
use versarr.Jobs.{lease_loop, lease_next_ready_job, next_ready, with_key}
use versarr.Policy.{decide}
use versarr.Processor.Attempt.{process_job}
use versarr.Processor.Effects.{sidecar_protected}
use versarr.Processor.Inputs.{
  Inputs, build_provenance_record, ensure_within_root, outcome, with_lrc,
}
use versarr.Processor.Monad.{World}
use versarr.Processor.Outcomes.{texts, written-get_provenance, written_reported}
use versarr.Processor.Settled.{process_next-settles}
use versarr.Processor.Worker.{Clock, on_jobs, process_next}
use versarr.Provenance.{
  cooldown_values, get_cooldown, get_provenance, provenance_values, record_cooldown,
  record_provenance,
}
use versarr.Retry.{build_retry, delay_seconds}
use versarr.Retry.Bounds.{IsJitter}
use versarr.Schema.{JobRow}
use versarr.Snapshots.{record_snapshot, snapshot_values}

-- An attempt at a bare track, whose lyrics are found.
abbrev after_write : World
after_write = record {
  db = record database {
    track_snapshots = snapshot_values 21 bare ∷ [];
    provenance =
        provenance_values 21 (build_provenance_record song song_lrc "hash" found 20 false) ∷ [];
  };
  writes = (song_lrc, "la") ∷ [];
  remembered = (song_lrc, "hash") ∷ [];
}

abbrev wrote : ProcessingOutcome
wrote =
    record (outcome ProcessingCategory.written ReasonCode.sidecar_written
      (some ProviderStatus.matched)) { wrote_sidecar = true }

attempt_writes : process_job services settings inputs job world ≡ (ok wrote, after_write)
unfolding process_job ensure_within_root member path_beq parents record_snapshot upsert first insert
    get_provenance with_lrc get_cooldown decide record_provenance
attempt_writes = refl

written-get_provenance_example :
    get_provenance song after_write.db.provenance
    ≡ some (build_provenance_record song song_lrc "hash" found 20 false)
unfolding with_lrc
written-get_provenance_example =
    written-get_provenance services settings inputs job wrote bare found "la" song_lrc written world
      after_write attempt_writes refl refl refl refl refl refl

written_reported_example : texts after_write.writes ≡ "la" ∷ []
written_reported_example =
    written_reported services settings inputs job wrote found "la" world after_write attempt_writes
      refl refl

bare_written : (process_job services settings inputs job world).1.writes ≢ world.writes
bare_written e = absurd (cc (attempt_writes, e))

-- The same attempt at a track with a sidecar that Versarr wrote.
abbrev with_sidecar_inputs : Inputs
with_sidecar_inputs = record inputs { snapshot = ok with_sidecar }

abbrev world_recorded : World
world_recorded = record world {
  db = record database { provenance = provenance_values 5 recorded ∷ [] };
}

overwritten :
    (process_job services settings with_sidecar_inputs job world_recorded).1.writes
    ≡ (song_lrc, "la") ∷ []
unfolding process_job ensure_within_root member path_beq parents record_snapshot upsert first insert
    get_provenance with_lrc get_cooldown decide record_provenance update
overwritten = refl

overwrites : (process_job services settings with_sidecar_inputs job world_recorded).1.writes ≢ []
overwrites e = absurd (cc (overwritten, e))

sidecar_protected_example :
    (p : ProvenanceRecord) × (get_provenance song world_recorded.db.provenance ≡ some p)
    × (true ≡ true)
    × (true ≡ true)
    × (("hash" ≡ p.normalized_lyrics_hash) ⊎ (true ≡ true))
sidecar_protected_example =
    sidecar_protected services settings with_sidecar_inputs job with_sidecar "hash" world_recorded
      refl refl refl overwrites

-- A transient failure of the provider, and a track that it does not know.
abbrev transient : ProviderResult
transient = record found { status = ProviderStatus.transient_failure; lyrics_text = none }

abbrev failing : Inputs
failing = record inputs { answer = ok transient }

abbrev after_failure : World
after_failure = record world {
  db = record database { track_snapshots = snapshot_values 21 bare ∷ [] };
}

abbrev retries : ProcessingOutcome
retries =
    record (outcome ProcessingCategory.retry ReasonCode.provider_transient_failure
      (some ProviderStatus.transient_failure)) {
        retry_decision = record {
          classification = RetryClassification.provider_transient;
          next_attempt_at = some (20 + seconds 60);
          max_attempts_reached = false;
        };
      }

attempt_fails : process_job services settings failing job world ≡ (ok retries, after_failure)
unfolding process_job ensure_within_root member path_beq parents record_snapshot upsert first insert
    get_provenance with_lrc get_cooldown decide build_retry delay_seconds
attempt_fails = refl

exact : IsJitter (λ d. d)
exact d = (omega arith, omega arith)

abbrev unknown : ProviderResult
unknown = record found { status = ProviderStatus.not_found; lyrics_text = none }

abbrev missing : Inputs
missing = record inputs { answer = ok unknown }

abbrev after_miss : World
after_miss = record world {
  db = record database {
    track_snapshots = snapshot_values 21 bare ∷ [];
    cooldowns =
        cooldown_values 21 "artist song" "lrclib" ProviderStatus.not_found (20 + seconds 604800)
        ∷ [];
  };
}

abbrev ends : ProcessingOutcome
ends =
    outcome ProcessingCategory.terminal ReasonCode.lyrics_not_found (some ProviderStatus.not_found)

attempt_misses : process_job services settings missing job world ≡ (ok ends, after_miss)
unfolding process_job ensure_within_root member path_beq parents record_snapshot upsert first insert
    get_provenance with_lrc get_cooldown decide record_cooldown
attempt_misses = refl

-- A worker's turn, from the lease on.
abbrev clock : Clock
clock = record { leased_at = 10; ended_at = 30; db_ended_at = 31 }

abbrev idle : World
idle = record world { db = record database { jobs = queue } }

leases : lease_next_ready_job "worker-0" 10 120 queue ≡ some (some job, held ∷ [])
unfolding lease_next_ready_job lease_loop next_ready update count path_beq
leases = refl

not_cancelled :
    (process_job services settings inputs job
      (record idle { db = on_jobs (λ _. held ∷ []) idle.db })).0
    ≢ raised Raised.cancelled
not_cancelled e = absurd (cc (attempt_writes, e))

process_next-settles_example :
    ((process_next services settings inputs clock "worker-0" idle).0 ≡ ok true)
    × (y : JobRow) × (first
          (with_key song)
          (process_next services settings inputs clock "worker-0" idle).1.db.jobs
        ≡ some y)
    × (y.state ≢ JobState.processing)
    × (y.lease_owner ≡ none)
    × (y.lease_until ≡ none)
process_next-settles_example =
    process_next-settles services settings inputs clock "worker-0" idle job (held ∷ []) (tt, tt)
      leases not_cancelled
