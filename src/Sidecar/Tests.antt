-- ===== src/Sidecar/Tests.antt =====
-- Tests of the sidecar writer.
use mathlib.Core.Option
use versarr.Base.{
  FilePath, String, arith, false, first, insert, member, nat_eq, none, parents, path_beq,
  path_beq_iff, path_eq, refl, some, string_eq, true, upsert, ◌∷◌, ◌≡◌, ◌≢◌,
}
use versarr.Domain.{ProcessingCategory, ProcessingOutcome, ProviderStatus, ReasonCode, ok}
use versarr.Examples.{found, inputs, job, library, services, settings, song, song_lrc, world}
use versarr.Policy.{decide}
use versarr.Processor.Attempt.{process_job}
use versarr.Processor.Inputs.{Inputs, ensure_within_root, outcome, with_lrc}
use versarr.Processor.Monad.{World}
use versarr.Provenance.{get_cooldown, get_provenance, record_provenance}
use versarr.Sidecar.{Calls, Disk, replace_sidecar, write_sync, write_temp}
use versarr.Sidecar.Attempt.{process_job-write_sync, with_writer}
use versarr.Sidecar.Success.{result_of, write_sync-stored}
use versarr.Sidecar.Writes.{AllDisks, IsOldOrNew, IsPayload, write_sync-IsOldOrNew}
use versarr.Snapshots.{record_snapshot}

abbrev temporary : FilePath
temporary = record { stem = ".song.lrc.tmp.1"; suffix = ".0" } ∷ library

differ : path_beq song_lrc temporary ≡ false
unfolding path_beq
differ = refl

apart : song_lrc ≢ temporary
apart e = ground (arith, path_beq_iff song_lrc temporary, differ)

-- A system on which every call succeeds, and one whose disk is full.
abbrev works : Calls
works = record {
  lower = λ t. t;
  mkdir_fails = false;
  is_symlink = false;
  encode = λ t. some t;
  open_fails = false;
  stored_part = none;
  read_temp = λ t. some t;
  unlink_fails = false;
  replace_fails = false;
  read_final = λ t. some t;
  directory_fsync_fails = false;
}

abbrev full : Calls
full = record works { stored_part = some "l" }

abbrev empty : Disk
empty _ = none

write_sync-IsOldOrNew_example :
    AllDisks
      (IsOldOrNew full services song_lrc temporary "la" empty)
      (write_sync full services song_lrc temporary "la" empty)
write_sync-IsOldOrNew_example =
    write_sync-IsOldOrNew full services song_lrc temporary "la" empty apart

written_lrc :
    (write_sync works services song_lrc temporary "la" empty).0
    ≡ ok (result_of services song_lrc "la" false)
unfolding write_sync write_temp replace_sidecar path_beq
written_lrc = refl

write_sync-stored_example :
    (payload : String) × IsPayload works services "la" payload
    × ((write_sync works services song_lrc temporary "la" empty).1 song_lrc ≡ some payload)
    × ((write_sync works services song_lrc temporary "la" empty).1 temporary ≡ none)
    × (result_of services song_lrc "la" false ≡ result_of services song_lrc "la" false)
write_sync-stored_example =
    write_sync-stored works services song_lrc temporary "la" empty apart
      (result_of services song_lrc "la" false) written_lrc

abbrev reported : ProcessingOutcome
reported =
    record (outcome ProcessingCategory.written ReasonCode.sidecar_written
      (some ProviderStatus.matched)) { wrote_sidecar = true }

abbrev attempted : Inputs
attempted = with_writer works services temporary empty inputs

abbrev attempt_end : World
attempt_end = (process_job services settings attempted job world).1

attempt_done : process_job services settings attempted job world ≡ (ok reported, attempt_end)
unfolding process_job ensure_within_root member path_beq parents record_snapshot upsert first insert
    get_provenance with_lrc get_cooldown decide record_provenance write_sync write_temp
    replace_sidecar
attempt_done = refl

process_job-write_sync_example :
    (payload : String) × IsPayload works services "la" payload
    × ((write_sync works services song_lrc temporary "la" empty).1 song_lrc ≡ some payload)
    × (Option.map (λ p. p.normalized_lyrics_hash) (get_provenance song attempt_end.db.provenance)
        ≡ some "hash")
unfolding with_lrc
process_job-write_sync_example =
    process_job-write_sync services settings inputs job works temporary empty reported found "la"
      song_lrc world attempt_end attempt_done refl refl refl apart refl
