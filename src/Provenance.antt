-- ===== src/Provenance.antt =====
-- The provenance and cooldowns tables of src/versarr/infrastructure/persistence/repository.py.
pub mod Laws
pub mod Refinement
mod Tests
use mathlib.Core.Option
use versarr.Base.{
  Bool, FilePath, List, Option, String, count, first, keyed, ltb, nat_eq, path_eq, string_eq, true,
  update, upsert, ℕ, ◌&&◌, ◌==◌,
}
use versarr.Domain.{ProvenanceRecord, ProviderStatus}
use versarr.Schema.{CooldownRow, ProvenanceRow}

abbrev pub with_media : FilePath → ProvenanceRow → Bool
with_media = keyed (λ r. r.media_path)

abbrev pub row_to_provenance : ProvenanceRow → ProvenanceRecord
row_to_provenance r = record {
  media_path = r.media_path;
  sidecar_path = r.sidecar_path;
  artifact_type = r.artifact_type;
  normalized_lyrics_hash = r.normalized_lyrics_hash;
  provider_name = r.provider_name;
  provider_track_id = r.provider_track_id;
  synced = r.synced;
  last_written_at = r.last_written_at;
  manual_diverged = r.manual_diverged;
  sidecar_deleted = r.sidecar_deleted;
  conflict_marker = r.conflict_marker;
}

unfoldable pub get_provenance : FilePath → List ProvenanceRow → Option ProvenanceRecord
get_provenance path rows = Option.map row_to_provenance (first (with_media path) rows)

abbrev pub provenance_values : ℕ → ProvenanceRecord → ProvenanceRow
provenance_values now p = record {
  media_path = p.media_path;
  sidecar_path = p.sidecar_path;
  artifact_type = p.artifact_type;
  normalized_lyrics_hash = p.normalized_lyrics_hash;
  provider_name = p.provider_name;
  provider_track_id = p.provider_track_id;
  synced = p.synced;
  last_written_at = p.last_written_at;
  manual_diverged = p.manual_diverged;
  sidecar_deleted = p.sidecar_deleted;
  conflict_marker = p.conflict_marker;
  updated_at = now;
}

unfoldable pub record_provenance : ℕ → ProvenanceRecord → List ProvenanceRow → List ProvenanceRow
record_provenance now p rows = upsert (λ r. r.media_path) (provenance_values now p) rows

unfoldable pub mark_manual_diverged : ℕ → FilePath → List ProvenanceRow → List ProvenanceRow
mark_manual_diverged now path rows =
    update (with_media path) (λ r. record r { manual_diverged = true; updated_at = now }) rows

unfoldable pub mark_sidecar_deleted : ℕ → FilePath → List ProvenanceRow → List ProvenanceRow
mark_sidecar_deleted now path rows =
    update (with_media path) (λ r. record r { sidecar_deleted = true; updated_at = now }) rows

-- `get_cooldown`: the row of this key and this provider.
unfoldable pub get_cooldown : String → String → List CooldownRow → Option ℕ
get_cooldown key provider rows =
    Option.map (λ r. r.until_at)
      (first (λ r. r.lookup_key == key && r.provider_name == provider) rows)

abbrev pub cooldown_values : ℕ → String → String → ProviderStatus → ℕ → CooldownRow
cooldown_values now key provider outcome until = record {
  lookup_key = key;
  provider_name = provider;
  outcome = outcome;
  until_at = until;
  attempt_count = 1;
  updated_at = now;
}

-- `record_cooldown`: the row of this key, whatever its provider, is overwritten.
unfoldable pub record_cooldown :
    ℕ → String → String → ProviderStatus → ℕ → List CooldownRow → List CooldownRow
record_cooldown now key provider outcome until rows =
    upsert (λ r. r.lookup_key) (cooldown_values now key provider outcome until) rows

unfoldable pub count_active_cooldowns : ℕ → List CooldownRow → ℕ
count_active_cooldowns now rows = count (λ r. ltb now r.until_at) rows
