-- ===== src/Policy.antt =====
-- src/versarr/application/job_policy.py: what to do with a track, decided from facts alone.
mod Fetch
mod Tests
use versarr.Base.{Bool, false, if◌then◌else◌, leb, not, true, ℕ, ◌&&◌}
use versarr.Domain.{ReasonCode}

pub data JobAction : Type 0 where
  preserve noop fetch : JobAction

pub record JobFacts : Type 0 where
  pub sidecar_exists : Bool
  pub embedded_exists : Bool
  pub has_provenance : Bool
  pub provenance_sidecar_deleted : Bool
  pub provenance_hash_matches_sidecar : Bool
  pub cooldown_active : Bool
  pub attempt_count : ℕ
  pub force : Bool
  pub overwrite_existing : Bool
  pub allow_manual_overwrite : Bool

pub record JobDecision : Type 0 where
  pub action : JobAction
  pub reason_code : ReasonCode
  pub repair_missing_provenance : Bool
  pub mark_sidecar_deleted : Bool
  pub mark_manual_diverged : Bool
  pub count_sidecar_conflict : Bool
  pub count_embedded_preserved : Bool

-- `JobDecision(action, reason)`, every flag at its default.
abbrev pub plain : JobAction → ReasonCode → JobDecision
plain a r = record {
  action = a;
  reason_code = r;
  repair_missing_provenance = false;
  mark_sidecar_deleted = false;
  mark_manual_diverged = false;
  count_sidecar_conflict = false;
  count_embedded_preserved = false;
}

-- The part of `decide` below the sidecar ladder, with the two local flags that the ladder has set.
look_up : JobFacts → Bool → Bool → JobDecision
look_up f repair diverged =
    if not f.sidecar_exists && f.embedded_exists
    then record (plain JobAction.preserve ReasonCode.existing_embedded_lyrics_preserved) {
      count_embedded_preserved = true;
    }
    else if not repair && f.cooldown_active && not f.force
    then plain JobAction.noop ReasonCode.cooldown_active
    else record (plain JobAction.fetch ReasonCode.lookup) {
      repair_missing_provenance = repair;
      mark_manual_diverged = diverged;
    }

unfoldable pub decide : JobFacts → JobDecision
unfolding look_up
decide f =
    if not f.sidecar_exists && f.has_provenance && not f.force
    then record (plain JobAction.preserve ReasonCode.sidecar_deleted_preserved) {
      mark_sidecar_deleted = not f.provenance_sidecar_deleted;
    }
    else if f.sidecar_exists
    then if not f.has_provenance
      then if leb f.attempt_count 1
        then record (plain JobAction.preserve ReasonCode.existing_sidecar_preserved) {
          count_sidecar_conflict = f.embedded_exists;
        }
        else look_up f true false
      else if not f.provenance_hash_matches_sidecar
      then if not (f.force && f.overwrite_existing && f.allow_manual_overwrite)
        then record (plain JobAction.preserve ReasonCode.manual_edit_preserved) {
          mark_manual_diverged = true;
        }
        else look_up f false true
      else if not (f.force && f.overwrite_existing)
      then plain JobAction.preserve ReasonCode.existing_sidecar_preserved
      else look_up f false false
    else look_up f false false
